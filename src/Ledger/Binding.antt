-- ===== src/Ledger/Binding.antt =====
-- fusion_relay/continuation.py: errors, `ContinuationBinding`, and what the ledger takes from elsewhere.
use Prim.Native.String.{count}
use Prim.Native.String.{◌++◌ as str_append}
use devin_fusion_via_codex.Common.{
  ℕ, Bool, not, ◌||◌, Option, none, some, List, String, str_eq, ltb, if◌then◌else◌, Result, ok, err,
  raise_if, ◌>>◌,
}
use devin_fusion_via_codex.Common.Json.{Json, Object}

-- `ContinuationError` by its messages, `EpochRequired`, the `IntegrityError` of a key that is taken,
-- and what `offer` and `acknowledge` raise.
pub data LedgerError : Type 0 where
  binding_required lane_required invalid_output invalid_content unsupported_content : LedgerError
  invalid_call unsupported_item revision_gap retention_limit authentication_failed : LedgerError
  digest_mismatch identity_required invalid_body invalid_history conflicting_operation : LedgerError
  reconciliation_required outcome_unknown already_reserved lane_unresolved : LedgerError
  history_missing epoch_required legacy_unavailable reservation_mismatch stale_revision :
      LedgerError
  integrity_error unsupported_reason unsupported_resolution evidence_required : LedgerError
  not_unresolved invalid_consumer acknowledgement_mismatch conflicting_acknowledgement : LedgerError
  unsupported_transition invalid_epoch carry_mismatch transition_blocked epoch_exists : LedgerError
  carry_blocked chain_invalid scope_pending delivery_refused malformed_payload : LedgerError

pub record ContinuationBinding : Type 0 where
  pub account : String
  pub session : String
  pub lane : String
  pub profile : String
  pub epoch : String

-- What a sealed text holds, as `json.loads` reads it back.
pub data Payload : Type 0 where
  turn : Object → List Json → Payload
  committed : String → ℕ → Payload
  resolution : String → Payload

-- SHA-256 digests of canonical JSON, its length in bytes, and AES-GCM under the ledger's key, whose
-- nonce is an argument.
pub record Codec : Type 0 where
  pub scope_digest : ContinuationBinding → String
  pub body_digest : Object → String
  pub output_digest : List Json → String
  pub wire_digest : String → String
  pub body_size : Object → ℕ
  pub size : Payload → ℕ
  pub encrypt : String → String → String → Payload → String
  pub decrypt : String → String → String → Option Payload

abbrev pub max_bytes : ℕ
max_bytes = 4194304

abbrev pub max_turns : ℕ
max_turns = 256

abbrev pub max_scopes : ℕ
max_scopes = 4096

-- `not v or len(v) > 512`
abbrev pub unbounded : String → Bool
unbounded v = str_eq v "" || ltb 512 (count v)

-- `_consumer_for`
unfoldable pub consumer_for : ContinuationBinding → Result LedgerError String
consumer_for b =
    if ltb 512 (count (str_append "native-client:" b.session))
    then err invalid_consumer
    else ok (str_append "native-client:" b.session)

module _ (c : Codec) where
  -- `scope`
  unfoldable pub scope_of : ContinuationBinding → Result LedgerError String
  scope_of b = do
    raise_if
        (unbounded b.account
          || (unbounded b.session
              || (unbounded b.lane || (unbounded b.profile || unbounded b.epoch))))
        binding_required
    raise_if (not (str_eq b.lane "lead" || str_eq b.lane "sidekick")) lane_required
    ok (c.scope_digest b)

  -- `_seal`
  unfoldable pub seal : String → String → String → Payload → Result LedgerError String
  seal nonce scope operation_id p =
      if ltb max_bytes (c.size p)
      then err retention_limit
      else ok (c.encrypt nonce scope operation_id p)

  -- `_open`
  unfoldable pub unseal : String → String → String → Result LedgerError Payload
  unseal scope operation_id sealed = elim (c.decrypt scope operation_id sealed) [
    | none ↦ err authentication_failed
    | some p ↦ ok p
  ]
