-- ===== src/Ledger/Commit.antt =====
-- fusion_relay/continuation.py: `commit`, `abandon`, `mark_outcome_unknown`, `mark_cancel` and
-- `resolve_unknown`. The nonces of the sealed texts are arguments.
use devin_fusion_via_codex.Common.{
  is_sha256_hex, ◌+◌, Bool, false, not, ◌&&◌, Option, none, some, List, String, str_eq, ◌==◌,
  Result, ok, err, raise_if, ◌>>=◌, ◌>>◌,
}
use devin_fusion_via_codex.Common.Json.{Json}
use devin_fusion_via_codex.Journal.Rows.{
  Status, succeeded, failed, preflight_rejected, admission_rejected, provider_outcome_unknown,
  cancel_unconfirmed, Operation, fetch, finish,
}
use devin_fusion_via_codex.Ledger.Binding.{
  LedgerError, turn, committed, resolution, Codec, seal, reservation_mismatch, stale_revision,
  integrity_error, unsupported_reason, unsupported_resolution, evidence_required, not_unresolved,
}
use devin_fusion_via_codex.Ledger.Visible.{visible_items}
use devin_fusion_via_codex.Ledger.State.{
  result_committed, Turn, Ledger, head_of, or_zero, put_head, clashes, place, is_executing,
  is_unresolved,
}
use devin_fusion_via_codex.Ledger.Reserve.{Reservation}

-- The row is there, is being executed, and has the reservation's fingerprint.
unfoldable pub holds : String → Option Operation → Bool
holds fingerprint none = false
holds fingerprint (some row) = is_executing row.status && str_eq row.fingerprint fingerprint

-- `row['status'] in (…)` of `resolve_unknown`
unfoldable pub row_unresolved : Option Operation → Bool
row_unresolved none = false
row_unresolved (some row) = is_unresolved row.status

-- `_EVIDENCE_REF.fullmatch`
unfoldable pub is_evidence : String → Bool
unfolding is_sha256_hex
is_evidence ref = is_sha256_hex ref

-- The rejections that `abandon` takes.
pub data Reason : Type 0 where
  preflight admission other_reason : Reason

module _ (c : Codec) where
  abbrev pub new_turn : Reservation → List Json → String → String → Turn
  new_turn r output wire sealed = record {
    scope = r.scope;
    revision = r.revision + 1;
    operation_id = r.operation_id;
    input_digest = c.body_digest r.native_body;
    output_digest = c.output_digest output;
    sealed = sealed;
    response_digest = c.wire_digest wire;
    state = result_committed;
  }

  -- `commit`'s transaction, once the turn and the result are sealed.
  unfoldable pub store_turn :
      Reservation
      → List Json
      → String
      → String
      → String
      → Ledger
      → Result LedgerError (Unit {0} × Ledger)
  store_turn r output wire sealed result m = do
    raise_if (not (holds (c.body_digest r.native_body) (fetch r.scope r.operation_id m.operations)))
        reservation_mismatch
    raise_if (not (or_zero (head_of r.scope m.heads) == r.revision)) stale_revision
    raise_if (clashes (new_turn r output wire sealed) m.turns) integrity_error
    ok (
      tt,
      record m {
        turns = place (new_turn r output wire sealed) m.turns;
        heads = put_head r.scope (r.revision + 1) m.heads;
        operations = finish r.scope r.operation_id succeeded (some result) m.operations;
      },
    )

  unfoldable pub commit :
      String
      → String
      → Reservation
      → List Json
      → String
      → Ledger
      → Result LedgerError (Unit {0} × Ledger)
  unfolding store_turn
  commit nonce nonce2 r output wire m = do
    shown ← visible_items output
    sealed ← seal c nonce r.scope r.operation_id (turn r.native_body output)
    result ← seal c nonce2 r.scope r.operation_id (committed wire (r.revision + 1))
    store_turn r output wire sealed result m

  -- `_settle_executing`
  unfoldable pub settle_executing :
      Reservation → Status → Ledger → Result LedgerError (Unit {0} × Ledger)
  settle_executing r status m = do
    raise_if (not (holds (c.body_digest r.native_body) (fetch r.scope r.operation_id m.operations)))
        reservation_mismatch
    ok (tt, record m { operations = finish r.scope r.operation_id status none m.operations })

  unfoldable pub abandon : Reservation → Reason → Ledger → Result LedgerError (Unit {0} × Ledger)
  unfolding settle_executing
  abandon r preflight m = settle_executing r preflight_rejected m
  abandon r admission m = settle_executing r admission_rejected m
  abandon r other_reason m = err unsupported_reason

  unfoldable pub mark_outcome_unknown :
      Reservation → Ledger → Result LedgerError (Unit {0} × Ledger)
  unfolding settle_executing
  mark_outcome_unknown r m = settle_executing r provider_outcome_unknown m

  unfoldable pub mark_cancel : Reservation → Ledger → Result LedgerError (Unit {0} × Ledger)
  unfolding settle_executing
  mark_cancel r m = settle_executing r cancel_unconfirmed m

  -- `resolve_unknown`; the outcome is the text that the operator gives.
  unfoldable pub resolve_unknown :
      String → String → String → String → String → Ledger → Result LedgerError (Unit {0} × Ledger)
  resolve_unknown nonce scope operation_id evidence_ref outcome m = do
    raise_if (not (str_eq outcome "abandoned")) unsupported_resolution
    raise_if (not (is_evidence evidence_ref)) evidence_required
    raise_if (not (row_unresolved (fetch scope operation_id m.operations))) not_unresolved
    sealed ← seal c nonce scope operation_id (resolution evidence_ref)
    ok (tt, record m { operations = finish scope operation_id failed (some sealed) m.operations })
