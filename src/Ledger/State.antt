-- ===== src/Ledger/State.antt =====
-- fusion_relay/continuation.py: the tables of `ContinuationLedger` beside those of
-- fusion_relay/operations.py. The rows of `continuation_turns` stand by (scope, revision), its primary
-- key, so that SELECT … ORDER BY revision takes a scope's rows as they stand.
use devin_fusion_via_codex.Common.{
  ℕ, suc, Bool, true, false, not, ◌&&◌, ◌||◌, Option, none, some, List, [], ◌∷◌, String, str_eq,
  ltb, ◌==◌, if◌then◌else◌, Result, ok, err, raise_if, ◌>>=◌, ◌>>◌,
}
use devin_fusion_via_codex.Common.Json.{Json, Object}
use devin_fusion_via_codex.Journal.Rows.{
  Status, executing, provider_outcome_unknown, cancel_unconfirmed, Operation,
}
use devin_fusion_via_codex.Journal.Delivery.{Delivery}
use devin_fusion_via_codex.Ledger.Binding.{
  ContinuationBinding, LedgerError, Payload, turn, Codec, unseal, revision_gap, digest_mismatch,
  malformed_payload,
}

-- The column `state`.
pub data TurnState : Type 0 where
  result_committed offered history_evidenced consumer_acknowledged : TurnState

pub record Turn : Type 0 where
  pub scope : String
  pub revision : ℕ
  pub operation_id : String
  pub input_digest : String
  pub output_digest : String
  pub sealed : String
  pub response_digest : String
  pub state : TurnState

pub record Head : Type 0 where
  pub scope : String
  pub revision : ℕ

pub record Ack : Type 0 where
  pub scope : String
  pub operation_id : String
  pub revision : ℕ
  pub response_digest : String
  pub reference : String

pub record Transition : Type 0 where
  pub from_scope : String
  pub to_scope : String
  pub to_epoch : String
  pub prior_head : ℕ
  pub carried_from : Option String

pub record ScopeBinding : Type 0 where
  pub scope : String
  pub binding : ContinuationBinding

pub record Ledger : Type 0 where
  pub operations : List Operation
  pub deliveries : List Delivery
  pub heads : List Head
  pub turns : List Turn
  pub acks : List Ack
  pub transitions : List Transition
  pub bindings : List ScopeBinding

-- A method's transaction: an exception rolls it back.
abbrev pub transact {ℓ} :
    {A : Type ℓ} → Ledger → Result LedgerError (A × Ledger) → Result LedgerError A × Ledger
transact m (ok (a, n)) = (ok a, n)
transact m (err e) = (err e, m)

-- SELECT revision FROM continuation_heads WHERE scope
unfoldable pub head_of : String → List Head → Option ℕ
head_of s [] = none
head_of s (h ∷ hs) = if str_eq h.scope s then some h.revision else head_of s hs

-- `head[0] if head else 0`
abbrev pub or_zero : Option ℕ → ℕ
or_zero none = 0
or_zero (some n) = n

-- INSERT OR REPLACE INTO continuation_heads
unfoldable pub put_head : String → ℕ → List Head → List Head
put_head s n [] = record { scope = s; revision = n } ∷ []
put_head s n (h ∷ hs) =
    if str_eq h.scope s then record { scope = s; revision = n } ∷ hs else h ∷ put_head s n hs

-- SELECT … FROM continuation_turns WHERE scope ORDER BY revision
unfoldable pub turns_of : String → List Turn → List Turn
turns_of s [] = []
turns_of s (t ∷ ts) = let rest = turns_of s ts in if str_eq t.scope s then t ∷ rest else rest

-- WHERE scope AND operation_id
unfoldable pub turn_of : String → String → List Turn → Option Turn
turn_of s o [] = none
turn_of s o (t ∷ ts) =
    if str_eq t.scope s && str_eq t.operation_id o then some t else turn_of s o ts

-- A key of the table, (scope, revision) or (scope, operation_id), is taken.
unfoldable pub clashes : Turn → List Turn → Bool
clashes t [] = false
clashes t (u ∷ us) =
    (str_eq u.scope t.scope && ((u.revision == t.revision) || str_eq u.operation_id t.operation_id))
    || clashes t us

-- A new row stands before the scope's rows of a higher revision.
unfoldable pub place : Turn → List Turn → List Turn
place t [] = t ∷ []
place t (u ∷ us) =
    let rest = place t us in
    if str_eq u.scope t.scope && ltb t.revision u.revision then t ∷ u ∷ us else u ∷ rest

-- `status IN ('provider_outcome_unknown', 'cancel_unconfirmed')`
abbrev pub is_unknown : Status → Bool
is_unknown provider_outcome_unknown = true
is_unknown cancel_unconfirmed = true
is_unknown _ = false

abbrev pub is_executing : Status → Bool
is_executing executing = true
is_executing _ = false

-- SELECT 1 FROM operations WHERE scope AND status …
unfoldable pub any_status : (Status → Bool) → String → List Operation → Bool
any_status p s [] = false
any_status p s (r ∷ rs) = (str_eq r.scope s && p r.status) || any_status p s rs

abbrev pub is_unresolved : Status → Bool
is_unresolved status = is_executing status || is_unknown status

-- `_record_scope`: INSERT OR IGNORE
unfoldable pub record_scope : String → ContinuationBinding → List ScopeBinding → List ScopeBinding
record_scope s b [] = record { scope = s; binding = b } ∷ []
record_scope s b (r ∷ rs) = if str_eq r.scope s then r ∷ rs else r ∷ record_scope s b rs

-- A stored turn that was opened.
pub record Opened : Type 0 where
  pub operation_id : String
  pub input : Object
  pub output : List Json

module _ (c : Codec) where
  checked_turn : Turn → Payload → Result LedgerError Opened
  checked_turn t (turn input output) =
      if str_eq (c.body_digest input) t.input_digest
        && str_eq (c.output_digest output) t.output_digest
      then ok (record { operation_id = t.operation_id; input = input; output = output })
      else err digest_mismatch
  checked_turn t _ = err malformed_payload

  unfoldable pub open_turn : String → Turn → Result LedgerError Opened
  unfolding checked_turn
  open_turn s t = do p ← unseal c s t.operation_id t.sealed; checked_turn t p

  -- The loop of `_turns`, whose rows are to have the revisions from `expected` on.
  unfoldable pub open_turns : String → ℕ → List Turn → Result LedgerError (List Opened)
  open_turns s expected [] = ok []
  open_turns s expected (t ∷ ts) = do
    raise_if (not (t.revision == expected)) revision_gap
    first ← open_turn s t
    rest ← open_turns s (suc expected) ts
    ok (first ∷ rest)

  -- `_turns`
  unfoldable pub turns : String → Ledger → Result LedgerError (List Opened)
  turns s m = open_turns s 1 (turns_of s m.turns)
