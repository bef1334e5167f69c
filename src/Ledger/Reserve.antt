-- ===== src/Ledger/Reserve.antt =====
-- fusion_relay/continuation.py: `reserve`, and the histories that it accepts.
pub mod Splices
pub mod Admission
pub mod Unchanged
pub mod Merged
use devin_fusion_via_codex.Common.{
  ℕ, zero, suc, ◌+◌, Bool, true, false, not, ◌&&◌, ◌||◌, Option, none, some, List, [], ◌∷◌, ◌++◌,
  String, str_eq, ltb, leb, ◌==◌, length, take, drop, if◌then◌else◌, Result, ok, err, raise_if,
  ◌>>=◌, ◌>>◌,
}
use devin_fusion_via_codex.Common.Json.{Json, array, Object, get, items, all_objects, same_items}
use devin_fusion_via_codex.Journal.Rows.{
  Status, executing, succeeded, failed, cancelled, outcome_unknown, preflight_rejected,
  admission_rejected, provider_outcome_unknown, cancel_unconfirmed, Operation, fetch, reserve_row,
  has_key,
}
use devin_fusion_via_codex.Ledger.Binding.{
  ContinuationBinding, LedgerError, Payload, turn, committed, resolution, Codec, unseal, scope_of,
  unbounded, max_bytes, max_turns, max_scopes, authentication_failed, malformed_payload,
  identity_required, invalid_body, invalid_history, conflicting_operation, reconciliation_required,
  outcome_unknown as unknown_error, already_reserved, lane_unresolved, history_missing,
  retention_limit, epoch_required, legacy_unavailable,
}
use devin_fusion_via_codex.Ledger.Visible.{visible_items}
use devin_fusion_via_codex.Common.Json.{member, is_text}
use devin_fusion_via_codex.Ledger.State.{
  TurnState, result_committed, offered, history_evidenced, consumer_acknowledged, Turn, Head,
  Ledger, Opened, turns, head_of, or_zero, any_status, is_executing, is_unknown, record_scope,
}

-- What `reserve` returns for a new operation.
pub record Reservation : Type 0 where
  pub scope : String
  pub operation_id : String
  pub revision : ℕ
  pub native_body : Object
  pub merged : List Json
  pub evidenced : ℕ

pub record Replay : Type 0 where
  pub scope : String
  pub operation_id : String
  pub revision : ℕ
  pub wire : String

pub data Reserved : Type 0 where
  replayed : Replay → Reserved
  admitted : Reservation → Reserved

abbrev pub reservation_or : Reservation → Reserved → Reservation
reservation_or r (admitted a) = a
reservation_or r (replayed p) = r

-- `body.get('input')`, a list of dicts.
unfoldable pub history_of : Object → Result LedgerError (List Json)
history_of body = elim (get "input" body) [
  | some (array xs) ↦ raise_if (not (all_objects (items xs))) invalid_history >> ok (items xs)
  | _ ↦ err invalid_history
]

-- `turn['input']['input']`
unfoldable pub anchor_of : Object → Result LedgerError (List Json)
anchor_of body = elim (get "input" body) [
  | some (array xs) ↦ ok (items xs)
  | _ ↦ err malformed_payload
]

-- `merged[start:end]` is to become `output`.
pub record Splice : Type 0 where
  pub start : ℕ
  pub end : ℕ
  pub output : List Json

abbrev pub splice_at : List Json → List Json → List Json → Splice
splice_at anchor shown output = record {
  start = length anchor;
  end = length anchor + length shown;
  output = output;
}

-- `start < last_end or history[:start] != anchor or history[start:end] != projection`
unfoldable pub departs : List Json → ℕ → List Json → List Json → Bool
departs history last anchor shown =
    ltb (length anchor) last
    || (not (same_items (take (length anchor) history) anchor)
        || not (same_items (take (length shown) (drop (length anchor) history)) shown))

-- The loop over the stored turns; `last` is `last_end`.
unfoldable pub splices : List Json → ℕ → List Opened → Result LedgerError (List Splice)
splices history last [] = ok []
splices history last (t ∷ ts) = do
  anchor ← anchor_of t.input
  shown ← visible_items t.output
  raise_if (departs history last anchor shown) epoch_required
  rest ← splices history (length anchor + length shown) ts
  ok (splice_at anchor shown t.output ∷ rest)

-- `merged[start:end] = output`
unfoldable pub splice : Splice → List Json → List Json
splice r h = take r.start h ++ (r.output ++ drop r.end h)

-- The splices from the last to the first.
unfoldable pub splice_all : List Splice → List Json → List Json
splice_all [] h = h
splice_all (r ∷ rs) h = splice r (splice_all rs h)

-- `x.get('role') == 'assistant' or x.get('type') in (…)`
abbrev pub is_legacy : Json → Bool
is_legacy x =
    is_text (member "role" x) "assistant"
    || (is_text (member "type" x) "function_call"
        || (is_text (member "type" x) "function_call_output"
            || is_text (member "type" x) "reasoning"))

unfoldable pub any_legacy : List Json → Bool
any_legacy [] = false
any_legacy (x ∷ xs) = is_legacy x || any_legacy xs

abbrev pub is_unevidenced : TurnState → Bool
is_unevidenced result_committed = true
is_unevidenced offered = true
is_unevidenced _ = false

-- UPDATE continuation_turns SET state='history_evidenced' WHERE scope AND state IN (…)
unfoldable pub evidence : String → List Turn → List Turn
evidence s [] = []
evidence s (t ∷ ts) =
    (if str_eq t.scope s && is_unevidenced t.state
      then record t { state = history_evidenced }
      else t)
    ∷ evidence s ts

-- Its `rowcount`.
unfoldable pub evidence_count : String → List Turn → ℕ
evidence_count s [] = 0
evidence_count s (t ∷ ts) =
    (if str_eq t.scope s && is_unevidenced t.state then 1 else 0) + evidence_count s ts

-- DELETE FROM operations WHERE scope AND operation_id
unfoldable pub delete_row : String → String → List Operation → List Operation
delete_row s o [] = []
delete_row s o (r ∷ rs) = let rest = delete_row s o rs in if has_key s o r then rest else r ∷ rest

abbrev pub is_nil {ℓ} : {A : Type ℓ} → List A → Bool
is_nil [] = true
is_nil (x ∷ xs) = false

abbrev pub is_none {ℓ} : {A : Type ℓ} → Option A → Bool
is_none none = true
is_none (some x) = false

module _ (c : Codec) where
  -- The reservation's row goes in, and the turns that the history shows are evidenced.
  unfoldable pub admit_new :
      ContinuationBinding
      → String
      → String
      → Object
      → List Json
      → List Splice
      → List Opened
      → Ledger
      → Reserved × Ledger
  admit_new b scope operation_id body history rs opened m = (
    admitted (record {
      scope = scope;
      operation_id = operation_id;
      revision = length opened;
      native_body = body;
      merged = splice_all rs history;
      evidenced = if is_nil opened then 0 else evidence_count scope m.turns;
    }),
    record m {
      turns = if is_nil opened then m.turns else evidence scope m.turns;
      operations = reserve_row scope operation_id (c.body_digest body) m.operations;
      bindings = record_scope scope b m.bindings;
    },
  )

  -- The checks of a new reservation.
  unfoldable pub reserve_new :
      ContinuationBinding
      → String
      → String
      → Object
      → List Json
      → Ledger
      → Result LedgerError (Reserved × Ledger)
  unfolding admit_new
  reserve_new b scope operation_id body history m = do
    raise_if (any_status is_executing scope m.operations) already_reserved
    raise_if (any_status is_unknown scope m.operations) lane_unresolved
    opened ← turns c scope m
    raise_if (not (or_zero (head_of scope m.heads) == length opened)) history_missing
    raise_if (is_none (head_of scope m.heads) && leb max_scopes (length m.heads)) retention_limit
    raise_if (leb max_turns (length opened)) retention_limit
    rs ← splices history 0 opened
    raise_if (is_nil opened && (is_none (head_of scope m.heads) && any_legacy history))
        legacy_unavailable
    ok (admit_new b scope operation_id body history rs opened m)

  unfoldable pub replay_of : String → String → Payload → Result LedgerError Reserved
  replay_of scope operation_id (committed wire revision) = ok (
      replayed
        (record { scope = scope; operation_id = operation_id; revision = revision; wire = wire }))
  replay_of scope operation_id _ = err malformed_payload

  -- The operation was done: its result is opened.
  unfoldable pub replay : String → String → Option String → Result LedgerError Reserved
  unfolding replay_of
  replay scope operation_id none = err authentication_failed
  replay scope operation_id (some sealed) = do
    p ← unseal c scope operation_id sealed
    replay_of scope operation_id p

  abbrev unchanged : Ledger → Reserved → Reserved × Ledger
  unchanged m r = (r, m)

  -- A row of the operation is there, with the same fingerprint.
  unfoldable pub reserve_again :
      ContinuationBinding
      → String
      → String
      → Object
      → List Json
      → Operation
      → Status
      → Ledger
      → Result LedgerError (Reserved × Ledger)
  reserve_again b scope operation_id body history row preflight_rejected m =
      reserve_new b scope operation_id body history
        (record m { operations = delete_row scope operation_id m.operations })
  reserve_again b scope operation_id body history row admission_rejected m =
      reserve_new b scope operation_id body history
        (record m { operations = delete_row scope operation_id m.operations })
  reserve_again b scope operation_id body history row provider_outcome_unknown m =
      err reconciliation_required
  reserve_again b scope operation_id body history row cancel_unconfirmed m =
      err reconciliation_required
  reserve_again b scope operation_id body history row succeeded m = do
    r ← replay scope operation_id row.result
    ok (unchanged m r)
  reserve_again b scope operation_id body history row _ m = err unknown_error

  unfoldable pub reserve_found :
      ContinuationBinding
      → String
      → String
      → Object
      → List Json
      → Option Operation
      → Ledger
      → Result LedgerError (Reserved × Ledger)
  unfolding reserve_again
  reserve_found b scope operation_id body history none m =
      reserve_new b scope operation_id body history m
  reserve_found b scope operation_id body history (some row) m =
      if not (str_eq row.fingerprint (c.body_digest body))
      then err conflicting_operation
      else reserve_again b scope operation_id body history row row.status m

  -- `reserve`; the body is as `canonical` and `json.loads` leave it.
  unfoldable pub reserve :
      ContinuationBinding → String → Object → Ledger → Result LedgerError (Reserved × Ledger)
  unfolding reserve_found
  reserve b operation_id body m = do
    scope ← scope_of c b
    raise_if (unbounded operation_id) identity_required
    raise_if (ltb max_bytes (c.body_size body)) invalid_body
    history ← history_of body
    reserve_found b scope operation_id body history (fetch scope operation_id m.operations) m
