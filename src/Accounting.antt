-- ===== src/Accounting.antt =====
-- fusion_relay/accounting.py: `AccountingLedger`. The digest of a canonical event and the id of a
-- reconciled operation's event are parameters, and the clock and the random ids are arguments.
pub mod Complete
pub mod Receipts
pub mod Final
pub mod Closed
pub mod Reconciled
mod Tests
use Prim.Native.String.{count}
use devin_fusion_via_codex.Common.{
  is_sha256_hex, ℕ, zero, suc, ◌+◌, Bool, true, false, not, ◌&&◌, ◌||◌, Option, none, some, List,
  [], ◌∷◌, ◌++◌, String, str_eq, ltb, leb, ◌==◌, length, codes, if◌then◌else◌, Result, ok, err,
  raise_if, ◌>>=◌, ◌>>◌,
}

pub data AccountingError : Type 0 where
  invalid_identity degraded_ledger already_admitted invalid_completion invalid_event :
      AccountingError
  invalid_counts unadmitted conflicting_completion identity_conflict conflicting_receipt :
      AccountingError
  acknowledgment_required corrupt_store integrity_error unavailable : AccountingError

-- An event of a completion, whose keys are those that are approved.
pub record Event : Type 0 where
  pub event_id : String
  pub provider : String
  pub account_ref : String
  pub status : String
  pub input_tokens : Option ℕ
  pub output_tokens : Option ℕ
  pub cached_tokens : Option ℕ
  pub reasoning_tokens : Option ℕ

pub data State : Type 0 where
  pending complete_state reconciled_unknown : State

pub record Admitted : Type 0 where
  pub operation_id : String
  pub run_id : String
  pub provider : String
  pub account_ref : String
  pub state : State

pub record Receipt : Type 0 where
  pub operation_id : String
  pub event : Event
  pub digest : String
  pub committed : ℕ
  pub exported : Bool

pub record Reconciliation : Type 0 where
  pub reconciliation_id : String
  pub evidence_ref : String
  pub unknown_operations : ℕ

pub record Run : Type 0 where
  pub run_id : String
  pub closed : Bool

pub record Accounts : Type 0 where
  pub run_id : String
  pub operations : List Admitted
  pub events : List Receipt
  pub reconciliations : List Reconciliation
  pub runs : List Run
  pub degraded : Bool
  pub gaps : ℕ

-- SHA-256 of the canonical event, and `reference('reconciled-unknown', operation_id)`.
pub record Digests : Type 0 where
  pub digest_of : Event → String
  pub reconciled_id : String → String

abbrev pub max_count : ℕ
max_count = 9223372036854775807

abbrev pub is_none {ℓ} : {A : Type ℓ} → Option A → Bool
is_none none = true
is_none (some x) = false

-- `_ref`
unfoldable pub is_ref : String → Bool
unfolding is_sha256_hex
is_ref v = is_sha256_hex v

-- `provider in PROVIDERS`
abbrev pub is_provider : String → Bool
is_provider p = str_eq p "codex" || str_eq p "native"

-- `status in STATUSES`
abbrev pub is_status : String → Bool
is_status s =
    str_eq s "completed"
    || (str_eq s "incomplete"
        || (str_eq s "failed" || (str_eq s "cancelled" || str_eq s "unknown")))

abbrev pub is_count : Option ℕ → Bool
is_count none = true
is_count (some n) = leb n max_count

-- `_transaction`: where it raises, it is rolled back, the ledger is degraded with a gap, and one
-- exception is raised for all.
abbrev pub transaction :
    Accounts → Result AccountingError Accounts → Result AccountingError (Unit {0}) × Accounts
transaction m (ok n) = (ok tt, n)
transaction m (err e) = (err unavailable, record m { degraded = true; gaps = m.gaps + 1 })

-- SELECT … FROM accounting_operations WHERE operation_id
unfoldable pub admitted_of : String → List Admitted → Option Admitted
admitted_of o [] = none
admitted_of o (a ∷ as') = if str_eq a.operation_id o then some a else admitted_of o as'

-- SELECT … FROM accounting_events WHERE event_id
unfoldable pub receipt_of : String → List Receipt → Option Receipt
receipt_of id [] = none
receipt_of id (r ∷ rs) = if str_eq r.event.event_id id then some r else receipt_of id rs

-- UPDATE accounting_operations SET state WHERE operation_id
unfoldable pub set_state : String → State → List Admitted → List Admitted
set_state o state [] = []
set_state o state (a ∷ as') =
    (if str_eq a.operation_id o then record a { state = state } else a) ∷ set_state o state as'

unfoldable pub insert_operation :
    String → String → String → Option Admitted → Accounts → Result AccountingError Accounts
insert_operation o provider account (some a) m = err already_admitted
insert_operation o provider account none m = ok (record m {
  operations =
      m.operations
      ++ record {
        operation_id = o;
        run_id = m.run_id;
        provider = provider;
        account_ref = account;
        state = pending;
      }
        ∷ [];
})

unfoldable pub admit :
    String → String → String → Accounts → Result AccountingError (Unit {0}) × Accounts
unfolding insert_operation
admit o provider account m =
    if not (is_ref o) || (not (is_ref account) || not (is_provider provider))
    then (err invalid_identity, m)
    else if m.degraded
    then (err degraded_ledger, m)
    else transaction m (insert_operation o provider account (admitted_of o m.operations) m)

-- `dict(rows)[key]`: a later pair replaces an earlier one.
unfoldable pub look_up : String → List (String × String) → Option String
look_up k [] = none
look_up k ((j, v) ∷ ps) = elim (look_up k ps) [
  | some later ↦ some later
  | none ↦ if str_eq j k then some v else none
]

abbrev pub same_value : Option String → Option String → Bool
same_value none none = true
same_value (some v) (some w) = str_eq v w
same_value _ _ = false

-- The keys of the first list have the same value in both dicts.
unfoldable pub agrees :
    List (String × String) → List (String × String) → List (String × String) → Bool
agrees [] d e = true
agrees ((k, v) ∷ ps) d e = same_value (look_up k d) (look_up k e) && agrees ps d e

-- `d == e`
unfoldable pub same_dict : List (String × String) → List (String × String) → Bool
unfolding agrees
same_dict d e = agrees d d e && agrees e d e

-- SELECT event_id,digest FROM accounting_events WHERE operation_id
unfoldable pub recorded_digests : String → List Receipt → List (String × String)
recorded_digests o [] = []
recorded_digests o (r ∷ rs) =
    let rest = recorded_digests o rs in
    if str_eq r.operation_id o then (r.event.event_id, r.digest) ∷ rest else rest

-- `prior != (digest, operation_id)`, or the new row.
unfoldable pub place_receipt :
    Receipt → Option Receipt → List Receipt → Result AccountingError (List Receipt)
place_receipt r none rs = ok (rs ++ r ∷ [])
place_receipt r (some p) rs =
    if str_eq p.digest r.digest && str_eq p.operation_id r.operation_id
    then ok rs
    else err conflicting_receipt
