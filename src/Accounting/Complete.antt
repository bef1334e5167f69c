-- ===== src/Accounting/Complete.antt =====
-- fusion_relay/accounting.py: `complete`, `mark_exported`, `record_gap`, `acknowledge_unknown`, `close`.
use devin_fusion_via_codex.Common.{
  ℕ, ◌+◌, Bool, true, false, not, ◌&&◌, ◌||◌, Option, none, some, List, [], ◌∷◌, ◌++◌, String,
  str_eq, leb, ◌==◌, length, if◌then◌else◌, Result, ok, err, raise_if, ◌>>=◌, ◌>>◌,
}
use devin_fusion_via_codex.Accounting.{
  AccountingError, Event, State, pending, complete_state, reconciled_unknown, Admitted, Receipt,
  Run, Accounts, Digests, is_ref, is_provider, is_status, is_count, transaction, admitted_of,
  receipt_of, set_state, same_dict, recorded_digests, place_receipt, invalid_completion,
  invalid_event, invalid_counts, unadmitted, conflicting_completion, identity_conflict,
  acknowledgment_required, corrupt_store, integrity_error,
}

unfoldable pub check_event : Event → Result AccountingError (Unit {0})
check_event e = do
  raise_if
      (not (is_ref e.event_id)
        || (not (is_ref e.account_ref)
            || (not (is_provider e.provider) || not (is_status e.status))))
      invalid_event
  raise_if
      (not (
        is_count e.input_tokens
        && (is_count e.output_tokens && (is_count e.cached_tokens && is_count e.reasoning_tokens))))
      invalid_counts

unfoldable pub check_events : List Event → Result AccountingError (Unit {0})
check_events [] = ok tt
check_events (e ∷ es) = check_event e >> check_events es

abbrev pub is_complete : State → Bool
is_complete complete_state = true
is_complete _ = false

abbrev pub is_pending : State → Bool
is_pending pending = true
is_pending _ = false

-- UPDATE accounting_operations SET state='reconciled_unknown', for each that is pending
unfoldable pub reconcile_states : List Admitted → List Admitted
reconcile_states [] = []
reconcile_states (a ∷ as') =
    (if is_pending a.state then record a { state = reconciled_unknown } else a)
    ∷ reconcile_states as'

unfoldable pub count_pending : List Admitted → ℕ
count_pending [] = 0
count_pending (a ∷ as') = (if is_pending a.state then 1 else 0) + count_pending as'

-- UPDATE accounting_runs SET closed=1 WHERE run_id<>?
unfoldable pub close_others : String → List Run → List Run
close_others id [] = []
close_others id (r ∷ rs) =
    (if str_eq r.run_id id then r else record r { closed = true }) ∷ close_others id rs

unfoldable pub close_own : String → List Run → List Run
close_own id [] = []
close_own id (r ∷ rs) =
    (if str_eq r.run_id id then record r { closed = true } else r) ∷ close_own id rs

-- `close`
unfoldable pub close_run : Bool → Accounts → Accounts
unfolding close_own
close_run clean m =
    if clean && not m.degraded then record m { runs = close_own m.run_id m.runs } else m

abbrev pub is_valid : Result AccountingError (Unit {0}) → Bool
is_valid (ok u) = true
is_valid (err e) = false

module _ (c : Digests) where
  abbrev pub receipt : String → ℕ → Event → Receipt
  receipt o now e = record {
    operation_id = o;
    event = e;
    digest = c.digest_of e;
    committed = now;
    exported = false;
  }

  unfoldable pub proposed : List Event → List (String × String)
  proposed [] = []
  proposed (e ∷ es) = (e.event_id, c.digest_of e) ∷ proposed es

  -- The loop that inserts the receipts of operation `a`.
  unfoldable pub store_events :
      Admitted → String → ℕ → List Event → List Receipt → Result AccountingError (List Receipt)
  store_events a o now [] rs = ok rs
  store_events a o now (e ∷ es) rs = do
    raise_if (not (str_eq e.provider a.provider && str_eq e.account_ref a.account_ref))
        identity_conflict
    next ← place_receipt (receipt o now e) (receipt_of e.event_id rs) rs
    store_events a o now es next

  unfoldable pub store_completion :
      String → ℕ → List Event → Option Admitted → Accounts → Result AccountingError Accounts
  unfolding store_events
  store_completion o now es none m = err unadmitted
  store_completion o now es (some a) m = do
    raise_if (is_complete a.state && not (same_dict (recorded_digests o m.events) (proposed es)))
        conflicting_completion
    rs ← store_events a o now es m.events
    ok (record m { events = rs; operations = set_state o complete_state m.operations })

  unfoldable pub valid_completion :
      Result AccountingError (Unit {0})
      → String
      → ℕ
      → List Event
      → Accounts
      → Result AccountingError (Unit {0}) × Accounts
  unfolding store_completion
  valid_completion (err e) o now es m = (err e, m)
  valid_completion (ok u) o now es m =
      transaction m (store_completion o now es (admitted_of o m.operations) m)

  unfoldable pub complete :
      String → ℕ → List Event → Accounts → Result AccountingError (Unit {0}) × Accounts
  unfolding valid_completion
  complete o now es m =
      if not (is_ref o) || (not (leb 1 (length es)) || not (leb (length es) 32))
      then (err invalid_completion, m)
      else valid_completion (check_events es) o now es m

  -- A receipt as `snapshot` accepts it.
  abbrev pub is_intact : Receipt → Bool
  is_intact r = str_eq (c.digest_of r.event) r.digest && is_valid (check_event r.event)

  unfoldable pub all_intact : List Receipt → Bool
  all_intact [] = true
  all_intact (r ∷ rs) = is_intact r && all_intact rs

  abbrev pub unknown_event : Admitted → Event
  unknown_event a = record {
    event_id = c.reconciled_id a.operation_id;
    provider = a.provider;
    account_ref = a.account_ref;
    status = "unknown";
    input_tokens = none;
    output_tokens = none;
    cached_tokens = none;
    reasoning_tokens = none;
  }

  -- INSERT INTO accounting_events, whose key is the event's id.
  unfoldable pub insert_receipt :
      Receipt → Option Receipt → List Receipt → Result AccountingError (List Receipt)
  insert_receipt r none rs = ok (rs ++ r ∷ [])
  insert_receipt r (some p) rs = err integrity_error

  -- The loop over the operations that are pending.
  unfoldable pub reconcile :
      ℕ → List Admitted → List Receipt → Result AccountingError (List Receipt)
  reconcile now [] rs = ok rs
  reconcile now (a ∷ as') rs = do
    next ←
        (if is_pending a.state
          then insert_receipt (receipt a.operation_id now (unknown_event a))
              (receipt_of (c.reconciled_id a.operation_id) rs) rs
          else ok rs)
    reconcile now as' next

  unfoldable pub acknowledge_pending :
      String → String → ℕ → Accounts → Result AccountingError Accounts
  unfolding reconcile
  acknowledge_pending id evidence now m = do
    rs ← reconcile now m.operations m.events
    ok (record m {
      events = rs;
      operations = reconcile_states m.operations;
      reconciliations =
          m.reconciliations
          ++ record {
            reconciliation_id = id;
            evidence_ref = evidence;
            unknown_operations = count_pending m.operations;
          }
            ∷ [];
      runs = close_others m.run_id m.runs;
    })

  -- Where the transaction succeeded, nothing is degraded any more.
  abbrev pub cleared :
      Result AccountingError (Unit {0}) × Accounts → Result AccountingError (Unit {0}) × Accounts
  cleared (ok u, m) = (ok u, record m { degraded = false; gaps = 0 })
  cleared (err e, m) = (err e, m)

  unfoldable pub acknowledge_unknown :
      String → String → Bool → ℕ → Accounts → Result AccountingError (Unit {0}) × Accounts
  unfolding acknowledge_pending
  acknowledge_unknown id evidence confirmed now m =
      if not confirmed || not (is_ref evidence)
      then (err acknowledgment_required, m)
      else if not (all_intact m.events)
      then (err corrupt_store, record m { degraded = true })
      else cleared (transaction m (acknowledge_pending id evidence now m))

-- UPDATE accounting_events SET exported=1 WHERE event_id
unfoldable pub set_exported : String → List Receipt → List Receipt
set_exported id [] = []
set_exported id (r ∷ rs) =
    (if str_eq r.event.event_id id then record r { exported = true } else r) ∷ set_exported id rs

unfoldable pub mark_exported : String → Accounts → Result AccountingError (Unit {0}) × Accounts
unfolding set_exported
mark_exported id m = transaction m (ok (record m { events = set_exported id m.events }))

abbrev pub record_gap : Accounts → Accounts
record_gap m = record m { degraded = true; gaps = m.gaps + 1 }

-- `bool(dirty or pending)`
unfoldable pub any_open : List Run → Bool
any_open [] = false
any_open (r ∷ rs) = not r.closed || any_open rs

-- `__init__` on tables that are there.
unfoldable pub open_run : String → Accounts → Accounts
unfolding any_open
open_run id m = record m {
  run_id = id;
  degraded = any_open m.runs || not (count_pending m.operations == 0);
  gaps = 0;
  runs = m.runs ++ record { run_id = id; closed = false } ∷ [];
}
