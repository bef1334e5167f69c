-- ===== src/Accounting/Final.antt =====
-- fusion_relay/accounting.py: every call keeps the receipts that were committed.
use devin_fusion_via_codex.Common.{
  ℕ, ◌≡◌, refl, Bool, true, false, not, ◌&&◌, ◌||◌, Option, none, some, List, String, if◌then◌else◌,
  Bool-cases, inl, inr, Result, ok, err, raise_if, bind-ok, ok-injective, arith,
}
use devin_fusion_via_codex.Accounting.{
  AccountingError, Event, Admitted, Receipt, Accounts, Digests, is_ref, transaction, admitted_of,
  receipt_of, same_dict, recorded_digests, admit, insert_operation, conflicting_completion,
  corrupt_store, acknowledgment_required,
}
use devin_fusion_via_codex.Accounting.Complete.{
  check_events, is_complete, proposed, store_events, store_completion, valid_completion, complete,
  all_intact, reconcile, acknowledge_pending, cleared, acknowledge_unknown, mark_exported,
  close_run, open_run,
}
use devin_fusion_via_codex.Accounting.Receipts.{
  Step, admit_step, complete_step, export_step, acknowledge_step, gap_step, close_step, open_step,
  Reach, here, next, Grows, same, exports, append-Grows, has_unique_ids, Grows-unique, Stored,
  Grows-Stored, store_events-Grows, reconcile-Grows,
}

-- The receipts after a transaction.
transaction-Grows :
    (m : Accounts) (r : Result AccountingError Accounts)
    → ((n : Accounts) → r ≡ ok n → Grows m.events n.events)
    → Grows m.events (transaction m r).1.events
transaction-Grows m (ok n) h = h n refl
transaction-Grows m (err e) h = same

if-Grows :
    (b : Bool) (rs : List Receipt) (x y : Result AccountingError (Unit {0}) × Accounts)
    → Grows rs x.1.events
    → Grows rs y.1.events
    → Grows rs (if b then x else y).1.events
if-Grows true rs x y g h = g
if-Grows false rs x y g h = h

cleared_events :
    (c : Digests) (x : Result AccountingError (Unit {0}) × Accounts)
    → (cleared c x).1.events ≡ x.1.events
cleared_events c (ok u, m) = refl
cleared_events c (err e, m) = refl

insert_operation_events :
    (o provider account : String) (found : Option Admitted) (m n : Accounts)
    → insert_operation o provider account found m ≡ ok n
    → Grows m.events n.events
unfolding insert_operation
insert_operation_events o provider account (some a) m n h = absurd (ground arith)
insert_operation_events o provider account none m n h = rw (← (ok-injective h)) same

admit-Grows :
    (o provider account : String) (m : Accounts)
    → Grows m.events (admit o provider account m).1.events
unfolding admit
admit-Grows o provider account m = if-Grows _ m.events _ _ same (
    if-Grows m.degraded m.events _ _ same (
      transaction-Grows m _
        (insert_operation_events o provider account (admitted_of o m.operations) m)))

module _ (c : Digests) where
  store_completion-Grows :
      (o : String) (now : ℕ) (es : List Event) (found : Option Admitted) (m n : Accounts)
      → store_completion c o now es found m ≡ ok n
      → Grows m.events n.events
  unfolding store_completion
  store_completion-Grows o now es none m n h = absurd (ground arith)
  store_completion-Grows o now es (some a) m n h =
      let (u, e1, h1) =
        bind-ok
          (raise_if
            (is_complete a.state && not (same_dict (recorded_digests o m.events) (proposed c es)))
            conflicting_completion)
          _ h in
      let (rs, e2, h2) = bind-ok (store_events c a o now es m.events) _ h1 in
      rw (← (ok-injective h2)) (store_events-Grows c a o now es m.events rs e2)

  valid_completion-Grows :
      (valid : Result AccountingError (Unit {0})) (o : String) (now : ℕ) (es : List Event)
      (m : Accounts)
      → Grows m.events (valid_completion c valid o now es m).1.events
  unfolding valid_completion
  valid_completion-Grows (err e) o now es m = same
  valid_completion-Grows (ok u) o now es m =
      transaction-Grows m _ (store_completion-Grows o now es (admitted_of o m.operations) m)

  complete-Grows :
      (o : String) (now : ℕ) (es : List Event) (m : Accounts)
      → Grows m.events (complete c o now es m).1.events
  unfolding complete
  complete-Grows o now es m =
      if-Grows _ m.events _ _ same (valid_completion-Grows (check_events es) o now es m)

  acknowledge_pending-Grows :
      (id evidence : String) (now : ℕ) (m n : Accounts)
      → acknowledge_pending c id evidence now m ≡ ok n
      → Grows m.events n.events
  unfolding acknowledge_pending
  acknowledge_pending-Grows id evidence now m n h =
      let (rs, e, h1) = bind-ok (reconcile c now m.operations m.events) _ h in
      rw (← (ok-injective h1)) (reconcile-Grows c now m.operations m.events rs e)

  acknowledge-Grows :
      (id evidence : String) (confirmed : Bool) (now : ℕ) (m : Accounts)
      → Grows m.events (acknowledge_unknown c id evidence confirmed now m).1.events
  unfolding acknowledge_unknown
  acknowledge-Grows id evidence confirmed now m =
      let done = cleared c (transaction m (acknowledge_pending c id evidence now m)) in
      let corrupt : Result AccountingError (Unit {0}) × Accounts =
        (err corrupt_store, record m { degraded = true }) in
      let stored : Grows m.events done.1.events =
        rw (cleared_events c (transaction m (acknowledge_pending c id evidence now m)))
          (transaction-Grows m _ (acknowledge_pending-Grows id evidence now m)) in
      if-Grows (not confirmed || not (is_ref evidence)) m.events (err acknowledgment_required, m)
        (if not (all_intact c m.events) then corrupt else done) same
        (if-Grows (not (all_intact c m.events)) m.events corrupt done same stored)

  close_run-Grows : (clean : Bool) (m : Accounts) → Grows m.events (close_run clean m).events
  unfolding close_run
  close_run-Grows clean m = elim (Bool-cases (clean && not m.degraded)) [
    | inl e ↦ rw (e) same
    | inr e ↦ rw (e) same
  ]

  Step-Grows : {m n : Accounts} → Step c m n → Grows m.events n.events
  unfolding mark_exported open_run
  Step-Grows {m} {n} (admit_step o provider account e) = rw (e) (admit-Grows o provider account m)
  Step-Grows {m} {n} (complete_step o now es e) = rw (e) (complete-Grows o now es m)
  Step-Grows {m} {n} (export_step id e) = rw (e) (exports id same)
  Step-Grows {m} {n} (acknowledge_step id evidence confirmed now e) =
      rw (e) (acknowledge-Grows id evidence confirmed now m)
  Step-Grows {m} {n} (gap_step e) = rw (e) same
  Step-Grows {m} {n} (close_step clean e) = rw (e) (close_run-Grows clean m)
  Step-Grows {m} {n} (open_step id e) = rw (e) same

  Reach-Grows : {m n : Accounts} → Reach c m n → Grows m.events n.events
  Reach-Grows here = same
  Reach-Grows (next {n} {o} r step) = append-Grows (Reach-Grows r) (Step-Grows step)

  -- From a ledger in which no event id is recorded twice, such as an empty one, after any calls, none is.
  pub Reach-has_unique_ids :
      {m n : Accounts}
      → has_unique_ids m.events ≡ true
      → Reach c m n
      → has_unique_ids n.events ≡ true
  Reach-has_unique_ids u reach = Grows-unique (Reach-Grows reach) u

  -- A receipt that was committed is still there after any calls, unchanged but for its export.
  pub Reach-Stored :
      {m n : Accounts} (id : String) (r : Receipt)
      → receipt_of id m.events ≡ some r
      → Reach c m n
      → Stored id r n.events
  Reach-Stored id r h reach =
      Grows-Stored id r (Reach-Grows reach) (record { exported = r.exported; found = h })
