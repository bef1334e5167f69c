-- ===== src/Accounting/Reconciled.antt =====
-- fusion_relay/accounting.py: the ledger after `acknowledge_unknown`.
use devin_fusion_via_codex.Common.{
  ℕ, ◌≡◌, refl, sym, ap, ◌∙◌, Bool, true, false, not, ◌||◌, Option, none, some, List, [], ◌∷◌,
  String, length, ◌++◌, append-nil, append_assoc, if◌then◌else◌, if_true, if_false, Bool-cases, inl,
  inr, Result, ok, err, bind-ok, ok-injective, arith,
}
use devin_fusion_via_codex.Accounting.{
  AccountingError, Event, Admitted, Receipt, Accounts, Digests, is_ref, transaction, receipt_of,
}
use devin_fusion_via_codex.Accounting.Complete.{
  is_pending, count_pending, receipt, unknown_event, insert_receipt, reconcile, reconcile_states,
  acknowledge_pending, cleared, acknowledge_unknown, all_intact,
}

count_pending-reconcile_states : (as' : List Admitted) → count_pending (reconcile_states as') ≡ 0
unfolding count_pending reconcile_states
count_pending-reconcile_states [] = refl
count_pending-reconcile_states (a ∷ as') = ground (arith, count_pending-reconcile_states as')

-- The receipts that are to be filed, one for each operation that is pending, in their order: under the
-- operation's id, of an event with its provider and its account whose status and counts are unknown.
module _ (c : Digests) (now : ℕ) where
  unfoldable pub unknown_receipts : List Admitted → List Receipt
  unknown_receipts [] = []
  unknown_receipts (a ∷ as') =
      let rest = unknown_receipts as' in
      let e : Event = record {
        event_id = c.reconciled_id a.operation_id;
        provider = a.provider;
        account_ref = a.account_ref;
        status = "unknown";
        input_tokens = none;
        output_tokens = none;
        cached_tokens = none;
        reasoning_tokens = none;
      } in
      let r : Receipt = record {
        operation_id = a.operation_id;
        event = e;
        digest = c.digest_of e;
        committed = now;
        exported = false;
      } in
      if is_pending a.state then r ∷ rest else rest

  insert_receipt-append :
      (r : Receipt) (found : Option Receipt) (rs ss : List Receipt)
      → insert_receipt c r found rs ≡ ok ss
      → ss ≡ rs ++ r ∷ []
  unfolding insert_receipt
  insert_receipt-append r none rs ss h = sym (ok-injective h)
  insert_receipt-append r (some p) rs ss h = absurd (ground arith)

  reconcile-append :
      (as' : List Admitted) (rs ss : List Receipt)
      → reconcile c now as' rs ≡ ok ss
      → ss ≡ rs ++ unknown_receipts as'
  unfolding reconcile unknown_receipts
  reconcile-append [] rs ss h = sym (ok-injective h) ∙ sym (append-nil rs)
  reconcile-append (a ∷ as') rs ss h =
      let new = receipt c a.operation_id now (unknown_event c a) in
      let (mid, e, h1) =
        bind-ok
          (if is_pending a.state
            then insert_receipt c new (receipt_of (c.reconciled_id a.operation_id) rs) rs
            else ok rs)
          _ h in
      let rest = reconcile-append as' mid ss h1 in
      elim (Bool-cases (is_pending a.state)) [
        | inl f ↦
            let one = insert_receipt-append new _ rs mid (sym (if_true _ _ f) ∙ e) in
            rw (f) (
              rest
              ∙ ap (λ l. l ++ unknown_receipts as') one
              ∙ append_assoc rs (new ∷ []) (unknown_receipts as'))
        | inr f ↦
            let kept = ok-injective (sym (if_false _ _ f) ∙ e) in
            rw (f) (rest ∙ ap (λ l. l ++ unknown_receipts as') (sym kept))
      ]

  length-unknown_receipts :
      (as' : List Admitted) → length (unknown_receipts as') ≡ count_pending as'
  unfolding unknown_receipts count_pending
  length-unknown_receipts [] = refl
  length-unknown_receipts (a ∷ as') = ground (arith, length-unknown_receipts as')

-- Nothing is degraded or pending, the unknown receipts are filed behind those that were there, and the
-- reconciliation is recorded with their number and its evidence.
pub record IsReconciled (c : Digests) (id evidence : String) (now : ℕ) (m n : Accounts)
    : Type 0 where
  pub sound : n.degraded ≡ false
  pub no_gaps : n.gaps ≡ 0
  pub settled : count_pending n.operations ≡ 0
  pub filed : n.events ≡ m.events ++ unknown_receipts c now m.operations
  pub recorded :
      n.reconciliations
      ≡ m.reconciliations
        ++ record {
          reconciliation_id = id;
          evidence_ref = evidence;
          unknown_operations = length (unknown_receipts c now m.operations);
        }
          ∷ []

abbrev is_ok : Result AccountingError (Unit {0}) → Bool
is_ok (ok u) = true
is_ok (err e) = false

failed :
    {e : AccountingError} {m n : Accounts}
    → ◌≡◌ {A = Result AccountingError (Unit {0}) × Accounts} (err e, m) (ok tt, n)
    → false ≡ true
failed h = ap (λ (x : Result AccountingError (Unit {0}) × Accounts). is_ok x.0) h

module _ (c : Digests) (id evidence : String) (now : ℕ) where
  cleared-IsReconciled :
      (m : Accounts) (x : Result AccountingError Accounts)
      → acknowledge_pending c id evidence now m ≡ x
      → is_ok (cleared c (transaction m x)).0 ≡ true
      → IsReconciled c id evidence now m (cleared c (transaction m x)).1
  unfolding acknowledge_pending
  cleared-IsReconciled m (err e) f h = absurd (ground arith)
  cleared-IsReconciled m (ok n) f h =
      let (rs, e, h1) = bind-ok (reconcile c now m.operations m.events) _ f in
      rw (← (ok-injective h1)) record {
        sound = refl;
        no_gaps = refl;
        settled = count_pending-reconcile_states m.operations;
        filed = reconcile-append c now m.operations m.events rs e;
        recorded = rw (length-unknown_receipts c now m.operations) refl;
      }

  -- Where acknowledge_unknown succeeds, the ledger is degraded no more and has no gaps, no operation is
  -- pending; behind the receipts that were there it has, for each operation that was pending and in
  -- their order, one that is filed under the operation's id, with its provider and account, status
  -- unknown and no counts; and it records the reconciliation with the number of them.
  pub acknowledge_unknown-IsReconciled :
      (confirmed : Bool) (m n : Accounts)
      → acknowledge_unknown c id evidence confirmed now m ≡ (ok tt, n)
      → IsReconciled c id evidence now m n
  unfolding acknowledge_unknown
  acknowledge_unknown-IsReconciled confirmed m n h =
      elim (Bool-cases (not confirmed || not (is_ref evidence))) [
        | inl e ↦ absurd (ground (arith, failed (sym (if_true _ _ e) ∙ h)))
        | inr e ↦ elim (Bool-cases (not (all_intact c m.events))) [
          | inl f ↦ absurd (ground (arith, failed (sym (if_true _ _ f) ∙ sym (if_false _ _ e) ∙ h)))
          | inr f ↦
              let k = sym (if_false _ _ f) ∙ sym (if_false _ _ e) ∙ h in
              rw (← (ap (λ (x : Result AccountingError (Unit {0}) × Accounts). x.1) k)) (
                cleared-IsReconciled m _ refl
                  (ap (λ (x : Result AccountingError (Unit {0}) × Accounts). is_ok x.0) k))
        ]
      ]
