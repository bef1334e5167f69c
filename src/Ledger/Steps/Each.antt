-- ===== src/Ledger/Steps/Each.antt =====
-- fusion_relay/continuation.py: each step makes one of the changes.
use devin_fusion_via_codex.Common.{
  ℕ, ◌≡◌, refl, sym, ap, Bool, false, not, ◌||◌, Option, none, some, String, str_eq, Result, ok,
  err, raise_if, bind-ok, raised, ok-second, Bool-cases, inl, inr, List, [], ◌∷◌, if◌then◌else◌,
  if_true, ◌∙◌, arith,
}
use devin_fusion_via_codex.Common.Json.{Object}
use devin_fusion_via_codex.Journal.Rows.{provider_outcome_unknown, cancel_unconfirmed}
use devin_fusion_via_codex.Journal.Delivery.{Delivery, Offered, offer, existing}
use devin_fusion_via_codex.Ledger.Binding.{
  ContinuationBinding, Codec, LedgerError, scope_of, consumer_for, unbounded,
  acknowledgement_mismatch, unsupported_transition, invalid_epoch, carry_mismatch,
  transition_blocked, epoch_exists, scope_pending,
}
use devin_fusion_via_codex.Ledger.State.{
  Turn, Ack, Ledger, Opened, head_of, any_status, is_unresolved, turn_of,
}
use devin_fusion_via_codex.Ledger.Reserve.{
  Reservation, Reserved, admitted, replayed, evidence, is_nil, is_none, admit_new, reserve,
}
use devin_fusion_via_codex.Ledger.Reserve.Unchanged.{reserve_same}
use devin_fusion_via_codex.Ledger.Reserve.Admission.{reserve-Admission, reserve_new-Checked}
use devin_fusion_via_codex.Ledger.Commit.{mark_outcome_unknown, mark_cancel}
use devin_fusion_via_codex.Ledger.Accept.{
  lift, offer_result, matches_turn, same_ack, ack_of, settle_delivery, acknowledge_prior,
  acknowledge_result, open_offered, deliver_in, delivery,
}
use devin_fusion_via_codex.Ledger.Epoch.{
  is_reason, carry_differs, carry, transition_epoch, retire_scope, any_pending,
}
use devin_fusion_via_codex.Ledger.Steps.{
  Step, reserve_step, commit_step, abandon_step, unknown_step, cancel_step, resolve_step,
  offer_step, acknowledge_step, transition_step, retire_step, delivery_step,
}
use devin_fusion_via_codex.Ledger.Steps.Changes.{
  Change, same, delivered as delivered_change, reserved, offered, acknowledged, began, retired,
  Evidenced, kept, shown, settle-Change, abandon-Change, resolve-Change, commit-Change,
}

evidence-Evidenced :
    (s : String) (opened : List Opened) (ts : List Turn)
    → Evidenced s ts (if is_nil opened then ts else evidence s ts)
evidence-Evidenced s [] ts = kept
evidence-Evidenced s (t ∷ opened) ts = shown

is_none-none : {A : Type 0} (x : Option A) → not (is_none x) ≡ false → x ≡ none
is_none-none none h = refl
is_none-none (some x) h = absurd (ground arith)

module _ (c : Codec) (P : String → Type 0) where
  reserve-Change :
      (b : ContinuationBinding) (o : String) (body : Object) (m n : Ledger) (x : Reserved)
      → reserve c b o body m ≡ ok (x, n)
      → Change c P m n
  unfolding admit_new
  reserve-Change b o body m n (replayed p) h = rw (reserve_same c b o body m p n h) same
  reserve-Change b o body m n (admitted r) h =
      let a = reserve-Admission c b o body m r n h in
      let k = reserve_new-Checked c b a.scope o body a.history a.base (admitted r) n a.fresh in
      rw (ap (λ (x : Reserved × Ledger). x.1) k.result) (
        reserved a.scope o _ a.base _ _ a.cleared k.idle k.known
          (evidence-Evidenced a.scope k.opened a.base.turns))

  offer-Change :
      (id : String) (r : Reservation) (b : ContinuationBinding) (m n : Ledger) (d : String)
      → offer_result id r b m ≡ ok (d, n)
      → Change c P m n
  unfolding offer_result
  offer-Change id r b m n d h =
      let (consumer, e1, h1) = bind-ok (consumer_for b) _ h in
      let (made, e2, h2) =
        bind-ok (lift (offer r.scope r.operation_id consumer id m.operations m.deliveries)) _ h1 in
      rw (ok-second h2) (offered r.scope r.operation_id made.1)

  prior-Change :
      (s o consumer : String) (revision : ℕ) (digest reference : String) (found : Option Ack)
      (m n : Ledger) (again : Bool)
      → ack_of s o m.acks ≡ found
      → acknowledge_prior s o consumer revision digest reference found m ≡ ok (again, n)
      → Change c P m n
  unfolding acknowledge_prior
  prior-Change s o consumer revision digest reference none m n again f h =
      let (ds, e, h1) =
        bind-ok (settle_delivery s consumer (existing s o consumer m.deliveries) m.deliveries) _
          h in
      rw (ok-second h1) (acknowledged s o revision digest reference ds f)
  prior-Change s o consumer revision digest reference (some a) m n again f h =
      elim (Bool-cases (same_ack revision digest reference a)) [
        | inl e ↦ rw (ok-second (sym (if_true _ _ e) ∙ h)) same
        | inr e ↦ absurd (ground arith)
      ]

  acknowledge-Change :
      (b : ContinuationBinding) (o : String) (revision : ℕ) (digest reference : String)
      (m n : Ledger) (again : Bool)
      → acknowledge_result c b o revision digest reference m ≡ ok (again, n)
      → Change c P m n
  unfolding acknowledge_result
  acknowledge-Change b o revision digest reference m n again h =
      let (scope, e1, h1) = bind-ok (scope_of c b) _ h in
      let (consumer, e2, h2) = bind-ok (consumer_for b) _ h1 in
      let (u, e3, h3) =
        bind-ok
          (raise_if (not (matches_turn revision digest (turn_of scope o m.turns)))
            acknowledgement_mismatch)
          _ h2 in
      prior-Change scope o consumer revision digest reference _ m n again refl h3

  transition-Change :
      (nonce : ℕ → String) (b : ContinuationBinding) (epoch reason : String)
      (from : Option ContinuationBinding) (m n : Ledger) (d : ContinuationBinding)
      → transition_epoch c nonce b epoch reason from m ≡ ok (d, n)
      → Change c P m n
  unfolding transition_epoch
  transition-Change nonce b epoch reason from m n d h =
      let (v1, e1, h1) = bind-ok (raise_if (not (is_reason reason)) unsupported_transition) _ h in
      let (v2, e2, h2) =
        bind-ok (raise_if (unbounded epoch || str_eq epoch b.epoch) invalid_epoch) _ h1 in
      let (v3, e3, h3) = bind-ok (raise_if (carry_differs from b) carry_mismatch) _ h2 in
      let (from_scope, e4, h4) = bind-ok (scope_of c b) _ h3 in
      let (to_scope, e5, h5) = bind-ok (scope_of c (record b { epoch = epoch })) _ h4 in
      let (v6, e6, h6) =
        bind-ok (raise_if (any_status is_unresolved from_scope m.operations) transition_blocked) _
          h5 in
      let (v7, e7, h7) =
        bind-ok (raise_if (not (is_none (head_of to_scope m.heads))) epoch_exists) _ h6 in
      let ((carried, head, ts), e8, h8) = bind-ok (carry c nonce from to_scope m) _ h7 in
      rw (ok-second h8) (
        began nonce from_scope to_scope (record b { epoch = epoch }) from carried head ts
          (is_none-none _ (raised _ _ v7 e7)) e8)

  retire-Change :
      (s : String) (m n : Ledger) (u : Unit {0})
      → P s
      → retire_scope s m ≡ ok (u, n)
      → Change c P m n
  unfolding retire_scope
  retire-Change s m n u p h =
      let (v, e, h1) =
        bind-ok
          (raise_if (any_pending s m.turns || any_status is_unresolved s m.operations)
            scope_pending)
          _ h in
      rw (ok-second h1)
        (retired s p (ground (arith, raised _ _ v e)) (ground (arith, raised _ _ v e)))

  open_offered-Change :
      (s o : String) (made : Result LedgerError (Offered × List Delivery)) (m : Ledger)
      → Change c P m (open_offered c s o made m).1
  unfolding open_offered
  open_offered-Change s o (err e) m = same
  open_offered-Change s o (ok made) m = delivered_change made.1

  deliver_in-Change :
      (id o consumer : String) (scope : Result LedgerError String) (m : Ledger)
      → Change c P m (deliver_in c scope id o consumer m).1
  unfolding deliver_in
  deliver_in-Change id o consumer (err e) m = same
  deliver_in-Change id o consumer (ok s) m =
      open_offered-Change s o (lift (offer s o consumer id m.operations m.deliveries)) m

  delivery-Change :
      (id : String) (b : ContinuationBinding) (o consumer : String)
      (answer : Result LedgerError String) (m n : Ledger)
      → delivery c id b o consumer m ≡ (answer, n)
      → Change c P m n
  unfolding delivery
  delivery-Change id b o consumer answer m n h =
      rw (← (ap (λ (x : Result LedgerError String × Ledger). x.1) h))
        (deliver_in-Change id o consumer (scope_of c b) m)

  pub Step-Change : {m n : Ledger} → Step c P m n → Change c P m n
  unfolding mark_outcome_unknown mark_cancel
  Step-Change {m} {n} (reserve_step b o body x h) = reserve-Change b o body m n x h
  Step-Change {m} {n} (commit_step nonce nonce2 r output wire u h) =
      commit-Change c P nonce nonce2 r output wire m n u h
  Step-Change {m} {n} (abandon_step r reason u h) = abandon-Change c P r reason m n u h
  Step-Change {m} {n} (unknown_step r u h) = settle-Change c P r provider_outcome_unknown m n u h
  Step-Change {m} {n} (cancel_step r u h) = settle-Change c P r cancel_unconfirmed m n u h
  Step-Change {m} {n} (resolve_step nonce s o ref outcome u h) =
      resolve-Change c P nonce s o ref outcome m n u h
  Step-Change {m} {n} (offer_step id r b d h) = offer-Change id r b m n d h
  Step-Change {m} {n} (acknowledge_step b o revision digest reference again h) =
      acknowledge-Change b o revision digest reference m n again h
  Step-Change {m} {n} (transition_step nonce b epoch reason from d h) =
      transition-Change nonce b epoch reason from m n d h
  Step-Change {m} {n} (retire_step s u p h) = retire-Change s m n u p h
  Step-Change {m} {n} (delivery_step id b o consumer answer h) =
      delivery-Change id b o consumer answer m n h
