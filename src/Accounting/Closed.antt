-- ===== src/Accounting/Closed.antt =====
-- fusion_relay/accounting.py: a completed operation takes no more receipts.
use devin_fusion_via_codex.Common.{
  ℕ, ◌≡◌, refl, sym, ap, ◌∙◌, Bool, true, false, not, ◌&&◌, Option, none, some, Option-cases, List,
  [], ◌∷◌, String, str_eq, eq_iff, if◌then◌else◌, if_true, if_false, Bool-cases, inl, inr, Result,
  ok, err, raise_if, bind-ok, raised, ok-injective, arith,
}
use devin_fusion_via_codex.Accounting.{
  AccountingError, Event, Admitted, Receipt, Accounts, Digests, transaction, admitted_of,
  receipt_of, look_up, same_value, agrees, same_dict, recorded_digests, place_receipt,
  conflicting_completion, identity_conflict,
}
use devin_fusion_via_codex.Accounting.Complete.{
  check_events, is_complete, receipt, proposed, store_events, store_completion, valid_completion,
  complete,
}

transaction_same :
    (m : Accounts) (r : Result AccountingError Accounts)
    → ((n : Accounts) → r ≡ ok n → n.events ≡ m.events)
    → (transaction m r).1.events ≡ m.events
transaction_same m (ok n) h = h n refl
transaction_same m (err e) h = refl

if_same :
    (b : Bool) (rs : List Receipt) (x y : Result AccountingError (Unit {0}) × Accounts)
    → x.1.events ≡ rs
    → y.1.events ≡ rs
    → (if b then x else y).1.events ≡ rs
if_same true rs x y g h = g
if_same false rs x y g h = h

module _ (c : Digests) where
  look_up-recorded_digests :
      (k o v : String) (rs : List Receipt)
      → look_up k (recorded_digests o rs) ≡ some v
      → (r : Receipt) × (receipt_of k rs ≡ some r)
  unfolding look_up recorded_digests receipt_of
  look_up-recorded_digests k o v [] h = absurd (ground arith)
  look_up-recorded_digests k o v (r ∷ rs) h = elim (Bool-cases (str_eq r.event.event_id k)) [
    | inl e ↦ (r, if_true _ _ e)
    | inr e ↦
        let (q, f) = look_up-recorded_digests k o v rs (ground arith) in (q, if_false _ _ e ∙ f)
  ]

  place_receipt_same :
      (r p : Receipt) (rs ss : List Receipt) → place_receipt r (some p) rs ≡ ok ss → ss ≡ rs
  unfolding place_receipt
  place_receipt_same r p rs ss h =
      elim (Bool-cases (str_eq p.digest r.digest && str_eq p.operation_id r.operation_id)) [
        | inl f ↦ sym (ok-injective (sym (if_true _ _ f) ∙ h))
        | inr f ↦ absurd (ground arith)
      ]

  same_value-some :
      (x y : Option String) (w : String)
      → same_value x y ≡ true
      → y ≡ some w
      → (v : String) × (x ≡ some v)
  same_value-some none none w h k = absurd (ground arith)
  same_value-some none (some v) w h k = absurd (ground arith)
  same_value-some (some v) y w h k = (v, refl)

  -- The events that are proposed have values in the whole proposal.
  abbrev Proposes : List (String × String) → List Event → Type 0
  Proposes d es =
      (k v : String) → look_up k (proposed c es) ≡ some v → (w : String) × (look_up k d ≡ some w)

  head_found :
      (e : Event) (es : List Event)
      → (v : String) × (look_up e.event_id (proposed c (e ∷ es)) ≡ some v)
  unfolding look_up proposed
  head_found e es = elim (Option-cases (look_up e.event_id (proposed c es))) [
    | inl f ↦ (c.digest_of e, ground (arith, eq_iff e.event_id e.event_id))
    | inr (v, f) ↦ (v, ground arith)
  ]

  tail_found :
      (e : Event) (es : List Event) (k v : String)
      → look_up k (proposed c es) ≡ some v
      → (w : String) × (look_up k (proposed c (e ∷ es)) ≡ some w)
  unfolding look_up proposed
  tail_found e es k v h = (v, ground arith)

  store_events_same :
      (a : Admitted) (o : String) (now : ℕ) (d : List (String × String)) (es : List Event)
      (rs ss : List Receipt)
      → agrees (proposed c es) (recorded_digests o rs) d ≡ true
      → Proposes d es
      → store_events c a o now es rs ≡ ok ss
      → ss ≡ rs
  unfolding store_events agrees proposed
  store_events_same a o now d [] rs ss f p h = sym (ok-injective h)
  store_events_same a o now d (e ∷ es) rs ss f p h =
      let (u, e1, h1) =
        bind-ok
          (raise_if (not (str_eq e.provider a.provider && str_eq e.account_ref a.account_ref))
            identity_conflict)
          _ h in
      let (mid, e2, h2) =
        bind-ok (place_receipt (receipt c o now e) (receipt_of e.event_id rs) rs) _ h1 in
      let (v, g) = head_found e es in
      let (w, k) = p e.event_id v g in
      let (x, l) =
        same_value-some (look_up e.event_id (recorded_digests o rs)) (look_up e.event_id d) w
          (ground arith) k in
      let (r, found) = look_up-recorded_digests e.event_id o x rs l in
      let mid_same =
        place_receipt_same (receipt c o now e) r rs mid
          (ap (λ q. place_receipt (receipt c o now e) q rs) (sym found) ∙ e2) in
      store_events_same a o now d es rs ss (ground arith)
        (λ k v q. let (w, z) = tail_found e es k v q in p k w z)
        (ap (store_events c a o now es) (sym mid_same) ∙ h2)

  store_completion_same :
      (o : String) (now : ℕ) (es : List Event) (a : Admitted) (m n : Accounts)
      → is_complete a.state ≡ true
      → store_completion c o now es (some a) m ≡ ok n
      → n.events ≡ m.events
  unfolding store_completion same_dict
  store_completion_same o now es a m n done h =
      let (u, e1, h1) =
        bind-ok
          (raise_if
            (is_complete a.state && not (same_dict (recorded_digests o m.events) (proposed c es)))
            conflicting_completion)
          _ h in
      let (rs, e2, h2) = bind-ok (store_events c a o now es m.events) _ h1 in
      sym (ap (λ (x : Accounts). x.events) (ok-injective h2))
      ∙ store_events_same a o now (proposed c es) es m.events rs (ground (arith, raised _ _ u e1))
          (λ k v q. (v, q)) e2

  valid_completion_same :
      (valid : Result AccountingError (Unit {0})) (o : String) (now : ℕ) (es : List Event)
      (a : Admitted) (m : Accounts)
      → admitted_of o m.operations ≡ some a
      → is_complete a.state ≡ true
      → (valid_completion c valid o now es m).1.events ≡ m.events
  unfolding valid_completion
  valid_completion_same (err e) o now es a m found done = refl
  valid_completion_same (ok u) o now es a m found done = transaction_same m _ λ n h.
      store_completion_same o now es a m n done
        (ap (λ x. store_completion c o now es x m) (sym found) ∙ h)

  -- Once an operation is complete, a call of complete for it, with the same events or others, whether
  -- it raises or not, leaves the receipts as they are.
  pub complete_is_final :
      (o : String) (now : ℕ) (es : List Event) (a : Admitted) (m : Accounts)
      → admitted_of o m.operations ≡ some a
      → is_complete a.state ≡ true
      → (complete c o now es m).1.events ≡ m.events
  unfolding complete
  complete_is_final o now es a m found done =
      if_same _ m.events _ _ refl (valid_completion_same (check_events es) o now es a m found done)
