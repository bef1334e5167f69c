-- ===== src/Accounting/Receipts.antt =====
-- fusion_relay/accounting.py: the receipts through all calls.
use devin_fusion_via_codex.Common.{
  ℕ, ◌≡◌, refl, sym, ap, ◌∙◌, Bool, true, not, ◌&&◌, Option, none, some, List, [], ◌∷◌, ◌++◌,
  String, str_eq, eq_iff, if◌then◌else◌, if_true, if_false, Bool-cases, inl, inr, ok, raise_if,
  bind-ok, ok-injective, arith,
}
use devin_fusion_via_codex.Accounting.{
  Event, Admitted, Receipt, Accounts, Digests, is_none, receipt_of, place_receipt, admit,
  identity_conflict,
}
use devin_fusion_via_codex.Accounting.Complete.{
  is_pending, receipt, store_events, complete, unknown_event, insert_receipt, reconcile,
  acknowledge_unknown, set_exported, mark_exported, record_gap, close_run, open_run,
}

-- Each call.
pub data Step (c : Digests) (m n : Accounts) : Type 0 where
  admit_step : (o provider account : String) → n ≡ (admit o provider account m).1 → Step c m n
  complete_step :
      (o : String) (now : ℕ) (es : List Event) → n ≡ (complete c o now es m).1 → Step c m n
  export_step : (id : String) → n ≡ (mark_exported id m).1 → Step c m n
  acknowledge_step :
      (id evidence : String) (confirmed : Bool) (now : ℕ)
      → n ≡ (acknowledge_unknown c id evidence confirmed now m).1
      → Step c m n
  gap_step : n ≡ record_gap m → Step c m n
  close_step : (clean : Bool) → n ≡ close_run clean m → Step c m n
  open_step : (id : String) → n ≡ open_run id m → Step c m n

pub data Reach (c : Digests) (m : Accounts) : Accounts → Type 0 where
  here : Reach c m m
  next : {n o : Accounts} → Reach c m n → Step c n o → Reach c m o

-- A change of the receipts: new ones with new ids are added, and old ones become exported.
pub data Grows : List Receipt → List Receipt → Type 0 where
  same : {rs : List Receipt} → Grows rs rs
  adds :
      {rs ss : List Receipt} (r : Receipt)
      → receipt_of r.event.event_id rs ≡ none
      → Grows (rs ++ (r ∷ [])) ss
      → Grows rs ss
  exports : {rs ss : List Receipt} (id : String) → Grows (set_exported id rs) ss → Grows rs ss

pub append-Grows : {rs ss ts : List Receipt} → Grows rs ss → Grows ss ts → Grows rs ts
append-Grows same k = k
append-Grows (adds r e g) k = adds r e (append-Grows g k)
append-Grows (exports id g) k = exports id (append-Grows g k)

-- No event id is recorded_digests twice.
unfoldable pub has_unique_ids : List Receipt → Bool
has_unique_ids [] = true
has_unique_ids (r ∷ rs) = is_none (receipt_of r.event.event_id rs) && has_unique_ids rs

abbrev or_else {ℓ} : {A : Type ℓ} → Option A → Option A → Option A
or_else none y = y
or_else (some x) y = some x

receipt_of-append :
    (id : String) (rs ss : List Receipt)
    → receipt_of id (rs ++ ss) ≡ or_else (receipt_of id rs) (receipt_of id ss)
unfolding receipt_of
receipt_of-append id [] ss = refl
receipt_of-append id (r ∷ rs) ss = ground (arith, receipt_of-append id rs ss)

unique-append :
    (r : Receipt) (rs : List Receipt)
    → receipt_of r.event.event_id rs ≡ none
    → has_unique_ids rs ≡ true
    → has_unique_ids (rs ++ (r ∷ [])) ≡ true
unfolding has_unique_ids receipt_of
unique-append r [] h k = refl
unique-append r (q ∷ rs) h k = ground (
  arith,
  unique-append r rs,
  receipt_of-append q.event.event_id rs (r ∷ []),
  eq_iff q.event.event_id r.event.event_id,
  eq_iff r.event.event_id q.event.event_id,
)

exported_one : String → Receipt → Receipt
exported_one id r = if str_eq r.event.event_id id then record r { exported = true } else r

abbrev map_receipt : (Receipt → Receipt) → Option Receipt → Option Receipt
map_receipt f none = none
map_receipt f (some r) = some (f r)

receipt_of-set_exported :
    (id k : String) (rs : List Receipt)
    → receipt_of id (set_exported k rs) ≡ map_receipt (exported_one k) (receipt_of id rs)
unfolding receipt_of set_exported exported_one
receipt_of-set_exported id k [] = refl
receipt_of-set_exported id k (r ∷ rs) = ground (arith, receipt_of-set_exported id k rs)

unique-set_exported :
    (k : String) (rs : List Receipt) → has_unique_ids (set_exported k rs) ≡ has_unique_ids rs
unfolding has_unique_ids set_exported
unique-set_exported k [] = refl
unique-set_exported k (r ∷ rs) =
    ground (arith, unique-set_exported k rs, receipt_of-set_exported r.event.event_id k rs)

pub Grows-unique :
    {rs ss : List Receipt} → Grows rs ss → has_unique_ids rs ≡ true → has_unique_ids ss ≡ true
Grows-unique same h = h
Grows-unique (adds {rs = rs} r e g) h = Grows-unique g (unique-append r rs e h)
Grows-unique (exports {rs = rs} id g) h = Grows-unique g (unique-set_exported id rs ∙ h)

-- The receipt is there, unchanged but for its export.
pub record Stored (id : String) (r : Receipt) (rs : List Receipt) : Type 0 where
  pub exported : Bool
  pub found : receipt_of id rs ≡ some (record r { exported = exported })

exported_as :
    (k : String) (r : Receipt) (b : Bool)
    → some (exported_one k (record r { exported = b }))
      ≡ some (record r { exported = if str_eq r.event.event_id k then true else b })
unfolding exported_one
exported_as k r b = elim (Bool-cases (str_eq r.event.event_id k)) [
  | inl e ↦ rw (e) refl
  | inr e ↦ rw (e) refl
]

pub Grows-Stored :
    {rs ss : List Receipt} (id : String) (r : Receipt)
    → Grows rs ss
    → Stored id r rs
    → Stored id r ss
unfolding exported_one
Grows-Stored id r same h = h
Grows-Stored id r (adds {rs = rs} q e g) h = Grows-Stored id r g (record {
  exported = h.exported;
  found = ground (arith, receipt_of-append id rs (q ∷ []), h.found);
})
Grows-Stored id r (exports {rs = rs} k g) h = Grows-Stored id r g (record {
  exported = if str_eq r.event.event_id k then true else h.exported;
  found =
      receipt_of-set_exported id k rs
      ∙ ap (map_receipt (exported_one k)) h.found
      ∙ exported_as k r h.exported;
})

module _ (c : Digests) where
  place_receipt-Grows :
      (r : Receipt) (rs ss : List Receipt) (found : Option Receipt)
      → receipt_of r.event.event_id rs ≡ found
      → place_receipt r found rs ≡ ok ss
      → Grows rs ss
  unfolding place_receipt
  place_receipt-Grows r rs ss none e h = rw (← (ok-injective h)) (adds r e same)
  place_receipt-Grows r rs ss (some p) e h =
      elim (Bool-cases (str_eq p.digest r.digest && str_eq p.operation_id r.operation_id)) [
        | inl f ↦ rw (← (ok-injective (sym (if_true _ _ f) ∙ h))) same
        | inr f ↦ absurd (ground arith)
      ]

  pub store_events-Grows :
      (a : Admitted) (o : String) (now : ℕ) (es : List Event) (rs ss : List Receipt)
      → store_events c a o now es rs ≡ ok ss
      → Grows rs ss
  unfolding store_events
  store_events-Grows a o now [] rs ss h = rw (← (ok-injective h)) same
  store_events-Grows a o now (e ∷ es) rs ss h =
      let (u, e1, h1) =
        bind-ok
          (raise_if (not (str_eq e.provider a.provider && str_eq e.account_ref a.account_ref))
            identity_conflict)
          _ h in
      let (mid, e2, h2) =
        bind-ok (place_receipt (receipt c o now e) (receipt_of e.event_id rs) rs) _ h1 in
      append-Grows (place_receipt-Grows (receipt c o now e) rs mid _ refl e2)
        (store_events-Grows a o now es mid ss h2)

  insert_receipt-Grows :
      (r : Receipt) (rs ss : List Receipt) (found : Option Receipt)
      → receipt_of r.event.event_id rs ≡ found
      → insert_receipt c r found rs ≡ ok ss
      → Grows rs ss
  unfolding insert_receipt
  insert_receipt-Grows r rs ss none e h = rw (← (ok-injective h)) (adds r e same)
  insert_receipt-Grows r rs ss (some p) e h = absurd (ground arith)

  pub reconcile-Grows :
      (now : ℕ) (as' : List Admitted) (rs ss : List Receipt)
      → reconcile c now as' rs ≡ ok ss
      → Grows rs ss
  unfolding reconcile
  reconcile-Grows now [] rs ss h = rw (← (ok-injective h)) same
  reconcile-Grows now (a ∷ as') rs ss h =
      let new = receipt c a.operation_id now (unknown_event c a) in
      let (mid, e, h1) =
        bind-ok
          (if is_pending a.state
            then insert_receipt c new (receipt_of (c.reconciled_id a.operation_id) rs) rs
            else ok rs)
          _ h in
      append-Grows
        (elim (Bool-cases (is_pending a.state)) [
          | inl f ↦ insert_receipt-Grows new rs mid _ refl (sym (if_true _ _ f) ∙ e)
          | inr f ↦ rw (← (ok-injective (sym (if_false _ _ f) ∙ e))) same
        ])
        (reconcile-Grows now as' mid ss h1)
