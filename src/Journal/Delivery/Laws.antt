-- ===== src/Journal/Delivery/Laws.antt =====
-- Offers and acknowledgements of fusion_relay/operations.py.
use devin_fusion_via_codex.Common.{
  ◌≡◌, ◌∙◌, refl, ap, sym, Bool, true, false, not, ◌||◌, Option, none, some, List, [], ◌∷◌, ◌++◌,
  String, str_eq, eq_iff, eq_refl, if◌then◌else◌, arith, ok, raise_if, ◌>>=◌, bind-ok, ok-injective,
}
use devin_fusion_via_codex.Journal.Rows.{Operation, fetch, is_terminal}
use devin_fusion_via_codex.Journal.Delivery.{
  Delivery, Offered, check_delivery_args, existing, offered, offer_row, offer, acknowledged_of,
  set_acknowledged, acknowledge_found, acknowledge, joined, pending_rows, pending_deliveries,
  unbounded, id_taken, found_row, operation_id_required, unknown_outcome,
}

existing-append :
    (s o c : String) (ds : List Delivery) (d : Delivery)
    → existing s o c ds ≡ none
    → d.scope ≡ s
    → d.operation_id ≡ o
    → d.consumer ≡ c
    → existing s o c (ds ++ d ∷ []) ≡ some d.delivery_id
unfolding existing
existing-append s o c [] d h es eo ec = rw (es, eo, ec, eq_refl s, eq_refl o, eq_refl c)
existing-append s o c (x ∷ ds) d h es eo ec = ground (arith, existing-append s o c ds d)

offer_row-again :
    (row : Operation) (c id id' : String) (ds : List Delivery) (a : Offered) (ds' : List Delivery)
    → offer_row row c id ds ≡ ok (a, ds')
    → offer_row row c id' ds' ≡ ok (a, ds')
unfolding offer_row offered
offer_row-again row c id id' ds a ds' h = ground (
  arith,
  existing-append row.scope row.operation_id c ds (record {
    scope = row.scope;
    operation_id = row.operation_id;
    consumer = c;
    delivery_id = id;
    acknowledged = false;
  }),
)

-- An offer that was made is stable: offering again answers the same delivery and adds nothing,
-- whatever random id the second call draws.
pub offer_again :
    (s o c id id' : String) (rows : List Operation) (ds : List Delivery) (a : Offered)
    (ds' : List Delivery)
    → offer s o c id rows ds ≡ ok (a, ds')
    → offer s o c id' rows ds' ≡ ok (a, ds')
unfolding offer
offer_again s o c id id' rows ds a ds' h =
    let (u, args, h1) = bind-ok (check_delivery_args s c) _ h in
    let (v, bounded, h2) = bind-ok (raise_if (unbounded o) operation_id_required) _ h1 in
    let (row, found, h3) = bind-ok (found_row (fetch s o rows)) _ h2 in
    let (w, terminal, h4) =
      bind-ok (raise_if (not (is_terminal row.status)) unknown_outcome) _ h3 in
    rw (args, bounded, found, terminal) (offer_row-again row c id id' ds a ds' h4)

-- The deliveries of a list but those of one id.
abbrev pub without : String → List Offered → List Offered
without id [] = []
without id (a ∷ more) = if str_eq a.delivery_id id then without id more else a ∷ without id more

pending-set_acknowledged :
    (s c id : String) (rows : List Operation) (ds : List Delivery)
    → pending_rows s c rows (set_acknowledged s c id ds) ≡ without id (pending_rows s c rows ds)
unfolding pending_rows set_acknowledged joined offered
pending-set_acknowledged s c id rows [] = refl
pending-set_acknowledged s c id rows (d ∷ ds) =
    ground (arith, pending-set_acknowledged s c id rows ds)

-- No delivery of an id is pending for a consumer that has none of that id.
pending-none :
    (s c id : String) (rows : List Operation) (ds : List Delivery)
    → acknowledged_of s c id ds ≡ none
    → without id (pending_rows s c rows ds) ≡ pending_rows s c rows ds
unfolding pending_rows acknowledged_of joined offered
pending-none s c id rows [] h = refl
pending-none s c id rows (d ∷ ds) h = ground (arith, pending-none s c id rows ds)

-- The UNIQUE column: no delivery id stands twice.
abbrev pub UniqueIds : List Delivery → Type 0
UniqueIds [] = Unit
UniqueIds (d ∷ ds) = (id_taken d.delivery_id ds ≡ false) × UniqueIds ds

pending-untaken :
    (s c id : String) (rows : List Operation) (ds : List Delivery)
    → id_taken id ds ≡ false
    → without id (pending_rows s c rows ds) ≡ pending_rows s c rows ds
unfolding pending_rows id_taken joined offered
pending-untaken s c id rows [] h = refl
pending-untaken s c id rows (d ∷ ds) h = ground (arith, pending-untaken s c id rows ds)

pending-acknowledged :
    (s c id : String) (rows : List Operation) (ds : List Delivery)
    → UniqueIds ds
    → acknowledged_of s c id ds ≡ some true
    → without id (pending_rows s c rows ds) ≡ pending_rows s c rows ds
unfolding pending_rows acknowledged_of joined offered
pending-acknowledged s c id rows [] u h = refl
pending-acknowledged s c id rows (d ∷ ds) u h = ground (
  arith,
  pending-acknowledged s c id rows ds,
  pending-untaken s c id rows ds,
  eq_iff d.delivery_id id,
)

id_taken-append :
    (id : String) (ds : List Delivery) (d : Delivery)
    → id_taken id (ds ++ d ∷ []) ≡ (id_taken id ds || str_eq d.delivery_id id)
unfolding id_taken
id_taken-append id [] d = ground arith
id_taken-append id (x ∷ ds) d = ground (arith, id_taken-append id ds d)

UniqueIds-append :
    (ds : List Delivery) (d : Delivery)
    → UniqueIds ds
    → id_taken d.delivery_id ds ≡ false
    → UniqueIds (ds ++ d ∷ [])
unfolding id_taken
UniqueIds-append [] d u h = (refl, tt)
UniqueIds-append (x ∷ ds) d u h = ground (
  arith,
  UniqueIds-append ds d,
  id_taken-append x.delivery_id ds d,
  eq_iff x.delivery_id d.delivery_id,
  eq_iff d.delivery_id x.delivery_id,
)

offer_row-UniqueIds :
    (row : Operation) (c id : String) (ds : List Delivery) (a : Offered) (ds' : List Delivery)
    → UniqueIds ds
    → offer_row row c id ds ≡ ok (a, ds')
    → UniqueIds ds'
unfolding offer_row
offer_row-UniqueIds row c id ds a ds' u h = ground (
  arith,
  UniqueIds-append ds (record {
    scope = row.scope;
    operation_id = row.operation_id;
    consumer = c;
    delivery_id = id;
    acknowledged = false;
  }),
)

abbrev pub known : Option Bool → Bool
known none = false
known (some acknowledged) = true

acknowledge_found-pending :
    (s c id : String) (rows : List Operation) (ds : List Delivery) (o : Option Bool)
    → UniqueIds ds
    → acknowledged_of s c id ds ≡ o
    → let (b, ds') = acknowledge_found s c id ds o in
      (pending_rows s c rows ds' ≡ without id (pending_rows s c rows ds)) × (b ≡ known o)
unfolding acknowledge_found
acknowledge_found-pending s c id rows ds none u h = (sym (pending-none s c id rows ds h), refl)
acknowledge_found-pending s c id rows ds (some true) u h =
    (sym (pending-acknowledged s c id rows ds u h), refl)
acknowledge_found-pending s c id rows ds (some false) u h =
    (pending-set_acknowledged s c id rows ds, refl)

-- An acknowledgement takes exactly the deliveries of its id off the consumer's pending list, in the
-- same order, also when it is repeated; it answers whether the consumer has such a delivery.
pub pending_deliveries-acknowledge :
    (s c id : String) (rows : List Operation) (ds : List Delivery) (b : Bool) (ds' : List Delivery)
    → UniqueIds ds
    → acknowledge s c id ds ≡ ok (b, ds')
    → (pending_deliveries s c rows ds' ≡ (do l ← pending_deliveries s c rows ds; ok (without id l)))
      × (b ≡ known (acknowledged_of s c id ds))
unfolding acknowledge pending_deliveries
pending_deliveries-acknowledge s c id rows ds b ds' u h =
    let (_, args, h1) = bind-ok (check_delivery_args s c) _ h in
    let e = ok-injective h1 in
    let (same, answer) =
      acknowledge_found-pending s c id rows ds (acknowledged_of s c id ds) u refl in
    (
      rw args (ap ok (ap (λ p. pending_rows s c rows p.1) (sym e) ∙ same)),
      ap (λ p. p.0) (sym e) ∙ answer,
    )
