-- ===== src/Ledger/Accept.antt =====
-- fusion_relay/continuation.py: `offer_result`, `acknowledge_result`, `acceptance_state` and `delivery`.
use devin_fusion_via_codex.Common.{
  ℕ, Bool, true, false, not, ◌&&◌, Option, none, some, List, [], ◌∷◌, ◌++◌, String, str_eq, ◌==◌,
  if◌then◌else◌, Result, ok, err, raise_if, ◌>>=◌, ◌>>◌,
}
use devin_fusion_via_codex.Journal.Delivery.{
  Delivery, DeliveryError, Offered, offer, existing, acknowledge,
}
use devin_fusion_via_codex.Ledger.Binding.{
  ContinuationBinding, LedgerError, Payload, committed, Codec, unseal, scope_of, consumer_for,
  acknowledgement_mismatch, conflicting_acknowledgement, delivery_refused, authentication_failed,
  malformed_payload,
}
use devin_fusion_via_codex.Ledger.State.{
  TurnState, result_committed, offered, history_evidenced, consumer_acknowledged, Turn, Ack, Ledger,
  turn_of,
}
use devin_fusion_via_codex.Ledger.Reserve.{Reservation}

abbrev pub lift {ℓ} : {A : Type ℓ} → Result DeliveryError A → Result LedgerError A
lift (ok a) = ok a
lift (err e) = err delivery_refused

abbrev pub is_turn : String → String → Turn → Bool
is_turn s o t = str_eq t.scope s && str_eq t.operation_id o

abbrev pub offer_state : TurnState → TurnState
offer_state result_committed = offered
offer_state state = state

-- UPDATE continuation_turns SET state='offered' WHERE … AND state='result_committed'
unfoldable pub mark_offered : String → String → List Turn → List Turn
mark_offered s o [] = []
mark_offered s o (t ∷ ts) =
    (if is_turn s o t then record t { state = offer_state t.state } else t) ∷ mark_offered s o ts

-- UPDATE continuation_turns SET state='consumer_acknowledged'
unfoldable pub mark_acknowledged : String → String → List Turn → List Turn
mark_acknowledged s o [] = []
mark_acknowledged s o (t ∷ ts) =
    (if is_turn s o t then record t { state = consumer_acknowledged } else t)
    ∷ mark_acknowledged s o ts

abbrev pub after_offer : Reservation → Ledger → Offered × List Delivery → String × Ledger
after_offer r m (a, ds) = (
  a.delivery_id,
  record m { deliveries = ds; turns = mark_offered r.scope r.operation_id m.turns },
)

-- `offer_result`; the id of a new delivery is drawn for it.
unfoldable pub offer_result :
    String → Reservation → ContinuationBinding → Ledger → Result LedgerError (String × Ledger)
offer_result fresh_id r b m = do
  consumer ← consumer_for b
  made ← lift (offer r.scope r.operation_id consumer fresh_id m.operations m.deliveries)
  ok (after_offer r m made)

-- SELECT … FROM acknowledgements WHERE scope AND operation_id
unfoldable pub ack_of : String → String → List Ack → Option Ack
ack_of s o [] = none
ack_of s o (a ∷ as') =
    if str_eq a.scope s && str_eq a.operation_id o then some a else ack_of s o as'

abbrev pub may_acknowledge : TurnState → Bool
may_acknowledge result_committed = false
may_acknowledge _ = true

-- A turn in a state that may be acknowledged, with the revision and the digest that are given.
unfoldable pub matches_turn : ℕ → String → Option Turn → Bool
matches_turn revision digest none = false
matches_turn revision digest (some t) =
    may_acknowledge t.state && ((t.revision == revision) && str_eq t.response_digest digest)

abbrev pub same_ack : ℕ → String → String → Ack → Bool
same_ack revision digest reference a =
    (a.revision == revision) && (str_eq a.response_digest digest && str_eq a.reference reference)

-- The delivery of the operation is acknowledged in the same transaction, if there is one.
unfoldable pub settle_delivery :
    String → String → Option String → List Delivery → Result LedgerError (List Delivery)
settle_delivery scope consumer none ds = ok ds
settle_delivery scope consumer (some id) ds = do
  (found, ds') ← lift (acknowledge scope consumer id ds)
  ok ds'

abbrev pub store_ack : String → String → ℕ → String → String → List Delivery → Ledger → Ledger
store_ack s o revision digest reference ds m = record m {
  acks =
      m.acks
      ++ record {
        scope = s;
        operation_id = o;
        revision = revision;
        response_digest = digest;
        reference = reference;
      }
        ∷ [];
  turns = mark_acknowledged s o m.turns;
  deliveries = ds;
}

unfoldable pub acknowledge_prior :
    String
    → String
    → String
    → ℕ
    → String
    → String
    → Option Ack
    → Ledger
    → Result LedgerError (Bool × Ledger)
unfolding settle_delivery
acknowledge_prior s o consumer revision digest reference (some a) m =
    if same_ack revision digest reference a then ok (true, m) else err conflicting_acknowledgement
acknowledge_prior s o consumer revision digest reference none m = do
  ds ← settle_delivery s consumer (existing s o consumer m.deliveries) m.deliveries
  ok (false, store_ack s o revision digest reference ds m)

pub data Acceptance : Type 0 where
  uncertain acknowledged evidenced pending : Acceptance

abbrev pub acceptance_of : Option Turn → Acceptance
acceptance_of none = uncertain
acceptance_of (some t) = elim t.state [
  | consumer_acknowledged ↦ acknowledged
  | history_evidenced ↦ evidenced
  | _ ↦ pending
]

module _ (c : Codec) where
  unfoldable pub acknowledge_result :
      ContinuationBinding
      → String
      → ℕ
      → String
      → String
      → Ledger
      → Result LedgerError (Bool × Ledger)
  unfolding acknowledge_prior
  acknowledge_result b operation_id revision digest reference m = do
    scope ← scope_of c b
    consumer ← consumer_for b
    raise_if (not (matches_turn revision digest (turn_of scope operation_id m.turns)))
        acknowledgement_mismatch
    acknowledge_prior scope operation_id consumer revision digest reference
        (ack_of scope operation_id m.acks) m

  unfoldable pub acceptance_state :
      ContinuationBinding → String → Ledger → Result LedgerError Acceptance
  acceptance_state b operation_id m = do
    scope ← scope_of c b
    ok (acceptance_of (turn_of scope operation_id m.turns))

  wire_of : Payload → Result LedgerError String
  wire_of (committed wire revision) = ok wire
  wire_of _ = err malformed_payload

  pub delivered : String → String → Option String → Result LedgerError String
  unfolding wire_of
  delivered scope operation_id none = err authentication_failed
  delivered scope operation_id (some sealed) = do p ← unseal c scope operation_id sealed; wire_of p

  -- `offer` has committed its row when the result is opened.
  unfoldable pub open_offered :
      String
      → String
      → Result LedgerError (Offered × List Delivery)
      → Ledger
      → Result LedgerError String × Ledger
  unfolding delivered
  open_offered scope operation_id (err e) m = (err e, m)
  open_offered scope operation_id (ok (a, ds)) m =
      (delivered scope operation_id a.result, record m { deliveries = ds })

  unfoldable pub deliver_in :
      Result LedgerError String
      → String
      → String
      → String
      → Ledger
      → Result LedgerError String × Ledger
  unfolding open_offered
  deliver_in (err e) fresh_id operation_id consumer m = (err e, m)
  deliver_in (ok scope) fresh_id operation_id consumer m =
      open_offered scope operation_id
        (lift (offer scope operation_id consumer fresh_id m.operations m.deliveries)) m

  -- `delivery`: its wire or its exception, and the ledger in either case.
  unfoldable pub delivery :
      String → ContinuationBinding → String → String → Ledger → Result LedgerError String × Ledger
  unfolding deliver_in
  delivery fresh_id b operation_id consumer m =
      deliver_in (scope_of c b) fresh_id operation_id consumer m
