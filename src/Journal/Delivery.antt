-- ===== src/Journal/Delivery.antt =====
-- fusion_relay/operations.py: `offer`, `acknowledge` and `pending_deliveries`. The random id of a new
-- delivery is an argument; its column is UNIQUE, so an id that is taken is refused.
pub mod Laws
use Prim.Native.String.{count}
use devin_fusion_via_codex.Common.{
  ℕ, Bool, true, false, not, ◌&&◌, ◌||◌, Option, none, some, List, [], ◌∷◌, ◌++◌, String, str_eq,
  if◌then◌else◌, ltb, Result, ok, err, raise_if, ◌>>=◌, ◌>>◌,
}
use devin_fusion_via_codex.Journal.Rows.{Status, is_terminal, Operation, fetch}

pub record Delivery : Type 0 where
  pub scope : String
  pub operation_id : String
  pub consumer : String
  pub delivery_id : String
  pub acknowledged : Bool

pub data DeliveryError : Type 0 where
  scope_required consumer_required operation_id_required unknown_operation : DeliveryError
  unknown_outcome duplicate_delivery_id : DeliveryError

-- The answer of `offer`, and a line of `pending_deliveries`.
pub record Offered : Type 0 where
  pub delivery_id : String
  pub operation_id : String
  pub status : Status
  pub result : Option String

-- `not v or len(v) > 512`
abbrev pub unbounded : String → Bool
unbounded v = str_eq v "" || ltb 512 (count v)

unfoldable pub check_delivery_args : String → String → Result DeliveryError (Unit {0})
check_delivery_args scope consumer = do
  raise_if (unbounded scope) scope_required
  raise_if (unbounded consumer) consumer_required

-- SELECT delivery_id FROM delivery WHERE scope, operation_id, consumer
unfoldable pub existing : String → String → String → List Delivery → Option String
existing scope operation_id consumer [] = none
existing scope operation_id consumer (d ∷ ds) =
    if str_eq d.scope scope && (str_eq d.operation_id operation_id && str_eq d.consumer consumer)
    then some d.delivery_id
    else existing scope operation_id consumer ds

unfoldable pub id_taken : String → List Delivery → Bool
id_taken id [] = false
id_taken id (d ∷ ds) = str_eq d.delivery_id id || id_taken id ds

offered : Operation → String → Offered
offered row id = record {
  delivery_id = id;
  operation_id = row.operation_id;
  status = row.status;
  result = row.result;
}

-- A terminal operation is given its delivery: the one that is there, or a new one.
offer_row :
    Operation → String → String → List Delivery → Result DeliveryError (Offered × List Delivery)
unfolding id_taken offered
offer_row row consumer fresh_id ds = elim (existing row.scope row.operation_id consumer ds) [
  | some id ↦ ok (offered row id, ds)
  | none ↦
      if id_taken fresh_id ds
      then err duplicate_delivery_id
      else ok (
        offered row fresh_id,
        ds
            ++ record {
              scope = row.scope;
              operation_id = row.operation_id;
              consumer = consumer;
              delivery_id = fresh_id;
              acknowledged = false;
            }
              ∷ [],
      )
]

abbrev pub found_row : Option Operation → Result DeliveryError Operation
found_row none = err unknown_operation
found_row (some row) = ok row

unfoldable pub offer :
    String
    → String
    → String
    → String
    → List Operation
    → List Delivery
    → Result DeliveryError (Offered × List Delivery)
unfolding check_delivery_args offer_row
offer scope operation_id consumer fresh_id rows ds = do
  check_delivery_args scope consumer
  raise_if (unbounded operation_id) operation_id_required
  row ← found_row (fetch scope operation_id rows)
  raise_if (not (is_terminal row.status)) unknown_outcome
  offer_row row consumer fresh_id ds

abbrev pub is_delivery : String → String → String → Delivery → Bool
is_delivery scope consumer id d =
    str_eq d.scope scope && (str_eq d.consumer consumer && str_eq d.delivery_id id)

-- SELECT acknowledged FROM delivery WHERE scope, consumer, delivery_id
pub acknowledged_of : String → String → String → List Delivery → Option Bool
acknowledged_of scope consumer id [] = none
acknowledged_of scope consumer id (d ∷ ds) =
    if is_delivery scope consumer id d
    then some d.acknowledged
    else acknowledged_of scope consumer id ds

-- UPDATE delivery SET acknowledged=1 WHERE scope, consumer, delivery_id
set_acknowledged : String → String → String → List Delivery → List Delivery
set_acknowledged scope consumer id [] = []
set_acknowledged scope consumer id (d ∷ ds) =
    (if is_delivery scope consumer id d then record d { acknowledged = true } else d)
    ∷ set_acknowledged scope consumer id ds

acknowledge_found : String → String → String → List Delivery → Option Bool → Bool × List Delivery
unfolding set_acknowledged
acknowledge_found scope consumer id ds none = (false, ds)
acknowledge_found scope consumer id ds (some true) = (true, ds)
acknowledge_found scope consumer id ds (some false) = (true, set_acknowledged scope consumer id ds)

unfoldable pub acknowledge :
    String → String → String → List Delivery → Result DeliveryError (Bool × List Delivery)
unfolding check_delivery_args acknowledged_of acknowledge_found
acknowledge scope consumer id ds = do
  check_delivery_args scope consumer
  ok (acknowledge_found scope consumer id ds (acknowledged_of scope consumer id ds))

-- One delivery joined with the operation of its key.
joined : Delivery → Option Operation → List Offered → List Offered
unfolding offered
joined d none rest = rest
joined d (some row) rest = offered row d.delivery_id ∷ rest

-- SELECT … FROM delivery JOIN operations WHERE scope, consumer, acknowledged=0
pending_rows : String → String → List Operation → List Delivery → List Offered
unfolding joined
pending_rows scope consumer rows [] = []
pending_rows scope consumer rows (d ∷ ds) =
    let rest = pending_rows scope consumer rows ds in
    if str_eq d.scope scope && (str_eq d.consumer consumer && not d.acknowledged)
    then joined d (fetch d.scope d.operation_id rows) rest
    else rest

unfoldable pub pending_deliveries :
    String → String → List Operation → List Delivery → Result DeliveryError (List Offered)
unfolding check_delivery_args pending_rows
pending_deliveries scope consumer rows ds = do
  check_delivery_args scope consumer
  ok (pending_rows scope consumer rows ds)
