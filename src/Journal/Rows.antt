-- ===== src/Journal/Rows.antt =====
-- The `operations` table of fusion_relay/operations.py, which fusion_relay/continuation.py shares.
-- A table is the list of its rows in the order of insertion; the primary key is
-- (scope, operation_id), so SELECT takes the first row of a key.
use devin_fusion_via_codex.Common.{
  ◌≡◌, refl, Bool, true, false, ◌&&◌, Option, none, some, List, [], ◌∷◌, ◌++◌, String, str_eq,
  eq_iff, if◌then◌else◌, arith,
}

-- The texts that the two files write into the column `status`.
pub data Status : Type 0 where
  executing succeeded failed cancelled outcome_unknown : Status
  preflight_rejected admission_rejected provider_outcome_unknown cancel_unconfirmed : Status

-- `status in _TERMINAL`
abbrev pub is_terminal : Status → Bool
is_terminal succeeded = true
is_terminal failed = true
is_terminal cancelled = true
is_terminal _ = false

pub record Operation : Type 0 where
  pub scope : String
  pub operation_id : String
  pub fingerprint : String
  pub status : Status
  pub result : Option String

abbrev pub has_key : String → String → Operation → Bool
has_key scope operation_id row = str_eq row.scope scope && str_eq row.operation_id operation_id

-- `_fetch`
unfoldable pub fetch : String → String → List Operation → Option Operation
fetch scope operation_id [] = none
fetch scope operation_id (row ∷ rows) =
    if has_key scope operation_id row then some row else fetch scope operation_id rows

-- `_finish`: UPDATE operations SET status, result WHERE scope AND operation_id
unfoldable pub finish : String → String → Status → Option String → List Operation → List Operation
finish scope operation_id status result [] = []
finish scope operation_id status result (row ∷ rows) =
    (if has_key scope operation_id row
      then record row { status = status; result = result }
      else row)
    ∷ finish scope operation_id status result rows

-- INSERT of a new operation
abbrev pub reserve_row : String → String → String → List Operation → List Operation
reserve_row scope operation_id fingerprint rows =
    rows
    ++ record {
      scope = scope;
      operation_id = operation_id;
      fingerprint = fingerprint;
      status = executing;
      result = none;
    }
      ∷ []

-- What `finish` makes of the row of its key.
abbrev pub finished : Status → Option String → Option Operation → Option Operation
finished status result none = none
finished status result (some row) = some (record row { status = status; result = result })

abbrev pub same_key : String → String → String → String → Bool
same_key s o t p = str_eq s t && str_eq o p

abbrev pub or_else {ℓ} : {A : Type ℓ} → Option A → Option A → Option A
or_else none y = y
or_else (some x) y = some x

pub fetch-finish :
    (s o t p : String) (status : Status) (result : Option String) (rows : List Operation)
    → fetch t p (finish s o status result rows)
      ≡ (if same_key s o t p then finished status result (fetch t p rows) else fetch t p rows)
unfolding fetch finish
fetch-finish s o t p status result [] = ground arith
fetch-finish s o t p status result (row ∷ rows) = ground (
  arith,
  fetch-finish s o t p status result rows,
  eq_iff s t,
  eq_iff o p,
  eq_iff row.scope s,
  eq_iff row.scope t,
  eq_iff row.operation_id o,
  eq_iff row.operation_id p,
)

pub fetch-append :
    (t p : String) (rows more : List Operation)
    → fetch t p (rows ++ more) ≡ or_else (fetch t p rows) (fetch t p more)
unfolding fetch
fetch-append t p [] more = refl
fetch-append t p (row ∷ rows) more = ground (arith, fetch-append t p rows more)

-- A row that is found has the key that was asked for.
pub fetch_key :
    (t p : String) (rows : List Operation) (row : Operation)
    → fetch t p rows ≡ some row
    → (row.scope ≡ t) × (row.operation_id ≡ p)
unfolding fetch
fetch_key t p [] row h = cc
fetch_key t p (first ∷ rows) row h =
    ground (arith, fetch_key t p rows row, eq_iff first.scope t, eq_iff first.operation_id p)
