-- ===== src/Ledger/Lane.antt =====
-- fusion_relay/continuation.py: the operations of a scope that are not resolved.
pub mod Single
pub mod Blocked
use devin_fusion_via_codex.Common.{
  ℕ, zero, suc, ◌+◌, ◌≤◌, ◌≡◌, refl, sym, ap, ◌∙◌, ◌≢◌, Bool, true, false, not, ◌&&◌, ◌||◌, Option,
  none, some, List, [], ◌∷◌, ◌++◌, String, str_eq, eq_iff, if◌then◌else◌, Bool-cases, inl, inr,
  arith,
}
use devin_fusion_via_codex.Journal.Rows.{
  Status, succeeded, Operation, fetch, finish, reserve_row, has_key, fetch-append, fetch-finish,
  fetch_key,
}
use devin_fusion_via_codex.Ledger.Binding.{Codec}
use devin_fusion_via_codex.Ledger.State.{
  Ledger, any_status, is_executing, is_unknown, is_unresolved,
}
use devin_fusion_via_codex.Ledger.Reserve.{delete_row, is_none}
use devin_fusion_via_codex.Ledger.Reserve.Admission.{is_rejected, Cleared, absent, rejected}
use devin_fusion_via_codex.Ledger.Epoch.{keep_others}
use devin_fusion_via_codex.Ledger.Steps.Changes.{Unresolved}

unfoldable pub unresolved_count : String → List Operation → ℕ
unresolved_count s [] = 0
unresolved_count s (r ∷ rs) =
    (if str_eq r.scope s && is_unresolved r.status then 1 else 0) + unresolved_count s rs

-- No two rows have one key.
unfoldable pub has_unique_keys : List Operation → Bool
has_unique_keys [] = true
has_unique_keys (r ∷ rs) = is_none (fetch r.scope r.operation_id rs) && has_unique_keys rs

-- Of each scope, one operation at most is unresolved.
pub record IsSingle (rows : List Operation) : Type 0 where
  pub unique : has_unique_keys rows ≡ true
  pub single : (s : String) → unresolved_count s rows ≤ 1

pub finish_absent :
    (s o : String) (status : Status) (result : Option String) (rows : List Operation)
    → fetch s o rows ≡ none
    → finish s o status result rows ≡ rows
unfolding fetch finish
finish_absent s o status result [] h = refl
finish_absent s o status result (r ∷ rs) h = ground (arith, finish_absent s o status result rs)

pub delete_row_absent :
    (s o : String) (rows : List Operation) → fetch s o rows ≡ none → delete_row s o rows ≡ rows
unfolding fetch delete_row
delete_row_absent s o [] h = refl
delete_row_absent s o (r ∷ rs) h = ground (arith, delete_row_absent s o rs)

pub fetch-delete_row :
    (s o t p : String) (rows : List Operation)
    → fetch s o (delete_row t p rows) ≡ (if str_eq s t && str_eq o p then none else fetch s o rows)
unfolding fetch delete_row
fetch-delete_row s o t p [] = ground arith
fetch-delete_row s o t p (r ∷ rs) = ground (
  arith,
  fetch-delete_row s o t p rs,
  eq_iff r.scope s,
  eq_iff r.scope t,
  eq_iff s t,
  eq_iff r.operation_id o,
  eq_iff r.operation_id p,
  eq_iff o p,
)

pub fetch-keep_others :
    (s o t : String) (rows : List Operation)
    → fetch s o (keep_others (λ (r : Operation). r.scope) t rows)
      ≡ (if str_eq s t then none else fetch s o rows)
unfolding fetch keep_others
fetch-keep_others s o t [] = ground arith
fetch-keep_others s o t (r ∷ rs) =
    ground (arith, fetch-keep_others s o t rs, eq_iff r.scope s, eq_iff r.scope t, eq_iff s t)

pub unique-finish :
    (s o : String) (status : Status) (result : Option String) (rows : List Operation)
    → has_unique_keys (finish s o status result rows) ≡ has_unique_keys rows
unfolding has_unique_keys finish
unique-finish s o status result [] = refl
unique-finish s o status result (r ∷ rs) = ground (
  arith,
  unique-finish s o status result rs,
  fetch-finish s o r.scope r.operation_id status result rs,
)

pub unique-append :
    (r : Operation) (rows : List Operation)
    → fetch r.scope r.operation_id rows ≡ none
    → has_unique_keys rows ≡ true
    → has_unique_keys (rows ++ (r ∷ [])) ≡ true
unfolding has_unique_keys fetch
unique-append r [] h k = refl
unique-append r (q ∷ rows) h k = ground (
  arith,
  unique-append r rows,
  fetch-append q.scope q.operation_id rows (r ∷ []),
  eq_iff q.scope r.scope,
  eq_iff q.operation_id r.operation_id,
  eq_iff r.scope q.scope,
  eq_iff r.operation_id q.operation_id,
)

pub unique-delete_row :
    (s o : String) (rows : List Operation)
    → has_unique_keys rows ≡ true
    → has_unique_keys (delete_row s o rows) ≡ true
unfolding has_unique_keys delete_row
unique-delete_row s o [] h = refl
unique-delete_row s o (r ∷ rs) h =
    ground (arith, unique-delete_row s o rs, fetch-delete_row r.scope r.operation_id s o rs)

pub unique-keep_others :
    (s : String) (rows : List Operation)
    → has_unique_keys rows ≡ true
    → has_unique_keys (keep_others (λ (r : Operation). r.scope) s rows) ≡ true
unfolding has_unique_keys keep_others
unique-keep_others s [] h = refl
unique-keep_others s (r ∷ rs) h =
    ground (arith, unique-keep_others s rs, fetch-keep_others r.scope r.operation_id s rs)

pub count-finish :
    (x s o : String) (status : Status) (result : Option String) (rows : List Operation)
    → has_unique_keys rows ≡ true
    → Unresolved s o rows
    → unresolved_count x (finish s o status result rows) ≤ unresolved_count x rows
unfolding has_unique_keys finish unresolved_count fetch
count-finish x s o status result [] h u = absurd (ground (arith, u.found))
count-finish x s o status result (r ∷ rs) h u = elim (Bool-cases (has_key s o r)) [
  | inl e ↦ ground (
    arith,
    u.found,
    u.unresolved,
    finish_absent s o status result rs,
    eq_iff r.scope s,
    eq_iff r.operation_id o,
  )
  | inr e ↦ ground (
    arith,
    count-finish x s o status result rs (ground arith)
        (record { row = u.row; found = ground (arith, u.found); unresolved = u.unresolved }),
  )
]

pub count-append :
    (x : String) (rows : List Operation) (r : Operation)
    → unresolved_count x (rows ++ (r ∷ [])) ≡ unresolved_count x rows + unresolved_count x (r ∷ [])
unfolding unresolved_count
count-append x [] r = ground arith
count-append x (q ∷ rows) r = ground (arith, count-append x rows r)

pub count-delete_row :
    (x s o : String) (rows : List Operation)
    → unresolved_count x (delete_row s o rows) ≤ unresolved_count x rows
unfolding unresolved_count delete_row
count-delete_row x s o [] = ground arith
count-delete_row x s o (r ∷ rs) = ground (arith, count-delete_row x s o rs)

pub count-keep_others :
    (x s : String) (rows : List Operation)
    → unresolved_count x (keep_others (λ (r : Operation). r.scope) s rows) ≤ unresolved_count x rows
unfolding unresolved_count keep_others
count-keep_others x s [] = ground arith
count-keep_others x s (r ∷ rs) = ground (arith, count-keep_others x s rs)

pub count_idle :
    (s : String) (rows : List Operation)
    → any_status is_executing s rows ≡ false
    → any_status is_unknown s rows ≡ false
    → unresolved_count s rows ≡ 0
unfolding unresolved_count any_status
count_idle s [] h k = refl
count_idle s (r ∷ rs) h k = ground (arith, count_idle s rs)

-- A row that is resolved does not count.
pub count-delete_row_same :
    (x s o : String) (rows : List Operation) (row : Operation)
    → has_unique_keys rows ≡ true
    → fetch s o rows ≡ some row
    → is_unresolved row.status ≡ false
    → unresolved_count x (delete_row s o rows) ≡ unresolved_count x rows
unfolding has_unique_keys delete_row unresolved_count fetch
count-delete_row_same x s o [] row h f u = refl
count-delete_row_same x s o (r ∷ rs) row h f u = elim (Bool-cases (has_key s o r)) [
  | inl e ↦ ground (arith, delete_row_absent s o rs, eq_iff r.scope s, eq_iff r.operation_id o)
  | inr e ↦ ground (arith, count-delete_row_same x s o rs row)
]

pub count-finish_resolved :
    (s o : String) (status : Status) (result : Option String) (rows : List Operation)
    → has_unique_keys rows ≡ true
    → Unresolved s o rows
    → is_unresolved status ≡ false
    → suc (unresolved_count s (finish s o status result rows)) ≡ unresolved_count s rows
unfolding has_unique_keys finish unresolved_count fetch
count-finish_resolved s o status result [] h u k = absurd (ground (arith, u.found))
count-finish_resolved s o status result (r ∷ rs) h u k = elim (Bool-cases (has_key s o r)) [
  | inl e ↦ ground (
    arith,
    u.found,
    u.unresolved,
    finish_absent s o status result rs,
    eq_iff r.scope s,
    eq_iff r.operation_id o,
  )
  | inr e ↦ ground (
    arith,
    count-finish_resolved s o status result rs (ground arith)
        (record { row = u.row; found = ground (arith, u.found); unresolved = u.unresolved }),
  )
]
