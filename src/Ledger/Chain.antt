-- ===== src/Ledger/Chain.antt =====
-- fusion_relay/continuation.py: the revisions of a scope's stored turns.
pub mod Steps
use devin_fusion_via_codex.Common.{
  ℕ, zero, suc, ◌+◌, ◌≡◌, refl, sym, ap, ◌∙◌, ◌≢◌, Bool, true, false, not, ◌&&◌, Option, none, some,
  List, [], ◌∷◌, ◌++◌, String, str_eq, eq_iff, ltb, ◌==◌, length, if◌then◌else◌, arith,
}
use devin_fusion_via_codex.Ledger.State.{
  Turn, Head, Ledger, head_of, or_zero, put_head, turns_of, place,
}
use devin_fusion_via_codex.Ledger.Reserve.{evidence}
use devin_fusion_via_codex.Ledger.Accept.{mark_offered, mark_acknowledged}
use devin_fusion_via_codex.Ledger.Epoch.{keep_others}

unfoldable pub revisions : String → List Turn → List ℕ
revisions s [] = []
revisions s (t ∷ ts) =
    let rest = revisions s ts in if str_eq t.scope s then t.revision ∷ rest else rest

-- The numbers from `e` on, `n` of them.
unfoldable pub count_from : ℕ → ℕ → List ℕ
count_from e zero = []
count_from e (suc n) = e ∷ count_from (suc e) n

-- The turns of every scope are numbered from 1 to its head.
unfoldable pub IsChained : Ledger → Type 0
IsChained m = (s : String) → revisions s m.turns ≡ count_from 1 (or_zero (head_of s m.heads))

pub count_from-suc : (e n : ℕ) → count_from e n ++ ((e + n) ∷ []) ≡ count_from e (suc n)
unfolding count_from
count_from-suc e zero = ground arith
count_from-suc e (suc n) =
    ap (λ l. e ∷ l)
      (ap (λ x. count_from (suc e) n ++ (x ∷ [])) (omega arith) ∙ count_from-suc (suc e) n)

-- A turn whose revision follows those of its scope goes after them.
pub revisions-place :
    (t : Turn) (ts : List Turn) (e n : ℕ)
    → revisions t.scope ts ≡ count_from e n
    → t.revision ≡ e + n
    → revisions t.scope (place t ts) ≡ count_from e (suc n)
unfolding revisions place count_from
revisions-place t [] e zero h k = ground (arith, eq_iff t.scope t.scope)
revisions-place t [] e (suc n) h k = absurd (ground arith)
revisions-place t (u ∷ us) e zero h k =
    ground (arith, eq_iff u.scope t.scope, revisions-place t us e zero, eq_iff t.scope t.scope)
revisions-place t (u ∷ us) e (suc n) h k =
    ground (
      arith,
      eq_iff u.scope t.scope,
      revisions-place t us e (suc n),
      revisions-place t us (suc e) n,
    )

pub revisions-place_other :
    (s : String) (t : Turn) (ts : List Turn)
    → t.scope ≢ s
    → revisions s (place t ts) ≡ revisions s ts
unfolding revisions place
revisions-place_other s t [] d = ground (arith, eq_iff t.scope s)
revisions-place_other s t (u ∷ us) d = ground (
  arith,
  eq_iff t.scope s,
  eq_iff u.scope s,
  eq_iff u.scope t.scope,
  revisions-place_other s t us d,
)

pub revisions-evidence :
    (s x : String) (ts : List Turn) → revisions s (evidence x ts) ≡ revisions s ts
unfolding revisions evidence
revisions-evidence s x [] = refl
revisions-evidence s x (t ∷ ts) = ground (arith, revisions-evidence s x ts)

pub revisions-mark_offered :
    (s x o : String) (ts : List Turn) → revisions s (mark_offered x o ts) ≡ revisions s ts
unfolding revisions mark_offered
revisions-mark_offered s x o [] = refl
revisions-mark_offered s x o (t ∷ ts) = ground (arith, revisions-mark_offered s x o ts)

pub revisions-mark_acknowledged :
    (s x o : String) (ts : List Turn) → revisions s (mark_acknowledged x o ts) ≡ revisions s ts
unfolding revisions mark_acknowledged
revisions-mark_acknowledged s x o [] = refl
revisions-mark_acknowledged s x o (t ∷ ts) = ground (arith, revisions-mark_acknowledged s x o ts)

abbrev pub turn_scope : Turn → String
turn_scope t = t.scope

abbrev pub head_scope : Head → String
head_scope h = h.scope

pub revisions-keep_others :
    (s x : String) (ts : List Turn)
    → revisions s (keep_others turn_scope x ts) ≡ (if str_eq x s then [] else revisions s ts)
unfolding revisions keep_others
revisions-keep_others s x [] = ground arith
revisions-keep_others s x (t ∷ ts) =
    ground (arith, revisions-keep_others s x ts, eq_iff t.scope s, eq_iff t.scope x, eq_iff x s)

pub head_of-keep_others :
    (s x : String) (hs : List Head)
    → head_of s (keep_others head_scope x hs) ≡ (if str_eq x s then none else head_of s hs)
unfolding head_of keep_others
head_of-keep_others s x [] = ground arith
head_of-keep_others s x (h ∷ hs) =
    ground (arith, head_of-keep_others s x hs, eq_iff h.scope s, eq_iff h.scope x, eq_iff x s)

pub head_of-put_head :
    (s x : String) (n : ℕ) (hs : List Head)
    → head_of s (put_head x n hs) ≡ (if str_eq x s then some n else head_of s hs)
unfolding head_of put_head
head_of-put_head s x n [] = ground arith
head_of-put_head s x n (h ∷ hs) =
    ground (arith, head_of-put_head s x n hs, eq_iff h.scope s, eq_iff h.scope x, eq_iff x s)

abbrev or_else {ℓ} : {A : Type ℓ} → Option A → Option A → Option A
or_else none y = y
or_else (some x) y = some x

pub head_of-append :
    (s : String) (hs gs : List Head) → head_of s (hs ++ gs) ≡ or_else (head_of s hs) (head_of s gs)
unfolding head_of
head_of-append s [] gs = refl
head_of-append s (h ∷ hs) gs = ground (arith, head_of-append s hs gs)
