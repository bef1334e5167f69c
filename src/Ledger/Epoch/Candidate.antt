-- ===== src/Ledger/Epoch/Candidate.antt =====
-- fusion_relay/continuation.py: `find_carry_candidate`, and that `reserve` takes its history.
use devin_fusion_via_codex.Common.{
  ℕ, zero, suc, ◌+◌, ◌≡◌, refl, sym, ap, ◌∙◌, if_true, if_false, Bool-cases, inl, inr, eq_iff,
  bind-ok, ok-injective, arith, Bool, true, false, not, ◌&&◌, ◌||◌, Option, none, some, List, [],
  ◌∷◌, ◌++◌, String, str_eq, length, take, if◌then◌else◌, Result, ok, err, ◌>>=◌,
}
use mathlib.Core.List.{reverse, reverse-cons}
use devin_fusion_via_codex.Common.Json.{Json}
use devin_fusion_via_codex.Ledger.Binding.{
  ContinuationBinding, LedgerError, Codec, scope_of, malformed_payload,
}
use devin_fusion_via_codex.Ledger.Visible.{visible_items}
use devin_fusion_via_codex.Ledger.State.{
  ScopeBinding, Ledger, Opened, turns, any_status, is_unresolved,
}
use devin_fusion_via_codex.Ledger.Reserve.{Splice, anchor_of, departs, splices, splice_at, is_nil}
use devin_fusion_via_codex.Ledger.Epoch.{same_lane}

-- `_history_matches`
unfoldable pub history_matches : List Json → ℕ → List Opened → Result LedgerError Bool
history_matches history last [] = ok true
history_matches history last (t ∷ ts) = do
  anchor ← anchor_of t.input
  shown ← visible_items t.output
  rest ←
      (if departs history last anchor shown
        then ok false
        else history_matches history (length anchor + length shown) ts)
  ok rest

-- WHERE account AND lane AND profile AND scope != ?
unfoldable pub candidates : String → ContinuationBinding → List ScopeBinding → List ScopeBinding
candidates s b [] = []
candidates s b (r ∷ rs) =
    let rest = candidates s b rs in
    if same_lane r.binding b && not (str_eq r.scope s) then r ∷ rest else rest

-- The stored payload of another kind has no such key, which is a `KeyError`.
abbrev is_continuation_error : LedgerError → Bool
is_continuation_error malformed_payload = false
is_continuation_error _ = true

module _ (c : Codec) where
  -- A candidate whose stored turns cannot be opened is passed over: `except ContinuationError`.
  matches_opened : List Json → Result LedgerError (List Opened) → Result LedgerError Bool
  matches_opened history (err e) = if is_continuation_error e then ok false else err e
  matches_opened history (ok opened) =
      if is_nil opened then ok false else history_matches history 0 opened

  is_candidate : List Json → ScopeBinding → Ledger → Result LedgerError Bool
  unfolding matches_opened
  is_candidate history r m = do
    scope ← scope_of c r.binding
    (if not (str_eq scope r.scope) || any_status is_unresolved r.scope m.operations
        then ok false
        else matches_opened history (turns c r.scope m))

  first_candidate :
      List Json → List ScopeBinding → Ledger → Result LedgerError (Option ContinuationBinding)
  unfolding is_candidate
  first_candidate history [] m = ok none
  first_candidate history (r ∷ rs) m =
      let rest = first_candidate history rs m in
      is_candidate history r m >>= λ found. if found then ok (some r.binding) else rest

  unfoldable pub find_carry_candidate :
      ContinuationBinding → List Json → ℕ → Ledger → Result LedgerError (Option ContinuationBinding)
  unfolding first_candidate
  find_carry_candidate b history limit m = do
    scope ← scope_of c b
    first_candidate history (take limit (reverse (candidates scope b m.bindings))) m

splices_next :
    (history : List Json) (last : ℕ) (t : Opened) (ts : List Opened) (anchor shown : List Json)
    (rs : List Splice)
    → anchor_of t.input ≡ ok anchor
    → visible_items t.output ≡ ok shown
    → departs history last anchor shown ≡ false
    → splices history (length anchor + length shown) ts ≡ ok rs
    → splices history last (t ∷ ts) ≡ ok (splice_at anchor shown t.output ∷ rs)
unfolding splices
splices_next history last t ts anchor shown rs e1 e2 e3 e4 = rw (e1, e2, e3, e4) refl

-- Where `_history_matches` holds, the check of `reserve` passes.
history_matches-splices :
    (history : List Json) (last : ℕ) (ts : List Opened)
    → history_matches history last ts ≡ ok true
    → (rs : List Splice) × (splices history last ts ≡ ok rs)
unfolding history_matches splices
history_matches-splices history last [] h = ([], refl)
history_matches-splices history last (t ∷ ts) h =
    let (anchor, e1, h1) = bind-ok (anchor_of t.input) _ h in
    let (shown, e2, h2) = bind-ok (visible_items t.output) _ h1 in
    let (rest, e3, h3) =
      bind-ok
        (if departs history last anchor shown
          then ok false
          else history_matches history (length anchor + length shown) ts)
        _ h2 in
    let matched = e3 ∙ h3 in
    elim (Bool-cases (departs history last anchor shown)) [
      | inl e ↦ absurd (ground arith)
      | inr e ↦
          let (rs, k) =
            history_matches-splices history (length anchor + length shown) ts
              (sym (if_false _ _ e) ∙ matched) in
          (
            splice_at anchor shown t.output ∷ rs,
            splices_next history last t ts anchor shown rs e1 e2 e k,
          )
    ]

unfoldable all_rows : (ScopeBinding → Bool) → List ScopeBinding → Bool
all_rows p [] = true
all_rows p (r ∷ rs) = p r && all_rows p rs

module _ (p : ScopeBinding → Bool) where
  all_rows-append :
      (rs ss : List ScopeBinding) → all_rows p (rs ++ ss) ≡ all_rows p rs && all_rows p ss
  unfolding all_rows
  all_rows-append [] ss = refl
  all_rows-append (r ∷ rs) ss = ground (arith, all_rows-append rs ss)

  all_rows-reverse :
      (rs : List ScopeBinding) → all_rows p rs ≡ true → all_rows p (reverse rs) ≡ true
  unfolding all_rows
  all_rows-reverse [] h = refl
  all_rows-reverse (r ∷ rs) h =
      rw (reverse-cons r rs, all_rows-append (reverse rs) (r ∷ []))
        (ground (arith, all_rows-reverse rs))

  all_rows-take :
      (n : ℕ) (rs : List ScopeBinding) → all_rows p rs ≡ true → all_rows p (take n rs) ≡ true
  unfolding all_rows
  all_rows-take zero [] h = refl
  all_rows-take (suc n) [] h = refl
  all_rows-take zero (r ∷ rs) h = refl
  all_rows-take (suc n) (r ∷ rs) h = ground (arith, all_rows-take n rs)

abbrev is_other : String → ContinuationBinding → ScopeBinding → Bool
is_other s b r = same_lane r.binding b && not (str_eq r.scope s)

all_rows-candidates :
    (s : String) (b : ContinuationBinding) (rs : List ScopeBinding)
    → all_rows (is_other s b) (candidates s b rs) ≡ true
unfolding all_rows candidates
all_rows-candidates s b [] = refl
all_rows-candidates s b (r ∷ rs) = elim (Bool-cases (is_other s b r)) [
  | inl e ↦ rw (e) (ground (arith, all_rows-candidates s b rs))
  | inr e ↦ rw (e) (all_rows-candidates s b rs)
]

abbrev or_binding : ContinuationBinding → Option ContinuationBinding → ContinuationBinding
or_binding d none = d
or_binding d (some b) = b

-- What `find_carry_candidate` found.
pub record IsCarryable (c : Codec) (b : ContinuationBinding) (history : List Json) (m : Ledger)
    (d : ContinuationBinding) : Type 0 where
  pub own : String
  pub scope : String
  pub opened : List Opened
  pub splices_found : List Splice
  pub owned : scope_of c b ≡ ok own
  pub scoped : scope_of c d ≡ ok scope
  pub lane : same_lane d b ≡ true
  pub other : str_eq scope own ≡ false
  pub settled : any_status is_unresolved scope m.operations ≡ false
  pub opens : turns c scope m ≡ ok opened
  pub stored : is_nil opened ≡ false
  pub accepted : splices history 0 opened ≡ ok splices_found

module _ (c : Codec) (b : ContinuationBinding) (history : List Json) (m : Ledger) where
  matches_opened-splices :
      (r : Result LedgerError (List Opened))
      → matches_opened c history r ≡ ok true
      → (opened : List Opened) × (rs : List Splice) × (r ≡ ok opened)
        × (is_nil opened ≡ false)
        × (splices history 0 opened ≡ ok rs)
  unfolding matches_opened
  matches_opened-splices (err e) h = elim (Bool-cases (is_continuation_error e)) [
    | inl f ↦ absurd (ground (arith, sym (if_true _ _ f) ∙ h))
    | inr f ↦ absurd (ground (arith, sym (if_false _ _ f) ∙ h))
  ]
  matches_opened-splices (ok []) h = absurd (ground arith)
  matches_opened-splices (ok (t ∷ ts)) h =
      let (rs, k) = history_matches-splices history 0 (t ∷ ts) h in (t ∷ ts, rs, refl, refl, k)

  is_candidate-IsCarryable :
      (own : String) (r : ScopeBinding)
      → scope_of c b ≡ ok own
      → is_other own b r ≡ true
      → is_candidate c history r m ≡ ok true
      → IsCarryable c b history m r.binding
  unfolding is_candidate
  is_candidate-IsCarryable own r e o h =
      let (scope, e1, h1) = bind-ok (scope_of c r.binding) _ h in
      elim (Bool-cases
        (not (str_eq scope r.scope) || any_status is_unresolved r.scope m.operations)) [
          | inl f ↦ absurd (ground (arith, sym (if_true _ _ f) ∙ h1))
          | inr f ↦
              let (opened, rs, k, n, s) =
                matches_opened-splices (turns c r.scope m) (sym (if_false _ _ f) ∙ h1) in
              let same : scope ≡ r.scope = ground (arith, eq_iff scope r.scope) in
              record {
                own = own;
                scope = r.scope;
                opened = opened;
                splices_found = rs;
                owned = e;
                scoped = e1 ∙ ap ok same;
                lane = ground arith;
                other = ground arith;
                settled = ground arith;
                opens = k;
                stored = n;
                accepted = s;
              }
        ]

  candidate_is :
      (r : ScopeBinding) (d : ContinuationBinding)
      → some r.binding ≡ some d
      → IsCarryable c b history m r.binding
      → IsCarryable c b history m d
  candidate_is r d same k =
      rw (← (ap (λ (x : Option ContinuationBinding). or_binding r.binding x) same)) k

  first_candidate-IsCarryable :
      (own : String) (rs : List ScopeBinding) (d : ContinuationBinding)
      → scope_of c b ≡ ok own
      → all_rows (is_other own b) rs ≡ true
      → first_candidate c history rs m ≡ ok (some d)
      → IsCarryable c b history m d
  unfolding first_candidate all_rows
  first_candidate-IsCarryable own [] d e o h = absurd (ground arith)
  first_candidate-IsCarryable own (r ∷ rs) d e o h =
      let (found, e1, h1) = bind-ok (is_candidate c history r m) _ h in
      elim (Bool-cases found) [
        | inl f ↦
            candidate_is r d (ok-injective (sym (if_true _ _ f) ∙ h1))
              (is_candidate-IsCarryable own r e (ground arith) (e1 ∙ ap ok f))
        | inr f ↦ first_candidate-IsCarryable own rs d e (ground arith) (sym (if_false _ _ f) ∙ h1)
      ]

  -- A binding that find_carry_candidate gives is of the same account, lane and profile and of another
  -- scope, in which nothing is unresolved; its stored turns can be opened, there are some, and the
  -- history passes the check that reserve makes of it against them.
  pub find_carry_candidate-IsCarryable :
      (limit : ℕ) (d : ContinuationBinding)
      → find_carry_candidate c b history limit m ≡ ok (some d)
      → IsCarryable c b history m d
  unfolding find_carry_candidate
  find_carry_candidate-IsCarryable limit d h =
      let (own, e, h1) = bind-ok (scope_of c b) _ h in
      first_candidate-IsCarryable own (take limit (reverse (candidates own b m.bindings))) d e
        (all_rows-take (is_other own b) limit (reverse (candidates own b m.bindings)) (
          all_rows-reverse (is_other own b) (candidates own b m.bindings)
            (all_rows-candidates own b m.bindings)))
        h1
