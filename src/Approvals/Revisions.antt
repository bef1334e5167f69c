-- ===== src/Approvals/Revisions.antt =====
-- fusion_relay/approvals.py: the revision counters, seen as a level that only grows.
use devin_fusion_via_codex.Common.{
  ℕ, zero, suc, ◌+◌, ◌≤◌, ◌<◌, ◌≡◌, true, false, ◌&&◌, Bool-cases, Option-cases, inl, inr, Option,
  none, some, List, [], ◌∷◌, ◌++◌, String, str_eq, eq_iff, eq_refl, arith,
}
use mathlib.Core.Bool.{false≢true}
use devin_fusion_via_codex.Approvals.Manager.{
  Manager, Entry, Grant, Counter, counter_of, revision, set_counter, default_counter,
}
use devin_fusion_via_codex.Approvals.Revoke.{
  Key, covers, bump, targets, counter_targets, ticket_targets, grant_targets, named_target, add_key,
  has_key,
}

-- One more than the counter's value, 0 without a counter.
abbrev pub level_of : Option ℕ → ℕ
level_of none = 0
level_of (some n) = suc n

unfoldable pub level : String → String → List Counter → ℕ
level s a cs = level_of (counter_of s a cs)

pub revision-level :
    (s a : String) (cs : List Counter) (r : ℕ) → suc r ≡ level s a cs → revision s a cs ≡ r
unfolding revision level
revision-level s a cs r h = elim (Option-cases (counter_of s a cs)) [
  | inl e ↦ ground arith
  | inr (v, e) ↦ ground arith
]

pub revision-above :
    (s a : String) (cs : List Counter) (r : ℕ) → suc r < level s a cs → r < revision s a cs
unfolding revision level
revision-above s a cs r h = elim (Option-cases (counter_of s a cs)) [
  | inl e ↦ ground arith
  | inr (v, e) ↦ ground arith
]

pub revision-below : (s a : String) (cs : List Counter) → level s a cs < suc (suc (revision s a cs))
unfolding revision level
revision-below s a cs = elim (Option-cases (counter_of s a cs)) [
  | inl e ↦ ground arith
  | inr (v, e) ↦ ground arith
]

level-set_same :
    (s a : String) (v : ℕ) (cs : List Counter) → level s a (set_counter s a v cs) ≡ suc v
unfolding set_counter level
level-set_same s a v [] = ground (arith, eq_refl s, eq_refl a)
level-set_same s a v (c ∷ cs) = ground (arith, level-set_same s a v cs)

level-set_other :
    (s a t b : String) (v : ℕ) (cs : List Counter)
    → str_eq t s && str_eq b a ≡ false
    → level s a (set_counter t b v cs) ≡ level s a cs
unfolding set_counter level
level-set_other s a t b v [] h = ground arith
level-set_other s a t b v (c ∷ cs) h = ground (
  arith,
  level-set_other s a t b v cs h,
  eq_iff t s,
  eq_iff b a,
  eq_iff c.session s,
  eq_iff c.app a,
  eq_iff c.session t,
  eq_iff c.app b,
)

-- `set_counter` to one more than the revision.
pub level-raise :
    (s a t b : String) (cs : List Counter)
    → level s a cs ≤ level s a (set_counter t b (revision t b cs + 1) cs)
level-raise s a t b cs = elim (Bool-cases (str_eq t s && str_eq b a)) [
  | inl h ↦ ground (
    arith,
    eq_iff t s,
    eq_iff b a,
    level-set_same s a (revision s a cs + 1) cs,
    revision-below s a cs,
  )
  | inr h ↦ ground (arith, level-set_other s a t b (revision t b cs + 1) cs h)
]

pub level-bump :
    (s a : String) (ks : List Key) (cs : List Counter) → level s a cs ≤ level s a (bump ks cs)
unfolding bump
level-bump s a [] cs = ground arith
level-bump s a ((t, b) ∷ ks) cs =
    ground
      (arith, level-raise s a t b cs, level-bump s a ks (set_counter t b (revision t b cs + 1) cs))

pub level-bump_target :
    (s a : String) (ks : List Key) (cs : List Counter)
    → has_key s a ks ≡ true
    → suc zero ≤ level s a cs
    → level s a cs < level s a (bump ks cs)
unfolding bump has_key
level-bump_target s a [] cs h l = absurd (false≢true h)
level-bump_target s a ((t, b) ∷ ks) cs h l = elim (Bool-cases (str_eq t s && str_eq b a)) [
  | inl e ↦ ground (
    arith,
    eq_iff t s,
    eq_iff b a,
    level-set_same s a (revision s a cs + 1) cs,
    revision-below s a cs,
    level-bump s a ks (set_counter s a (revision s a cs + 1) cs),
  )
  | inr e ↦ ground (
    arith,
    level-set_other s a t b (revision t b cs + 1) cs e,
    level-bump_target s a ks (set_counter t b (revision t b cs + 1) cs),
  )
]

counter-append :
    (s a : String) (c : Counter) (cs : List Counter)
    → level_of (counter_of s a cs) ≤ level_of (counter_of s a (cs ++ c ∷ []))
counter-append s a c [] = ground arith
counter-append s a c (d ∷ cs) = ground (arith, counter-append s a c cs)

counter-append_new :
    (s a : String) (cs : List Counter)
    → counter_of s a cs ≡ none
    → counter_of s a (cs ++ record { session = s; app = a; value = 1 } ∷ []) ≡ some 1
counter-append_new s a [] h = ground (arith, eq_refl s, eq_refl a)
counter-append_new s a (d ∷ cs) h = ground (arith, counter-append_new s a cs)

pub level-default :
    (s a t b : String) (cs : List Counter) → level s a cs ≤ level s a (default_counter t b cs)
unfolding default_counter level
level-default s a t b cs = elim (Option-cases (counter_of t b cs)) [
  | inl e ↦ ground (arith, counter-append s a (record { session = t; app = b; value = 1 }) cs)
  | inr (v, e) ↦ ground arith
]

pub level-default_same :
    (s a : String) (cs : List Counter)
    → level s a (default_counter s a cs) ≡ suc (revision s a (default_counter s a cs))
unfolding default_counter level revision
level-default_same s a cs = elim (Option-cases (counter_of s a cs)) [
  | inl e ↦ ground (arith, counter-append_new s a cs e)
  | inr (v, e) ↦ ground arith
]

add_key-keeps :
    (s a t b : String) (ks : List Key) → has_key s a ks ≡ true → has_key s a (add_key t b ks) ≡ true
unfolding add_key has_key
add_key-keeps s a t b ks h = ground arith

add_key-adds : (s a : String) (ks : List Key) → has_key s a (add_key s a ks) ≡ true
unfolding add_key has_key
add_key-adds s a ks = ground (arith, eq_refl s, eq_refl a)

counter_targets-covers :
    (session : String) (app : Option String) (s a : String) (cs : List Counter)
    → covers session app s a ≡ true
    → suc zero ≤ level s a cs
    → has_key s a (counter_targets session app cs) ≡ true
unfolding counter_targets level
counter_targets-covers session app s a [] h l = ground arith
counter_targets-covers session app s a (c ∷ cs) h l =
    elim (Bool-cases (str_eq c.session s && str_eq c.app a)) [
      | inl e ↦ ground (
        arith,
        eq_iff c.session s,
        eq_iff c.app a,
        add_key-adds s a (counter_targets session app cs),
      )
      | inr e ↦ ground (
        arith,
        counter_targets-covers session app s a cs h,
        add_key-keeps s a c.session c.app (counter_targets session app cs),
      )
    ]

ticket_targets-keeps :
    (session : String) (app : Option String) (s a : String) (es : List Entry) (ks : List Key)
    → has_key s a ks ≡ true
    → has_key s a (ticket_targets session app es ks) ≡ true
unfolding ticket_targets
ticket_targets-keeps session app s a [] ks h = h
ticket_targets-keeps session app s a (e ∷ es) ks h = ground (
  arith,
  ticket_targets-keeps session app s a es ks h,
  add_key-keeps s a e.ticket.scope.session e.ticket.scope.app (ticket_targets session app es ks),
)

grant_targets-keeps :
    (session : String) (app : Option String) (s a : String) (gs : List Grant) (ks : List Key)
    → has_key s a ks ≡ true
    → has_key s a (grant_targets session app gs ks) ≡ true
unfolding grant_targets
grant_targets-keeps session app s a [] ks h = h
grant_targets-keeps session app s a (g ∷ gs) ks h = ground (
  arith,
  grant_targets-keeps session app s a gs ks h,
  add_key-keeps s a g.session g.app (grant_targets session app gs ks),
)

named_target-keeps :
    (session : String) (app : Option String) (s a : String) (ks : List Key)
    → has_key s a ks ≡ true
    → has_key s a (named_target session app ks) ≡ true
unfolding named_target
named_target-keeps session none s a ks h = h
named_target-keeps session (some app) s a ks h = add_key-keeps s a session app ks h

-- A known scope that a revocation covers is one of its targets.
pub targets-covers :
    (session : String) (app : Option String) (s a : String) (m : Manager)
    → covers session app s a ≡ true
    → suc zero ≤ level s a m.revisions
    → has_key s a (targets session app m) ≡ true
unfolding targets
targets-covers session app s a m h l = named_target-keeps session app s a _ (
    grant_targets-keeps session app s a m.grants _ (
      ticket_targets-keeps session app s a m.tickets _
        (counter_targets-covers session app s a m.revisions h l)))
