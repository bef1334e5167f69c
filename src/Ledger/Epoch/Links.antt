-- ===== src/Ledger/Epoch/Links.antt =====
-- fusion_relay/continuation.py: the chain that `epoch_chain` gives, against the table of transitions.
use devin_fusion_via_codex.Common.{
  ℕ, zero, suc, ◌≤◌, ◌≡◌, refl, sym, ap, ◌∙◌, Bool, true, false, not, ◌&&◌, ◌||◌, none, some,
  Option-cases, List, [], ◌∷◌, ◌++◌, length, String, str_eq, eq_iff, Bool-cases, inl, inr, ok,
  raise_if, bind-ok, ok-injective, arith,
}
use devin_fusion_via_codex.Ledger.Binding.{ContinuationBinding, Codec, scope_of, chain_invalid}
use devin_fusion_via_codex.Ledger.State.{Transition, Ledger}
use devin_fusion_via_codex.Ledger.Epoch.{newest, mem_text, follow, epoch_chain}
use devin_fusion_via_codex.Ledger.Epoch.Walk.{
  in_epoch, Walk, ends, goes, follow-Walk, follow_end, follow_on, follow_zero,
}

-- A row of the transitions is from the scope.
unfoldable pub leaves : String → List Transition → Bool
leaves s [] = false
leaves s (t ∷ ts) = str_eq t.from_scope s || leaves s ts

-- `t` is a row from the scope, and no row behind it is.
pub record IsNewest (s : String) (ts : List Transition) (t : Transition) : Type 0 where
  pub before : List Transition
  pub after : List Transition
  pub split : ts ≡ before ++ t ∷ after
  pub from : t.from_scope ≡ s
  pub last : leaves s after ≡ false

-- Each binding is the one before it in the epoch, and of the scope, that the newest row from the scope
-- of the one before leads to; no row is from the scope of the last.
pub data Links (c : Codec) (m : Ledger)
    : ContinuationBinding → List ContinuationBinding → Type 0 where
  stays :
      {b : ContinuationBinding} (s : String)
      → scope_of c b ≡ ok s
      → leaves s m.transitions ≡ false
      → Links c m b []
  leads :
      {b : ContinuationBinding} {ds : List ContinuationBinding} (s : String) (t : Transition)
      → scope_of c b ≡ ok s
      → IsNewest s m.transitions t
      → scope_of c (in_epoch t.to_epoch b) ≡ ok t.to_scope
      → Links c m (in_epoch t.to_epoch b) ds
      → Links c m b (in_epoch t.to_epoch b ∷ ds)

-- The scopes of the bindings.
pub data Scopes (c : Codec) : List ContinuationBinding → List String → Type 0 where
  no_scopes : Scopes c [] []
  a_scope :
      {b : ContinuationBinding} {bs : List ContinuationBinding} {s : String} {ss : List String}
      → scope_of c b ≡ ok s
      → Scopes c bs ss
      → Scopes c (b ∷ bs) (s ∷ ss)

unfoldable pub is_distinct : List String → Bool
is_distinct [] = true
is_distinct (s ∷ ss) = not (mem_text s ss) && is_distinct ss

unfoldable disjoint : List String → List String → Bool
disjoint [] seen = true
disjoint (s ∷ ss) seen = not (mem_text s seen) && disjoint ss seen

newest-leaves : (s : String) (ts : List Transition) → newest s ts ≡ none → leaves s ts ≡ false
unfolding newest leaves
newest-leaves s [] h = refl
newest-leaves s (t ∷ ts) h = elim (Option-cases (newest s ts)) [
  | inl e ↦ ground (arith, newest-leaves s ts e)
  | inr (later, e) ↦ absurd (ground (arith, e))
]

newest-IsNewest :
    (s : String) (ts : List Transition) (t : Transition) → newest s ts ≡ some t → IsNewest s ts t
unfolding newest
newest-IsNewest s [] t h = absurd (ground arith)
newest-IsNewest s (q ∷ ts) t h = elim (Option-cases (newest s ts)) [
  | inr (later, e) ↦
      let k = newest-IsNewest s ts t (e ∙ (rw e at h)) in
      record {
        before = q ∷ k.before;
        after = k.after;
        split = ap (λ l. q ∷ l) k.split;
        from = k.from;
        last = k.last;
      }
  | inl e ↦ elim (Bool-cases (str_eq q.from_scope s)) [
    | inl f ↦
        let same : q ≡ t = ground (arith, e) in
        record {
          before = [];
          after = ts;
          split = ap (λ x. x ∷ ts) same;
          from =
              ap (λ (x : Transition). x.from_scope) (sym same)
              ∙ ground (arith, eq_iff q.from_scope s);
          last = newest-leaves s ts e;
        }
    | inr f ↦ absurd (ground (arith, e))
  ]
]

disjoint-cons :
    (x : String) (xs seen : List String)
    → disjoint xs (x ∷ seen) ≡ true
    → (mem_text x xs ≡ false) × (disjoint xs seen ≡ true)
unfolding disjoint mem_text
disjoint-cons x [] seen h = (refl, refl)
disjoint-cons x (y ∷ ys) seen h =
    let rest = disjoint-cons x ys seen (ground arith) in
    (ground (arith, rest.0, eq_iff x y, eq_iff y x), ground (arith, rest.1))

module _ (c : Codec) (m : Ledger) where
  Walk-Links :
      (seen : List String) (b : ContinuationBinding) (ds : List ContinuationBinding)
      → Walk c m seen b ds
      → Links c m b ds
  Walk-Links seen b ds (ends s e h) = stays s e (newest-leaves s m.transitions h)
  Walk-Links seen b ds (goes {ds = rest} s x t e f g k l w) =
      leads s t e (newest-IsNewest s m.transitions t f) (g ∙ ap ok k)
        (Walk-Links (x ∷ seen) (in_epoch t.to_epoch b) rest w)

  Walk-Scopes :
      (seen : List String) (b : ContinuationBinding) (ds : List ContinuationBinding)
      → Walk c m seen b ds
      → (xs : List String) × Scopes c ds xs × (is_distinct xs ≡ true) × (disjoint xs seen ≡ true)
  unfolding is_distinct disjoint
  Walk-Scopes seen b ds (ends s e h) = ([], no_scopes, refl, refl)
  Walk-Scopes seen b ds (goes {ds = rest} s x t e f g k l w) =
      let (xs, scopes, distinct, apart) = Walk-Scopes (x ∷ seen) (in_epoch t.to_epoch b) rest w in
      let split = disjoint-cons x xs seen apart in
      (x ∷ xs, a_scope g scopes, ground (arith, split.0), ground (arith, split.1))

  follow-length :
      (rounds : ℕ) (b : ContinuationBinding) (s : String) (seen : List String)
      (ds : List ContinuationBinding)
      → follow c rounds b s seen m ≡ ok ds
      → suc (length ds) ≤ rounds
  follow-length zero b s seen ds h = absurd (ground (arith, follow_zero c m b s seen ds))
  follow-length (suc rounds) b s seen ds h = elim (Option-cases (newest s m.transitions)) [
    | inl last ↦
        let none_left = ok-injective (sym (follow_end c m rounds b s seen last) ∙ h) in
        rw (← none_left) (omega arith)
    | inr (t, found) ↦
        let (scope, e1, h1) =
          bind-ok (scope_of c (in_epoch t.to_epoch b)) _
            (sym (follow_on c m rounds b s seen t found) ∙ h) in
        let (u, e2, h2) =
          bind-ok (raise_if (mem_text scope seen || not (str_eq scope t.to_scope)) chain_invalid) _
            h1 in
        let (rest, e3, h3) =
          bind-ok (follow c rounds (in_epoch t.to_epoch b) scope (scope ∷ seen) m) _ h2 in
        let shorter = follow-length rounds (in_epoch t.to_epoch b) scope (scope ∷ seen) rest e3 in
        rw (← (ok-injective h3)) (omega (arith, shorter))
  ]

-- The chain from a binding in a ledger.
pub record IsChain (c : Codec) (m : Ledger) (b : ContinuationBinding)
    (chain : List ContinuationBinding) : Type 0 where
  pub rest : List ContinuationBinding
  pub scopes : List String
  pub starts : chain ≡ b ∷ rest
  pub links : Links c m b rest
  pub scoped : Scopes c chain scopes
  pub distinct : is_distinct scopes ≡ true
  pub bounded : length chain ≤ 1024

module _ (c : Codec) (m : Ledger) where
  -- A chain that epoch_chain gives starts with its binding; each next binding is the one before in the
  -- epoch that the last recorded transition from its scope names, and is of the scope that it names; no
  -- transition was recorded from the scope of the last; no two have one scope; and there are 1024 at
  -- most.
  pub epoch_chain-IsChain :
      (b : ContinuationBinding) (chain : List ContinuationBinding)
      → epoch_chain c b m ≡ ok chain
      → IsChain c m b chain
  unfolding epoch_chain is_distinct
  epoch_chain-IsChain b chain h =
      let (s, e, h1) = bind-ok (scope_of c b) _ h in
      let (rest, e2, h2) = bind-ok (follow c 1024 b s (s ∷ []) m) _ h1 in
      let same = ok-injective h2 in
      let walk = follow-Walk c m 1024 b s (s ∷ []) rest e e2 in
      let (xs, scopes, distinct, apart) = Walk-Scopes c m (s ∷ []) b rest walk in
      let split = disjoint-cons s xs [] apart in
      let short = follow-length c m 1024 b s (s ∷ []) rest e2 in
      rw (← same) record {
        rest = rest;
        scopes = s ∷ xs;
        starts = refl;
        links = Walk-Links c m (s ∷ []) b rest walk;
        scoped = a_scope e scopes;
        distinct = ground (arith, split.0);
        bounded = omega (arith, short);
      }
