-- ===== src/Ledger/Epoch/Walk.antt =====
-- fusion_relay/continuation.py: where `epoch_chain` and `resolve_epoch` lead.
use devin_fusion_via_codex.Common.{
  ℕ, zero, suc, ◌≡◌, refl, sym, ◌∙◌, true, false, not, ◌||◌, none, some, Option-cases, List, [],
  ◌∷◌, String, str_eq, eq_iff, inl, inr, ok, raise_if, ◌>>=◌, ◌>>◌, bind-ok, raised, ok-injective,
  arith,
}
use devin_fusion_via_codex.Ledger.Binding.{ContinuationBinding, Codec, scope_of, chain_invalid}
use devin_fusion_via_codex.Ledger.State.{Transition, Ledger}
use devin_fusion_via_codex.Ledger.Epoch.{
  newest, mem_text, follow, epoch_chain, resolve_epoch, last_of,
}

-- `b` in another epoch.
abbrev pub in_epoch : String → ContinuationBinding → ContinuationBinding
in_epoch epoch b = record b { epoch = epoch }

-- The bindings behind `b`: each is where the newest transition from the one before leads, no scope
-- is one of `seen`, which grows, and from the last there is no transition.
pub data Walk (c : Codec) (m : Ledger)
    : List String → ContinuationBinding → List ContinuationBinding → Type 0 where
  ends :
      {seen : List String} {b : ContinuationBinding} (s : String)
      → scope_of c b ≡ ok s
      → newest s m.transitions ≡ none
      → Walk c m seen b []
  goes :
      {seen : List String} {b : ContinuationBinding} {ds : List ContinuationBinding} (s x : String)
      (t : Transition)
      → scope_of c b ≡ ok s
      → newest s m.transitions ≡ some t
      → scope_of c (in_epoch t.to_epoch b) ≡ ok x
      → x ≡ t.to_scope
      → mem_text x seen ≡ false
      → Walk c m (x ∷ seen) (in_epoch t.to_epoch b) ds
      → Walk c m seen b (in_epoch t.to_epoch b ∷ ds)

module _ (c : Codec) (m : Ledger) where
  pub follow_end :
      (rounds : ℕ) (b : ContinuationBinding) (s : String) (seen : List String)
      → newest s m.transitions ≡ none
      → follow c (suc rounds) b s seen m ≡ ok []
  unfolding follow
  follow_end rounds b s seen e = rw (follow, e) refl

  pub follow_on :
      (rounds : ℕ) (b : ContinuationBinding) (s : String) (seen : List String) (t : Transition)
      → newest s m.transitions ≡ some t
      → follow c (suc rounds) b s seen m ≡ (do
        scope' ← scope_of c (in_epoch t.to_epoch b)
        raise_if (mem_text scope' seen || not (str_eq scope' t.to_scope)) chain_invalid
        rest ← follow c rounds (in_epoch t.to_epoch b) scope' (scope' ∷ seen) m
        ok (in_epoch t.to_epoch b ∷ rest))
  unfolding follow
  follow_on rounds b s seen t e = rw (follow, e) refl

  pub follow_zero :
      (b : ContinuationBinding) (s : String) (seen : List String) (ds : List ContinuationBinding)
      → follow c 0 b s seen m ≡ ok ds
      → true ≡ false
  unfolding follow
  follow_zero b s seen ds h = absurd (ground arith)

  pub follow-Walk :
      (rounds : ℕ) (b : ContinuationBinding) (s : String) (seen : List String)
      (ds : List ContinuationBinding)
      → scope_of c b ≡ ok s
      → follow c rounds b s seen m ≡ ok ds
      → Walk c m seen b ds
  follow-Walk zero b s seen ds e h = absurd (ground (arith, follow_zero b s seen ds))
  follow-Walk (suc rounds) b s seen ds e h = elim (Option-cases (newest s m.transitions)) [
    | inl last ↦ rw (← (ok-injective (sym (follow_end rounds b s seen last) ∙ h))) (ends s e last)
    | inr (t, found) ↦
        let (scope, e1, h1) =
          bind-ok (scope_of c (in_epoch t.to_epoch b)) _
            (sym (follow_on rounds b s seen t found) ∙ h) in
        let (u, e2, h2) =
          bind-ok (raise_if (mem_text scope seen || not (str_eq scope t.to_scope)) chain_invalid) _
            h1 in
        let (rest, e3, h3) =
          bind-ok (follow c rounds (in_epoch t.to_epoch b) scope (scope ∷ seen) m) _ h2 in
        let walk = follow-Walk rounds (in_epoch t.to_epoch b) scope (scope ∷ seen) rest e1 e3 in
        rw (← (ok-injective h3)) (
          goes s scope t e found e1 (ground (arith, raised _ _ u e2, eq_iff scope t.to_scope))
            (ground (arith, raised _ _ u e2)) walk)
  ]

  -- `epoch_chain` leads from its binding, its first element, along the newest transition of each scope
  -- to one that has none, and meets no scope twice.
  pub epoch_chain-Walk :
      (b : ContinuationBinding) (chain : List ContinuationBinding)
      → epoch_chain c b m ≡ ok chain
      → (s : String) × (rest : List ContinuationBinding) × (scope_of c b ≡ ok s)
        × (chain ≡ b ∷ rest)
        × Walk c m (s ∷ []) b rest
  unfolding epoch_chain
  epoch_chain-Walk b chain h =
      let (s, e, h1) = bind-ok (scope_of c b) _ h in
      let (rest, e2, h2) = bind-ok (follow c 1024 b s (s ∷ []) m) _ h1 in
      (s, rest, e, sym (ok-injective h2), follow-Walk 1024 b s (s ∷ []) rest e e2)

  Walk-last :
      (seen : List String) (b : ContinuationBinding) (ds : List ContinuationBinding)
      → Walk c m seen b ds
      → (s : String) × (scope_of c (last_of c b ds) ≡ ok s) × (newest s m.transitions ≡ none)
  unfolding last_of
  Walk-last seen b ds (ends s e h) = (s, e, h)
  Walk-last seen b ds (goes {ds = rest} s x t e f g k l w) =
      Walk-last (x ∷ seen) (in_epoch t.to_epoch b) rest w

  -- `resolve_epoch` leads to a binding from whose scope no transition was recorded.
  pub resolve_epoch_last :
      (b d : ContinuationBinding)
      → resolve_epoch c b m ≡ ok d
      → (s : String) × (scope_of c d ≡ ok s) × (newest s m.transitions ≡ none)
  unfolding resolve_epoch last_of
  resolve_epoch_last b d h =
      let (chain, e, h1) = bind-ok (epoch_chain c b m) _ h in
      let (s, rest, e2, first, walk) = epoch_chain-Walk b chain e in
      rw (← (ok-injective h1), first) (Walk-last (s ∷ []) b rest walk)
