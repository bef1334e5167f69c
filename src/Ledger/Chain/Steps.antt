-- ===== src/Ledger/Chain/Steps.antt =====
-- fusion_relay/continuation.py: every call keeps the stored turns numbered.
use devin_fusion_via_codex.Common.{
  ℕ, suc, ◌+◌, ◌≡◌, refl, sym, ap, ◌∙◌, ◌≢◌, not, Option, none, some, List, [], ◌∷◌, String, str_eq,
  eq_iff, ◌==◌, length, if◌then◌else◌, ok, raise_if, bind-ok, raised, ok-injective, Bool-cases, inl,
  inr, arith,
}
use devin_fusion_via_codex.Ledger.Binding.{
  ContinuationBinding, Codec, seal, unseal, scope_of, revision_gap, integrity_error, carry_blocked,
}
use devin_fusion_via_codex.Ledger.State.{
  Turn, Ledger, head_of, or_zero, turns_of, clashes, any_status, is_unresolved,
}
use devin_fusion_via_codex.Ledger.Reserve.Admission.{Cleared, absent, rejected}
use devin_fusion_via_codex.Ledger.Epoch.{carried_turn, carry_turns, carry, begin_epoch}
use devin_fusion_via_codex.Ledger.Steps.{Reach, here, next}
use devin_fusion_via_codex.Ledger.Steps.Changes.{
  Change, same, delivered, reserved, settled, committed, offered, acknowledged, began, retired,
  Evidenced, kept, shown,
}
use devin_fusion_via_codex.Ledger.Steps.Each.{Step-Change}
use devin_fusion_via_codex.Ledger.Chain.{
  revisions, count_from, IsChained, revisions-place, revisions-place_other, revisions-evidence,
  revisions-mark_offered, revisions-mark_acknowledged, revisions-keep_others, head_of-keep_others,
  head_of-put_head, head_of-append,
}

revisions-Evidenced :
    (s x : String) (ts us : List Turn) → Evidenced x ts us → revisions s us ≡ revisions s ts
revisions-Evidenced s x ts us kept = refl
revisions-Evidenced s x ts us shown = revisions-evidence s x ts

-- The turns and heads are as they were.
Cleared-IsChained : (s o : String) (m n : Ledger) → Cleared s o m n → IsChained m → IsChained n
unfolding IsChained
Cleared-IsChained s o m n (absent e) h = h
Cleared-IsChained s o m n (rejected row e k) h = h

module _ (c : Codec) (nonce : ℕ → String) (from to : String) where
  revisions-carry_turns :
      (k : ℕ) (rows ts us : List Turn)
      → carry_turns c nonce from to (suc k) rows ts ≡ ok us
      → revisions to ts ≡ count_from 1 k
      → revisions to us ≡ count_from 1 (k + length rows)
  unfolding carry_turns
  revisions-carry_turns k [] ts us h e =
      ap (revisions to) (sym (ok-injective h)) ∙ e ∙ ap (count_from 1) (omega arith)
  revisions-carry_turns k (t ∷ rows) ts us h e =
      let (u1, e1, h1) = bind-ok (raise_if (not (t.revision == suc k)) revision_gap) _ h in
      let (p, e2, h2) = bind-ok (unseal c from t.operation_id t.sealed) _ h1 in
      let (sealed, e3, h3) = bind-ok (seal c (nonce t.revision) to t.operation_id p) _ h2 in
      let (u4, e4, h4) =
        bind-ok (raise_if (clashes (carried_turn c to sealed t) ts) integrity_error) _ h3 in
      revisions-carry_turns (suc k) rows _ us h4
        (revisions-place (carried_turn c to sealed t) ts 1 k e (ground (arith, raised _ _ u1 e1)))
      ∙ ap (count_from 1) (omega arith)

  revisions-carry_turns_other :
      (s : String) (k : ℕ) (rows ts us : List Turn)
      → to ≢ s
      → carry_turns c nonce from to k rows ts ≡ ok us
      → revisions s us ≡ revisions s ts
  unfolding carry_turns
  revisions-carry_turns_other s k [] ts us d h = ap (revisions s) (sym (ok-injective h))
  revisions-carry_turns_other s k (t ∷ rows) ts us d h =
      let (u1, e1, h1) = bind-ok (raise_if (not (t.revision == k)) revision_gap) _ h in
      let (p, e2, h2) = bind-ok (unseal c from t.operation_id t.sealed) _ h1 in
      let (sealed, e3, h3) = bind-ok (seal c (nonce t.revision) to t.operation_id p) _ h2 in
      let (u4, e4, h4) =
        bind-ok (raise_if (clashes (carried_turn c to sealed t) ts) integrity_error) _ h3 in
      revisions-carry_turns_other s (suc k) rows _ us d h4
      ∙ revisions-place_other s (carried_turn c to sealed t) ts d

-- The carried turns are numbered up to the carried head, and the other scopes keep theirs.
record Carries (to : String) (head : ℕ) (ts us : List Turn) : Type 0 where
  pub numbered : revisions to ts ≡ [] → revisions to us ≡ count_from 1 head
  pub others : (s : String) → to ≢ s → revisions s us ≡ revisions s ts

carry-Carries :
    (c : Codec) (nonce : ℕ → String) (from : Option ContinuationBinding) (to : String) (m : Ledger)
    (carried : Option String) (head : ℕ) (us : List Turn)
    → carry c nonce from to m ≡ ok (carried, head, us)
    → Carries to head m.turns us
unfolding carry count_from
carry-Carries c nonce none to m carried head us h =
    let e = ok-injective h in
    let same_turns = ap (λ (x : Option String × ℕ × List Turn). x.2) e in
    let same_head = ap (λ (x : Option String × ℕ × List Turn). x.1) e in
    rw (← same_turns, ← same_head) record { numbered = λ k. k; others = λ s d. refl }
carry-Carries c nonce (some b) to m carried head us h =
    let (scope, e1, h1) = bind-ok (scope_of c b) _ h in
    let (u, e2, h2) =
      bind-ok (raise_if (any_status is_unresolved scope m.operations) carry_blocked) _ h1 in
    let (ts, e3, h3) =
      bind-ok (carry_turns c nonce scope to 1 (turns_of scope m.turns) m.turns) _ h2 in
    let e = ok-injective h3 in
    let same_turns = ap (λ (x : Option String × ℕ × List Turn). x.2) e in
    let same_head = ap (λ (x : Option String × ℕ × List Turn). x.1) e in
    rw (← same_turns, ← same_head)
      record {
        numbered = λ k.
            revisions-carry_turns c nonce scope to 0 (turns_of scope m.turns) m.turns ts e3 k
            ∙ ap (count_from 1) (omega arith);
        others = λ s d.
            revisions-carry_turns_other c nonce scope to s 1 (turns_of scope m.turns) m.turns ts d
              e3;
      }

append-IsChained :
    (from to : String) (b : ContinuationBinding) (carried : Option String) (head : ℕ)
    (us : List Turn) (c : Codec) (m : Ledger)
    → head_of to m.heads ≡ none
    → Carries to head m.turns us
    → IsChained m
    → IsChained (begin_epoch c from to b carried head us m)
unfolding IsChained head_of count_from
append-IsChained from to b carried head us c m e k h s = elim (Bool-cases (str_eq to s)) [
  | inl this ↦ ground (
    arith,
    eq_iff to s,
    head_of-append s m.heads (record { scope = to; revision = head } ∷ []),
    h to,
    k.numbered,
  )
  | inr other ↦ ground (
    arith,
    eq_iff to s,
    head_of-append s m.heads (record { scope = to; revision = head } ∷ []),
    h s,
    k.others s,
  )
]

emptied :
    (x s : String) (ns : List ℕ) (h : Option ℕ)
    → ns ≡ count_from 1 (or_zero h)
    → (if str_eq s x then [] else ns) ≡ count_from 1 (or_zero (if str_eq s x then none else h))
unfolding count_from
emptied x s ns h e = elim (Bool-cases (str_eq s x)) [
  | inl this ↦ ground arith
  | inr other ↦ ground arith
]

module _ (c : Codec) (P : String → Type 0) where
  Change-IsChained : {m n : Ledger} → Change c P m n → IsChained m → IsChained n
  unfolding IsChained
  Change-IsChained {m} {n} same h = h
  Change-IsChained {m} {n} (delivered ds) h = h
  Change-IsChained {m} {n} (reserved s o fingerprint base ts bs k idle known e) h =
      λ x. revisions-Evidenced x s base.turns ts e ∙ Cleared-IsChained s o m base k h x
  Change-IsChained {m} {n} (settled s o status result u) h = h
  Change-IsChained {m} {n} (committed s o t result u e k clash) h = λ x.
      elim (Bool-cases (str_eq s x)) [
        | inl this ↦ ground (
          arith,
          eq_iff s x,
          h s,
          head_of-put_head x s t.revision m.heads,
          revisions-place t m.turns 1 (or_zero (head_of s m.heads)),
        )
        | inr other ↦ ground (
          arith,
          eq_iff s x,
          h x,
          head_of-put_head x s t.revision m.heads,
          revisions-place_other x t m.turns,
        )
      ]
  Change-IsChained {m} {n} (offered s o ds) h = λ x. revisions-mark_offered x s o m.turns ∙ h x
  Change-IsChained {m} {n} (acknowledged s o revision digest reference ds e) h =
      λ x. revisions-mark_acknowledged x s o m.turns ∙ h x
  Change-IsChained {m} {n} (began nonce from to b carry_from carried head ts e k) h =
      append-IsChained from to b carried head ts c m e
        (carry-Carries c nonce carry_from to m carried head ts k) h
  Change-IsChained {m} {n} (retired s p pending unresolved) h = λ x.
      revisions-keep_others x s m.turns
      ∙ emptied x s _ _ (h x)
      ∙ ap (λ l. count_from 1 (or_zero l)) (sym (head_of-keep_others x s m.heads))

  -- From a ledger in which this holds, after any calls, the stored turns of every scope have the
  -- revisions from 1 on without a gap, in their order, and their number is the scope's head.
  pub Reach-IsChained : {m n : Ledger} → IsChained m → Reach c P m n → IsChained n
  Reach-IsChained h here = h
  Reach-IsChained h (next {n} {o} r step) =
      Change-IsChained (Step-Change c P step) (Reach-IsChained h r)
