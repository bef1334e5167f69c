-- ===== src/Ledger/Lane/Blocked.antt =====
-- fusion_relay/continuation.py: a lane with an unresolved operation, and how it is freed.
use devin_fusion_via_codex.Common.{
  ◌<◌, ◌≡◌, refl, sym, ap, ◌∙◌, ok-injective, true, false, some, List, [], ◌∷◌, String, ltb, ok,
  arith,
}
use devin_fusion_via_codex.Common.Json.{Object}
use devin_fusion_via_codex.Journal.Rows.{Operation, failed, finish}
use devin_fusion_via_codex.Ledger.Binding.{
  ContinuationBinding, Codec, resolution, seal, scope_of, max_bytes,
}
use devin_fusion_via_codex.Ledger.State.{Ledger, any_status, is_unresolved}
use devin_fusion_via_codex.Ledger.Reserve.{Reserved, replayed, admitted, reserve}
use devin_fusion_via_codex.Ledger.Commit.{is_evidence, row_unresolved, resolve_unknown}
use devin_fusion_via_codex.Ledger.Steps.Changes.{Unresolved}
use devin_fusion_via_codex.Ledger.Reserve.Unchanged.{Replays, reserve-Replays}
use devin_fusion_via_codex.Ledger.Lane.Single.{admitted_scope, reserve_alone}
use devin_fusion_via_codex.Ledger.Lane.{IsSingle, unresolved_count, count-finish_resolved}

count_busy :
    (s : String) (rows : List Operation)
    → any_status is_unresolved s rows ≡ true
    → 0 < unresolved_count s rows
unfolding any_status unresolved_count
count_busy s [] h = absurd (ground arith)
count_busy s (r ∷ rs) h = ground (arith, count_busy s rs)

module _ (c : Codec) (b : ContinuationBinding) (s o : String) (body : Object) (m n : Ledger) where
  -- In a ledger whose scopes have one unresolved operation at most and whose keys are unique, while an
  -- operation of the scope is unresolved, a `reserve` for that scope, of any operation and body, succeeds
  -- only where the operation itself has succeeded with the same body, and then changes nothing: no
  -- operation is admitted there, and none that was rejected before is admitted again.
  pub reserve_blocked :
      (x : Reserved)
      → IsSingle m.operations
      → scope_of c b ≡ ok s
      → any_status is_unresolved s m.operations ≡ true
      → reserve c b o body m ≡ ok (x, n)
      → Replays c b o body m n
  reserve_blocked (replayed p) h e k r = reserve-Replays c b o body m p n r
  reserve_blocked (admitted r) h e k q =
      let busy = count_busy s m.operations k in
      let same : r.scope ≡ s = ok-injective (sym (admitted_scope c b o body m n r q) ∙ e) in
      let idle = (reserve_alone c b o body m n r h q).0 in
      absurd (omega (arith, busy, idle, ap (λ x. unresolved_count x m.operations) same))

module _ (c : Codec) (nonce s o evidence_ref : String) (m : Ledger) where
  -- In a ledger whose scopes have one unresolved operation at most, `resolve_unknown` of an unresolved
  -- operation with an evidence reference, whose record fits, succeeds and leaves its scope with none.
  pub resolve_unknown_frees :
      IsSingle m.operations
      → Unresolved s o m.operations
      → is_evidence evidence_ref ≡ true
      → ltb max_bytes (c.size (resolution evidence_ref)) ≡ false
      → (n : Ledger) × (resolve_unknown c nonce s o evidence_ref "abandoned" m ≡ ok (tt, n))
        × (unresolved_count s n.operations ≡ 0)
  unfolding resolve_unknown seal row_unresolved
  resolve_unknown_frees h u e k = (
    record m {
      operations =
          finish s o failed (some (c.encrypt nonce s o (resolution evidence_ref))) m.operations;
    },
    rw (e, u.found, u.unresolved, k) refl,
    ground (
      arith,
      count-finish_resolved s o failed (some (c.encrypt nonce s o (resolution evidence_ref)))
          m.operations h.unique u refl,
      h.single s,
    ),
  )
