-- ===== src/Ledger/Reserve/Merged.antt =====
-- fusion_relay/continuation.py: the input that `reserve` sends on.
use devin_fusion_via_codex.Common.{
  ◌≡◌, ◌∙◌, refl, sym, ap, List, map, String, length, ok, arith, ok-injective,
}
use devin_fusion_via_codex.Common.Json.{Json, Object}
use devin_fusion_via_codex.Ledger.Binding.{ContinuationBinding, Codec}
use devin_fusion_via_codex.Ledger.State.{Ledger, Opened, turns}
use devin_fusion_via_codex.Ledger.Reserve.{
  Reservation, Reserved, admitted, reservation_or, history_of, reserve, admit_new, splice_all,
}
use devin_fusion_via_codex.Ledger.Reserve.Splices.{
  Reinserted, splices-Reinserted, splice_all-expand,
}
use devin_fusion_via_codex.Ledger.Reserve.Admission.{
  Cleared, absent, rejected, reserve-Admission, reserve_new-Checked,
}

turns-Cleared :
    (c : Codec) (s t o : String) (m n : Ledger) → Cleared s o m n → turns c t n ≡ turns c t m
unfolding turns
turns-Cleared c s t o m n (absent e) = refl
turns-Cleared c s t o m n (rejected row e h) = refl

module _ (c : Codec) (b : ContinuationBinding) (operation_id : String) (body : Object) (m : Ledger)
    (r : Reservation) (n : Ledger) where
  -- Where `reserve` admits an operation, its revision is the number of the stored turns of its scope,
  -- and the merged input is the client's history with the stored output of each turn, in their
  -- order, in the place of what the client was shown of it, and all else kept.
  pub reserve-Reinserted :
      (history : List Json) (opened : List Opened)
      → reserve c b operation_id body m ≡ ok (admitted r, n)
      → history_of body ≡ ok history
      → turns c r.scope m ≡ ok opened
      → Reinserted (map (λ t. t.output) opened) r.merged history × (r.revision ≡ length opened)
  unfolding admit_new
  reserve-Reinserted history opened h read stored =
      let a = reserve-Admission c b operation_id body m r n h in
      let k =
        reserve_new-Checked c b a.scope operation_id body a.history a.base (admitted r) n a.fresh in
      let admitted_as = ap (λ (x : Reserved × Ledger). reservation_or r x.0) k.result in
      let scope_same : r.scope ≡ a.scope = ap (λ (x : Reservation). x.scope) admitted_as in
      let merged_same : r.merged ≡ splice_all k.splices_found a.history =
        ap (λ (x : Reservation). x.merged) admitted_as in
      let count_same : r.revision ≡ length k.opened =
        ap (λ (x : Reservation). x.revision) admitted_as in
      let history_same : a.history ≡ history = ok-injective (sym a.read ∙ read) in
      let opened_same : k.opened ≡ opened = ok-injective (
        sym k.opens
        ∙ turns-Cleared c a.scope a.scope operation_id m a.base a.cleared
        ∙ ap (λ s. turns c s m) (sym scope_same)
        ∙ stored) in
      let (order, merged) =
        splices-Reinserted a.history 0 k.opened k.splices_found (omega arith) k.spliced in
      rw
        (
          merged_same,
          count_same,
          splice_all-expand 0 k.splices_found a.history order,
          ← history_same,
          ← opened_same,
        )
        (merged, refl)
