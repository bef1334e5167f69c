-- ===== src/Ledger/Reserve/Splices.antt =====
-- fusion_relay/continuation.py: what `reserve` makes of the client's history.
use mathlib.Core.Path.{◌≡⟨◌⟩◌, ◌∎}
use devin_fusion_via_codex.Common.{
  ℕ, ◌+◌, ◌-◌, ◌≤◌, ◌≡◌, sym, ap, false, List, [], ◌∷◌, ◌++◌, map, append_assoc, length, take, drop,
  length-take, length-drop, take-append-drop, drop-drop, take-split, take-take_append,
  drop-take_append, ok, raise_if, bind-ok, ok-injective, arith,
}
use devin_fusion_via_codex.Common.Json.{Json, same_items_sound}
use devin_fusion_via_codex.Ledger.Binding.{epoch_required}
use devin_fusion_via_codex.Ledger.Visible.{visible_items}
use devin_fusion_via_codex.Ledger.State.{Opened}
use devin_fusion_via_codex.Ledger.Reserve.{
  Splice, splice, splice_all, splice_at, splices, departs, anchor_of,
}

-- The merged input is the history with each stored output, in order, in the place of what the client
-- was shown of it, and nothing else changed.
pub data Reinserted : List (List Json) → List Json → List Json → Type 0 where
  finished : Reinserted [] [] []
  kept :
      {os : List (List Json)} {m h : List Json} (x : Json)
      → Reinserted os m h
      → Reinserted os (x ∷ m) (x ∷ h)
  swapped :
      {os : List (List Json)} {m h : List Json} (output shown : List Json)
      → visible_items output ≡ ok shown
      → Reinserted os m h
      → Reinserted (output ∷ os) (output ++ m) (shown ++ h)

kept_all :
    (xs : List Json) {os : List (List Json)} {m h : List Json}
    → Reinserted os m h
    → Reinserted os (xs ++ m) (xs ++ h)
kept_all [] r = r
kept_all (x ∷ xs) r = kept x (kept_all xs r)

all_kept : (xs : List Json) → Reinserted [] xs xs
all_kept [] = finished
all_kept (x ∷ xs) = kept x (all_kept xs)

-- The merged input behind the position `last`, written forwards.
pub expand : ℕ → List Splice → List Json → List Json
expand last [] h = h
expand last (r ∷ rs) h =
    take (r.start - last) h ++ (r.output ++ expand r.end rs (drop (r.end - last) h))

-- The splices lie in the history, one behind the other.
pub data InOrder : ℕ → ℕ → List Splice → Type 0 where
  none_left : {last n : ℕ} → last ≤ n → InOrder last n []
  then_next :
      {last n : ℕ} {r : Splice} {rs : List Splice}
      → last ≤ r.start
      → r.start ≤ r.end
      → InOrder r.end n rs
      → InOrder last n (r ∷ rs)

pub InOrder-le : {last n : ℕ} {rs : List Splice} → InOrder last n rs → last ≤ n
InOrder-le (none_left h) = h
InOrder-le (then_next a b o) = omega (arith, InOrder-le o)

pub splice_all-expand :
    (last : ℕ) (rs : List Splice) (h : List Json)
    → InOrder last (length h) rs
    → splice_all rs h ≡ take last h ++ expand last rs (drop last h)
unfolding splice_all splice expand
splice_all-expand last [] h (none_left l) = sym (take-append-drop last h)
splice_all-expand last (r ∷ rs) h (then_next a b o) =
    let X = expand r.end rs (drop r.end h) in
    let l = InOrder-le o in
    splice_all (r ∷ rs) h
    ≡⟨ ap (splice r) (splice_all-expand r.end rs h o) ⟩ splice r (take r.end h ++ X)
    ≡⟨ ap (λ z. z ++ (r.output ++ drop r.end (take r.end h ++ X)))
        (take-take_append r.start r.end h X b l) ⟩
      take r.start h ++ (r.output ++ drop r.end (take r.end h ++ X))
    ≡⟨ ap (λ z. take r.start h ++ (r.output ++ z)) (drop-take_append r.end h X l) ⟩
      take r.start h ++ (r.output ++ X)
    ≡⟨ ap (λ z. z ++ (r.output ++ X)) (take-split last r.start h a) ⟩
      (take last h ++ take (r.start - last) (drop last h)) ++ (r.output ++ X)
    ≡⟨ append_assoc (take last h) (take (r.start - last) (drop last h)) (r.output ++ X) ⟩
      take last h ++ (take (r.start - last) (drop last h) ++ (r.output ++ X))
    ≡⟨ ap
        (λ z.
          take last h ++ (take (r.start - last) (drop last h) ++ (r.output ++ expand r.end rs z)))
        (sym (drop-drop last r.end h (omega arith))) ⟩
      take last h ++ expand last (r ∷ rs) (drop last h) ∎

departs-false :
    (h : List Json) (last : ℕ) (anchor shown : List Json)
    → departs h last anchor shown ≡ false
    → (last ≤ length anchor)
      × (take (length anchor) h ≡ anchor)
      × (take (length shown) (drop (length anchor) h) ≡ shown)
unfolding departs
departs-false h last anchor shown e =
    (ground arith, same_items_sound _ _ (ground arith), same_items_sound _ _ (ground arith))

-- One output in the place of what was shown of it.
put_in :
    (before shown output : List Json) (os : List (List Json)) (m tail whole : List Json)
    → whole ≡ before ++ (shown ++ tail)
    → visible_items output ≡ ok shown
    → Reinserted os m tail
    → Reinserted (output ∷ os) (before ++ (output ++ m)) whole
put_in before shown output os m tail whole e v r = rw e (kept_all before (swapped output shown v r))

-- The history behind `last` is cut at `start` and behind what is shown there.
history-cut :
    (h : List Json) (last start : ℕ) (shown : List Json)
    → last ≤ start
    → take (length shown) (drop start h) ≡ shown
    → drop last h ≡ take (start - last) (drop last h) ++ (shown ++ drop (start + length shown) h)
history-cut h last start shown l e =
    let behind : start + length shown - start ≡ length shown = omega arith in
    drop last h
    ≡⟨ sym (take-append-drop (start - last) (drop last h)) ⟩
      take (start - last) (drop last h) ++ drop (start - last) (drop last h)
    ≡⟨ ap (λ z. take (start - last) (drop last h) ++ z) (drop-drop last start h l) ⟩
      take (start - last) (drop last h) ++ drop start h
    ≡⟨ ap (λ z. take (start - last) (drop last h) ++ z)
        (sym (take-append-drop (length shown) (drop start h))) ⟩
      take (start - last) (drop last h)
      ++ (take (length shown) (drop start h) ++ drop (length shown) (drop start h))
    ≡⟨ ap (λ z. take (start - last) (drop last h) ++ (z ++ drop (length shown) (drop start h))) e ⟩
      take (start - last) (drop last h) ++ (shown ++ drop (length shown) (drop start h))
    ≡⟨ ap (λ n. take (start - last) (drop last h) ++ (shown ++ drop n (drop start h)))
        (sym behind) ⟩
      take (start - last) (drop last h)
      ++ (shown ++ drop (start + length shown - start) (drop start h))
    ≡⟨ ap (λ z. take (start - last) (drop last h) ++ (shown ++ z))
        (drop-drop start (start + length shown) h (omega arith)) ⟩
      take (start - last) (drop last h) ++ (shown ++ drop (start + length shown) h) ∎

pub splices-Reinserted :
    (h : List Json) (last : ℕ) (ts : List Opened) (rs : List Splice)
    → last ≤ length h
    → splices h last ts ≡ ok rs
    → InOrder last (length h) rs
      × Reinserted (map (λ t. t.output) ts) (expand last rs (drop last h)) (drop last h)
unfolding splices expand
splices-Reinserted h last [] rs l e =
    let done : [] ≡ rs = ok-injective e in rw (← done) (none_left l, all_kept (drop last h))
splices-Reinserted h last (t ∷ ts) rs l e =
    let (anchor, ea, e1) = bind-ok (anchor_of t.input) _ e in
    let (shown, es, e2) = bind-ok (visible_items t.output) _ e1 in
    let (u, ed, e3) = bind-ok (raise_if (departs h last anchor shown) epoch_required) _ e2 in
    let (rest, er, e4) = bind-ok (splices h (length anchor + length shown) ts) _ e3 in
    let (a, b, c) = departs-false h last anchor shown (ground arith) in
    let last_end = length anchor + length shown in
    let fits : last_end ≤ length h = omega (
      arith,
      ap length b,
      ap length c,
      length-take (length anchor) h,
      length-take (length shown) (drop (length anchor) h),
      length-drop (length anchor) h,
    ) in
    let (order, more) = splices-Reinserted h last_end ts rest fits er in
    let done : splice_at anchor shown t.output ∷ rest ≡ rs = ok-injective e4 in
    rw (← done) (
      then_next a (omega arith) order,
      put_in (take (length anchor - last) (drop last h)) shown t.output (map (λ t. t.output) ts) _
          (drop last_end h) (drop last h) (history-cut h last (length anchor) shown a c) es
          (rw (drop-drop last last_end h (omega arith)) more),
    )
