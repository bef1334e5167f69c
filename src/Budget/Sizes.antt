-- ===== src/Budget/Sizes.antt =====
-- fusion_relay/payload_budget.py: the sizes that `measure_body` adds up, against sums over the image parts.
use devin_fusion_via_codex.Common.{
  ℕ, suc, ◌+◌, ◌*◌, ◌/◌, ◌≡◌, refl, ap, ◌||◌, ◌++◌, Bool, true, false, Option, none, some, List, [],
  ◌∷◌, String, length, arith,
}
use devin_fusion_via_codex.Common.Json.{Json, member}
use devin_fusion_via_codex.Budget.{
  Measured, image_parts, last_boundary, empty_count, count_part, url_payload, padding, add_size,
  is_historical, count_parts, count_items, measure,
}

-- The image's text behind the comma: the bytes that it stands for with its padding, and the padding.
abbrev pub raw_size : Option (List ℕ) → ℕ
raw_size none = 0
raw_size (some b64) = length b64 * 3 / 4

abbrev pub padding_size : Option (List ℕ) → ℕ
padding_size none = 0
padding_size (some b64) = padding b64

abbrev pub has_no_payload : Option (List ℕ) → Bool
has_no_payload none = true
has_no_payload (some b64) = false

abbrev pub payload : Json → Option (List ℕ)
payload p = url_payload (member "image_url" p)

-- The sums over a list of image parts, and whether the size of any of them cannot be told.
unfoldable pub raw_sizes : List Json → ℕ
raw_sizes [] = 0
raw_sizes (p ∷ ps) = raw_size (payload p) + raw_sizes ps

unfoldable pub padding_sizes : List Json → ℕ
padding_sizes [] = 0
padding_sizes (p ∷ ps) = padding_size (payload p) + padding_sizes ps

unfoldable pub any_unsized : List Json → Bool
any_unsized [] = false
any_unsized (p ∷ ps) = has_no_payload (payload p) || any_unsized ps

-- The image parts of all items.
unfoldable pub all_parts : List Json → List Json
all_parts [] = []
all_parts (x ∷ xs) = image_parts x ++ all_parts xs

raw_sizes-append : (ps qs : List Json) → raw_sizes (ps ++ qs) ≡ raw_sizes ps + raw_sizes qs
unfolding raw_sizes
raw_sizes-append [] qs = omega arith
raw_sizes-append (p ∷ ps) qs = omega (arith, raw_sizes-append ps qs)

padding_sizes-append :
    (ps qs : List Json) → padding_sizes (ps ++ qs) ≡ padding_sizes ps + padding_sizes qs
unfolding padding_sizes
padding_sizes-append [] qs = omega arith
padding_sizes-append (p ∷ ps) qs = omega (arith, padding_sizes-append ps qs)

any_unsized-append : (ps qs : List Json) → any_unsized (ps ++ qs) ≡ any_unsized ps || any_unsized qs
unfolding any_unsized
any_unsized-append [] qs = refl
any_unsized-append (p ∷ ps) qs = ground (arith, any_unsized-append ps qs)

module _ (digest : List ℕ → String) where
  -- What the parts `ps` add to the sizes.
  pub record Sizes (m : Measured) (ps : List Json) (n : Measured) : Type 0 where
    pub gain : n.gain ≡ m.gain + raw_sizes ps
    pub loss : n.loss ≡ m.loss + padding_sizes ps
    pub partial : n.partial ≡ m.partial || any_unsized ps

  Sizes-trans :
      {m n k : Measured} {ps qs : List Json} → Sizes m ps n → Sizes n qs k → Sizes m (ps ++ qs) k
  Sizes-trans {m} {n} {k} {ps} {qs} f g = record {
    gain = ground (arith, f.gain, g.gain, raw_sizes-append ps qs);
    loss = ground (arith, f.loss, g.loss, padding_sizes-append ps qs);
    partial = ground (arith, f.partial, g.partial, any_unsized-append ps qs);
  }

  Sizes-none : (m : Measured) → Sizes m [] m
  unfolding raw_sizes padding_sizes any_unsized
  Sizes-none m = record { gain = ground arith; loss = ground arith; partial = ground arith }

  part-Sizes :
      (old : Bool) (p : Json) (u : Option (List ℕ)) (m : Measured)
      → payload p ≡ u
      → Sizes m (p ∷ []) (add_size digest u (count_part old m))
  unfolding raw_sizes padding_sizes any_unsized
  part-Sizes true p none m e = record {
    gain = ground (arith, ap raw_size e);
    loss = ground (arith, ap padding_size e);
    partial = ground (arith, ap has_no_payload e);
  }
  part-Sizes false p none m e = record {
    gain = ground (arith, ap raw_size e);
    loss = ground (arith, ap padding_size e);
    partial = ground (arith, ap has_no_payload e);
  }
  part-Sizes true p (some b64) m e = record {
    gain = ground (arith, ap raw_size e);
    loss = ground (arith, ap padding_size e);
    partial = ground (arith, ap has_no_payload e);
  }
  part-Sizes false p (some b64) m e = record {
    gain = ground (arith, ap raw_size e);
    loss = ground (arith, ap padding_size e);
    partial = ground (arith, ap has_no_payload e);
  }

  count_parts-Sizes :
      (old : Bool) (ps : List Json) (m : Measured) → Sizes m ps (count_parts digest old ps m)
  unfolding count_parts
  count_parts-Sizes old [] m = Sizes-none m
  count_parts-Sizes old (p ∷ ps) m =
      Sizes-trans (part-Sizes old p (payload p) m refl) (count_parts-Sizes old ps _)

  count_items-Sizes :
      (boundary : Option ℕ) (idx : ℕ) (xs : List Json) (m : Measured)
      → Sizes m (all_parts xs) (count_items digest boundary idx xs m)
  unfolding count_items all_parts
  count_items-Sizes boundary idx [] m = Sizes-none m
  count_items-Sizes boundary idx (x ∷ xs) m =
      Sizes-trans (count_parts-Sizes (is_historical boundary idx) (image_parts x) m)
        (count_items-Sizes boundary (suc idx) xs _)

  pub measure-Sizes : (xs : List Json) → Sizes empty_count (all_parts xs) (measure digest xs)
  unfolding measure
  measure-Sizes xs = count_items-Sizes (last_boundary 0 none xs) 0 xs empty_count
