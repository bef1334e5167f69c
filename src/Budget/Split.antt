-- ===== src/Budget/Split.antt =====
-- fusion_relay/payload_budget.py: what `measure_body` counts, against a count of the image parts.
use devin_fusion_via_codex.Common.{
  ℕ, zero, suc, ◌+◌, ◌-◌, ◌≤◌, ◌≡◌, refl, sym, ◌∙◌, Bool, true, false, Option, none, some, List, [],
  ◌∷◌, String, ltb, leb, ◌==◌, length, length-append, take, drop, if◌then◌else◌, if_false,
  Bool-cases, inl, inr, ok, ok-injective, arith,
}
use devin_fusion_via_codex.Common.Json.{Json, member}
use devin_fusion_via_codex.Budget.Sizes.{
  all_parts, raw_sizes, padding_sizes, any_unsized, measure-Sizes,
}
use devin_fusion_via_codex.Budget.{
  BudgetProfile, Measured, image_parts, is_boundary, last_boundary, empty_count, add_digest,
  mem_digest, count_part, url_payload, add_size, count_parts, count_items, measure, measure_body,
}

-- The number of image parts.
unfoldable pub image_total : List Json → ℕ
image_total [] = 0
image_total (x ∷ xs) = length (image_parts x) + image_total xs

-- The number of items up to the last of the assistant, and with it.
unfoldable pub history_length : List Json → ℕ
history_length [] = 0
history_length (x ∷ xs) =
    let rest = history_length xs in if rest == 0 then (if is_boundary x then 1 else 0) else suc rest

last_boundary-history_length :
    (idx : ℕ) (found : Option ℕ) (xs : List Json)
    → last_boundary idx found xs
      ≡ (if history_length xs == 0 then found else some (idx + history_length xs - 1))
unfolding last_boundary history_length
last_boundary-history_length idx found [] = refl
last_boundary-history_length idx found (x ∷ xs) =
    ground
      (arith, last_boundary-history_length (suc idx) (if is_boundary x then some idx else found) xs)

-- What is counted as historical from the index `idx` on.
historical_from : Option ℕ → ℕ → List Json → ℕ
historical_from none idx xs = 0
historical_from (some b) idx xs = image_total (take (suc b - idx) xs)

image_total-split :
    (k : ℕ) (xs : List Json) → image_total (take k xs) + image_total (drop k xs) ≡ image_total xs
unfolding image_total
image_total-split zero [] = ground arith
image_total-split (suc k) [] = ground arith
image_total-split zero (x ∷ xs) = ground arith
image_total-split (suc k) (x ∷ xs) = ground (arith, image_total-split k xs)

-- The counts of a body within the profile's limits.
pub record WithinBudget (xs : List Json) (profile : BudgetProfile) (m : Measured) : Type 0 where
  pub historical : m.historical ≡ image_total (take (history_length xs) xs)
  pub current : m.current ≡ image_total (drop (history_length xs) xs)
  pub occurrences : m.occurrences ≡ image_total xs
  pub distinct : length m.digests ≤ image_total xs
  pub count_fits : image_total xs ≤ profile.max_image_occurrences
  pub raw : m.gain ≡ raw_sizes (all_parts xs)
  pub padded : m.loss ≡ padding_sizes (all_parts xs)
  pub partial : m.partial ≡ any_unsized (all_parts xs)
  pub bytes_fit :
      raw_sizes (all_parts xs) ≤ profile.max_image_bytes_total + padding_sizes (all_parts xs)

module _ (digest : List ℕ → String) where
  record Counts (m : Measured) (old new : ℕ) (n : Measured) : Type 0 where
    pub historical : n.historical ≡ m.historical + old
    pub current : n.current ≡ m.current + new
    pub occurrences : n.occurrences ≡ m.occurrences + (old + new)
    pub distinct : length n.digests + m.occurrences ≤ length m.digests + n.occurrences

  add_digest-length : (d : String) (ds : List String) → length (add_digest d ds) ≤ length ds + 1
  add_digest-length d ds = elim (Bool-cases (mem_digest d ds)) [
    | inl e ↦ ground arith
    | inr e ↦ ground (arith, length-append ds (d ∷ []))
  ]

  Counts-trans :
      {m n p : Measured} {a b a' b' : ℕ}
      → Counts m a b n
      → Counts n a' b' p
      → Counts m (a + a') (b + b') p
  Counts-trans k l = record {
    historical = ground (arith, k.historical, l.historical);
    current = ground (arith, k.current, l.current);
    occurrences = ground (arith, k.occurrences, l.occurrences);
    distinct = ground (arith, k.distinct, l.distinct);
  }

  counts_as : {m n : Measured} {a b a' b' : ℕ} → a ≡ a' → b ≡ b' → Counts m a b n → Counts m a' b' n
  counts_as e f k = rw (← e, ← f) k

  part-Counts :
      (old : Bool) (u : Option (List ℕ)) (m : Measured)
      → Counts m
          (if old then 1 else 0)
          (if old then 0 else 1)
          (add_size digest u (count_part old m))
  part-Counts true none m = record {
    historical = refl;
    current = ground arith;
    occurrences = ground arith;
    distinct = ground arith;
  }
  part-Counts false none m = record {
    historical = ground arith;
    current = refl;
    occurrences = ground arith;
    distinct = ground arith;
  }
  part-Counts true (some u) m = record {
    historical = refl;
    current = ground arith;
    occurrences = ground arith;
    distinct = ground (arith, add_digest-length (digest u) m.digests);
  }
  part-Counts false (some u) m = record {
    historical = ground arith;
    current = refl;
    occurrences = ground arith;
    distinct = ground (arith, add_digest-length (digest u) m.digests);
  }

  count_parts-Counts :
      (old : Bool) (ps : List Json) (m : Measured)
      → Counts m
          (if old then length ps else 0)
          (if old then 0 else length ps)
          (count_parts digest old ps m)
  unfolding count_parts
  count_parts-Counts true [] m = record {
    historical = ground arith;
    current = ground arith;
    occurrences = ground arith;
    distinct = ground arith;
  }
  count_parts-Counts false [] m = record {
    historical = ground arith;
    current = ground arith;
    occurrences = ground arith;
    distinct = ground arith;
  }
  count_parts-Counts true (p ∷ ps) m = counts_as (omega arith) (omega arith) (
      Counts-trans (part-Counts true (url_payload (member "image_url" p)) m)
        (count_parts-Counts true ps _))
  count_parts-Counts false (p ∷ ps) m = counts_as (omega arith) (omega arith) (
      Counts-trans (part-Counts false (url_payload (member "image_url" p)) m)
        (count_parts-Counts false ps _))

  count_items-none :
      (idx : ℕ) (xs : List Json) (m : Measured)
      → Counts m 0 (image_total xs) (count_items digest none idx xs m)
  unfolding count_items image_total
  count_items-none idx [] m = record {
    historical = ground arith;
    current = ground arith;
    occurrences = ground arith;
    distinct = ground arith;
  }
  count_items-none idx (x ∷ xs) m =
      counts_as (omega arith) refl (
        Counts-trans (count_parts-Counts false (image_parts x) m) (count_items-none (suc idx) xs _))

  -- Behind the boundary all is current.
  past :
      (b idx : ℕ) (xs : List Json) (m : Measured)
      → leb idx b ≡ false
      → Counts m 0 (image_total xs) (count_items digest (some b) idx xs m)
  unfolding count_items image_total
  past b idx [] m e = record {
    historical = ground arith;
    current = ground arith;
    occurrences = ground arith;
    distinct = ground arith;
  }
  past b idx (x ∷ xs) m e = rw (e) (
      counts_as (omega arith) refl (
        Counts-trans (count_parts-Counts false (image_parts x) m)
          (past b (suc idx) xs _ (ground arith))))

  -- The first `k` items are historical.
  count_items-some :
      (b idx k : ℕ) (xs : List Json) (m : Measured)
      → suc b ≡ idx + k
      → Counts m
          (image_total (take k xs))
          (image_total (drop k xs))
          (count_items digest (some b) idx xs m)
  unfolding count_items image_total
  count_items-some b idx zero [] m e = record {
    historical = ground arith;
    current = ground arith;
    occurrences = ground arith;
    distinct = ground arith;
  }
  count_items-some b idx (suc k) [] m e = record {
    historical = ground arith;
    current = ground arith;
    occurrences = ground arith;
    distinct = ground arith;
  }
  count_items-some b idx (suc k) (x ∷ xs) m e =
      let new : leb idx b ≡ true = ground arith in
      rw (new) (
        counts_as refl (omega arith) (
          Counts-trans (count_parts-Counts true (image_parts x) m)
            (count_items-some b (suc idx) k xs _ (omega arith))))
  count_items-some b idx zero (x ∷ xs) m e =
      let old : leb idx b ≡ false = ground arith in
      rw (old) (
        counts_as (omega arith) refl (
          Counts-trans (count_parts-Counts false (image_parts x) m)
            (past b (suc idx) xs _ (ground arith))))

  measure-Counts :
      (xs : List Json)
      → Counts empty_count
          (image_total (take (history_length xs) xs))
          (image_total (drop (history_length xs) xs))
          (measure digest xs)
  unfolding measure image_total
  measure-Counts xs = elim (Bool-cases (history_length xs == 0)) [
    | inl e ↦
        let zero_length : history_length xs ≡ 0 = ground arith in
        rw (last_boundary-history_length 0 none xs, zero_length) (count_items-none 0 xs empty_count)
    | inr e ↦
        rw (last_boundary-history_length 0 none xs, e)
          (count_items-some (0 + history_length xs - 1) 0 (history_length xs) xs empty_count
            (ground arith))
  ]

  -- A body that measure_body accepts has as many image occurrences as image parts, no more than the
  -- limit, and no more distinct images than that; historical are those of the items up to the last of
  -- the assistant, current all others. Its sizes are the sums over all image parts of the bytes behind
  -- the comma of a base64 data URL and of the padding, which is taken off; the measure is partial
  -- exactly where a part has no such URL; and the sum is within the limit.
  pub measure_body-WithinBudget :
      (xs : List Json) (profile : BudgetProfile) (m : Measured)
      → measure_body digest xs profile ≡ ok m
      → WithinBudget xs profile m
  unfolding measure_body
  measure_body-WithinBudget xs profile m h =
      elim (Bool-cases (ltb profile.max_image_occurrences (measure digest xs).occurrences)) [
        | inl e ↦ absurd (ground arith)
        | inr e ↦
            elim (Bool-cases (
              ltb (profile.max_image_bytes_total + (measure digest xs).loss)
                (measure digest xs).gain)) [
                  | inl f ↦ absurd (ground arith)
                  | inr f ↦
                      let same : measure digest xs ≡ m =
                        ok-injective (sym (if_false _ _ f) ∙ sym (if_false _ _ e) ∙ h) in
                      let k = measure-Counts xs in
                      let size = measure-Sizes digest xs in
                      let split = image_total-split (history_length xs) xs in
                      rw (← same) record {
                        historical = ground (arith, k.historical);
                        current = ground (arith, k.current);
                        occurrences = ground (arith, k.occurrences, split);
                        distinct = ground (arith, k.distinct, k.occurrences, split);
                        count_fits = ground (arith, k.occurrences, split);
                        raw = ground (arith, size.gain);
                        padded = ground (arith, size.loss);
                        partial = ground (arith, size.partial);
                        bytes_fit = ground (arith, size.gain, size.loss);
                      }
                ]
      ]
