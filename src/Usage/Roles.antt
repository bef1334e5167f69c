-- ===== src/Usage/Roles.antt =====
-- fusion_relay/usage.py: what `aggregate` sums up and counts, by role and by entry.
use devin_fusion_via_codex.Common.{
  ℕ, ◌+◌, ◌≡◌, refl, ◌∙◌, Bool, true, false, not, ◌&&◌, ◌||◌, ◌==◌, ltb, ◌⊎◌, inl, inr, Option,
  none, some, List, [], ◌∷◌, length, arith, if◌then◌else◌,
}
use devin_fusion_via_codex.Usage.{
  Item, Counts, Totals, Field, input_tokens, output_tokens, cached_tokens, reasoning_tokens, Role,
  lead, sidekick, unverified, missing, total, unknown_calls, aggregate, count_of, add_known,
  known_counts, sum, sum_known, count_if, is_none,
}

abbrev same_role : Role → Role → Bool
same_role lead lead = true
same_role sidekick sidekick = true
same_role unverified unverified = true
same_role _ _ = false

-- `[value for value in values if value["role"] == current]`
unfoldable pub of_role : Role → List Item → List Item
of_role r [] = []
of_role r (e ∷ es) = let rest = of_role r es in if same_role e.role r then e ∷ rest else rest

-- A total that is not known counts as 0.
abbrev pub known : Option ℕ → ℕ
known none = 0
known (some n) = n

-- The sum of a number over the roles.
abbrev pub by_role : (Role → ℕ) → ℕ
by_role f = f lead + (f sidekick + f unverified)

Role-cases : (r : Role) → (r ≡ lead) ⊎ ((r ≡ sidekick) ⊎ (r ≡ unverified))
Role-cases lead = inl refl
Role-cases sidekick = inr (inl refl)
Role-cases unverified = inr (inr refl)

-- A number that is summed over the entries is the sum of its parts by role.
sum-by_role :
    (g : List Item → ℕ) (weight : Item → ℕ)
    → g [] ≡ 0
    → ((e : Item) (es : List Item) → g (e ∷ es) ≡ weight e + g es)
    → (es : List Item) → g es ≡ by_role (λ r. g (of_role r es))
unfolding of_role
sum-by_role g weight empty cons [] = ground arith
sum-by_role g weight empty cons (e ∷ es) =
    let rest = sum-by_role g weight empty cons es in
    elim (Role-cases e.role) [
      | inl h ↦ ground (arith, cons e es, cons e (of_role lead es))
      | inr (inl h) ↦ ground (arith, cons e es, cons e (of_role sidekick es))
      | inr (inr h) ↦ ground (arith, cons e es, cons e (of_role unverified es))
    ]

count_if-add : (b : Bool) (n : ℕ) → count_if b n ≡ count_if b 0 + n
count_if-add true n = ground arith
count_if-add false n = ground arith

-- The sum of what the entries report of a field, where an entry without it counts as 0.
unfoldable pub reported : Field → List Item → ℕ
reported f [] = 0
reported f (e ∷ es) = known (count_of f e.counts) + reported f es

-- The number of the entries without the field.
unfoldable pub unreported : Field → List Item → ℕ
unreported f [] = 0
unreported f (e ∷ es) = count_if (is_none (count_of f e.counts)) (unreported f es)

-- The number of the entries with neither input nor output tokens.
unfoldable pub neither : List Item → ℕ
neither [] = 0
neither (e ∷ es) =
    count_if (is_none e.counts.input_tokens && is_none e.counts.output_tokens) (neither es)

abbrev is_reported : Counts → Bool
is_reported c =
    not (is_none c.input_tokens)
    && (not (is_none c.output_tokens)
        && (not (is_none c.cached_tokens) && not (is_none c.reasoning_tokens)))

-- Every entry has every field.
unfoldable pub all_reported : List Item → Bool
all_reported [] = true
all_reported (e ∷ es) = is_reported e.counts && all_reported es

-- The totals of the entries. Sums and missing fields are the sums of those of the three roles' entries;
-- a total is unknown where no entry has the field; a call is unknown without input or output tokens,
-- so those with neither are in both missing numbers; and the totals are partial where any field is
-- missing in any entry.
pub record IsTally (es : List Item) (t : Totals) : Type 0 where
  pub counted : t.response_count ≡ by_role (λ r. length (of_role r es))
  pub sums : (f : Field) → known (t.totals f) ≡ by_role (λ r. reported f (of_role r es))
  pub unknown_totals : (f : Field) → is_none (t.totals f) ≡ (t.missing_fields f == t.response_count)
  pub unreported_fields :
      (f : Field) → t.missing_fields f ≡ by_role (λ r. unreported f (of_role r es))
  pub overlap :
      t.unknown_count + neither es ≡ t.missing_fields input_tokens + t.missing_fields output_tokens
  pub partial_totals : t.partial ≡ not (all_reported es)

known-sum_known : (ns : List ℕ) → known (sum_known ns) ≡ sum ns
unfolding sum
known-sum_known [] = refl
known-sum_known (n ∷ ns) = refl

is_none-sum_known : (ns : List ℕ) → is_none (sum_known ns) ≡ (length ns == 0)
is_none-sum_known [] = refl
is_none-sum_known (n ∷ ns) = ground arith

sum-add_known : (a : Option ℕ) (ns : List ℕ) → sum (add_known a ns) ≡ known a + sum ns
unfolding sum
sum-add_known none ns = ground arith
sum-add_known (some n) ns = refl

length-add_known :
    (a : Option ℕ) (ns : List ℕ) → length (add_known a ns) + count_if (is_none a) 0 ≡ length ns + 1
length-add_known none ns = ground arith
length-add_known (some n) ns = ground arith

sum-known_counts : (f : Field) (es : List Item) → sum (known_counts f es) ≡ reported f es
unfolding known_counts reported sum
sum-known_counts f [] = refl
sum-known_counts f (e ∷ es) =
    omega (arith, sum-add_known (count_of f e.counts) (known_counts f es), sum-known_counts f es)

-- An entry has the field or is without it.
known_counts-unreported :
    (f : Field) (es : List Item) → length (known_counts f es) + unreported f es ≡ length es
unfolding known_counts unreported
known_counts-unreported f [] = refl
known_counts-unreported f (e ∷ es) = omega (
  arith,
  length-add_known (count_of f e.counts) (known_counts f es),
  count_if-add (is_none (count_of f e.counts)) (unreported f es),
  known_counts-unreported f es,
)

missing-unreported : (f : Field) (es : List Item) → missing f es ≡ unreported f es
unfolding missing
missing-unreported f es = omega (arith, known_counts-unreported f es)

overlap_one :
    (a b : Bool) (u n i o : ℕ)
    → u + n ≡ i + o
    → count_if (a || b) u + count_if (a && b) n ≡ count_if a i + count_if b o
overlap_one true true u n i o h = omega arith
overlap_one true false u n i o h = omega arith
overlap_one false true u n i o h = omega arith
overlap_one false false u n i o h = omega arith

unknown_calls-neither :
    (es : List Item)
    → unknown_calls es + neither es ≡ unreported input_tokens es + unreported output_tokens es
unfolding unknown_calls neither unreported count_of
unknown_calls-neither [] = refl
unknown_calls-neither (e ∷ es) =
    overlap_one (is_none e.counts.input_tokens) (is_none e.counts.output_tokens) (unknown_calls es)
      (neither es) (unreported input_tokens es) (unreported output_tokens es)
      (unknown_calls-neither es)

abbrev any_unreported : List Item → Bool
any_unreported es =
    ltb 0 (unreported input_tokens es)
    || (ltb 0 (unreported output_tokens es)
        || (ltb 0 (unreported cached_tokens es) || ltb 0 (unreported reasoning_tokens es)))

count_if-pos : (b : Bool) (n : ℕ) → ltb 0 (count_if b n) ≡ (b || ltb 0 n)
count_if-pos true n = ground arith
count_if-pos false n = refl

any_unreported-all_reported : (es : List Item) → any_unreported es ≡ not (all_reported es)
unfolding unreported all_reported count_of
any_unreported-all_reported [] = ground arith
any_unreported-all_reported (e ∷ es) =
    rw
      (
        count_if-pos (is_none e.counts.input_tokens) (unreported input_tokens es),
        count_if-pos (is_none e.counts.output_tokens) (unreported output_tokens es),
        count_if-pos (is_none e.counts.cached_tokens) (unreported cached_tokens es),
        count_if-pos (is_none e.counts.reasoning_tokens) (unreported reasoning_tokens es),
      )
      (ground (arith, any_unreported-all_reported es))

-- The result of aggregate: the number of entries, each field's sum and the number of entries without
-- it are those of the entries, summed over the three roles; a field's total is unknown exactly where
-- no entry has it; the unknown calls are the entries without input or without output tokens; and it is
-- partial exactly where a field is missing in an entry.
pub aggregate-IsTally : (es : List Item) → IsTally es (aggregate es)
unfolding aggregate total missing
aggregate-IsTally es = record {
  counted = sum-by_role length (λ e. 1) refl (λ e es. ground arith) es;
  sums = λ f.
      known-sum_known (known_counts f es)
      ∙ sum-known_counts f es
      ∙ sum-by_role (reported f) (λ e. known (count_of f e.counts)) (unfold reported in refl)
          (λ e es. unfold reported in refl) es;
  unknown_totals =
      λ f. is_none-sum_known (known_counts f es) ∙ ground (arith, known_counts-unreported f es);
  unreported_fields = λ f.
      missing-unreported f es
      ∙ sum-by_role (unreported f) (λ e. count_if (is_none (count_of f e.counts)) 0)
          (unfold unreported in refl)
          (λ e es. unfold unreported in count_if-add _ (unreported f es)) es;
  overlap = omega (
    arith,
    unknown_calls-neither es,
    missing-unreported input_tokens es,
    missing-unreported output_tokens es,
  );
  partial_totals =
      rw
        (
          missing-unreported input_tokens es,
          missing-unreported output_tokens es,
          missing-unreported cached_tokens es,
          missing-unreported reasoning_tokens es,
        )
        (any_unreported-all_reported es);
}
