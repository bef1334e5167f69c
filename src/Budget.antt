-- ===== src/Budget.antt =====
-- fusion_relay/payload_budget.py: the measurements of a request's body, whose input is a list, and the
-- checks against a profile. The digest of an image's text is a parameter; `image_bytes_total` is the
-- difference of `gain` and `loss`, since the size of a text that is mostly padding is negative.
pub mod Sizes
pub mod Split
mod Tests
use devin_fusion_via_codex.Common.{
  ℕ, zero, suc, ◌+◌, ◌*◌, ◌/◌, Bool, true, false, not, ◌&&◌, ◌||◌, Option, none, some, List, [],
  ◌∷◌, ◌++◌, String, str_eq, ltb, leb, ◌==◌, length, codes, if◌then◌else◌, Result, ok, err,
}
use devin_fusion_via_codex.Common.Json.{Json, string, array, object, items, member, is_text}
use mathlib.Core.List.{reverse}

pub record BudgetProfile : Type 0 where
  pub max_image_occurrences : ℕ
  pub max_image_bytes_total : ℕ
  pub max_serialized_bytes : ℕ

-- `CODEX_PROFILE`
abbrev pub codex_profile : BudgetProfile
codex_profile = record {
  max_image_occurrences = 40;
  max_image_bytes_total = 25165824;
  max_serialized_bytes = 33554432;
}

-- `BudgetExceeded` by its kind.
pub data BudgetKind : Type 0 where
  wire_bytes image_count image_bytes translated_bytes : BudgetKind

pub record Measured : Type 0 where
  pub occurrences : ℕ
  pub historical : ℕ
  pub current : ℕ
  pub gain : ℕ
  pub loss : ℕ
  pub partial : Bool
  pub digests : List String

is_dict : Json → Bool
is_dict (object o) = true
is_dict _ = false

-- `[p for p in … if isinstance(p, dict) and p.get('type') == 'input_image']`
unfoldable pub images_in : List Json → List Json
unfolding is_dict
images_in [] = []
images_in (p ∷ ps) =
    let rest = images_in ps in
    if is_dict p && is_text (member "type" p) "input_image" then p ∷ rest else rest

-- `isinstance(x, list)`, with its items.
abbrev pub as_list : Option Json → Option (List Json)
as_list (some (array xs)) = some (items xs)
as_list _ = none

abbrev pub images_of : Bool → Option (List Json) → List Json → List Json
images_of true (some xs) other = images_in xs
images_of _ _ other = other

-- `_image_parts`
unfoldable pub image_parts : Json → List Json
unfolding images_in
image_parts item =
    images_of (is_text (member "role" item) "user") (as_list (member "content" item)) (
      images_of (is_text (member "type" item) "function_call_output")
        (as_list (member "output" item)) [])

-- `s.startswith(prefix)`
unfoldable pub starts_with : List ℕ → List ℕ → Bool
starts_with [] s = true
starts_with (x ∷ xs) [] = false
starts_with (x ∷ xs) (y ∷ ys) = (x == y) && starts_with xs ys

-- `url.partition(',')`, where there is a comma: what is before the first, and what is after it.
abbrev pub before_part : ℕ → Option (List ℕ × List ℕ) → Option (List ℕ × List ℕ)
before_part x none = none
before_part x (some (head, tail)) = some (x ∷ head, tail)

unfoldable pub partition_comma : List ℕ → Option (List ℕ × List ℕ)
partition_comma [] = none
partition_comma (x ∷ xs) =
    let rest = partition_comma xs in if x == b',' then some ([], xs) else before_part x rest

-- `s.endswith(suffix)`
unfoldable pub ends_with : List ℕ → List ℕ → Bool
unfolding starts_with
ends_with suffix s = starts_with (reverse suffix) (reverse s)

-- The number of '=' at the start.
unfoldable pub leading_signs : List ℕ → ℕ
leading_signs [] = 0
leading_signs (x ∷ xs) = let rest = leading_signs xs in if x == b'=' then suc rest else 0

-- `len(b64) - len(b64.rstrip('='))`
abbrev pub padding : List ℕ → ℕ
padding s = leading_signs (reverse s)

-- The base64 text of a data URL.
abbrev pub payload_of : Option (List ℕ × List ℕ) → Option (List ℕ)
payload_of none = none
payload_of (some (head, tail)) = if ends_with (codes ";base64") head then some tail else none

unfoldable pub url_payload : Option Json → Option (List ℕ)
unfolding starts_with partition_comma ends_with
url_payload (some (string url)) =
    if starts_with (codes "data:") (codes url)
    then payload_of (partition_comma (codes url))
    else none
url_payload _ = none

-- `item.get('role') == 'assistant' or item.get('type') in ('function_call', 'reasoning')`
abbrev pub is_boundary : Json → Bool
is_boundary item =
    is_text (member "role" item) "assistant"
    || (is_text (member "type" item) "function_call" || is_text (member "type" item) "reasoning")

-- The index of the last boundary item, from `idx` on; none is -1.
unfoldable pub last_boundary : ℕ → Option ℕ → List Json → Option ℕ
last_boundary idx found [] = found
last_boundary idx found (x ∷ xs) =
    last_boundary (suc idx) (if is_boundary x then some idx else found) xs

-- `boundary >= 0 and idx <= boundary`
abbrev pub is_historical : Option ℕ → ℕ → Bool
is_historical none idx = false
is_historical (some boundary) idx = leb idx boundary

abbrev pub empty_count : Measured
empty_count = record {
  occurrences = 0;
  historical = 0;
  current = 0;
  gain = 0;
  loss = 0;
  partial = false;
  digests = [];
}

unfoldable pub mem_digest : String → List String → Bool
mem_digest d [] = false
mem_digest d (e ∷ es) = str_eq e d || mem_digest d es

-- `unique.add(digest)`
abbrev pub add_digest : String → List String → List String
add_digest d ds = if mem_digest d ds then ds else ds ++ d ∷ []

abbrev pub count_part : Bool → Measured → Measured
count_part true m = record m { occurrences = m.occurrences + 1; historical = m.historical + 1 }
count_part false m = record m { occurrences = m.occurrences + 1; current = m.current + 1 }

module _ (digest : List ℕ → String) where
  abbrev pub add_size : Option (List ℕ) → Measured → Measured
  add_size none m = record m { partial = true }
  add_size (some b64) m = record m {
    gain = m.gain + length b64 * 3 / 4;
    loss = m.loss + padding b64;
    digests = add_digest (digest b64) m.digests;
  }

  -- The parts of one item.
  unfoldable pub count_parts : Bool → List Json → Measured → Measured
  count_parts old [] m = m
  count_parts old (p ∷ ps) m =
      count_parts old ps (add_size (url_payload (member "image_url" p)) (count_part old m))

  unfoldable pub count_items : Option ℕ → ℕ → List Json → Measured → Measured
  unfolding count_parts
  count_items boundary idx [] m = m
  count_items boundary idx (x ∷ xs) m =
      count_items boundary (suc idx) xs (count_parts (is_historical boundary idx) (image_parts x) m)

  unfoldable pub measure : List Json → Measured
  unfolding count_items last_boundary
  measure xs = count_items (last_boundary 0 none xs) 0 xs empty_count

  -- `measure_body`
  unfoldable pub measure_body : List Json → BudgetProfile → Result BudgetKind Measured
  unfolding measure
  measure_body xs profile =
      if ltb profile.max_image_occurrences (measure xs).occurrences
      then err image_count
      else if ltb (profile.max_image_bytes_total + (measure xs).loss) (measure xs).gain
      then err image_bytes
      else ok (measure xs)

-- `coarse_incoming_check`
unfoldable pub coarse_incoming_check : ℕ → BudgetProfile → Result BudgetKind ℕ
coarse_incoming_check wire profile =
    if ltb profile.max_serialized_bytes (wire * 4 / 3) then err wire_bytes else ok wire

-- `serialize_and_check`, of the serialized bytes.
unfoldable pub serialize_and_check : List ℕ → BudgetProfile → Result BudgetKind (List ℕ)
serialize_and_check bytes profile =
    if ltb profile.max_serialized_bytes (length bytes) then err translated_bytes else ok bytes
