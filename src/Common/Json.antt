-- ===== src/Common/Json.antt =====
-- What `json.loads` returns. A dict is the list of its entries, sorted by key as `canonical` of
-- fusion_relay/continuation.py writes them; a number is its text.
use Prim.Native.String.{String}
use mathlib.Core.Path.{◌≡◌, refl}
use mathlib.Core.Bool.{Bool, true, false, decide, ◌&&◌}
use mathlib.Core.Option.{Option, none, some}
use mathlib.Core.List.{List, [], ◌∷◌}
use native.Mathlib.Omega.{arith}
use text.Mathlib.Text.{◌==◌ as str_eq}
use devin_fusion_via_codex.Common.Texts.{string_discrete}
use devin_fusion_via_codex.Common.Tests.{if◌then◌else◌, decide_sound, decide_complete}

mutual
  pub data Json : Type 0 where
    null : Json
    boolean : Bool → Json
    number : String → Json
    string : String → Json
    array : Array → Json
    object : Object → Json

  pub data Array : Type 0 where
    nil : Array
    cons : Json → Array → Array

  pub data Object : Type 0 where
    end : Object
    field : String → Json → Object → Object

items-discrete : Discrete (List Json)
unfolding string_discrete
items-discrete = hlevel string_discrete

-- `a == b` of two lists.
pub same_items : List Json → List Json → Bool
same_items a b = decide (items-discrete a b)

pub same_items_sound : (a b : List Json) → same_items a b ≡ true → a ≡ b
unfolding same_items
same_items_sound a b h = decide_sound (items-discrete a b) h

pub same_items_refl : (a : List Json) → same_items a a ≡ true
unfolding same_items
same_items_refl a = decide_complete (items-discrete a a) refl

-- `d.get(key)`
unfoldable pub get : String → Object → Option Json
get key end = none
get key (field k v o) = if str_eq k key then some v else get key o

abbrev pub items : Array → List Json
items nil = []
items (cons x xs) = x ∷ items xs

abbrev pub array_of : List Json → Array
array_of [] = nil
array_of (x ∷ xs) = cons x (array_of xs)

pub items-array_of : (xs : List Json) → items (array_of xs) ≡ xs
items-array_of [] = refl
items-array_of (x ∷ xs) = ground (arith, items-array_of xs)

abbrev pub is_object : Json → Bool
is_object (object o) = true
is_object _ = false

unfoldable pub all_objects : List Json → Bool
all_objects [] = true
all_objects (x ∷ xs) = is_object x && all_objects xs

-- `item.get(key)` of an item that is a dict.
abbrev pub member : String → Json → Option Json
member key (object o) = get key o
member key _ = none

abbrev pub as_text : Option Json → Option String
as_text (some (string s)) = some s
as_text _ = none

-- `item.get(key) == s`
abbrev pub is_text : Option Json → String → Bool
is_text (some (string t)) s = str_eq t s
is_text _ s = false
