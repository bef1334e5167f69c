-- ===== src/Common/Texts.antt =====
-- Texts as keys: equality is decided by the Boolean test.
use Prim.Native.Char.{code}
use Prim.Native.String.{String, count}
use Prim.Native.Nat.{ℕ}
use mathlib.Core.Path.{◌≡◌, refl, sym, ◌∙◌}
use mathlib.Core.Bool.{Bool, true, false, ◌&&◌, ◌||◌, false≢true}
use mathlib.Core.List.{List, [], ◌∷◌}
use text.Mathlib.Text.{◌==◌ as str_eq}
use text.Mathlib.TextEquality.{eq_iff}
use devin_fusion_via_codex.Common.Tests.{leb, ◌==◌}

decide_text : (s t : String) (b : Bool) → str_eq s t ≡ b → Dec (s ≡ t)
decide_text s t true e = yes ((eq_iff s t).0 e)
decide_text s t false e = no (λ p. false≢true (sym e ∙ (eq_iff s t).1 p))

unfoldable pub string_discrete : Discrete String
unfolding decide_text
string_discrete s t = decide_text s t (str_eq s t) refl

-- The code points of a text.
abbrev pub codes : String → List ℕ
codes String.[] = []
codes (String.◌∷◌ c s) = code c ∷ codes s

is_hex : List ℕ → Bool
is_hex [] = true
is_hex (x ∷ xs) = ((leb b'0' x && leb x b'9') || (leb b'a' x && leb x b'f')) && is_hex xs

-- `re.fullmatch('[0-9a-f]{64}', text)`
unfoldable pub is_sha256_hex : String → Bool
unfolding is_hex
is_sha256_hex text = (count text == 64) && is_hex (codes text)
