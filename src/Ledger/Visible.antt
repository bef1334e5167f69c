-- ===== src/Ledger/Visible.antt =====
-- fusion_relay/continuation.py: `visible_items`, what the native client shows of a response's output.
use Prim.Native.String.{◌++◌ as str_append}
use devin_fusion_via_codex.Common.{
  not, ◌||◌, Option, none, some, List, [], ◌∷◌, String, str_eq, ltb, length, if◌then◌else◌, Result,
  ok, err, raise_if, ◌>>=◌, ◌>>◌,
}
use devin_fusion_via_codex.Common.Json.{
  Json, string, array, object, field, end, items, all_objects, member, as_text, is_text,
}
use devin_fusion_via_codex.Ledger.Binding.{
  LedgerError, invalid_output, invalid_content, unsupported_content, invalid_call, unsupported_item,
}

-- `item.get('content', [])`
unfoldable pub content_of : Json → Result LedgerError (List Json)
content_of item = elim (member "content" item) [
  | none ↦ ok []
  | some (array xs) ↦ raise_if (not (all_objects (items xs))) invalid_content >> ok (items xs)
  | _ ↦ err invalid_content
]

text_or : Option String → Result LedgerError String
text_or none = err unsupported_content
text_or (some s) = ok s

-- The text of a part: its `text` or its `refusal`.
unfoldable pub part_text : Json → Result LedgerError String
unfolding text_or
part_text part =
    if is_text (member "type" part) "output_text"
    then text_or (as_text (member "text" part))
    else if is_text (member "type" part) "refusal"
    then text_or (as_text (member "refusal" part))
    else err unsupported_content

unfoldable pub parts_text : List Json → Result LedgerError String
parts_text [] = ok ""
parts_text (p ∷ ps) = do s ← part_text p; rest ← parts_text ps; ok (str_append s rest)

-- The call's dict of four keys.
abbrev pub call_item : String → String → String → Json
call_item id name arguments = object (
    field "arguments" (string arguments) (
      field "call_id" (string id)
        (field "name" (string name) (field "type" (string "function_call") end))))

call_of : Option String → Option String → Option String → Result LedgerError Json
call_of (some id) (some name) (some arguments) =
    if str_eq id "" || str_eq name "" then err invalid_call else ok (call_item id name arguments)
call_of _ _ _ = err invalid_call

-- The texts joined, and the calls in their order.
pub record Shown : Type 0 where
  pub texts : String
  pub calls : List Json

abbrev pub with_text : String → Shown → Shown
with_text s shown = record shown { texts = str_append s shown.texts }

abbrev pub with_call : Json → Shown → Shown
with_call c shown = record shown { calls = c ∷ shown.calls }

-- One item; the rest of the output was shown already.
unfoldable pub show_item : Json → Result LedgerError Shown → Result LedgerError Shown
unfolding call_of
show_item item rest =
    if is_text (member "type" item) "message"
    then (do
      content ← content_of item
      s ← parts_text content
      shown ← rest
      ok (with_text s shown))
    else if is_text (member "type" item) "function_call"
    then (do
      call ←
          call_of (as_text (member "call_id" item)) (as_text (member "name" item))
            (as_text (member "arguments" item))
      shown ← rest
      ok (with_call call shown))
    else if is_text (member "type" item) "reasoning"
    then rest
    else err unsupported_item

unfoldable pub show_items : List Json → Result LedgerError Shown
unfolding show_item
show_items [] = ok (record { texts = ""; calls = [] })
show_items (x ∷ xs) = let rest = show_items xs in show_item x rest

abbrev pub assistant_item : String → Json
assistant_item s = object (field "content" (string s) (field "role" (string "assistant") end))

abbrev pub projection : Shown → List Json
projection shown =
    if str_eq shown.texts "" then shown.calls else assistant_item shown.texts ∷ shown.calls

unfoldable pub visible_items : List Json → Result LedgerError (List Json)
unfolding show_items
visible_items output = do
  raise_if (ltb 2048 (length output) || not (all_objects output)) invalid_output
  shown ← show_items output
  ok (projection shown)
