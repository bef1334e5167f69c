-- ===== src/Budget/Tests.antt =====
-- Runs of fusion_relay/payload_budget.py on small inputs.
use devin_fusion_via_codex.Common.{◌≡◌, refl, false, List, [], ◌∷◌, ok}
use devin_fusion_via_codex.Common.Json.{Json, string, array, object, nil, cons, end, field, get}
use devin_fusion_via_codex.Budget.{
  codex_profile, Measured, images_in, image_parts, starts_with, partition_comma, ends_with,
  leading_signs, url_payload, last_boundary, mem_digest, count_parts, count_items, measure,
  measure_body,
}
use devin_fusion_via_codex.Budget.Split.{WithinBudget, measure_body-WithinBudget}

abbrev image : Json
image = object (
    field "image_url" (string "data:image/png;base64,QUJD")
      (field "type" (string "input_image") end))

abbrev shown : Json
shown = object (field "content" (array (cons image nil)) (field "role" (string "user") end))

abbrev answer : Json
answer = object (field "content" (string "ok") (field "role" (string "assistant") end))

abbrev body : List Json
body = shown ∷ answer ∷ shown ∷ []

abbrev measured : Measured
measured = record {
  occurrences = 2;
  historical = 1;
  current = 1;
  gain = 6;
  loss = 0;
  partial = false;
  digests = "digest" ∷ [];
}

measure_two : measure_body (λ s. "digest") body codex_profile ≡ ok measured
unfolding measure_body measure last_boundary count_items count_parts image_parts images_in
    url_payload starts_with partition_comma ends_with leading_signs mem_digest get
measure_two = refl

measure_body-WithinBudget_example : WithinBudget body codex_profile measured
measure_body-WithinBudget_example =
    measure_body-WithinBudget (λ s. "digest") body codex_profile measured measure_two

abbrev padded : Json
padded = object (
    field "content"
      (array (
        cons
          (object (
            field "image_url" (string "data:;base64,========")
              (field "type" (string "input_image") end)))
          nil))
      (field "role" (string "user") end))

-- The size of a payload of padding alone is below 0.
measure_padding :
    measure (λ s. "digest") (padded ∷ [])
    ≡ record measured { occurrences = 1; historical = 0; loss = 8 }
unfolding measure last_boundary count_items count_parts image_parts images_in url_payload
    starts_with partition_comma ends_with leading_signs mem_digest get
measure_padding = refl
