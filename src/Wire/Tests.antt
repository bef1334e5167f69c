-- ===== src/Wire/Tests.antt =====
-- Runs of fusion_relay/wire.py and of the stream observer, and the theorems at concrete inputs.
use devin_fusion_via_codex.Common.{
  ℕ, ◌≡◌, refl, ◌≢◌, Bool, true, false, List, [], ◌∷◌, ◌++◌, ok, err, arith, ltb, if◌then◌else◌,
}
use devin_fusion_via_codex.Wire.Error.{
  varint_too_long, bytes_after_trailer, fuel_exhausted, unsupported_wire_type,
}
use devin_fusion_via_codex.Wire.Varint.{varint, read_varint, read_varint-varint}
use devin_fusion_via_codex.Wire.Message.{
  field, encode_text, str_arg, decode_typed, encode_typed, TypedValue, int_field, raw_field, Dict,
}
use devin_fusion_via_codex.Wire.Message.Plain.{plain_varint, plain_field, plain_loop, decode}
use devin_fusion_via_codex.Wire.Message.Loop.{decode_ends, decode-eq-forget, forget_result}
use devin_fusion_via_codex.Wire.Message.RoundTrip.{IsMessage, decode_typed-encode_typed}
use devin_fusion_via_codex.Wire.Frames.{Frame, frame, iter_frames}
use devin_fusion_via_codex.Wire.Frames.RoundTrip.{in_order, write_frames, iter_frames-write_frames}
use devin_fusion_via_codex.Wire.Observer.{Observer, feed}
use devin_fusion_via_codex.Wire.Observer.Chunks.{outcome, feed_all, feed_all-joined}

varint_300 : varint 300 ≡ 172 ∷ 2 ∷ []
unfolding varint
varint_300 = refl

field_text : field 3 (str_arg (104 ∷ 233 ∷ [])) ≡ 26 ∷ 3 ∷ 104 ∷ 195 ∷ 169 ∷ []
unfolding field varint encode_text
field_text = refl

decode_bad_type : decode (11 ∷ []) ≡ err unsupported_wire_type
unfolding decode plain_loop plain_field plain_varint
decode_bad_type = refl

read_varint-varint_example :
    read_varint (varint 300 ++ 9 ∷ [])
    ≡ (if ltb 300 151115727451828646838272 then ok (300, 9 ∷ []) else err varint_too_long)
read_varint-varint_example = read_varint-varint 300 (9 ∷ [])

decode_ends_example :
    (decode (8 ∷ 150 ∷ 1 ∷ []) ≢ err fuel_exhausted)
    × (decode_typed (8 ∷ 150 ∷ 1 ∷ []) ≢ err fuel_exhausted)
decode_ends_example = decode_ends (8 ∷ 150 ∷ 1 ∷ [])

decode-eq-forget_example :
    decode (8 ∷ 150 ∷ 1 ∷ []) ≡ forget_result (decode_typed (8 ∷ 150 ∷ 1 ∷ []))
decode-eq-forget_example = decode-eq-forget (8 ∷ 150 ∷ 1 ∷ [])

abbrev sample : Dict TypedValue
sample =
    (2, int_field 7 ∷ raw_field 2 (65 ∷ 66 ∷ []) ∷ [])
    ∷ (1, raw_field 5 (1 ∷ 2 ∷ 3 ∷ 4 ∷ []) ∷ [])
    ∷ []

sample-IsMessage : IsMessage sample
sample-IsMessage = ground arith

decode_typed-encode_typed_example : decode_typed (encode_typed sample) ≡ ok sample
decode_typed-encode_typed_example = decode_typed-encode_typed sample sample-IsMessage

abbrev two_frames : List Frame
two_frames = (0, 1 ∷ 2 ∷ []) ∷ (2, 123 ∷ 125 ∷ []) ∷ []

abbrev two_frames_bytes : List ℕ
two_frames_bytes = 0 ∷ 0 ∷ 0 ∷ 0 ∷ 2 ∷ 1 ∷ 2 ∷ 2 ∷ 0 ∷ 0 ∷ 0 ∷ 2 ∷ 123 ∷ 125 ∷ []

two_frames_written : write_frames two_frames ≡ ok two_frames_bytes
unfolding write_frames frame
two_frames_written = refl

iter_frames-write_frames_example :
    iter_frames two_frames_bytes
    ≡ (if in_order false two_frames then ok two_frames else err bytes_after_trailer)
iter_frames-write_frames_example =
    iter_frames-write_frames two_frames two_frames_bytes (ground arith) (omega arith)
      two_frames_written

abbrev start : Observer
start = record { limit = 16777216; buf = []; trailer = false; seen = [] }

abbrev always : List ℕ → Bool
always payload = true

feed_all-joined_example :
    outcome (feed_all always ((0 ∷ 0 ∷ []) ∷ (0 ∷ 0 ∷ 1 ∷ 7 ∷ 2 ∷ []) ∷ []) start)
    ≡ outcome (feed always (0 ∷ 0 ∷ 0 ∷ 0 ∷ 1 ∷ 7 ∷ 2 ∷ []) start)
feed_all-joined_example =
    feed_all-joined always (0 ∷ 0 ∷ []) ((0 ∷ 0 ∷ 1 ∷ 7 ∷ 2 ∷ []) ∷ []) start (ground arith)
