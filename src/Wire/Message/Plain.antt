-- ===== src/Wire/Message/Plain.antt =====
-- fusion_relay/wire.py: `decode`, which has a `read_varint` and a loop of its own.
use devin_fusion_via_codex.Common.{
  ℕ, zero, suc, ◌+◌, ◌*◌, ◌/◌, ◌%◌, ◌^◌, ◌||◌, List, [], ◌∷◌, length, take, drop, ltb, ◌==◌,
  if◌then◌else◌, Result, ok, err, raise_if, ◌>>=◌, ◌>>◌,
}
use devin_fusion_via_codex.Wire.Error.{
  WireError, field_number_zero, unsupported_wire_type, truncated_field, truncated_varint,
  varint_too_long, fuel_exhausted,
}
use devin_fusion_via_codex.Wire.Message.{FieldValue, int_value, bytes_value, Dict, append_value}

-- The loop of its `read_varint`, from the value and the shift so far.
unfoldable pub plain_varint_from : ℕ → ℕ → List ℕ → Result WireError (ℕ × List ℕ)
plain_varint_from n shift [] = err truncated_varint
plain_varint_from n shift (byte ∷ rest) =
    let n' = n + byte % 128 * 2 ^ shift in
    let more = plain_varint_from n' (shift + 7) rest in
    if ltb byte 128 then ok (n', rest) else if ltb 70 (shift + 7) then err varint_too_long else more

unfoldable pub plain_varint : List ℕ → Result WireError (ℕ × List ℕ)
unfolding plain_varint_from
plain_varint = plain_varint_from 0 0

-- `value = buf[pos : pos + length]`, and the test that the buffer holds it.
unfoldable pub plain_slice : ℕ → ℕ → List ℕ → Result WireError (ℕ × FieldValue × List ℕ)
plain_slice number n rest =
    if ltb (length rest) n
    then err truncated_field
    else ok (number, bytes_value (take n rest), drop n rest)

unfoldable pub plain_value : ℕ → ℕ → List ℕ → Result WireError (ℕ × FieldValue × List ℕ)
unfolding plain_slice
plain_value number wire_type rest =
    if wire_type == 0
    then (do (n, left) ← plain_varint rest; ok (number, int_value n, left))
    else if wire_type == 2
    then (do (n, left) ← plain_varint rest; plain_slice number n left)
    else if (wire_type == 1) || (wire_type == 5)
    then plain_slice number (if wire_type == 1 then 8 else 4) rest
    else err unsupported_wire_type

-- One round of the loop of `decode`.
unfoldable pub plain_field : List ℕ → Result WireError (ℕ × FieldValue × List ℕ)
unfolding plain_value
plain_field buf = do
  (tag, rest) ← plain_varint buf
  raise_if (tag / 8 == 0) field_number_zero
  plain_value (tag / 8) (tag % 8) rest

-- Each round consumes a byte, so the length of the buffer is fuel enough.
unfoldable pub plain_loop : ℕ → List ℕ → Dict FieldValue → Result WireError (Dict FieldValue)
plain_loop fuel [] out = ok out
plain_loop zero (b ∷ buf) out = err fuel_exhausted
plain_loop (suc fuel) (b ∷ buf) out = do
  (number, value, rest) ← plain_field (b ∷ buf)
  plain_loop fuel rest (append_value number value out)

unfoldable pub decode : List ℕ → Result WireError (Dict FieldValue)
decode buf = plain_loop (length buf) buf []
