-- ===== src/Wire/Message.antt =====
-- fusion_relay/wire.py: `field`, `decode_typed`, `encode_typed`, `set_string`, `first`.
-- A message is a Python dict from field numbers to lists, in insertion order.
pub mod Field
pub mod Plain
pub mod Loop
pub mod RoundTrip
use devin_fusion_via_codex.Common.{
  ℕ, zero, suc, ◌+◌, ◌*◌, ◌/◌, ◌%◌, Bool, ◌||◌, Option, none, some, List, [], ◌∷◌, ◌++◌, length,
  take, drop, ltb, ◌==◌, if◌then◌else◌, Result, ok, err, raise_if, ◌>>=◌, ◌>>◌,
}
use devin_fusion_via_codex.Wire.Error.{
  WireError, field_number_zero, unsupported_wire_type, truncated_field, fuel_exhausted,
}
use devin_fusion_via_codex.Wire.Varint.{varint, read_varint}

-- A text is the list of its code points; `str.encode` is UTF-8. (Lone surrogates, which Python
-- refuses to encode, are not told apart.)
utf8_char : ℕ → List ℕ
utf8_char c =
    if ltb c 0x80
    then c ∷ []
    else if ltb c 0x800
    then (0xc0 + c / 64) ∷ (0x80 + c % 64) ∷ []
    else if ltb c 0x10000
    then (0xe0 + c / 4096) ∷ (0x80 + c / 64 % 64) ∷ (0x80 + c % 64) ∷ []
    else (0xf0 + c / 262144) ∷ (0x80 + c / 4096 % 64) ∷ (0x80 + c / 64 % 64) ∷ (0x80 + c % 64) ∷ []

unfoldable pub encode_text : List ℕ → List ℕ
unfolding utf8_char
encode_text [] = []
encode_text (c ∷ cs) = utf8_char c ++ encode_text cs

-- The argument of `field`.
pub data FieldArg : Type 0 where
  bool_arg : Bool → FieldArg
  int_arg : ℕ → FieldArg
  str_arg bytes_arg : List ℕ → FieldArg

delimited : ℕ → List ℕ → List ℕ
delimited number raw = varint (number * 8 + 2) ++ (varint (length raw) ++ raw)

unfoldable pub field : ℕ → FieldArg → List ℕ
unfolding delimited
field number (bool_arg b) = varint (number * 8) ++ varint (if b then 1 else 0)
field number (int_arg n) = varint (number * 8) ++ varint n
field number (str_arg s) = delimited number (encode_text s)
field number (bytes_arg raw) = delimited number raw

-- A value of a decoded message.
pub data FieldValue : Type 0 where
  int_value : ℕ → FieldValue
  bytes_value : List ℕ → FieldValue

-- A value with its wire type: an int has wire type 0, bytes have another.
pub data TypedValue : Type 0 where
  int_field : ℕ → TypedValue
  raw_field : ℕ → List ℕ → TypedValue

abbrev pub Dict {ℓ} : Type ℓ → Type ℓ
Dict A = List (ℕ × List A)

module _ {ℓ} {A : Type ℓ} where
  -- `out.setdefault(number, []).append(value)`
  unfoldable pub append_value : ℕ → A → Dict A → Dict A
  append_value number v [] = (number, v ∷ []) ∷ []
  append_value number v ((k, vs) ∷ out) =
      if k == number then (k, vs ++ v ∷ []) ∷ out else (k, vs) ∷ append_value number v out

  -- `msg.get(number)`
  unfoldable pub get : ℕ → Dict A → Option (List A)
  get number [] = none
  get number ((k, vs) ∷ msg) = if k == number then some vs else get number msg

  -- `msg[number] = vs`
  unfoldable pub put : ℕ → List A → Dict A → Dict A
  put number vs [] = (number, vs) ∷ []
  put number vs ((k, ws) ∷ msg) = if k == number then (k, vs) ∷ msg else (k, ws) ∷ put number vs msg

  first_of_list : Option (List A) → A → A
  first_of_list none default = default
  first_of_list (some []) default = default
  first_of_list (some (v ∷ vs)) default = v

  unfoldable pub first : Dict A → ℕ → A → A
  unfolding first_of_list get
  first msg number default = first_of_list (get number msg) default

-- `value = buf[pos : pos + length]`, and the test that the buffer holds it.
cut : ℕ → ℕ → ℕ → List ℕ → Result WireError (ℕ × TypedValue × List ℕ)
cut number wire_type n rest =
    if ltb (length rest) n
    then err truncated_field
    else ok (number, raw_field wire_type (take n rest), drop n rest)

-- The value of a field, by its wire type.
read_value : ℕ → ℕ → List ℕ → Result WireError (ℕ × TypedValue × List ℕ)
unfolding cut
read_value number wire_type rest =
    if wire_type == 0
    then (do (n, left) ← read_varint rest; ok (number, int_field n, left))
    else if wire_type == 2
    then (do (n, left) ← read_varint rest; cut number 2 n left)
    else if (wire_type == 1) || (wire_type == 5)
    then cut number wire_type (if wire_type == 1 then 8 else 4) rest
    else err unsupported_wire_type

-- One round of the loop of `decode_typed`: the field at the start of the buffer, and what follows it.
unfoldable pub read_field : List ℕ → Result WireError (ℕ × TypedValue × List ℕ)
unfolding read_value
read_field buf = do
  (tag, rest) ← read_varint buf
  raise_if (tag / 8 == 0) field_number_zero
  read_value (tag / 8) (tag % 8) rest

-- `while pos < len(buf)`. Each round consumes a byte, so the length of the buffer is fuel enough.
unfoldable pub decode_loop : ℕ → List ℕ → Dict TypedValue → Result WireError (Dict TypedValue)
decode_loop fuel [] out = ok out
decode_loop zero (b ∷ buf) out = err fuel_exhausted
decode_loop (suc fuel) (b ∷ buf) out = do
  (number, value, rest) ← read_field (b ∷ buf)
  decode_loop fuel rest (append_value number value out)

unfoldable pub decode_typed : List ℕ → Result WireError (Dict TypedValue)
decode_typed buf = decode_loop (length buf) buf []

-- One value of one field on the wire.
unfoldable pub encode_value : ℕ → TypedValue → List ℕ
unfolding delimited
encode_value number (int_field n) = varint (number * 8) ++ varint n
encode_value number (raw_field wire_type raw) =
    if wire_type == 2 then delimited number raw else varint (number * 8 + wire_type) ++ raw

encode_values : ℕ → List TypedValue → List ℕ
encode_values number [] = []
encode_values number (v ∷ vs) = encode_value number v ++ encode_values number vs

unfoldable pub encode_typed : Dict TypedValue → List ℕ
unfolding encode_values
encode_typed [] = []
encode_typed ((number, vs) ∷ msg) = encode_values number vs ++ encode_typed msg

unfoldable pub set_string : Dict TypedValue → ℕ → List ℕ → Dict TypedValue
unfolding put
set_string msg number s = put number (raw_field 2 (encode_text s) ∷ []) msg
