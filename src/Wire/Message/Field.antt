-- ===== src/Wire/Message/Field.antt =====
-- One field of fusion_relay/wire.py, written and read.
use devin_fusion_via_codex.Common.{
  ℕ, ◌+◌, ◌*◌, ◌/◌, ◌%◌, ◌^◌, ◌≤◌, ◌<◌, ◌≡◌, ◌≢◌, ◌⊎◌, inl, inr, false, List, ◌++◌, length,
  length-append, length-drop, bind-ok, Bool-cases, take-append, drop-append, append_assoc, arith,
  lt→ltb, ltb-false, ◌==◌, ok, err, raise_if,
}
use devin_fusion_via_codex.Wire.Error.{field_number_zero, fuel_exhausted}
use devin_fusion_via_codex.Wire.Varint.{
  varint, read_varint, read_varint-varint, read_varint_shorter, read_varint_no_fuel,
}
use devin_fusion_via_codex.Wire.Message.{
  cut, read_value, read_field, encode_value, TypedValue, int_field, raw_field,
}

-- What a wire type can hold: a number of at most eleven groups, eight bytes, any bytes of such a
-- length, four bytes.
abbrev pub Fits : TypedValue → Type 0
Fits (int_field n) = n < 2 ^ 77
Fits (raw_field wire_type raw) =
    ((wire_type ≡ 2) × (length raw < 2 ^ 77))
    ⊎ (((wire_type ≡ 1) × (length raw ≡ 8)) ⊎ ((wire_type ≡ 5) × (length raw ≡ 4)))

abbrev pub IsFieldNumber : ℕ → Type 0
IsFieldNumber number = (0 < number) × (number < 2 ^ 74)

read_small : (n : ℕ) (rest : List ℕ) → n < 2 ^ 77 → read_varint (varint n ++ rest) ≡ ok (n, rest)
read_small n rest h = rw (read_varint-varint n rest, lt→ltb n (2 ^ 77) h)

cut-append :
    (number wire_type : ℕ) (raw rest : List ℕ)
    → cut number wire_type (length raw) (raw ++ rest) ≡ ok (number, raw_field wire_type raw, rest)
unfolding cut
cut-append number wire_type raw rest = rw (
  ltb-false (length (raw ++ rest)) (length raw) (omega (arith, length-append raw rest)),
  take-append raw rest,
  drop-append raw rest,
)

read_field-tag :
    (number wire_type : ℕ) (rest : List ℕ)
    → IsFieldNumber number
    → wire_type < 8
    → read_field (varint (number * 8 + wire_type) ++ rest) ≡ read_value number wire_type rest
unfolding read_field
read_field-tag number wire_type rest h small =
    let tag : (number * 8 + wire_type) / 8 ≡ number = omega arith in
    let low : (number * 8 + wire_type) % 8 ≡ wire_type = omega arith in
    let positive : (number == 0) ≡ false = ground arith in
    rw (read_small (number * 8 + wire_type) rest (omega arith), tag, low, positive)

pub read_field-encode_value :
    (number : ℕ) (v : TypedValue) (rest : List ℕ)
    → IsFieldNumber number
    → Fits v
    → read_field (encode_value number v ++ rest) ≡ ok (number, v, rest)
unfolding encode_value read_value
read_field-encode_value number (int_field n) rest h fits =
    let zero_type : number * 8 ≡ number * 8 + 0 = omega arith in
    rw (
      append_assoc (varint (number * 8)) (varint n) rest,
      zero_type,
      read_field-tag number 0 (varint n ++ rest) h (omega arith),
      read_small n rest fits,
    )
read_field-encode_value number (raw_field wire_type raw) rest h (inl (e, fits)) = rw (
  e,
  append_assoc (varint (number * 8 + 2)) (varint (length raw) ++ raw) rest,
  append_assoc (varint (length raw)) raw rest,
  read_field-tag number 2 (varint (length raw) ++ (raw ++ rest)) h (omega arith),
  read_small (length raw) (raw ++ rest) fits,
  cut-append number 2 raw rest,
)
read_field-encode_value number (raw_field wire_type raw) rest h (inr (inl (e, fits))) = rw (
  e,
  append_assoc (varint (number * 8 + 1)) raw rest,
  read_field-tag number 1 (raw ++ rest) h (omega arith),
  ← fits,
  cut-append number 1 raw rest,
)
read_field-encode_value number (raw_field wire_type raw) rest h (inr (inr (e, fits))) = rw (
  e,
  append_assoc (varint (number * 8 + 5)) raw rest,
  read_field-tag number 5 (raw ++ rest) h (omega arith),
  ← fits,
  cut-append number 5 raw rest,
)

cut_shorter :
    (number wire_type n : ℕ) (rest : List ℕ) {m : ℕ} {v : TypedValue} {left : List ℕ}
    → cut number wire_type n rest ≡ ok (m, v, left)
    → length left ≤ length rest
unfolding cut
cut_shorter number wire_type n rest {m} {v} {left} h = ground (arith, length-drop n rest)

value_shorter :
    (number wire_type : ℕ) (rest : List ℕ) {m : ℕ} {v : TypedValue} {left : List ℕ}
    → read_value number wire_type rest ≡ ok (m, v, left)
    → length left ≤ length rest
unfolding read_value
value_shorter number wire_type rest {m} {v} {left} h = elim (Bool-cases (wire_type == 0)) [
  | inl is_zero ↦
      let (a, read, e) = bind-ok (read_varint rest) _ (rw is_zero at h) in
      ground (arith, read_varint_shorter rest {n = a.0} {rest = a.1} read)
  | inr not_zero ↦ elim (Bool-cases (wire_type == 2)) [
    | inl is_two ↦
        let (a, read, e) = bind-ok (read_varint rest) _ (rw (not_zero, is_two) at h) in
        omega (
          arith,
          read_varint_shorter rest {n = a.0} {rest = a.1} read,
          cut_shorter number 2 a.0 a.1 e,
        )
    | inr not_two ↦ ground (
      arith,
      cut_shorter number wire_type 8 rest {m = m} {v = v} {left = left},
      cut_shorter number wire_type 4 rest {m = m} {v = v} {left = left},
    )
  ]
]

-- One round consumes at least a byte.
pub read_field_shorter :
    (buf : List ℕ) {number : ℕ} {v : TypedValue} {rest : List ℕ}
    → read_field buf ≡ ok (number, v, rest)
    → length rest < length buf
unfolding read_field
read_field_shorter buf {number} {v} {rest} h =
    let (a, read, e) = bind-ok (read_varint buf) _ h in
    let (_, _, value) = bind-ok (raise_if (a.0 / 8 == 0) field_number_zero) _ e in
    omega (
      arith,
      read_varint_shorter buf {n = a.0} {rest = a.1} read,
      value_shorter (a.0 / 8) (a.0 % 8) a.1 value,
    )

cut_no_fuel :
    (number wire_type n : ℕ) (rest : List ℕ) → cut number wire_type n rest ≢ err fuel_exhausted
unfolding cut
cut_no_fuel number wire_type n rest h = ground arith

pub read_field_no_fuel : (buf : List ℕ) → read_field buf ≢ err fuel_exhausted
unfolding read_field read_value
read_field_no_fuel buf h = grind (arith, read_varint_no_fuel, cut_no_fuel)
