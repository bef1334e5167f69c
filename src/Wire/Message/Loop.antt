-- ===== src/Wire/Message/Loop.antt =====
-- The decoders' loops of fusion_relay/wire.py: their fuel, their steps, and that they agree.
use devin_fusion_via_codex.Common.{
  ℕ, zero, suc, ◌+◌, ◌*◌, ◌/◌, ◌%◌, ◌^◌, ◌||◌, ◌==◌, ltb, if◌then◌else◌, Bool-cases, sym, ◌≤◌, ◌≡◌,
  ◌≢◌, inl, inr, refl, ap, Result-cases, err-injective, ◌∙◌, List, [], ◌∷◌, ◌++◌, length, arith,
  Result, ok, err,
}
use devin_fusion_via_codex.Wire.Error.{WireError, fuel_exhausted}
use devin_fusion_via_codex.Wire.Message.{
  cut, read_value, read_field, TypedValue, int_field, raw_field, FieldValue, int_value, bytes_value,
  Dict, append_value, decode_loop, decode_typed,
}
use devin_fusion_via_codex.Wire.Message.Field.{read_field_shorter, read_field_no_fuel}
use devin_fusion_via_codex.Wire.Message.Plain.{
  plain_varint_from, plain_varint, plain_slice, plain_value, plain_field, plain_loop, decode,
}
use devin_fusion_via_codex.Wire.Varint.{read_varint_from, read_varint}

-- Any fuel from the length of the buffer on gives the same result.
pub loop_fuel :
    (f g : ℕ) (buf : List ℕ) (out : Dict TypedValue)
    → length buf ≤ f
    → length buf ≤ g
    → decode_loop f buf out ≡ decode_loop g buf out
unfolding decode_loop
loop_fuel f g [] out hf hg = refl
loop_fuel (suc f) (suc g) (b ∷ buf) out hf hg = elim (Result-cases (read_field (b ∷ buf))) [
  | inl ((number, v, rest), e) ↦
      let less = read_field_shorter (b ∷ buf) e in
      rw e (loop_fuel f g rest (append_value number v out) (omega arith) (omega arith))
  | inr (x, e) ↦ rw e
]
loop_fuel zero g (b ∷ buf) out hf hg = absurd (omega arith)
loop_fuel (suc f) zero (b ∷ buf) out hf hg = absurd (omega arith)

abbrev pub run : List ℕ → Dict TypedValue → Result WireError (Dict TypedValue)
run buf out = decode_loop (length buf) buf out

pub run_step :
    (buf : List ℕ) (number : ℕ) (v : TypedValue) (rest : List ℕ) (out : Dict TypedValue)
    → read_field buf ≡ ok (number, v, rest)
    → run buf out ≡ run rest (append_value number v out)
unfolding decode_loop
run_step [] number v rest out h = absurd (omega (arith, read_field_shorter [] h))
run_step (b ∷ buf) number v rest out h = rw h (
    loop_fuel (length buf) (length rest) rest (append_value number v out)
      (omega (arith, read_field_shorter (b ∷ buf) h)) (omega arith))

-- The fuel never runs out.
loop_enough :
    (f : ℕ) (buf : List ℕ) (out : Dict TypedValue)
    → length buf ≤ f
    → decode_loop f buf out ≢ err fuel_exhausted
unfolding decode_loop
loop_enough f [] out h e = cc
loop_enough zero (b ∷ buf) out h e = absurd (omega arith)
loop_enough (suc f) (b ∷ buf) out h e = elim (Result-cases (read_field (b ∷ buf))) [
  | inl ((number, v, rest), r) ↦
      loop_enough f rest (append_value number v out) (omega (arith, read_field_shorter (b ∷ buf) r))
        (rw r at e)
  | inr (x, r) ↦ read_field_no_fuel (b ∷ buf) (r ∙ ap err (err-injective (rw r at e)))
]

abbrev forget : TypedValue → FieldValue
forget (int_field n) = int_value n
forget (raw_field wire_type raw) = bytes_value raw

abbrev pub forget_values : List TypedValue → List FieldValue
forget_values [] = []
forget_values (v ∷ vs) = forget v ∷ forget_values vs

abbrev pub forget_types : Dict TypedValue → Dict FieldValue
forget_types [] = []
forget_types ((k, vs) ∷ msg) = (k, forget_values vs) ∷ forget_types msg

abbrev pub forget_result : Result WireError (Dict TypedValue) → Result WireError (Dict FieldValue)
forget_result (ok msg) = ok (forget_types msg)
forget_result (err e) = err e

forget_values-append :
    (vs : List TypedValue) (v : TypedValue)
    → forget_values (vs ++ v ∷ []) ≡ forget_values vs ++ forget v ∷ []
forget_values-append [] v = refl
forget_values-append (w ∷ vs) v = ap (λ l. forget w ∷ l) (forget_values-append vs v)

forget_types-append_value :
    (number : ℕ) (v : TypedValue) (out : Dict TypedValue)
    → forget_types (append_value number v out) ≡ append_value number (forget v) (forget_types out)
unfolding append_value
forget_types-append_value number v [] = refl
forget_types-append_value number v ((k, vs) ∷ out) =
    ground (arith, forget_types-append_value number v out, forget_values-append vs v)

abbrev forget_read :
    Result WireError (ℕ × TypedValue × List ℕ) → Result WireError (ℕ × FieldValue × List ℕ)
forget_read (ok (number, v, rest)) = ok (number, forget v, rest)
forget_read (err e) = err e

plain_varint_from-eq :
    (n shift : ℕ) (buf : List ℕ) → plain_varint_from n shift buf ≡ read_varint_from n shift buf
unfolding plain_varint_from read_varint_from
plain_varint_from-eq n shift [] = refl
plain_varint_from-eq n shift (byte ∷ rest) =
    rw (plain_varint_from-eq (n + byte % 128 * 2 ^ shift) (shift + 7) rest) refl

plain_varint-eq : (buf : List ℕ) → plain_varint buf ≡ read_varint buf
unfolding plain_varint read_varint
plain_varint-eq buf = plain_varint_from-eq 0 0 buf

plain_slice-eq :
    (number wire_type n : ℕ) (rest : List ℕ)
    → plain_slice number n rest ≡ forget_read (cut number wire_type n rest)
unfolding plain_slice cut
plain_slice-eq number wire_type n rest = elim (Bool-cases (ltb (length rest) n)) [
  | inl e ↦ rw (e) refl
  | inr e ↦ rw (e) refl
]

plain_value-eq :
    (number wire_type : ℕ) (rest : List ℕ)
    → plain_value number wire_type rest ≡ forget_read (read_value number wire_type rest)
unfolding plain_value read_value
plain_value-eq number wire_type rest = elim (Bool-cases (wire_type == 0)) [
  | inl z ↦ elim (Result-cases (read_varint rest)) [
    | inl (p, e) ↦ rw (z, plain_varint-eq rest, e) refl
    | inr (x, e) ↦ rw (z, plain_varint-eq rest, e) refl
  ]
  | inr z ↦ elim (Bool-cases (wire_type == 2)) [
    | inl two ↦ elim (Result-cases (read_varint rest)) [
      | inl ((n, left), e) ↦ rw (z, two, plain_varint-eq rest, e) (plain_slice-eq number 2 n left)
      | inr (x, e) ↦ rw (z, two, plain_varint-eq rest, e) refl
    ]
    | inr two ↦ elim (Bool-cases ((wire_type == 1) || (wire_type == 5))) [
      | inl fixed ↦
          rw (z, two, fixed)
            (plain_slice-eq number wire_type (if wire_type == 1 then 8 else 4) rest)
      | inr other ↦ rw (z, two, other) refl
    ]
  ]
]

plain_field-eq : (buf : List ℕ) → plain_field buf ≡ forget_read (read_field buf)
unfolding plain_field read_field
plain_field-eq buf = elim (Result-cases (read_varint buf)) [
  | inr (x, e) ↦ rw (plain_varint-eq buf, e) refl
  | inl ((tag, rest), e) ↦ elim (Bool-cases (tag / 8 == 0)) [
    | inl z ↦ rw (plain_varint-eq buf, e, z) refl
    | inr z ↦ rw (plain_varint-eq buf, e, z) (plain_value-eq (tag / 8) (tag % 8) rest)
  ]
]

plain_loop-eq :
    (f : ℕ) (buf : List ℕ) (out : Dict TypedValue)
    → plain_loop f buf (forget_types out) ≡ forget_result (decode_loop f buf out)
unfolding plain_loop decode_loop
plain_loop-eq f [] out = refl
plain_loop-eq zero (b ∷ buf) out = refl
plain_loop-eq (suc f) (b ∷ buf) out = elim (Result-cases (read_field (b ∷ buf))) [
  | inl ((number, v, rest), r) ↦
      rw (plain_field-eq (b ∷ buf), r, ← forget_types-append_value number v out)
        (plain_loop-eq f rest (append_value number v out))
  | inr (x, r) ↦ rw (plain_field-eq (b ∷ buf), r) refl
]

-- On every buffer `decode` gives what `decode_typed` gives with the wire types forgotten, or raises
-- the same exception.
pub decode-eq-forget : (buf : List ℕ) → decode buf ≡ forget_result (decode_typed buf)
unfolding decode decode_typed
decode-eq-forget buf = plain_loop-eq (length buf) buf []

forget_result_err :
    (r : Result WireError (Dict TypedValue)) (e : WireError) → forget_result r ≡ err e → r ≡ err e
forget_result_err (ok msg) e h = absurd (ground arith)
forget_result_err (err x) e h = ap err (err-injective h)

-- Decoding ends: neither decoder runs out of the fuel that it is given.
pub decode_ends :
    (buf : List ℕ) → (decode buf ≢ err fuel_exhausted) × (decode_typed buf ≢ err fuel_exhausted)
unfolding decode_typed
decode_ends buf = (
  λ h.
      loop_enough (length buf) buf [] (omega arith)
        (forget_result_err (decode_typed buf) fuel_exhausted (sym (decode-eq-forget buf) ∙ h)),
  loop_enough (length buf) buf [] (omega arith),
)
