-- ===== src/Wire/Varint.antt =====
-- fusion_relay/wire.py: `varint` and the inner `read_varint` of `decode_typed`.
-- Bytes are numbers below 256. `n & 127` is `n % 128`, `n >> 7` is `n / 128`, and since `n` is below
-- `2 ^ shift` when `byte & 127` is put in at `shift`, the source's `|` is a sum.
use native.Mathlib.Numerals.{towards_suc}
use native.Mathlib.Nat.{pow-suc}
use devin_fusion_via_codex.Wire.Error.{varint_too_long, truncated_varint, fuel_exhausted, WireError}
use devin_fusion_via_codex.Common.{
  ℕ, zero, suc, ◌+◌, ◌*◌, ◌/◌, ◌%◌, ◌^◌, ◌≤◌, ◌<◌, ◌≡◌, ◌≢◌, refl, ap, inl, inr, Bool-cases, false,
  ltb-false, lt→ltb, ltb→lt, length, List, [], ◌∷◌, ◌++◌, arith, ltb, if◌then◌else◌, Result, ok,
  err,
}

-- `while n > 127: out.append((n & 127) | 128); n >>= 7`, then `out.append(n)`. The fuel starts at
-- `n`, which bounds the rounds: with no fuel left `n` is 0, and the loop has ended.
varint_loop : ℕ → ℕ → List ℕ
varint_loop zero n = n ∷ []
varint_loop (suc fuel) n =
    let more = (n % 128 + 128) ∷ varint_loop fuel (n / 128) in if ltb 127 n then more else n ∷ []

unfoldable pub varint : ℕ → List ℕ
unfolding varint_loop
varint n = varint_loop n n

-- The loop of `read_varint` from the value and the shift so far; the list is `buf[pos:]`.
unfoldable pub read_varint_from : ℕ → ℕ → List ℕ → Result WireError (ℕ × List ℕ)
read_varint_from n shift [] = err truncated_varint
read_varint_from n shift (byte ∷ rest) =
    let n' = n + byte % 128 * 2 ^ shift in
    let more = read_varint_from n' (shift + 7) rest in
    if ltb byte 128 then ok (n', rest) else if ltb 70 (shift + 7) then err varint_too_long else more

unfoldable pub read_varint : List ℕ → Result WireError (ℕ × List ℕ)
unfolding read_varint_from
read_varint = read_varint_from 0 0

varint_300 : varint 300 ≡ 172 ∷ 2 ∷ []
unfolding varint
varint_300 = refl

read_300 : read_varint (172 ∷ 2 ∷ 9 ∷ []) ≡ ok (300, 9 ∷ [])
unfolding read_varint
read_300 = refl

pow_shift : (s : ℕ) → 2 ^ (s + 7) ≡ 128 * 2 ^ s
pow_shift s = simp towards_suc (omega arith)

regroup : (acc n p : ℕ) → acc + n % 128 * p + n / 128 * (128 * p) ≡ acc + n * p
regroup acc n p =
    let e : n ≡ 128 * (n / 128) + n % 128 = omega arith in omega (arith, ap (λ (t : ℕ). t * p) e)

read_from_last :
    (acc shift byte : ℕ) (rest : List ℕ)
    → byte < 128
    → read_varint_from acc shift (byte ∷ rest) ≡ ok (acc + byte * 2 ^ shift, rest)
unfolding read_varint_from
read_from_last acc shift byte rest h =
    let same : byte % 128 ≡ byte = omega arith in rw (lt→ltb byte 128 h, same)

read_from_more :
    (acc shift byte : ℕ) (rest : List ℕ)
    → 128 ≤ byte
    → shift + 7 ≤ 70
    → read_varint_from acc shift (byte ∷ rest)
      ≡ read_varint_from (acc + byte % 128 * 2 ^ shift) (shift + 7) rest
unfolding read_varint_from
read_from_more acc shift byte rest h room = rw (ltb-false byte 128 h, ltb-false 70 (shift + 7) room)

read_from_end :
    (acc shift byte : ℕ) (rest : List ℕ)
    → 128 ≤ byte
    → 70 < shift + 7
    → read_varint_from acc shift (byte ∷ rest) ≡ err varint_too_long
unfolding read_varint_from
read_from_end acc shift byte rest h full = rw (ltb-false byte 128 h, lt→ltb 70 (shift + 7) full)

pow-pos : (k : ℕ) → 0 < 128 ^ k
pow-pos zero = omega arith
pow-pos (suc k) = omega (arith, pow-suc 128 k, pow-pos k)

more_room : (k shift n : ℕ) → shift + 7 * suc k ≡ 77 → n < 128 ^ suc k → 127 < n → shift + 7 ≤ 70
more_room zero shift n h lt big = absurd (omega arith)
more_room (suc k) shift n h lt big = omega arith

-- With `k` more groups of seven bits allowed, a number of `k` groups is read back.
read_from-varint_loop :
    (k fuel acc shift n : ℕ) (rest : List ℕ)
    → n ≤ fuel
    → shift + 7 * k ≡ 77
    → n < 128 ^ k
    → read_varint_from acc shift (varint_loop fuel n ++ rest) ≡ ok (acc + n * 2 ^ shift, rest)
unfolding varint_loop
read_from-varint_loop k zero acc shift n rest le h lt =
    read_from_last acc shift n rest (omega arith)
read_from-varint_loop zero (suc fuel) acc shift n rest le h lt =
    let small : ltb 127 n ≡ false = ltb-false 127 n (omega arith) in
    rw small (read_from_last acc shift n rest (omega arith))
read_from-varint_loop (suc k) (suc fuel) acc shift n rest le h lt = elim (Bool-cases (ltb 127 n)) [
  | inl large ↦
      let big : 127 < n = ltb→lt 127 n large in
      let below : n / 128 < 128 ^ k = omega (arith, pow-suc 128 k) in
      let bit : (n % 128 + 128) % 128 ≡ n % 128 = omega arith in
      rw
        (
          large,
          read_from_more acc shift (n % 128 + 128) (varint_loop fuel (n / 128) ++ rest)
              (omega arith) (more_room k shift n h lt big),
          bit,
          read_from-varint_loop k fuel (acc + n % 128 * 2 ^ shift) (shift + 7) (n / 128) rest
              (omega arith) (omega arith) below,
          pow_shift shift,
        )
        (ap (λ t. ok (t, rest)) (regroup acc n (2 ^ shift)))
  | inr small ↦ rw small (read_from_last acc shift n rest (ground arith))
]

-- A number of more groups than are allowed is refused.
read_from-varint_loop_long :
    (k fuel acc shift n : ℕ) (rest : List ℕ)
    → n ≤ fuel
    → shift + 7 * suc k ≡ 77
    → 128 ^ suc k ≤ n
    → read_varint_from acc shift (varint_loop fuel n ++ rest) ≡ err varint_too_long
unfolding varint_loop
read_from-varint_loop_long k zero acc shift n rest le h long =
    absurd (omega (arith, pow-suc 128 k, pow-pos k))
read_from-varint_loop_long zero (suc fuel) acc shift n rest le h long =
    rw (lt→ltb 127 n (omega arith)) (
      read_from_end acc shift (n % 128 + 128) (varint_loop fuel (n / 128) ++ rest) (omega arith)
        (omega arith))
read_from-varint_loop_long (suc k) (suc fuel) acc shift n rest le h long =
    let big : 127 < n = omega (arith, pow-suc 128 (suc k), pow-suc 128 k, pow-pos k) in
    rw
      (
        lt→ltb 127 n big,
        read_from_more acc shift (n % 128 + 128) (varint_loop fuel (n / 128) ++ rest) (omega arith)
            (omega arith),
      )
      (read_from-varint_loop_long k fuel (acc + (n % 128 + 128) % 128 * 2 ^ shift) (shift + 7)
        (n / 128) rest (omega arith) (omega arith) (omega (arith, pow-suc 128 (suc k))))

-- Every number below 2 ^ 77 is read back from its encoding, whatever follows, and every larger one
-- is refused as too long.
pub read_varint-varint :
    (n : ℕ) (rest : List ℕ)
    → read_varint (varint n ++ rest)
      ≡ (if ltb n (2 ^ 77) then ok (n, rest) else err varint_too_long)
unfolding read_varint varint
read_varint-varint n rest = elim (Bool-cases (ltb n (2 ^ 77))) [
  | inl fits ↦
      rw (fits, read_from-varint_loop 11 n 0 0 n rest (omega arith) refl (ltb→lt n (2 ^ 77) fits))
        (ap (λ t. ok (t, rest)) (omega arith))
  | inr long ↦
      rw (long, read_from-varint_loop_long 10 n 0 0 n rest (omega arith) refl (ground arith))
]

-- Reading consumes at least one byte.
read_from_shorter :
    (acc shift : ℕ) (buf : List ℕ) {n : ℕ} {rest : List ℕ}
    → read_varint_from acc shift buf ≡ ok (n, rest)
    → length rest < length buf
unfolding read_varint_from
read_from_shorter acc shift [] h = cc
read_from_shorter acc shift (byte ∷ rest) {n} {rest = left} h =
    ground (
      arith,
      read_from_shorter (acc + byte % 128 * 2 ^ shift) (shift + 7) rest {n = n} {rest = left},
    )

pub read_varint_shorter :
    (buf : List ℕ) {n : ℕ} {rest : List ℕ}
    → read_varint buf ≡ ok (n, rest)
    → length rest < length buf
unfolding read_varint
read_varint_shorter buf h = read_from_shorter 0 0 buf h

read_from_no_fuel :
    (acc shift : ℕ) (buf : List ℕ) → read_varint_from acc shift buf ≢ err fuel_exhausted
unfolding read_varint_from
read_from_no_fuel acc shift [] h = cc
read_from_no_fuel acc shift (byte ∷ rest) h =
    ground (arith, read_from_no_fuel (acc + byte % 128 * 2 ^ shift) (shift + 7) rest)

pub read_varint_no_fuel : (buf : List ℕ) → read_varint buf ≢ err fuel_exhausted
unfolding read_varint
read_varint_no_fuel = read_from_no_fuel 0 0
