-- ===== src/Common/Lists.antt =====
-- Lists measured and cut by native numbers, under the library's names.
use Prim.Native.Nat.{ℕ, zero, suc, ◌+◌, ◌-◌, ◌≤◌, min}
use mathlib.Core.Path.{◌≡◌, refl, sym, ap}
use mathlib.Core.List.{List, [], ◌∷◌, ◌++◌}
use native.Mathlib.Omega.{arith}

module _ {ℓ} {A : Type ℓ} where
  abbrev pub length : List A → ℕ
  length [] = 0
  length (x ∷ xs) = suc (length xs)

  abbrev pub take : ℕ → List A → List A
  take zero xs = []
  take (suc n) [] = []
  take (suc n) (x ∷ xs) = x ∷ take n xs

  abbrev pub drop : ℕ → List A → List A
  drop zero xs = xs
  drop (suc n) [] = []
  drop (suc n) (x ∷ xs) = drop n xs

  pub length-append : (xs ys : List A) → length (xs ++ ys) ≡ length xs + length ys
  length-append [] ys = omega arith
  length-append (x ∷ xs) ys = omega (arith, length-append xs ys)

  pub length-take : (n : ℕ) (xs : List A) → length (take n xs) ≡ min n (length xs)
  length-take zero xs = omega arith
  length-take (suc n) [] = omega arith
  length-take (suc n) (x ∷ xs) = omega (arith, length-take n xs)

  pub length-drop : (n : ℕ) (xs : List A) → length (drop n xs) ≡ length xs - n
  length-drop zero xs = omega arith
  length-drop (suc n) [] = omega arith
  length-drop (suc n) (x ∷ xs) = omega (arith, length-drop n xs)

  pub take-append-drop : (n : ℕ) (xs : List A) → take n xs ++ drop n xs ≡ xs
  take-append-drop zero xs = refl
  take-append-drop (suc n) [] = refl
  take-append-drop (suc n) (x ∷ xs) = rw (take-append-drop n xs)

  -- Cutting a concatenation at its seam.
  pub take-append : (xs ys : List A) → take (length xs) (xs ++ ys) ≡ xs
  take-append [] ys = refl
  take-append (x ∷ xs) ys = ap (λ l. x ∷ l) (take-append xs ys)

  pub drop-append : (xs ys : List A) → drop (length xs) (xs ++ ys) ≡ ys
  drop-append [] ys = refl
  drop-append (x ∷ xs) ys = drop-append xs ys

-- Every element satisfies the predicate.
abbrev pub All {ℓ κ} : {A : Type ℓ} → (A → Type κ) → List A → Type κ
All P [] = Unit
All P (x ∷ xs) = P x × All P xs

module _ {ℓ} {A : Type ℓ} where
  -- A cut within the first list of a concatenation.
  pub take-append_le : (n : ℕ) (xs ys : List A) → n ≤ length xs → take n (xs ++ ys) ≡ take n xs
  take-append_le zero xs ys h = refl
  take-append_le (suc n) [] ys h = absurd (omega arith)
  take-append_le (suc n) (x ∷ xs) ys h = ap (λ l. x ∷ l) (take-append_le n xs ys (omega arith))

  pub drop-append_le :
      (n : ℕ) (xs ys : List A) → n ≤ length xs → drop n (xs ++ ys) ≡ drop n xs ++ ys
  drop-append_le zero xs ys h = refl
  drop-append_le (suc n) [] ys h = absurd (omega arith)
  drop-append_le (suc n) (x ∷ xs) ys h = drop-append_le n xs ys (omega arith)

module _ {ℓ} {A : Type ℓ} where
  take-nil : (n : ℕ) → take {A = A} n [] ≡ []
  take-nil zero = refl
  take-nil (suc n) = refl

  drop-nil : (n : ℕ) → drop {A = A} n [] ≡ []
  drop-nil zero = refl
  drop-nil (suc n) = refl

  pub drop-drop : (a b : ℕ) (xs : List A) → a ≤ b → drop (b - a) (drop a xs) ≡ drop b xs
  drop-drop zero b xs h = let e : b - zero ≡ b = omega arith in rw e
  drop-drop (suc a) zero xs h = absurd (omega arith)
  drop-drop (suc a) (suc b) [] h = drop-nil (suc b - suc a)
  drop-drop (suc a) (suc b) (x ∷ xs) h =
      let e : suc b - suc a ≡ b - a = omega arith in rw e (drop-drop a b xs (omega arith))

  -- A prefix cut at an earlier position.
  pub take-split :
      (a b : ℕ) (xs : List A) → a ≤ b → take b xs ≡ take a xs ++ take (b - a) (drop a xs)
  take-split zero b xs h = let e : b - zero ≡ b = omega arith in rw e
  take-split (suc a) zero xs h = absurd (omega arith)
  take-split (suc a) (suc b) [] h = sym (take-nil (suc b - suc a))
  take-split (suc a) (suc b) (x ∷ xs) h =
      let e : suc b - suc a ≡ b - a = omega arith in
      rw e (ap (λ l. x ∷ l) (take-split a b xs (omega arith)))

  -- A cut within a prefix that stands before another list.
  pub take-take_append :
      (a b : ℕ) (xs ys : List A) → a ≤ b → b ≤ length xs → take a (take b xs ++ ys) ≡ take a xs
  take-take_append zero b xs ys h l = refl
  take-take_append (suc a) zero xs ys h l = absurd (omega arith)
  take-take_append (suc a) (suc b) [] ys h l = absurd (omega arith)
  take-take_append (suc a) (suc b) (x ∷ xs) ys h l =
      ap (λ z. x ∷ z) (take-take_append a b xs ys (omega arith) (omega arith))

  pub drop-take_append : (n : ℕ) (xs ys : List A) → n ≤ length xs → drop n (take n xs ++ ys) ≡ ys
  drop-take_append zero xs ys l = refl
  drop-take_append (suc n) [] ys l = absurd (omega arith)
  drop-take_append (suc n) (x ∷ xs) ys l = drop-take_append n xs ys (omega arith)
