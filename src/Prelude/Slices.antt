-- ===== src/Prelude/Slices.antt =====
-- Slices of lists: what `take` and `drop` do to each other.
use Prim.Native.Nat.{ℕ, zero, suc, ◌+◌, ◌-◌, ◌≤◌, min}
use mathlib.Core.Path.{◌≡◌, refl, sym, ap, ◌∙◌}
use mathlib.Core.List.{List, [], ◌∷◌, ◌++◌}
use native.Mathlib.Omega.{arith}
use biei.Prelude.Lists.{length, take, drop, length-take, length-drop}

module _ {ℓ} {A : Type ℓ} where
  pub take_nil : (n : ℕ) → take {A = A} n [] ≡ []
  take_nil zero = refl
  take_nil (suc n) = refl

  pub drop_nil : (n : ℕ) → drop {A = A} n [] ≡ []
  drop_nil zero = refl
  drop_nil (suc n) = refl

  pub take_all : (n : ℕ) (xs : List A) → length xs ≤ n → take n xs ≡ xs
  take_all zero [] h = refl
  take_all zero (x ∷ xs) h = absurd (omega arith)
  take_all (suc n) [] h = refl
  take_all (suc n) (x ∷ xs) h = ap (λ l. x ∷ l) (take_all n xs (omega arith))

  pub take-take : (n k : ℕ) (xs : List A) → n ≤ k → take n (take k xs) ≡ take n xs
  take-take zero k xs h = refl
  take-take (suc n) zero xs h = absurd (omega arith)
  take-take (suc n) (suc k) [] h = refl
  take-take (suc n) (suc k) (x ∷ xs) h = ap (λ l. x ∷ l) (take-take n k xs (omega arith))

  pub drop-take : (o k : ℕ) (xs : List A) → drop o (take k xs) ≡ take (k - o) (drop o xs)
  drop-take zero k xs = let e : k - 0 ≡ k = omega arith in rw e refl
  drop-take (suc o) zero xs = let e : 0 - suc o ≡ 0 = omega arith in rw e refl
  drop-take (suc o) (suc k) [] = sym (take_nil (suc k - suc o))
  drop-take (suc o) (suc k) (x ∷ xs) =
      let e : suc k - suc o ≡ k - o = omega arith in rw e (drop-take o k xs)

  pub drop-drop : (o b : ℕ) (xs : List A) → drop o (drop b xs) ≡ drop (b + o) xs
  drop-drop o zero xs = let e : 0 + o ≡ o = omega arith in rw e refl
  drop-drop o (suc b) [] = let e : suc b + o ≡ suc (b + o) = omega arith in rw e (drop_nil o)
  drop-drop o (suc b) (x ∷ xs) =
      let e : suc b + o ≡ suc (b + o) = omega arith in rw e (drop-drop o b xs)

  pub take-append_drop : (n m : ℕ) (xs : List A) → take n xs ++ take m (drop n xs) ≡ take (n + m) xs
  take-append_drop zero m xs = let e : 0 + m ≡ m = omega arith in rw e refl
  take-append_drop (suc n) m [] = let e : suc n + m ≡ suc (n + m) = omega arith in rw e (take_nil m)
  take-append_drop (suc n) m (x ∷ xs) =
      let e : suc n + m ≡ suc (n + m) = omega arith in
      rw e (ap (λ l. x ∷ l) (take-append_drop n m xs))

  -- A part of a part.
  pub take-drop-take-drop :
      (n o k b : ℕ) (xs : List A)
      → o + n ≤ k
      → take n (drop o (take k (drop b xs))) ≡ take n (drop (b + o) xs)
  take-drop-take-drop n o k b xs h =
      ap (take n) (drop-take o k (drop b xs))
      ∙ take-take n (k - o) (drop o (drop b xs)) (omega arith)
      ∙ ap (take n) (drop-drop o b xs)

  -- Two neighbouring parts.
  pub take-drop-append :
      (n m p : ℕ) (xs : List A)
      → take n (drop p xs) ++ take m (drop (p + n) xs) ≡ take (n + m) (drop p xs)
  take-drop-append n m p xs =
      ap (λ l. take n (drop p xs) ++ take m l) (sym (drop-drop n p xs))
      ∙ take-append_drop n m (drop p xs)

  pub length-take-drop :
      (k b : ℕ) (xs : List A) → length (take k (drop b xs)) ≡ min k (length xs - b)
  length-take-drop k b xs = length-take k (drop b xs) ∙ ap (min k) (length-drop b xs)

  pub take-min_length : (k : ℕ) (xs : List A) → take (min k (length xs)) xs ≡ take k xs
  take-min_length zero xs = let e : min 0 (length xs) ≡ 0 = omega arith in rw e refl
  take-min_length (suc k) [] = let e : min (suc k) 0 ≡ 0 = omega arith in rw e refl
  take-min_length (suc k) (x ∷ xs) =
      let e : min (suc k) (suc (length xs)) ≡ suc (min k (length xs)) = omega arith in
      rw e (ap (λ l. x ∷ l) (take-min_length k xs))
