-- ===== src/Prelude/Blocks.antt =====
-- Memory blocks as lists: a slice of a block, and a copy into it (`memcpy`).
use Prim.Native.Nat.{ℕ, zero, suc, ◌+◌, ◌-◌, ◌≤◌, min}
use mathlib.Core.Path.{◌≡◌, refl, ap, ◌∙◌, sym}
use mathlib.Core.List.{List, [], ◌∷◌, ◌++◌}
use native.Mathlib.Omega.{arith}
use tmsxx_tc.Prelude.Lists.{length, take, drop, take-nil, drop-nil, length-take, length-drop}

-- The `n` items from index `i` on.
unfoldable pub slice {ℓ} : {A : Type ℓ} → List A → ℕ → ℕ → List A
slice xs i n = take n (drop i xs)

-- `memcpy(xs + i, ys, length ys)`; what would fall outside the block is not written.
unfoldable pub write_at {ℓ} : {A : Type ℓ} → List A → ℕ → List A → List A
write_at [] i ys = []
write_at (x ∷ xs) zero [] = x ∷ xs
write_at (x ∷ xs) zero (y ∷ ys) = y ∷ write_at xs zero ys
write_at (x ∷ xs) (suc i) ys = x ∷ write_at xs i ys

module _ {ℓ} {A : Type ℓ} where
  pub drop-drop : (m n : ℕ) (xs : List A) → drop m (drop n xs) ≡ drop (n + m) xs
  drop-drop m zero xs = ap (λ k. drop k xs) (omega arith)
  drop-drop m (suc n) [] = drop-nil A m ∙ sym (drop-nil A (suc n + m))
  drop-drop m (suc n) (x ∷ xs) =
      drop-drop m n xs ∙ ap (λ k. drop k (x ∷ xs)) {x = suc (n + m)} (omega arith)

  pub drop-take : (k n : ℕ) (xs : List A) → drop k (take n xs) ≡ take (n - k) (drop k xs)
  drop-take zero n xs = ap (λ m. take m xs) (omega arith)
  drop-take (suc k) zero xs = ap (λ m. take m (drop (suc k) xs)) {x = 0} (omega arith)
  drop-take (suc k) (suc n) [] = sym (take-nil A (suc n - suc k))
  drop-take (suc k) (suc n) (x ∷ xs) =
      drop-take k n xs ∙ ap (λ m. take m (drop k xs)) {x = n - k} (omega arith)

  pub take-take : (m n : ℕ) (xs : List A) → take m (take n xs) ≡ take (min m n) xs
  take-take zero n xs = ap (λ k. take k xs) {x = 0} (omega arith)
  take-take (suc m) zero xs = ap (λ k. take k xs) {x = 0} (omega arith)
  take-take (suc m) (suc n) [] = sym (take-nil A (min (suc m) (suc n)))
  take-take (suc m) (suc n) (x ∷ xs) =
      ap (◌∷◌ x) (take-take m n xs)
      ∙ ap (λ k. take k (x ∷ xs)) {x = suc (min m n)} {y = min (suc m) (suc n)} (omega arith)

  pub take-add : (m n : ℕ) (xs : List A) → take (m + n) xs ≡ take m xs ++ take n (drop m xs)
  take-add zero n xs = ap (λ k. take k xs) (omega arith)
  take-add (suc m) n [] = rw (take-nil A (suc m + n), take-nil A n)
  take-add (suc m) n (x ∷ xs) =
      ap (λ k. take k (x ∷ xs)) {x = suc m + n} {y = suc (m + n)} (omega arith)
      ∙ ap (◌∷◌ x) (take-add m n xs)

  pub drop-append_le :
      (k : ℕ) (xs ys : List A) → k ≤ length xs → drop k (xs ++ ys) ≡ drop k xs ++ ys
  drop-append_le zero xs ys h = refl
  drop-append_le (suc k) [] ys h = absurd (omega arith)
  drop-append_le (suc k) (x ∷ xs) ys h = drop-append_le k xs ys (omega arith)

  pub drop-append_ge :
      (k : ℕ) (xs ys : List A) → length xs ≤ k → drop k (xs ++ ys) ≡ drop (k - length xs) ys
  drop-append_ge k [] ys h = ap (λ m. drop m ys) (omega arith)
  drop-append_ge zero (x ∷ xs) ys h = absurd (omega arith)
  drop-append_ge (suc k) (x ∷ xs) ys h =
      drop-append_ge k xs ys (omega arith) ∙ ap (λ m. drop m ys) {x = k - length xs} (omega arith)

  pub take-append_le : (k : ℕ) (xs ys : List A) → k ≤ length xs → take k (xs ++ ys) ≡ take k xs
  take-append_le zero xs ys h = refl
  take-append_le (suc k) [] ys h = absurd (omega arith)
  take-append_le (suc k) (x ∷ xs) ys h = ap (◌∷◌ x) (take-append_le k xs ys (omega arith))

  pub take-append_ge :
      (k : ℕ) (xs ys : List A) → length xs ≤ k → take k (xs ++ ys) ≡ xs ++ take (k - length xs) ys
  take-append_ge k [] ys h = ap (λ m. take m ys) (omega arith)
  take-append_ge zero (x ∷ xs) ys h = absurd (omega arith)
  take-append_ge (suc k) (x ∷ xs) ys h = ap (◌∷◌ x) (
      take-append_ge k xs ys (omega arith)
      ∙ ap (λ m. xs ++ take m ys) {x = k - length xs} (omega arith))

  -- Slices.
  pub length-slice : (xs : List A) (i n : ℕ) → i + n ≤ length xs → length (slice xs i n) ≡ n
  unfolding slice
  length-slice xs i n h = omega (arith, length-take n (drop i xs), length-drop i xs)

  pub slice-nil : (xs : List A) (i : ℕ) → slice xs i 0 ≡ []
  unfolding slice
  slice-nil xs i = refl

  pub slice-add :
      (xs : List A) (i m n : ℕ) → slice xs i (m + n) ≡ slice xs i m ++ slice xs (i + m) n
  unfolding slice
  slice-add xs i m n =
      take-add m n (drop i xs) ∙ ap (λ k. take m (drop i xs) ++ take n k) (drop-drop m i xs)

  pub drop-slice :
      (k : ℕ) (xs : List A) (i n : ℕ) → drop k (slice xs i n) ≡ slice xs (i + k) (n - k)
  unfolding slice
  drop-slice k xs i n = drop-take k n (drop i xs) ∙ ap (take (n - k)) (drop-drop k i xs)

  pub take-slice : (k : ℕ) (xs : List A) (i n : ℕ) → k ≤ n → take k (slice xs i n) ≡ slice xs i k
  unfolding slice
  take-slice k xs i n h =
      take-take k n (drop i xs) ∙ ap (λ m. take m (drop i xs)) {x = min k n} (omega arith)

  -- Copies.
  pub length-write_at : (xs : List A) (i : ℕ) (ys : List A) → length (write_at xs i ys) ≡ length xs
  unfolding write_at
  length-write_at [] i ys = refl
  length-write_at (x ∷ xs) zero [] = refl
  length-write_at (x ∷ xs) zero (y ∷ ys) = ap suc (length-write_at xs zero ys)
  length-write_at (x ∷ xs) (suc i) ys = ap suc (length-write_at xs i ys)

  write_at-nil : (xs : List A) → write_at xs 0 [] ≡ xs
  unfolding write_at
  write_at-nil [] = refl
  write_at-nil (x ∷ xs) = refl

  take-write_at_before :
      (xs : List A) (i : ℕ) (ys : List A) (n : ℕ) → n ≤ i → take n (write_at xs i ys) ≡ take n xs
  unfolding write_at
  take-write_at_before xs i ys zero h = refl
  take-write_at_before [] i ys (suc n) h = refl
  take-write_at_before (x ∷ xs) zero ys (suc n) h = absurd (omega arith)
  take-write_at_before (x ∷ xs) (suc i) ys (suc n) h =
      ap (◌∷◌ x) (take-write_at_before xs i ys n (omega arith))

  drop-write_at_after :
      (xs : List A) (i : ℕ) (ys : List A) (k : ℕ)
      → i + length ys ≤ k
      → drop k (write_at xs i ys) ≡ drop k xs
  unfolding write_at
  drop-write_at_after [] i ys k h = refl
  drop-write_at_after (x ∷ xs) zero [] k h = refl
  drop-write_at_after (x ∷ xs) zero (y ∷ ys) zero h = absurd (omega arith)
  drop-write_at_after (x ∷ xs) zero (y ∷ ys) (suc k) h =
      drop-write_at_after xs zero ys k (omega arith)
  drop-write_at_after (x ∷ xs) (suc i) ys zero h = absurd (omega arith)
  drop-write_at_after (x ∷ xs) (suc i) ys (suc k) h = drop-write_at_after xs i ys k (omega arith)

  -- A slice that ends before the copy is unchanged.
  pub slice-write_at_before :
      (xs : List A) (j : ℕ) (ys : List A) (i n : ℕ)
      → i + n ≤ j
      → slice (write_at xs j ys) i n ≡ slice xs i n
  unfolding slice write_at
  slice-write_at_before [] j ys i n h = refl
  slice-write_at_before (x ∷ xs) j ys zero n h = take-write_at_before (x ∷ xs) j ys n (omega arith)
  slice-write_at_before (x ∷ xs) zero ys (suc i) n h = absurd (omega arith)
  slice-write_at_before (x ∷ xs) (suc j) ys (suc i) n h =
      slice-write_at_before xs j ys i n (omega arith)

  -- A slice that begins after the copy is unchanged.
  pub slice-write_at_after :
      (xs : List A) (j : ℕ) (ys : List A) (i n : ℕ)
      → j + length ys ≤ i
      → slice (write_at xs j ys) i n ≡ slice xs i n
  unfolding slice
  slice-write_at_after xs j ys i n h = ap (take n) (drop-write_at_after xs j ys i h)

  -- A slice of what was just copied.
  pub slice-write_at_self :
      (xs : List A) (j : ℕ) (ys : List A) (n : ℕ)
      → j + length ys ≤ length xs
      → n ≤ length ys
      → slice (write_at xs j ys) j n ≡ take n ys
  unfolding slice write_at
  slice-write_at_self xs j ys zero h k = refl
  slice-write_at_self [] j [] (suc n) h k = absurd (omega arith)
  slice-write_at_self [] j (y ∷ ys) (suc n) h k = absurd (omega arith)
  slice-write_at_self (x ∷ xs) zero [] (suc n) h k = absurd (omega arith)
  slice-write_at_self (x ∷ xs) zero (y ∷ ys) (suc n) h k =
      ap (◌∷◌ y) (slice-write_at_self xs zero ys n (omega arith) (omega arith))
  slice-write_at_self (x ∷ xs) (suc j) ys (suc n) h k =
      slice-write_at_self xs j ys (suc n) (omega arith) k
