-- ===== src/Shell/Order.antt =====
-- The order of names that `strcmp` makes.
use tmsxx_tc.Prelude.{ℕ, ◌≡◌, refl, true, false, List, [], ◌∷◌, arith}
use tmsxx_tc.Shell.{strcmp_gt, is_prefix}

pub strcmp_gt_irrefl : (a : List ℕ) → strcmp_gt a a ≡ false
unfolding strcmp_gt
strcmp_gt_irrefl [] = refl
strcmp_gt_irrefl (x ∷ a) = ground (arith, strcmp_gt_irrefl a)

pub strcmp_gt_asymm : (a b : List ℕ) → strcmp_gt a b ≡ true → strcmp_gt b a ≡ false
unfolding strcmp_gt
strcmp_gt_asymm [] b h = ground arith
strcmp_gt_asymm (x ∷ a) [] h = refl
strcmp_gt_asymm (x ∷ a) (y ∷ b) h = ground (arith, strcmp_gt_asymm a b)

pub strcmp_gt_trans :
    (a b c : List ℕ) → strcmp_gt a b ≡ false → strcmp_gt b c ≡ false → strcmp_gt a c ≡ false
unfolding strcmp_gt
strcmp_gt_trans [] b c h k = refl
strcmp_gt_trans (x ∷ a) [] c h k = ground arith
strcmp_gt_trans (x ∷ a) (y ∷ b) [] h k = ground arith
strcmp_gt_trans (x ∷ a) (y ∷ b) (z ∷ c) h k = ground (arith, strcmp_gt_trans a b c)

pub strcmp_gt_antisymm : (a b : List ℕ) → strcmp_gt a b ≡ false → strcmp_gt b a ≡ false → a ≡ b
unfolding strcmp_gt
strcmp_gt_antisymm [] [] h k = refl
strcmp_gt_antisymm [] (y ∷ b) h k = ground arith
strcmp_gt_antisymm (x ∷ a) [] h k = ground arith
strcmp_gt_antisymm (x ∷ a) (y ∷ b) h k = ground (arith, strcmp_gt_antisymm a b)

pub is_prefix_refl : (a : List ℕ) → is_prefix a a ≡ true
unfolding is_prefix
is_prefix_refl [] = refl
is_prefix_refl (x ∷ a) = ground (arith, is_prefix_refl a)

pub strcmp_gt-is_prefix : (a b : List ℕ) → is_prefix a b ≡ true → strcmp_gt a b ≡ false
unfolding strcmp_gt is_prefix
strcmp_gt-is_prefix [] b h = refl
strcmp_gt-is_prefix (x ∷ a) [] h = ground arith
strcmp_gt-is_prefix (x ∷ a) (y ∷ b) h = ground (arith, strcmp_gt-is_prefix a b)
