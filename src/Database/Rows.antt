-- ===== src/Database/Rows.antt =====
-- The rows of a table that meet conditions, and those that are left without them (src/tmsxxdb.c).
use tmsxx_tc.Prelude.{
  ℕ, ◌≡◌, ◌≢◌, ◌↔◌, true, List, [], ◌∷◌, ◌++◌, ◌==◌, Bool-cases, inl, inr, arith,
}
use tmsxx_tc.Database.{Term, holds, masked}

-- A condition on a column that the mask selects.
pub holds-masked :
    {R : Type 0} (column : R → ℕ) (c m r : R) (ts : List (Term R))
    → (holds (masked column c m ++ ts) r ≡ true)
      ↔ ((column m ≢ 0 → column r ≡ column c) × (holds ts r ≡ true))
holds-masked column c m r ts = elim (Bool-cases (column m == 0)) [
  | inl e ↦ rw (e) ((λ h. ((λ n. absurd (n (ground (arith, e)))), h)), (λ h. h.1))
  | inr e ↦ rw (e) (
    (λ h. ((λ n. ground (arith, h)), ground (arith, h))),
    (λ h. ground (arith, h.1, h.0 (ground (arith, e)))),
  )
]

-- The rows that are left, in their order, when those with `P` go.
pub data Remains {R : Type 0} (P : R → Type 0) : List R → List R → Type 0 where
  done : Remains P [] []
  kept : (r : R) {a b : List R} → (P r → ⊥) → Remains P a b → Remains P (r ∷ a) (r ∷ b)
  gone : (r : R) {a b : List R} → P r → Remains P a b → Remains P (r ∷ a) b
