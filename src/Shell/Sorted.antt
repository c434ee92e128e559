-- ===== src/Shell/Sorted.antt =====
-- What the sort makes of a table.
use mathlib.Core.List.Permᴰ
use mathlib.Core.List.{Permᴰ}
use tmsxx_tc.Prelude.{
  ℕ, zero, suc, ◌+◌, ◌-◌, ◌≤◌, ◌<◌, ◌≡◌, refl, sym, ap, ◌∙◌, subst, false, List, [], ◌∷◌, ◌++◌,
  length, get_or, set, arith, if◌then◌else◌, Bool-cases, inl, inr, ◌⊎◌, ◌==◌, ==_iff,
}
use tmsxx_tc.Prelude.{take-all}
use tmsxx_tc.Prelude.Blocks.{take-append_le, drop-append_ge}
use tmsxx_tc.Shell.{
  CmdTable, CmdPrompt, strcmp_gt, find_least, exchange_first, pass, behind_first, sort_loop,
  sh_sort, sh_sort_ex,
}
use tmsxx_tc.Shell.Order.{strcmp_gt_irrefl, strcmp_gt_asymm, strcmp_gt_trans}

-- Every entry of a table has a property; it does not depend on the order.
abbrev pub All : {A : Type 0} → (A → Type 0) → List A → Type 0
All P [] = Unit {0}
All P (c ∷ cs) = P c × All P cs

pub All-Permᴰ : {A : Type 0} (P : A → Type 0) {l l' : List A} → Permᴰ l l' → All P l → All P l'
All-Permᴰ P Permᴰ.nil h = h
All-Permᴰ P (Permᴰ.cons e p) h = (subst P e h.0, All-Permᴰ P p h.1)
All-Permᴰ P (Permᴰ.swap e e') h = (subst P e' h.1.0, (subst P e h.0, h.1.1))
All-Permᴰ P (Permᴰ.trans p q) h = All-Permᴰ P q (All-Permᴰ P p h)

length-Permᴰ : {A : Type 0} {l l' : List A} → Permᴰ l l' → length l ≡ length l'
length-Permᴰ Permᴰ.nil = refl
length-Permᴰ (Permᴰ.cons e p) = ap suc (length-Permᴰ p)
length-Permᴰ (Permᴰ.swap e e') = refl
length-Permᴰ (Permᴰ.trans p q) = length-Permᴰ p ∙ length-Permᴰ q

module _ {A : Type 0} (name : A → List ℕ) where
  exchange_first-Permᴰ : (c : A) (cs : List A) (j : ℕ) → Permᴰ (exchange_first name c cs j) (c ∷ cs)
  exchange_first-Permᴰ c cs zero = Permᴰ.refl (c ∷ cs)
  exchange_first-Permᴰ c [] (suc j) = Permᴰ.refl (c ∷ [])
  exchange_first-Permᴰ c (d ∷ ds) (suc zero) = Permᴰ.swap refl refl
  exchange_first-Permᴰ c (d ∷ ds) (suc (suc j)) =
      Permᴰ.trans (Permᴰ.swap refl refl)
        (Permᴰ.trans (Permᴰ.cons refl (exchange_first-Permᴰ c ds (suc j))) (Permᴰ.swap refl refl))

  pub pass-Permᴰ : (l : List A) → Permᴰ (pass name l) l
  unfolding pass
  pass-Permᴰ [] = Permᴰ.nil
  pass-Permᴰ (c ∷ cs) = exchange_first-Permᴰ c cs (find_least name c (c ∷ cs) 0 0 (length (c ∷ cs)))

  behind_first-Permᴰ :
      (f : List A → List A) (l : List A)
      → ((m : List A) → Permᴰ (f m) m)
      → Permᴰ (behind_first name f l) l
  behind_first-Permᴰ f [] h = Permᴰ.nil
  behind_first-Permᴰ f (c ∷ cs) h = Permᴰ.cons refl (h cs)

  pub sort_loop-Permᴰ : (n : ℕ) (l : List A) → Permᴰ (sort_loop name n l) l
  unfolding sort_loop
  sort_loop-Permᴰ zero l = Permᴰ.refl l
  sort_loop-Permᴰ (suc n) l =
      Permᴰ.trans (behind_first-Permᴰ (sort_loop name n) (pass name l) (sort_loop-Permᴰ n))
        (pass-Permᴰ l)

  -- No entry has a name before the given one.
  abbrev pub IsBelow : List ℕ → List A → Type 0
  IsBelow n l = All (λ c. strcmp_gt n (name c) ≡ false) l

  abbrev pub IsSorted : List A → Type 0
  IsSorted [] = Unit {0}
  IsSorted (c ∷ cs) = IsBelow (name c) cs × IsSorted cs

  abbrev at : A → List A → ℕ → List ℕ
  at d l i = name (get_or l i d)

  next_of :
      (d : A) (l : List A) (pmin pfind r : ℕ)
      → strcmp_gt
          (at d l r)
          (at d l (if strcmp_gt (at d l pmin) (at d l pfind) then pfind else pmin))
        ≡ false
      → (strcmp_gt (at d l r) (at d l pmin) ≡ false) × (strcmp_gt (at d l r) (at d l pfind) ≡ false)
  next_of d l pmin pfind r = elim (Bool-cases (strcmp_gt (at d l pmin) (at d l pfind))) [
    | inl g ↦ rw (g) (λ h. (
      strcmp_gt_trans (at d l r) (at d l pfind) (at d l pmin) h
          (strcmp_gt_asymm (at d l pmin) (at d l pfind) g),
      h,
    ))
    | inr g ↦ rw (g) (λ h. (h, strcmp_gt_trans (at d l r) (at d l pmin) (at d l pfind) h g))
  ]

  -- What find_least gives is not above an entry that it met.
  find_least_lem :
      (d : A) (l : List A) (pmin pfind n i : ℕ)
      → (i ≡ pmin) ⊎ ((pfind ≤ i) × (i < pfind + n))
      → strcmp_gt (at d l (find_least name d l pmin pfind n)) (at d l i) ≡ false
  unfolding find_least
  find_least_lem d l pmin pfind zero i (inl e) =
      subst (λ k. strcmp_gt (at d l pmin) (at d l k) ≡ false) (sym e)
        (strcmp_gt_irrefl (at d l pmin))
  find_least_lem d l pmin pfind zero i (inr h) = absurd (omega arith)
  find_least_lem d l pmin pfind (suc n) i h =
      let next = if strcmp_gt (at d l pmin) (at d l pfind) then pfind else pmin in
      let rest = find_least_lem d l next (suc pfind) n in
      let both =
        next_of d l pmin pfind (find_least name d l next (suc pfind) n) (rest next (inl refl)) in
      elim h [
        | inl e ↦
            subst
              (λ k. strcmp_gt (at d l (find_least name d l next (suc pfind) n)) (at d l k) ≡ false)
              (sym e) both.0
        | inr r ↦ elim (Bool-cases (i == pfind)) [
          | inl e ↦
              subst
                (λ k.
                  strcmp_gt (at d l (find_least name d l next (suc pfind) n)) (at d l k) ≡ false)
                (sym ((==_iff i pfind).0 e)) both.1
          | inr e ↦ rest i (inr (ground (arith, r, e), omega (arith, r)))
        ]
      ]

  -- A name that is below whatever a place of a table holds is below the table.
  IsBelow-all :
      (n : List ℕ) (d : A) (l : List A)
      → ((i : ℕ) → i < length l → strcmp_gt n (at d l i) ≡ false)
      → IsBelow n l
  IsBelow-all n d [] h = tt
  IsBelow-all n d (c ∷ cs) h =
      (h 0 (omega arith), IsBelow-all n d cs (λ i k. h (suc i) (omega (arith, k))))

  -- The first entry after a round, which is below all.
  pass-IsBelow :
      (c : A) (cs : List A)
      → IsBelow (at c (c ∷ cs) (find_least name c (c ∷ cs) 0 0 (length (c ∷ cs)))) (c ∷ cs)
  pass-IsBelow c cs = IsBelow-all _ c (c ∷ cs) (λ i h.
      find_least_lem c (c ∷ cs) 0 0 (length (c ∷ cs)) i (inr (omega arith, omega (arith, h))))

  first_of :
      (c : A) (cs : List A) (j : ℕ)
      → (rest : List A) × (exchange_first name c cs j ≡ get_or (c ∷ cs) j c ∷ rest)
  first_of c cs zero = (cs, refl)
  first_of c cs (suc j) = (set cs j c, refl)

  pub sort_loop-IsSorted : (n : ℕ) (l : List A) → length l ≤ n → IsSorted (sort_loop name n l)
  unfolding sort_loop pass
  sort_loop-IsSorted zero [] h = tt
  sort_loop-IsSorted zero (c ∷ cs) h = absurd (omega arith)
  sort_loop-IsSorted (suc n) [] h = tt
  sort_loop-IsSorted (suc n) (c ∷ cs) h =
      let f = first_of c cs (find_least name c (c ∷ cs) 0 0 (length (c ∷ cs))) in
      let p : Permᴰ (get_or (c ∷ cs) (find_least name c (c ∷ cs) 0 0 (length (c ∷ cs))) c ∷ f.0)
          (c ∷ cs) =
        subst (λ l. Permᴰ l (c ∷ cs)) f.1 (pass-Permᴰ (c ∷ cs)) in
      let b = All-Permᴰ _ (Permᴰ.symm p) (pass-IsBelow c cs) in
      rw (f.1) (
        All-Permᴰ _ (Permᴰ.symm (sort_loop-Permᴰ n f.0)) b.1,
        sort_loop-IsSorted n f.0 (omega (arith, length-Permᴰ p)),
      )

-- sh_sort leaves the commands of a table in the order of their names, and no others.
pub sh_sort-IsSorted :
    (l : List CmdTable) → IsSorted CmdTable.name (sh_sort l) × Permᴰ (sh_sort l) l
unfolding sh_sort
sh_sort-IsSorted l = (
  sort_loop-IsSorted CmdTable.name (length l) l (omega arith),
  sort_loop-Permᴰ CmdTable.name (length l) l,
)

-- sh_sort_ex, told the number of entries of a list that is not empty, puts all but the last of
-- them in the order of their names and leaves the last one where it is.
pub sh_sort_ex-IsSorted :
    (l : List CmdPrompt) (last : CmdPrompt)
    → (sorted : List CmdPrompt) × ((sh_sort_ex (l ++ (last ∷ [])) (length l + 1)
          ≡ sorted ++ (last ∷ []))
        × (IsSorted CmdPrompt.name sorted × Permᴰ sorted l))
unfolding sh_sort_ex
sh_sort_ex-IsSorted l last = (
  sort_loop CmdPrompt.name (length l) l,
  (
    let e : length l + 1 - 1 ≡ length l = omega arith in
        let z : length l - length l ≡ 0 = omega arith in
        rw
          (
            e,
            take-append_le (length l) l (last ∷ []) (omega arith),
            take-all (length l) l (omega arith),
            drop-append_ge (length l) l (last ∷ []) (omega arith),
            z,
          )
          refl,
    (
      sort_loop-IsSorted CmdPrompt.name (length l) l (omega arith),
      sort_loop-Permᴰ CmdPrompt.name (length l) l,
    ),
  ),
)
