-- ===== src/Shell/Lookup.antt =====
-- How a line finds its command.
use mathlib.Core.List.Permᴰ
use mathlib.Core.List.{Permᴰ}
use tmsxx_tc.Prelude.{
  ℕ, ◌≡◌, ◌≢◌, refl, sym, ap, ◌∙◌, subst, Bool, true, false, some, List, [], ◌∷◌, ◌++◌, ◌≤◌, length,
  take-all, arith, ◌==◌, if◌then◌else◌, Bool-cases, inl, inr, ◌⊎◌,
}
use tmsxx_tc.Shell.{
  CmdTable, cmd_max, strcmp_gt, is_prefix, find_command, is_sep, close_word, split_words, tokens,
  call, answer_of, sh_sort, sh_analyse,
}
use tmsxx_tc.Shell.Order.{strcmp_gt_antisymm, is_prefix_refl, strcmp_gt-is_prefix}
use tmsxx_tc.Shell.Sorted.{All, All-Permᴰ, IsBelow, IsSorted, sh_sort-IsSorted}

-- A command is in a table.
abbrev pub IsIn : CmdTable → List CmdTable → Type 0
IsIn c [] = ⊥
IsIn c (d ∷ ds) = (d ≡ c) ⊎ IsIn c ds

IsIn-Permᴰ : (c : CmdTable) {l l' : List CmdTable} → Permᴰ l l' → IsIn c l → IsIn c l'
IsIn-Permᴰ c Permᴰ.nil h = h
IsIn-Permᴰ c (Permᴰ.cons e p) (inl h) = inl (sym e ∙ h)
IsIn-Permᴰ c (Permᴰ.cons e p) (inr h) = inr (IsIn-Permᴰ c p h)
IsIn-Permᴰ c (Permᴰ.swap e e') (inl h) = inr (inl (sym e ∙ h))
IsIn-Permᴰ c (Permᴰ.swap e e') (inr (inl h)) = inl (sym e' ∙ h)
IsIn-Permᴰ c (Permᴰ.swap e e') (inr (inr h)) = inr (inr h)
IsIn-Permᴰ c (Permᴰ.trans p q) h = IsIn-Permᴰ c q (IsIn-Permᴰ c p h)

-- No other command of the table has its name.
abbrev pub IsOnly : CmdTable → List CmdTable → Type 0
IsOnly c l = All (λ d. d.name ≡ c.name → d ≡ c) l

below_one :
    (n : List ℕ) (c : CmdTable) (l : List CmdTable)
    → IsBelow CmdTable.name n l
    → IsIn c l
    → strcmp_gt n c.name ≡ false
below_one n c [] b h = absurd h
below_one n c (d ∷ ds) b (inl e) = subst (λ (x : CmdTable). strcmp_gt n x.name ≡ false) e b.0
below_one n c (d ∷ ds) b (inr h) = below_one n c ds b.1 h

differs : (c d : CmdTable) → d ≡ c → is_prefix c.name d.name ≢ false
differs c d e p =
    let q : is_prefix c.name c.name ≡ false =
      subst (λ (x : CmdTable). is_prefix c.name x.name ≡ false) e p in
    ground (arith, q, is_prefix_refl c.name)

-- In a sorted table a full name finds its command, though an abbreviation of a name finds a command too.
pub find_command-name :
    (c : CmdTable) (l : List CmdTable)
    → IsSorted CmdTable.name l
    → IsIn c l
    → IsOnly c l
    → find_command c.name l ≡ some c
unfolding find_command
find_command-name c [] s h u = absurd h
find_command-name c (d ∷ ds) s h u = elim (Bool-cases (is_prefix c.name d.name)) [
  | inl p ↦ elim h [
    | inl e ↦ rw (p) (ap some e)
    | inr r ↦ rw (p) (
        ap some (
          u.0 (
            strcmp_gt_antisymm d.name c.name (below_one d.name c ds s.0 r)
              (strcmp_gt-is_prefix c.name d.name p))))
  ]
  | inr p ↦ elim h [
    | inl e ↦ absurd (differs c d e p)
    | inr r ↦ rw (p) (find_command-name c ds s.1 r u.1)
  ]
]

-- A byte of a word is not 0 and no separator.
abbrev pub is_plain : ℕ → Bool
is_plain b = if b == 0 then false else if is_sep b then false else true

abbrev pub ArePlain : List ℕ → Type 0
ArePlain [] = Unit {0}
ArePlain (b ∷ bs) = (is_plain b ≡ true) × ArePlain bs

abbrev pub IsWord : List ℕ → Type 0
IsWord [] = ⊥
IsWord (b ∷ bs) = (is_plain b ≡ true) × ArePlain bs

sep_facts : (s : ℕ) → is_sep s ≡ true → (s == 0) ≡ false
sep_facts s h = ground (arith, h)

plain_facts : (b : ℕ) → is_plain b ≡ true → ((b == 0) ≡ false) × (is_sep b ≡ false)
plain_facts b h = elim (Bool-cases (b == 0)) [
  | inl z ↦ ground (arith, h, z)
  | inr z ↦ elim (Bool-cases (is_sep b)) [
    | inl q ↦ absurd (ground (arith, h, z, q))
    | inr q ↦ (z, q)
  ]
]

split_words-append :
    (w : List ℕ) (s : ℕ) (rest : List ℕ)
    → ArePlain w
    → (is_sep s ≡ true)
    → split_words (w ++ (s ∷ rest)) ≡ (w, tokens rest)
unfolding split_words tokens
split_words-append [] s rest p h = rw (sep_facts s h, h) refl
split_words-append (b ∷ bs) s rest p h =
    rw ((plain_facts b p.0).0, (plain_facts b p.0).1, split_words-append bs s rest p.1 h) refl

-- Words, each with separators before it, and a last separator; and what comes of them.
abbrev pub line : ℕ → List (List ℕ) → List ℕ
line s [] = []
line s (w ∷ ws) = w ++ (s ∷ line s ws)

abbrev pub AreWords : List (List ℕ) → Type 0
AreWords [] = Unit {0}
AreWords (w ∷ ws) = IsWord w × AreWords ws

pub tokens-line :
    (s : ℕ) (ws : List (List ℕ)) → is_sep s ≡ true → AreWords ws → tokens (line s ws) ≡ ws
unfolding tokens split_words
tokens-line s [] h a = refl
tokens-line s ([] ∷ ws) h a = absurd a.0
tokens-line s ((b ∷ bs) ∷ ws) h a =
    ap close_word (split_words-append (b ∷ bs) s (line s ws) a.0 h)
    ∙ ap (◌∷◌ (b ∷ bs)) (tokens-line s ws h a.1)

called :
    (c : CmdTable) (args : List (List ℕ))
    → length (c.name ∷ args) ≤ cmd_max
    → answer_of (some c) c.name args ≡ call c (c.name ∷ args)
called c args few = ground (arith, few)

-- In the table that sh_sort has sorted, a line of at most 256 words without separators or zeros,
-- of which the first is the name of a command that no other command of the table has, each with
-- one separator behind it, calls this command with these words, whatever commands have longer
-- names.
pub sh_analyse-sh_sort :
    (table : List CmdTable) (c : CmdTable) (args : List (List ℕ)) (s : ℕ)
    → is_sep s ≡ true
    → IsIn c table
    → IsOnly c table
    → AreWords (c.name ∷ args)
    → length (c.name ∷ args) ≤ cmd_max
    → sh_analyse (sh_sort table) (line s (c.name ∷ args)) (length (line s (c.name ∷ args)))
      ≡ call c (c.name ∷ args)
unfolding sh_analyse
sh_analyse-sh_sort table c args s h i u a few =
    let p = sh_sort-IsSorted table in
    rw
      (
        take-all (length (line s (c.name ∷ args))) (line s (c.name ∷ args)) (omega arith),
        tokens-line s (c.name ∷ args) h a,
      )
      (ap (λ o. answer_of o c.name args)
          (find_command-name c (sh_sort table) p.0 (IsIn-Permᴰ c (Permᴰ.symm p.1) i)
            (All-Permᴰ _ (Permᴰ.symm p.1) u))
        ∙ called c args few)
