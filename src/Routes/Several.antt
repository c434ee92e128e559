-- ===== src/Routes/Several.antt =====
-- Tables of several lines, and their first line.
use tmsxx_tc.Prelude.{
  ℕ, ◌+◌, ◌≤◌, ◌<◌, ◌≡◌, ◌≢◌, ◌⊎◌, refl, sym, ap, ◌∙◌, subst, Option, none, some, List, [], ◌∷◌,
  ◌++◌, length, drop, drop-length_append, get_or, ◌==◌, if◌then◌else◌, Bool-cases, Option-cases,
  inl, inr, arith,
}
use tmsxx_tc.Database.{minus}
use tmsxx_tc.Routes.{TdbRoute, zeros, sum_a, sum_b, find_end}
use tmsxx_tc.Routes.Places.{
  Place, nowhere, place_b, IsPath, AvoidsEnd, AreDistinct, IsLine, AreSmall, sum_a_iff, sum_b_iff,
}

-- Lines, one after another, the first row of each ending where no row of the table does, and then at most
-- two rows of any kind.
pub data Passes (rows : List TdbRoute) : List TdbRoute → Type 0 where
  few : {l : List TdbRoute} → length l ≤ 2 → Passes rows l
  line :
      {l : List TdbRoute} (r : TdbRoute) (rs rest : List TdbRoute)
      → l ≡ (r ∷ rs) ++ rest
      → 2 < length l
      → IsLine (r ∷ rs)
      → AvoidsEnd (place_b r) rows
      → Passes rows rest
      → Passes rows l

-- A path whose ends are not `p` leads elsewhere.
pub AvoidsEnd-nowhere :
    (p q : Place) (r : TdbRoute) (rs : List TdbRoute)
    → IsPath q (r ∷ rs)
    → AvoidsEnd p (r ∷ rs)
    → p ≢ nowhere
AvoidsEnd-nowhere p q r [] h a e = a.0 (h.1 ∙ sym e)
AvoidsEnd-nowhere p q r (s ∷ rs) h a e = AvoidsEnd-nowhere p (place_b r) s rs h.1 a.1 e

pub AreSmall-append : (xs ys : List TdbRoute) → AreSmall (xs ++ ys) → AreSmall xs × AreSmall ys
AreSmall-append [] ys h = (tt, h)
AreSmall-append (x ∷ xs) ys h = let ih = AreSmall-append xs ys h.1 in ((h.0, ih.0), ih.1)

-- The search for the end of a line stops at the end of the line.
pub find_end-line :
    (p : Place) (r : TdbRoute) (rs rest : List TdbRoute)
    → IsPath p (r ∷ rs)
    → AreDistinct (r ∷ rs)
    → AreSmall (r ∷ rs)
    → find_end ((r ∷ rs) ++ rest) ≡ some (length rs)
unfolding find_end
find_end-line p r [] rest h d s = ground (arith, (sum_b_iff r s.0).1 h.1)
find_end-line p r (t ∷ rs) rest h d s =
    let n = AvoidsEnd-nowhere (place_b r) (place_b r) t rs h.1 d.0 in
    elim (Bool-cases (sum_b r == 0)) [
      | inl e ↦ absurd (n ((sum_b_iff r s.0).0 (ground (arith, e))))
      | inr e ↦ ground (arith, e, find_end-line (place_b r) t rs rest h.1 d.1 s.1)
    ]

-- The rows up to the end that was found.
pub find_end-split :
    (l : List TdbRoute) (i : ℕ)
    → find_end l ≡ some i
    → (r : TdbRoute) × (rs : List TdbRoute) × (rest : List TdbRoute) × (l ≡ (r ∷ rs) ++ rest)
      × (length rs ≡ i)
unfolding find_end
find_end-split [] i h = absurd (ground (arith, h))
find_end-split (r ∷ l) i h = elim (Bool-cases (sum_b r == 0)) [
  | inl e ↦ (r, [], l, refl, ground (arith, h, e))
  | inr e ↦ elim (Option-cases (find_end l)) [
    | inl n ↦ absurd (ground (arith, h, e, n))
    | inr (j, s) ↦
        let (t, ts, rest, q, k) = find_end-split l j s in
        (r, t ∷ ts, rest, ap (◌∷◌ r) q, ground (arith, h, e, s, k))
  ]
]

-- Two splits of a list at the same place.
pub split_unique :
    (xs ys zs ws : List TdbRoute)
    → length xs ≡ length zs
    → xs ++ ys ≡ zs ++ ws
    → (xs ≡ zs) × (ys ≡ ws)
split_unique [] ys [] ws h e = (refl, e)
split_unique [] ys (z ∷ zs) ws h e = absurd (omega arith)
split_unique (x ∷ xs) ys [] ws h e = absurd (omega arith)
split_unique (x ∷ xs) ys (z ∷ zs) ws h e =
    let ih = split_unique xs ys zs ws (omega arith) (cc) in (cc, ih.1)

pub drop-split :
    (l : List TdbRoute) (r : TdbRoute) (rs rest : List TdbRoute) (i : ℕ)
    → l ≡ (r ∷ rs) ++ rest
    → length rs ≡ i
    → drop (i + 1) l ≡ rest
drop-split l r rs rest i e h =
    ap (λ n. drop n l) {x = i + 1} {y = length (r ∷ rs)} (omega arith)
    ∙ ap (drop (length (r ∷ rs))) e
    ∙ drop-length_append (r ∷ rs) rest

-- 0 where something holds, and -1 where it does not.
abbrev pub Decides : Option ℕ → Type 0 → Type 0
Decides m P = ((m ≡ some 0) × P) ⊎ ((m ≡ some (minus 1)) × (P → ⊥))

abbrev pub scan : List TdbRoute → Option ℕ
scan l = if sum_a (get_or l 0 zeros) == 0 then find_end l else none

-- What a table with more than two rows starts with, when it passes.
pub Passes-find_end :
    {rows l : List TdbRoute}
    → Passes rows l
    → 2 < length l
    → AreSmall l
    → (r : TdbRoute) × (rs : List TdbRoute) × (rest : List TdbRoute) × (l ≡ (r ∷ rs) ++ rest)
      × IsLine (r ∷ rs)
      × AvoidsEnd (place_b r) rows
      × Passes rows rest
      × (scan l ≡ some (length rs))
Passes-find_end (Passes.few h) g s = absurd (omega arith)
Passes-find_end (Passes.line r rs rest e g' k a p) g s =
    let t = (AreSmall-append (r ∷ rs) rest (subst AreSmall e s)).0 in
    let f = find_end-line nowhere r rs rest k.1 k.2 t in
    let z = (sum_a_iff r t.0).1 k.1.0 in
    (r, rs, rest, e, k, a, p, subst (λ x. scan x ≡ some (length rs)) (sym e) (ground (arith, z, f)))

-- A line that may stand first in a table.
abbrev pub IsFirst : List TdbRoute → List TdbRoute → Type 0
IsFirst rows [] = ⊥
IsFirst rows (r ∷ rs) = IsLine (r ∷ rs) × AvoidsEnd (place_b r) rows

pub Passes-IsFirst :
    {rows l : List TdbRoute} (r : TdbRoute) (rs rest : List TdbRoute)
    → Passes rows l
    → 2 < length l
    → AreSmall l
    → l ≡ (r ∷ rs) ++ rest
    → scan l ≡ some (length rs)
    → IsFirst rows (r ∷ rs) × Passes rows rest
Passes-IsFirst {rows} r rs rest p g s e n =
    let q = Passes-find_end p g s in
    let u = split_unique (q.0 ∷ q.1) q.2 (r ∷ rs) rest (ground (arith, n, q.7)) (sym q.3 ∙ e) in
    (subst (λ x. IsFirst rows x) u.0 (q.4, q.5), subst (λ x. Passes rows x) u.1 q.6)

pub scan-split :
    (l : List TdbRoute) (i : ℕ)
    → scan l ≡ some i
    → (r : TdbRoute) × (rs : List TdbRoute) × (rest : List TdbRoute) × (l ≡ (r ∷ rs) ++ rest)
      × (length rs ≡ i)
scan-split l i h = elim (Bool-cases (sum_a (get_or l 0 zeros) == 0)) [
  | inl e ↦ find_end-split l i (ground (arith, h, e))
  | inr e ↦ absurd (ground (arith, h, e))
]
