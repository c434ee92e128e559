-- ===== src/Routes/Multi.antt =====
-- The check of a table of several lines.
use tmsxx_tc.Prelude.{
  ℕ, zero, suc, ◌+◌, ◌-◌, ◌^◌, ◌≤◌, ◌<◌, ◌≡◌, ◌↔◌, refl, sym, ap, ◌∙◌, subst, true, none, some,
  List, ◌∷◌, ◌++◌, length, take, drop, take-all, length-append, ◌==◌, if◌then◌else◌, Bool-cases,
  Option-cases, inl, inr, arith, ltb,
}
use tmsxx_tc.Prelude.Words.{slt_small, sub32_small}
use tmsxx_tc.Database.{Sqlite, Answers, minus}
use tmsxx_tc.Routes.{
  TdbRoute, renumber, check_route_getoneline, check_route_oneline, check_lines,
  check_route_multiline,
}
use tmsxx_tc.Routes.Places.{place_b, AvoidsEnd, IsLine, AreSmall}
use tmsxx_tc.Routes.Lines.{check_route_oneline_iff}
use tmsxx_tc.Routes.Several.{
  Passes, AreSmall-append, drop-split, Decides, scan, Passes-find_end, Passes-IsFirst, scan-split,
}

module _ (sql : Sqlite TdbRoute renumber) where
  open sql use {Db, opens, table}

  -- A round of the loop.
  check_lines-suc :
      (fuel : ℕ) (db : Db) (count i : ℕ) (l : List TdbRoute)
      → length l + i ≡ count
      → count < 2 ^ 31
      → 2 < length l
      → check_lines sql (suc fuel) db count i l ≡ (elim (scan l) [
        | none ↦ some (minus 1)
        | some len ↦
            if check_route_oneline sql db l (len + 1) == 0
            then check_lines sql fuel db count (i + len + 1) (drop (len + 1) l)
            else some (minus 1)
      ])
  unfolding check_lines check_route_getoneline
  check_lines-suc fuel db count i l e c g =
      rw
        (
          sub32_small count 2 (omega arith) (omega arith),
          sub32_small count i (omega arith) (omega arith),
          slt_small i (count - 2) (omega arith) (omega arith),
          ap (λ n. take n l) {x = count - i} {y = length l} (omega arith),
          take-all (length l) l (omega arith),
        )
        (ground arith)

  check_lines-few :
      (fuel : ℕ) (db : Db) (count i : ℕ) (l : List TdbRoute)
      → length l + i ≡ count
      → 2 ≤ count
      → count < 2 ^ 31
      → length l ≤ 2
      → check_lines sql (suc fuel) db count i l ≡ some 0
  unfolding check_lines
  check_lines-few fuel db count i l e d c g =
      rw
        (
          sub32_small count 2 (omega arith) (omega arith),
          slt_small i (count - 2) (omega arith) (omega arith),
        )
        (ground arith)

  -- The check of the first line of a table, found by its end.
  first-IsLine :
      (db : Db) (l : List TdbRoute) (r : TdbRoute) (rs rest : List TdbRoute) (i : ℕ)
      → opens db ≡ true
      → Answers sql db
      → length l < 2 ^ 31
      → AreSmall l
      → l ≡ (r ∷ rs) ++ rest
      → length rs ≡ i
      → (check_route_oneline sql db l (i + 1) ≡ 0)
        ↔ (IsLine (r ∷ rs) × AvoidsEnd (place_b r) (table db))
  first-IsLine db l r rs rest i o ok c s e k =
      let n = length-append (r ∷ rs) rest in
      let m = ap length e in
      let iff =
        check_route_oneline_iff sql db r rs rest o ok (omega arith)
          (AreSmall-append (r ∷ rs) rest (subst AreSmall e s)).0 in
      subst
        (λ (x : List TdbRoute).
          (check_route_oneline sql db x (i + 1) ≡ 0)
          ↔ (IsLine (r ∷ rs) × AvoidsEnd (place_b r) (table db)))
        (sym e)
        (subst
          (λ (x : ℕ).
            (check_route_oneline sql db ((r ∷ rs) ++ rest) x ≡ 0)
            ↔ (IsLine (r ∷ rs) × AvoidsEnd (place_b r) (table db)))
          {x = length (r ∷ rs)} {y = i + 1} (omega arith) iff)

  -- A round that finds no end, and one that finds a line.
  check_lines-none :
      (fuel : ℕ) (db : Db) (count i : ℕ) (l : List TdbRoute)
      → length l + i ≡ count
      → count < 2 ^ 31
      → 2 < length l
      → scan l ≡ none
      → check_lines sql (suc fuel) db count i l ≡ some (minus 1)
  check_lines-none fuel db count i l e c g n = check_lines-suc fuel db count i l e c g ∙ rw (n) refl

  check_lines-some :
      (fuel : ℕ) (db : Db) (count i : ℕ) (l : List TdbRoute) (len : ℕ)
      → length l + i ≡ count
      → count < 2 ^ 31
      → 2 < length l
      → scan l ≡ some len
      → check_lines sql (suc fuel) db count i l ≡ (
          if check_route_oneline sql db l (len + 1) == 0
          then check_lines sql fuel db count (i + len + 1) (drop (len + 1) l)
          else some (minus 1))
  check_lines-some fuel db count i l len e c g n =
      check_lines-suc fuel db count i l e c g ∙ rw (n) refl

  -- The loop decides, in as many rounds as there are rows.
  check_lines_lem :
      (fuel : ℕ) (db : Db) (count i : ℕ) (l : List TdbRoute)
      → opens db ≡ true
      → Answers sql db
      → length l < fuel
      → length l + i ≡ count
      → 2 ≤ count
      → count < 2 ^ 31
      → AreSmall l
      → Decides (check_lines sql fuel db count i l) (Passes (table db) l)
  check_lines_lem zero db count i l o ok f e d c s = absurd (omega arith)
  check_lines_lem (suc fuel) db count i l o ok f e d c s =
      let ih = λ (j : ℕ) (k : List TdbRoute). check_lines_lem fuel db count j k o ok in
      elim (Bool-cases (ltb 2 (length l))) [
        | inr g ↦
            inl (check_lines-few fuel db count i l e d c (ground arith), Passes.few (ground arith))
        | inl g ↦ elim (Option-cases (scan l)) [
          | inl n ↦ inr (
            check_lines-none fuel db count i l e c (ground arith) n,
            λ p. let q = Passes-find_end p (ground arith) s in absurd (ground (arith, n, q.7)),
          )
          | inr (len, n) ↦
              let (r, rs, rest, k, m) = scan-split l len n in
              let iff = first-IsLine db l r rs rest len o ok (omega arith) s k m in
              let round = check_lines-some fuel db count i l len e c (ground arith) n in
              elim (Bool-cases (check_route_oneline sql db l (len + 1) == 0)) [
                | inr z ↦ inr (
                  ground (arith, round, z),
                  λ p. absurd (
                      ground (
                        arith,
                        z,
                        iff.1
                            (Passes-IsFirst r rs rest p (ground arith) s k (n ∙ ap some (sym m))).0,
                      )),
                )
                | inl z ↦
                    let first = iff.0 (ground (arith, z)) in
                    let size = ap length k in
                    let parts = length-append (r ∷ rs) rest in
                    let small = (AreSmall-append (r ∷ rs) rest (subst AreSmall k s)).1 in
                    let behind : drop (len + 1) l ≡ rest = drop-split l r rs rest len k m in
                    let next = ih (i + len + 1) rest (omega arith) (omega arith) d c small in
                    elim next [
                      | inl x ↦ inl (
                        round ∙ ground (arith, z, behind, x.0),
                        Passes.line r rs rest k (ground arith) first.0 first.1 x.1,
                      )
                      | inr x ↦ inr (
                        round ∙ ground (arith, z, behind, x.0),
                        λ p.
                            x.1
                              (Passes-IsFirst r rs rest p (ground arith) s k
                                (n ∙ ap some (sym m))).1,
                      )
                    ]
              ]
        ]
      ]

  -- With more rounds than there are rows (fewer than 2^31), the check of a table with small fields
  -- always ends, with 0 or -1; it gives 0 exactly when the table has two rows or more and is made
  -- of lines through different places, the first row of each ending where no row of the database
  -- does, and at most two rows more. The database opens, and no search on it fails.
  pub check_route_multiline_decides :
      (fuel : ℕ) (db : Db) (l : List TdbRoute)
      → opens db ≡ true
      → Answers sql db
      → length l < fuel
      → length l < 2 ^ 31
      → AreSmall l
      → Decides
          (check_route_multiline sql fuel db l (length l))
          ((2 ≤ length l) × Passes (table db) l)
  unfolding check_route_multiline
  check_route_multiline_decides fuel db l o ok f c s = elim (Bool-cases (ltb (length l) 2)) [
    | inl g ↦ inr (ground (arith, g, slt_small (length l) 2), λ p. ground (arith, g, p.0))
    | inr g ↦
        let r = check_lines_lem fuel db (length l) 0 l o ok f (omega arith) (ground arith) c s in
        elim r [
          | inl x ↦ inl (ground (arith, g, slt_small (length l) 2, x.0), (ground arith, x.1))
          | inr x ↦ inr (ground (arith, g, slt_small (length l) 2, x.0), λ p. x.1 p.1)
        ]
  ]
