-- ===== src/Routes/Lines.antt =====
-- What makes a line of routes, and that the check of one line finds out just that.
use tmsxx_tc.Prelude.{
  ℕ, zero, suc, ◌-◌, ◌^◌, ◌<◌, ◌≡◌, ◌↔◌, refl, sym, ap, ◌∙◌, subst, true, false, List, [], ◌∷◌,
  ◌++◌, length, take, take-length_append, get_or-append, get_or, if◌then◌else◌, Bool-cases, inl,
  inr, arith,
}
use tmsxx_tc.Prelude.Words.{add32, slt, slt_small}
use tmsxx_tc.Database.{Sqlite, Answers, holds, filter, each_row, is_empty, minus}
use tmsxx_tc.Routes.{
  TdbRoute, renumber, zeros, sum_a, sum_b, by_id, by_rest, is_same_end, are_joined, has_end,
  is_twice, mask_b, select_page_route, cb_checkimpact, check_route_oneline,
}
use tmsxx_tc.Routes.Places.{
  Place, nowhere, place_a, place_b, IsPath, AvoidsEnd, AreDistinct, IsLine, IsSmall, AreSmall,
  sum_a_iff, sum_b_iff, sum_ab_iff, is_joined_iff, is_same_end_iff,
}

pub IsSmall-get_or : (rows : List TdbRoute) (i : ℕ) → AreSmall rows → IsSmall (get_or rows i zeros)
IsSmall-get_or [] i h = omega arith
IsSmall-get_or (r ∷ rs) zero h = h.0
IsSmall-get_or (r ∷ rs) (suc i) h = IsSmall-get_or rs i h.1

-- The loop over the neighbours, with both ends, is a path.
IsPath-are_joined :
    (p : Place) (r : TdbRoute) (rs : List TdbRoute)
    → IsPath p (r ∷ rs) ↔ (
        (place_a r ≡ p)
        × (are_joined (r ∷ rs) ≡ true)
        × (place_b (get_or (r ∷ rs) (length rs) zeros) ≡ nowhere))
unfolding are_joined
IsPath-are_joined p r [] = ((λ h. (h.0, refl, h.1)), (λ h. (h.0, h.2)))
IsPath-are_joined p r (s ∷ rs) =
    let ih = IsPath-are_joined (place_b r) s rs in
    (
      (λ h. let q = ih.0 h.1 in let e = (is_joined_iff r s).1 q.0 in (h.0, rw (e) q.1, q.2)),
      (λ h. (h.0, ih.1 ((is_joined_iff r s).0 (ground (arith, h.1)), ground (arith, h.1), h.2))),
    )

AvoidsEnd-has_end :
    (r : TdbRoute) (rs : List TdbRoute) → (has_end r rs ≡ false) ↔ AvoidsEnd (place_b r) rs
unfolding has_end
AvoidsEnd-has_end r [] = ((λ h. tt), (λ h. refl))
AvoidsEnd-has_end r (s ∷ rs) =
    let ih = AvoidsEnd-has_end r rs in
    let e = is_same_end_iff r s in
    elim (Bool-cases (is_same_end r s)) [
      | inl t ↦ ((λ h. absurd (ground (arith, h, t))), (λ h. absurd (h.0 (e.0 t))))
      | inr t ↦ (
        (λ h. ((λ q. ground (arith, t, e.1 q)), ih.0 (ground (arith, h, t)))),
        (λ h. rw (t) (ih.1 h.1)),
      )
    ]

AreDistinct-is_twice : (rows : List TdbRoute) → (is_twice rows ≡ false) ↔ AreDistinct rows
unfolding is_twice
AreDistinct-is_twice [] = ((λ h. tt), (λ h. refl))
AreDistinct-is_twice (r ∷ rs) =
    let ih = AreDistinct-is_twice rs in
    let e = AvoidsEnd-has_end r rs in
    (
      (λ h. (e.0 (ground (arith, h)), ih.0 (ground (arith, h)))),
      (λ h. ground (arith, e.1 h.0, ih.1 h.1)),
    )

pub holds-mask_b : (c r : TdbRoute) → holds (by_id c mask_b ++ by_rest c mask_b) r ≡ is_same_end c r
holds-mask_b c r = ground arith

-- The search in the database finds no row exactly when none ends there.
pub filter-mask_b :
    (c : TdbRoute) (rows : List TdbRoute)
    → (filter (holds (by_id c mask_b ++ by_rest c mask_b)) rows ≡ []) ↔ AvoidsEnd (place_b c) rows
filter-mask_b c [] = ((λ h. tt), (λ h. refl))
filter-mask_b c (r ∷ rs) =
    let ih = filter-mask_b c rs in
    let e = is_same_end_iff c r in
    elim (Bool-cases (is_same_end c r)) [
      | inl t ↦
          ((λ h. absurd (ground (arith, h, t, holds-mask_b c r))), (λ h. absurd (h.0 (e.0 t))))
      | inr t ↦ (
        (λ h. ((λ q. ground (arith, t, e.1 q)), ih.0 (ground (arith, h, t, holds-mask_b c r)))),
        (λ h. ground (arith, t, holds-mask_b c r, ih.1 h.1)),
      )
    ]

first_row :
    (l : List TdbRoute)
    → ((if is_empty (take 1 l) then (0, minus 2) else each_row cb_checkimpact (take 1 l) 0).0 ≡ 0)
      ↔ (l ≡ [])
unfolding each_row
first_row [] = ((λ h. refl), (λ h. refl))
first_row (r ∷ rs) = ((λ h. absurd (ground (arith, h))), (λ h. absurd (ground (arith, h))))

first_row-mask_b :
    (c : TdbRoute) (rows : List TdbRoute)
    → let l = filter (holds (by_id c mask_b ++ by_rest c mask_b)) rows in
      ((if is_empty (take 1 l) then (0, minus 2) else each_row cb_checkimpact (take 1 l) 0).0 ≡ 0)
      ↔ AvoidsEnd (place_b c) rows
first_row-mask_b c rows =
    let f = first_row (filter (holds (by_id c mask_b ++ by_rest c mask_b)) rows) in
    let e = filter-mask_b c rows in ((λ h. e.0 (f.0 h)), (λ h. f.1 (e.1 h)))

module _ (sql : Sqlite TdbRoute renumber) where
  open sql use {Db, opens, table, selected}

  select_page_route-mask_b :
      (db : Db) (c : TdbRoute)
      → opens db ≡ true
      → Answers sql db
      → ((select_page_route sql db c mask_b 0 1 cb_checkimpact 0).0 ≡ 0)
        ↔ AvoidsEnd (place_b c) (table db)
  unfolding select_page_route each_row
  select_page_route-mask_b db c o ok =
      let ts = by_id c mask_b ++ by_rest c mask_b in
      rw (selected db ts 0 1 (ok ts 0 1), o) (first_row-mask_b c (table db))

  -- The tests that the check makes.
  check_route_oneline-tests :
      (db : Db) (pval : List TdbRoute) (count : ℕ)
      → (check_route_oneline sql db pval count ≡ 0) ↔ (
          (slt count 2 ≡ false)
          × (add32 (sum_a (get_or pval 0 zeros)) (sum_b (get_or pval (count - 1) zeros)) ≡ 0)
          × (are_joined (take count pval) ≡ true)
          × (is_twice (take count pval) ≡ false)
          × ((select_page_route sql db (get_or pval 0 zeros) mask_b 0 1 cb_checkimpact 0).0 ≡ 0))
  unfolding check_route_oneline
  check_route_oneline-tests db pval count = ground arith

  check_route_oneline-rows :
      (db : Db) (pval : List TdbRoute) (count : ℕ) (r : TdbRoute) (rs : List TdbRoute)
      → opens db ≡ true
      → Answers sql db
      → count < 2 ^ 31
      → AreSmall (r ∷ rs)
      → count ≡ length (r ∷ rs)
      → take count pval ≡ r ∷ rs
      → get_or pval 0 zeros ≡ r
      → get_or pval (count - 1) zeros ≡ get_or (r ∷ rs) (length rs) zeros
      → (check_route_oneline sql db pval count ≡ 0)
        ↔ (IsLine (r ∷ rs) × AvoidsEnd (place_b r) (table db))
  check_route_oneline-rows db pval count r rs o ok l h c t g k =
      let e = check_route_oneline-tests db pval count in
      let last = get_or (r ∷ rs) (length rs) zeros in
      let small = IsSmall-get_or (r ∷ rs) (length rs) h in
      let sums = sum_ab_iff r last h.0 small in
      let path = IsPath-are_joined nowhere r rs in
      let distinct = AreDistinct-is_twice (r ∷ rs) in
      let find = select_page_route-mask_b db r o ok in
      (
        (λ q.
            let x = e.0 q in
            let y = sums.0 (
              subst (λ (z : TdbRoute). add32 (sum_a z) (sum_b last) ≡ 0) g
                (subst (λ (z : TdbRoute). add32 (sum_a (get_or pval 0 zeros)) (sum_b z) ≡ 0) k
                  x.1)) in
            (
              (
                ground (arith, x.0, slt_small count 2),
                path.1 (
                  (sum_a_iff r h.0).0 y.0,
                  ap are_joined (sym t) ∙ x.2,
                  (sum_b_iff last small).0 y.1,
                ),
                distinct.0 (ap is_twice (sym t) ∙ x.3),
              ),
              find.0 (
                  subst
                    (λ (z : TdbRoute).
                      (select_page_route sql db z mask_b 0 1 cb_checkimpact 0).0 ≡ 0)
                    g x.4),
            )),
        (λ q.
            let p = path.0 q.0.1 in
            let s = sums.1 ((sum_a_iff r h.0).1 p.0, (sum_b_iff last small).1 p.2) in
            e.1 (
              ground (arith, q.0.0, slt_small count 2),
              subst (λ (z : TdbRoute). add32 (sum_a z) (sum_b (get_or pval (count - 1) zeros)) ≡ 0)
                  (sym g) (subst (λ (z : TdbRoute). add32 (sum_a r) (sum_b z) ≡ 0) (sym k) s),
              ap are_joined t ∙ p.1,
              ap is_twice t ∙ distinct.1 q.0.2,
              subst
                  (λ (z : TdbRoute). (select_page_route sql db z mask_b 0 1 cb_checkimpact 0).0 ≡ 0)
                  (sym g) (find.1 q.1),
            )),
      )

  -- The check of one line, of fewer than 2^31 rows with small fields, accepts it exactly when it
  -- is a line of two rows or more through different places and no row of the database, which opens
  -- and on which no search fails, ends where its first row does; whatever rows follow it.
  pub check_route_oneline_iff :
      (db : Db) (r : TdbRoute) (rs : List TdbRoute) (rest : List TdbRoute)
      → opens db ≡ true
      → Answers sql db
      → length (r ∷ rs) < 2 ^ 31
      → AreSmall (r ∷ rs)
      → (check_route_oneline sql db ((r ∷ rs) ++ rest) (length (r ∷ rs)) ≡ 0)
        ↔ (IsLine (r ∷ rs) × AvoidsEnd (place_b r) (table db))
  check_route_oneline_iff db r rs rest o ok l h =
      check_route_oneline-rows db ((r ∷ rs) ++ rest) (length (r ∷ rs)) r rs o ok l h refl
        (take-length_append (r ∷ rs) rest) refl
        (ap (λ i. get_or ((r ∷ rs) ++ rest) i zeros) {x = length (r ∷ rs) - 1} {y = length rs}
            (omega arith)
          ∙ get_or-append (r ∷ rs) rest (length rs) zeros (omega arith))
