-- ===== src/Routes/Trace.antt =====
-- Inserting a line that the check accepts, and following it through the table.
use tmsxx_tc.Prelude.{
  ℕ, zero, suc, ◌-◌, ◌^◌, ◌≤◌, ◌<◌, ◌≡◌, ◌≢◌, refl, sym, ap, ◌∙◌, subst, true, none, some, List, [],
  ◌∷◌, ◌++◌, map, length, ◌==◌, if◌then◌else◌, inl, inr, arith,
}
use mathlib.Core.List.{append-nil}
use tmsxx_tc.Database.{Sqlite, Answers, Responds, holds, filter, each_row}
use tmsxx_tc.Routes.{
  TdbRoute, renumber, sum_b, by_id, by_rest, by_end, mask_a, mask_b, cb_record, select_page_route,
  next_rows, select_oneline, insert_route, check_route_oneline,
}
use tmsxx_tc.Routes.Places.{
  Place, nowhere, place_a, place_b, AvoidsEnd, AreSmall, IsLine, sum_b_iff, is_same_end_iff,
}
use tmsxx_tc.Routes.Lines.{filter-mask_b, holds-mask_b, check_route_oneline_iff}
use tmsxx_tc.Routes.Agreement.{forget}
use tmsxx_tc.Routes.Changes.{insert_route_lem}
use tmsxx_tc.Routes.Starts.{
  at, starts, AvoidsStart, AvoidsStarts, AreTyped, AreFound, AreFound-cons, AreFound-append,
  AreFound-self, AvoidsStart-nowhere,
}
use tmsxx_tc.Routes.Renumbered.{
  IsTail, AvoidsEnd-forget, IsTail-forget, AvoidsStarts-forget, length-forget, filter-append_nil,
}

module _ (sql : Sqlite TdbRoute renumber) where
  open sql use {Db, opens, table, selected}

  select_page_route-found :
      (db : Db) (p : Place) (q : TdbRoute) (rest : List TdbRoute)
      → opens db ≡ true
      → Answers sql db
      → filter (starts p) (table db) ≡ q ∷ rest
      → select_page_route sql db (at p) mask_a 0 1 cb_record none ≡ (some q, 0)
  unfolding select_page_route each_row
  select_page_route-found db p q rest o ok f =
      let ts = by_id (at p) mask_a ++ by_rest (at p) mask_a in
      rw (selected db ts 0 1 (ok ts 0 1), o, f) refl

  next_rows-suc :
      (db : Db) (n : ℕ) (p : Place) (q : TdbRoute)
      → select_page_route sql db (at p) mask_a 0 1 cb_record none ≡ (some q, 0)
      → q.type_a ≢ 0
      → next_rows sql db (suc n) (at p)
        ≡ (if sum_b q == 0 then q ∷ [] else q ∷ next_rows sql db n (at (place_b q)))
  unfolding next_rows
  next_rows-suc db n p q e t = rw (e, next_rows) (ground (arith, e))

  -- The second search goes through the rest of a line.
  next_rows_lem :
      (db : Db) (n : ℕ) (p : Place) (q : TdbRoute) (qs : List TdbRoute)
      → opens db ≡ true
      → Answers sql db
      → length qs < n
      → IsTail p (q ∷ qs)
      → AreFound (table db) (q ∷ qs)
      → next_rows sql db n (at p) ≡ q ∷ qs
  next_rows_lem db zero p q qs o ok l h f = absurd (omega arith)
  next_rows_lem db (suc n) p q [] o ok l h ((rest, f), g) =
      let s =
        select_page_route-found db p q rest o ok
          (subst (λ x. filter (starts x) (table db) ≡ q ∷ rest) h.0.0 f) in
      next_rows-suc db n p q s h.2.0 ∙ ground (arith, (sum_b_iff q h.3.0).1 h.0.1)
  next_rows_lem db (suc n) p q (t ∷ ts) o ok l h ((rest, f), g) =
      let s =
        select_page_route-found db p q rest o ok
          (subst (λ x. filter (starts x) (table db) ≡ q ∷ rest) h.0.0 f) in
      let ih =
        next_rows_lem db n (place_b q) t ts o ok (omega arith) (h.0.1, h.1.1, h.2.1, h.3.1) g in
      let k : sum_b q ≢ 0 = λ z. h.2.1.0 (ap Place.kind (h.0.1.0 ∙ (sum_b_iff q h.3.0).0 z)) in
      next_rows-suc db n p q s h.2.0 ∙ ground (arith, k, ih)

  -- The first search, by the end of the first row.
  select_oneline-found :
      (db : Db) (c : TdbRoute) (len : ℕ) (r q : TdbRoute) (qs rest : List TdbRoute)
      → opens db ≡ true
      → Answers sql db
      → c.type_a ≡ 0
      → c.type_b ≢ 0
      → filter (holds (by_id c mask_b ++ by_rest c mask_b)) (table db) ≡ r ∷ rest
      → length (r ∷ q ∷ qs) ≤ len
      → IsTail (place_b r) (q ∷ qs)
      → AreFound (table db) (q ∷ qs)
      → select_oneline sql db c len ≡ (r ∷ q ∷ qs, 0)
  unfolding select_oneline
  select_oneline-found db c len r q qs rest o ok a b f l h g =
      let n = next_rows_lem db (len - 1) (place_b r) q qs o ok (omega arith) h g in
      let ts = by_id c mask_b ++ by_rest c mask_b in
      let e : by_end c ≡ ts = ground (arith, a, b) in
      rw (o, ap (λ ts. (sql.select db ts 0 1).0) e, selected db ts 0 1 (ok ts 0 1), f, n) refl

  -- A table behind which a line has been added under new numbers.
  select_oneline-extended :
      (db : Db) (start : List TdbRoute) (c : TdbRoute) (len : ℕ) (r q : TdbRoute)
      (qs : List TdbRoute)
      → opens db ≡ true
      → Answers sql db
      → c.type_a ≡ 0
      → c.type_b ≢ 0
      → place_b r ≡ place_b c
      → AvoidsEnd (place_b r) start
      → AvoidsStarts (q ∷ qs) start
      → place_a r ≡ nowhere
      → IsTail (place_b r) (q ∷ qs)
      → AvoidsEnd (place_b r) (q ∷ qs)
      → length (r ∷ q ∷ qs) ≤ len
      → table db ≡ start ++ (r ∷ q ∷ qs)
      → select_oneline sql db c len ≡ (r ∷ q ∷ qs, 0)
  select_oneline-extended db start c len r q qs o ok a b e u v w h d l t =
      let p = holds (by_id c mask_b ++ by_rest c mask_b) in
      let none_before = (filter-mask_b c start).1 (subst (λ x. AvoidsEnd x start) e u) in
      let hit : p r ≡ true = holds-mask_b c r ∙ (is_same_end_iff c r).1 e in
      let first : filter p (table db) ≡ r ∷ filter p (q ∷ qs) =
        ap (filter p) t
        ∙ filter-append_nil p start (r ∷ q ∷ qs) none_before
        ∙ ground (arith, hit) in
      let found = AreFound-self (place_b r) (q ∷ qs) h.0 d h.1 in
      let behind =
        AreFound-cons r (q ∷ qs) (q ∷ qs)
          (subst (λ x. AvoidsStart x (q ∷ qs)) (sym w) (AvoidsStart-nowhere (q ∷ qs) h.2)) found in
      let all =
        subst (λ x. AreFound x (q ∷ qs)) (sym t)
          (AreFound-append start (r ∷ q ∷ qs) (q ∷ qs) v behind) in
      select_oneline-found db c len r q qs (filter p (q ∷ qs)) o ok a b first l h all

  select_oneline-line :
      (db : Db) (start : List TdbRoute) (c : TdbRoute) (len : ℕ) (r q : TdbRoute)
      (qs new : List TdbRoute)
      → opens db ≡ true
      → Answers sql db
      → c.type_a ≡ 0
      → place_b c ≡ place_b r
      → AreTyped (q ∷ qs)
      → AreSmall (q ∷ qs)
      → AvoidsStarts (q ∷ qs) start
      → IsLine (r ∷ q ∷ qs)
      → AvoidsEnd (place_b r) start
      → length (r ∷ q ∷ qs) ≤ len
      → table db ≡ start ++ new
      → map forget new ≡ map forget (r ∷ q ∷ qs)
      → select_oneline sql db c len ≡ (new, 0)
  select_oneline-line db start c len r q qs [] o ok a e y k v h u l t n = absurd (cc)
  select_oneline-line db start c len r q qs (x ∷ []) o ok a e y k v h u l t n = absurd (cc)
  select_oneline-line db start c len r q qs (x ∷ z ∷ zs) o ok a e y k v h u l t n =
      let f : forget x ≡ forget r = cc in
      let g : map forget (z ∷ zs) ≡ map forget (q ∷ qs) = cc in
      let b : place_b r ≡ place_b x = sym (ap place_b f) in
      let tail =
        subst (λ p. IsTail p (z ∷ zs)) b
          (IsTail-forget (place_b r) (z ∷ zs) (q ∷ qs) g (h.1.1, h.2.1, y, k)) in
      let avoids =
        subst (λ p. AvoidsEnd p (z ∷ zs)) b
          (AvoidsEnd-forget (place_b r) (z ∷ zs) (q ∷ qs) g h.2.0) in
      let typed : c.type_b ≢ 0 = λ w. y.0 (ap Place.kind (h.1.1.0 ∙ sym e) ∙ w) in
      let size : length (x ∷ z ∷ zs) ≤ len =
        let m = length-forget (x ∷ z ∷ zs) (r ∷ q ∷ qs) n in omega arith in
      select_oneline-extended db start c len x z zs o ok a typed (sym b ∙ sym e)
        (subst (λ p. AvoidsEnd p start) b u) (AvoidsStarts-forget (z ∷ zs) (q ∷ qs) start g v)
        (ap place_a f ∙ h.1.0) tail avoids size t

  -- The same for the table behind an insertion.
  pub select_oneline-saved :
      (db : Db) (r q : TdbRoute) (qs : List TdbRoute) (c : TdbRoute) (len : ℕ)
      → Responds sql
      → opens db ≡ true
      → length (r ∷ q ∷ qs) < 2 ^ 31
      → AreSmall (r ∷ q ∷ qs)
      → AreTyped (q ∷ qs)
      → AvoidsStarts (q ∷ qs) (table db)
      → check_route_oneline sql db (r ∷ q ∷ qs) (length (r ∷ q ∷ qs)) ≡ 0
      → (insert_route sql db (r ∷ q ∷ qs)).1 ≡ 0
      → opens (insert_route sql db (r ∷ q ∷ qs)).0 ≡ true
      → c.type_a ≡ 0
      → place_b c ≡ place_b r
      → length (r ∷ q ∷ qs) ≤ len
      → (new : List TdbRoute) × (table (insert_route sql db (r ∷ q ∷ qs)).0 ≡ table db ++ new)
        × (map forget new ≡ map forget (r ∷ q ∷ qs))
        × (select_oneline sql (insert_route sql db (r ∷ q ∷ qs)).0 c len ≡ (new, 0))
  select_oneline-saved db r q qs c len ok o s k y v x z o' a e l =
      let line = (check_route_oneline_iff sql db r (q ∷ qs) [] o (ok.0 db) s k).0 (
        subst (λ w. check_route_oneline sql db w (length (r ∷ q ∷ qs)) ≡ 0)
          (sym (append-nil (r ∷ q ∷ qs))) x) in
      elim (insert_route_lem sql db (r ∷ q ∷ qs) (ok.1 db)) [
        | inl (w, (new, t, n)) ↦ (
          new,
          t,
          n,
          select_oneline-line (insert_route sql db (r ∷ q ∷ qs)).0 (table db) c len r q qs new o'
              (ok.0 (insert_route sql db (r ∷ q ∷ qs)).0) a e y k.1 v line.0 line.1 l t n,
        )
        | inr (inl (w, t, (x', n))) ↦ absurd (ground (arith, n.1, ok.2 x'))
        | inr (inr (w, t)) ↦ absurd (omega arith)
      ]

  -- A line of fewer than 2^31 rows with small fields that the check accepts, and that is then
  -- inserted, is found whole from the end of its first row in a buffer that is long enough, but
  -- for the numbers that its rows got, if its places have types and no row of the table starts at
  -- one of them. The database opens, no search, BEGIN or COMMIT fails, and no place is given at
  -- which to start.
  pub select_oneline-insert_route :
      (db : Db) (r q : TdbRoute) (qs : List TdbRoute) (c : TdbRoute) (len : ℕ)
      → Responds sql
      → opens db ≡ true
      → length (r ∷ q ∷ qs) < 2 ^ 31
      → AreSmall (r ∷ q ∷ qs)
      → AreTyped (q ∷ qs)
      → AvoidsStarts (q ∷ qs) (table db)
      → check_route_oneline sql db (r ∷ q ∷ qs) (length (r ∷ q ∷ qs)) ≡ 0
      → (insert_route sql db (r ∷ q ∷ qs)).1 ≡ 0
      → opens (insert_route sql db (r ∷ q ∷ qs)).0 ≡ true
      → c.type_a ≡ 0
      → place_b c ≡ place_b r
      → length (r ∷ q ∷ qs) ≤ len
      → (map forget (select_oneline sql (insert_route sql db (r ∷ q ∷ qs)).0 c len).0
          ≡ map forget (r ∷ q ∷ qs))
        × ((select_oneline sql (insert_route sql db (r ∷ q ∷ qs)).0 c len).1 ≡ 0)
  select_oneline-insert_route db r q qs c len ok o s k y v x z o' a e l =
      let found = select_oneline-saved db r q qs c len ok o s k y v x z o' a e l in
      (ap (λ w. map forget w.0) found.3 ∙ found.2, ap (λ w. w.1) found.3)
