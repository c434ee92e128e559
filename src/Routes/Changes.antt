-- ===== src/Routes/Changes.antt =====
-- Inserting and deleting rows: a transaction as a whole.
use tmsxx_tc.Prelude.{
  ℕ, ◌≡◌, ◌⊎◌, true, false, refl, sym, ap, ◌∙◌, subst, List, [], ◌∷◌, ◌++◌, Bool-cases,
  Option-cases, inl, inr,
}
use mathlib.Core.List.{append-nil, append_assoc}
use tmsxx_tc.Database.{Sqlite, minus, close_transaction}
use tmsxx_tc.Routes.{
  TdbRoute, renumber, by_all, insert_rows, insert_route, delete_rows, delete_route,
}
use tmsxx_tc.Database.Rows.{Remains}
use tmsxx_tc.Routes.Agreement.{
  forget, Extends, Agrees, AgreesAny, Remains-none, Remains-filter, Remains-trans,
}

module _ (sql : Sqlite TdbRoute renumber) where
  open sql use {Db, opens, table, begins, commits, inserted, deleted}

  -- What is left of a transaction that started at `start`: 0 with all of its changes, 0 without them because
  -- the COMMIT failed, or -1 and no change.
  abbrev pub Transacts : Db → (List TdbRoute → Type 0) → Db × ℕ → Type 0
  Transacts start P r =
      ((r.1 ≡ 0) × P (table r.0))
      ⊎ (((r.1 ≡ 0) × (r.0 ≡ start) × ((db : Db) × (P (table db) × (commits db ≡ false))))
          ⊎ ((r.1 ≡ minus 1) × (r.0 ≡ start)))

  Transacts-close :
      (start db : Db) (P : List TdbRoute → Type 0)
      → begins start ≡ true
      → P (table db)
      → Transacts start P (close_transaction sql start db, 0)
  Transacts-close start db P b p = elim (Bool-cases (commits db)) [
    | inl e ↦ rw (b, e) (inl (refl, p))
    | inr e ↦ rw (b, e) (inr (inl (refl, refl, (db, (p, e)))))
  ]

  Transacts-map :
      (start : Db) (P Q : List TdbRoute → Type 0) (r : Db × ℕ)
      → ((l : List TdbRoute) → P l → Q l)
      → Transacts start P r
      → Transacts start Q r
  Transacts-map start P Q r f (inl (z, p)) = inl (z, f (table r.0) p)
  Transacts-map start P Q r f (inr (inl (z, e, (db, (p, c))))) =
      inr (inl (z, e, (db, (f (table db) p, c))))
  Transacts-map start P Q r f (inr (inr h)) = inr (inr h)

  insert_rows_lem :
      (start db : Db) (rows : List TdbRoute)
      → begins start ≡ true
      → Transacts start (Extends (table db) rows) (insert_rows sql start db rows)
  unfolding insert_rows
  insert_rows_lem start db [] b =
      Transacts-close start db (Extends (table db) []) b ([], sym (append-nil (table db)), refl)
  insert_rows_lem start db (r ∷ rs) b = elim (Option-cases (sql.insert db r)) [
    | inl e ↦ rw (e, insert_rows) (inr (inr (refl, rw b refl)))
    | inr (db', e) ↦
        rw (e, insert_rows)
          (Transacts-map start (Extends (table db') rs) (Extends (table db) (r ∷ rs))
            (insert_rows sql start db' rs)
            (λ l (new, t, n). (
              renumber (sql.next_id db) r ∷ new,
              t
                  ∙ ap (λ x. x ++ new) (inserted db db' r e)
                  ∙ append_assoc (table db) (renumber (sql.next_id db) r ∷ []) new,
              ap (◌∷◌ (forget r)) n,
            ))
            (insert_rows_lem start db' rs b))
  ]

  -- Where BEGIN succeeds, an insertion of rows gives 0 or -1. With 0, either the table has all of
  -- them behind its rows, in their order and under numbers of their own; or it came to that, but
  -- the COMMIT failed, and the database is as before. With -1 the database is as before.
  pub insert_route_lem :
      (db : Db) (rows : List TdbRoute)
      → begins db ≡ true
      → Transacts db (Extends (table db) rows) (insert_route sql db rows)
  unfolding insert_route
  insert_route_lem db rows b = elim (Bool-cases (opens db)) [
    | inl o ↦ rw (o) (insert_rows_lem db db rows b)
    | inr o ↦ rw (o) (inr (inr (refl, refl)))
  ]

  delete_rows_lem :
      (start db : Db) (cs : List TdbRoute) (m : TdbRoute)
      → begins start ≡ true
      → Transacts start (Remains (AgreesAny cs m) (table db)) (delete_rows sql start db cs m)
  unfolding delete_rows
  delete_rows_lem start db [] m b =
      Transacts-close start db (Remains (AgreesAny [] m) (table db)) b (Remains-none m (table db))
  delete_rows_lem start db (c ∷ cs) m b = elim (Option-cases (sql.delete db (by_all c m))) [
    | inl e ↦ rw (e, delete_rows) (inr (inr (refl, rw b refl)))
    | inr (db', e) ↦
        let first =
          subst (λ l. Remains (Agrees c m) (table db) l) (sym (deleted db db' (by_all c m) e))
            (Remains-filter c m (table db)) in
        rw (e, delete_rows)
          (Transacts-map start (Remains (AgreesAny cs m) (table db'))
            (Remains (AgreesAny (c ∷ cs) m) (table db)) (delete_rows sql start db' cs m)
            (λ l h. Remains-trans c cs m first h) (delete_rows_lem start db' cs m b))
  ]

  -- Where BEGIN succeeds, a deletion gives 0 or -1. With 0, either just those rows have gone that
  -- agree with one of the conditions in all the columns of the mask, and the others are left in
  -- their order; or it came to that, but the COMMIT failed, and the database is as before. With -1
  -- the database is as before.
  pub delete_route_lem :
      (db : Db) (cs : List TdbRoute) (m : TdbRoute)
      → begins db ≡ true
      → Transacts db (Remains (AgreesAny cs m) (table db)) (delete_route sql db cs m)
  unfolding delete_route
  delete_route_lem db cs m b = elim (Bool-cases (opens db)) [
    | inl o ↦ rw (o) (delete_rows_lem db db cs m b)
    | inr o ↦ rw (o) (inr (inr (refl, refl)))
  ]
