-- ===== src/Settings/Laws.antt =====
-- Rows of the tables of settings that are inserted, deleted and looked for.
use mathlib.Core.List.{append-nil, append_assoc}
use tmsxx_tc.Prelude.{
  ℕ, ◌≡◌, ◌≢◌, ◌<◌, ◌⊎◌, ◌↔◌, false, none, subst, refl, sym, ap, ◌∙◌, true, not, Option, some, List,
  [], ◌∷◌, ◌++◌, map, length, if◌then◌else◌, Bool-cases, Option-cases, inl, inr, arith,
}
use tmsxx_tc.Database.{Sqlite, holds, filter, minus, is_empty}
use tmsxx_tc.Database.Rows.{holds-masked, Remains}
use tmsxx_tc.Settings.{
  masked_all, insert_each, insert_some, delete_any, delete_some, select_any, select_some,
  TdbAnyUnitOsw, number_any_unit_osw, select_any_unit_osw,
}

-- A row has the values of `c` in those of the columns that `m` selects.
abbrev pub AgreesOn : {R : Type 0} → List (R → ℕ) → R → R → R → Type 0
AgreesOn [] c m r = Unit {0}
AgreesOn (column ∷ columns) c m r = (column m ≢ 0 → column r ≡ column c) × AgreesOn columns c m r

holds-AgreesOn :
    {R : Type 0} (columns : List (R → ℕ)) (c m r : R)
    → (holds (masked_all columns c m) r ≡ true) ↔ AgreesOn columns c m r
unfolding masked_all
holds-AgreesOn [] c m r = ((λ h. tt), (λ h. refl))
holds-AgreesOn (column ∷ columns) c m r =
    let e = holds-masked column c m r (masked_all columns c m) in
    let ih = holds-AgreesOn columns c m r in
    ((λ h. ((e.0 h).0, ih.0 (e.0 h).1)), (λ h. e.1 (h.0, ih.1 h.1)))

Remains-masked_all :
    {R : Type 0} (columns : List (R → ℕ)) (c m : R) (l : List R)
    → Remains (AgreesOn columns c m) l (filter (λ r. not (holds (masked_all columns c m) r)) l)
Remains-masked_all columns c m [] = Remains.done
Remains-masked_all columns c m (r ∷ l) =
    let ih = Remains-masked_all columns c m l in
    let e = holds-AgreesOn columns c m r in
    elim (Bool-cases (holds (masked_all columns c m) r)) [
      | inl t ↦ rw (t) (Remains.gone r (e.0 t) ih)
      | inr t ↦ rw (t) (Remains.kept r (λ a. ground (arith, t, e.1 a)) ih)
    ]

-- `b` is `a` with these rows behind it, under numbers of their own.
abbrev pub Extends : {R : Type 0} → (ℕ → R → R) → List R → List R → List R → Type 0
Extends with_id a rows b =
    (new : List _) × (b ≡ a ++ new) × (map (with_id 0) new ≡ map (with_id 0) rows)

module _ {R : Type 0} {with_id : ℕ → R → R} (sql : Sqlite R with_id) where
  open sql use {Db, opens, table, select_all, inserted, deleted, selected_all}

  -- A deletion with a condition and a mask gives 0 in any case. Either the database opens and just
  -- those rows have gone that agree with the condition in all the columns that the mask selects,
  -- and the others are left in their order; or the database does not open, or the statement fails,
  -- and the database is as before.
  pub delete_some_lem :
      (db : Db) (columns : List (R → ℕ)) (c m : R)
      → ((delete_some sql db (masked_all columns c m)).1 ≡ 0)
        × (((opens db ≡ true)
              × Remains
                  (AgreesOn columns c m)
                  (table db)
                  (table (delete_some sql db (masked_all columns c m)).0))
            ⊎ (((opens db ≡ false) ⊎ (sql.delete db (masked_all columns c m) ≡ none))
                × ((delete_some sql db (masked_all columns c m)).0 ≡ db)))
  unfolding delete_some delete_any
  delete_some_lem db columns c m =
      let ts = masked_all columns c m in
      (
        refl,
        elim (Bool-cases (opens db)) [
          | inr o ↦ inr (inl o, rw (o) refl)
          | inl o ↦ elim (Option-cases (sql.delete db ts)) [
            | inl e ↦ inr (inr e, rw (o, e, delete_any) refl)
            | inr (db', e) ↦ inl (
              o,
              rw (o, e, delete_any)
                  (subst (λ l. Remains (AgreesOn columns c m) (table db) l)
                    (sym (deleted db db' ts e)) (Remains-masked_all columns c m (table db))),
            )
          ]
        ],
      )

  -- Without a transaction, the rows in front of one that fails stay.
  insert_each_lem :
      (db : Db) (rows : List R)
      → ((n : ℕ) (r : R) → with_id 0 (with_id n r) ≡ with_id 0 r)
      → (((insert_each sql db rows).1 ≡ 0)
          × Extends with_id (table db) rows (table (insert_each sql db rows).0))
        ⊎ (((insert_each sql db rows).1 ≡ minus 1)
            × ((front : List R) × (r : R) × (rest : List R) × (rows ≡ front ++ (r ∷ rest))
                × Extends with_id (table db) front (table (insert_each sql db rows).0)))
  unfolding insert_each
  insert_each_lem db [] k = inl (refl, ([], sym (append-nil (table db)), refl))
  insert_each_lem db (r ∷ rs) k = elim (Option-cases (sql.insert db r)) [
    | inl e ↦ inr (
      rw (e, insert_each) refl,
      ([], r, rs, refl, rw (e, insert_each) ([], sym (append-nil (table db)), refl)),
    )
    | inr (db', e) ↦
        let grown = λ (new : List R) (x : List R) (t : x ≡ table db' ++ new).
          (t
            ∙ ap (λ l. l ++ new) (inserted db db' r e)
            ∙ append_assoc (table db) (with_id (sql.next_id db) r ∷ []) new) in
        elim (insert_each_lem db' rs k) [
          | inl (z, (new, t, n)) ↦ inl (
            rw (e, insert_each) z,
            (
              with_id (sql.next_id db) r ∷ new,
              rw (e, insert_each) (grown new _ t),
              ground (arith, k (sql.next_id db) r, n),
            ),
          )
          | inr (z, (front, q, rest, s, (new, t, n))) ↦ inr (
            rw (e, insert_each) z,
            (
              r ∷ front,
              q,
              rest,
              ap (◌∷◌ r) s,
              (
                with_id (sql.next_id db) r ∷ new,
                rw (e, insert_each) (grown new _ t),
                ground (arith, k (sql.next_id db) r, n),
              ),
            ),
          )
        ]
  ]

  -- An insertion into a database that opens gives 0 or -1. With 0 the table has all rows behind
  -- its own, under numbers of their own (writing a number over another is writing it); with -1 it
  -- has those in front of one that failed.
  pub insert_some_lem :
      (db : Db) (rows : List R)
      → ((n : ℕ) (r : R) → with_id 0 (with_id n r) ≡ with_id 0 r)
      → opens db ≡ true
      → (((insert_some sql db rows).1 ≡ 0)
          × Extends with_id (table db) rows (table (insert_some sql db rows).0))
        ⊎ (((insert_some sql db rows).1 ≡ minus 1)
            × ((front : List R) × (r : R) × (rest : List R) × (rows ≡ front ++ (r ∷ rest))
                × Extends with_id (table db) front (table (insert_some sql db rows).0)))
  unfolding insert_some
  insert_some_lem db rows k o = rw (o) (insert_each_lem db rows k)

full :
    {R : Type 0} (l : List R)
    → 0 < length l
    → if◌then◌else◌ {A = Option (List R × ℕ)} (is_empty l) (some ([], minus 2)) (some (l, length l))
      ≡ some (l, length l)
full [] h = absurd (omega arith)
full (r ∷ l) h = refl

filter-none : {R : Type 0} (l : List R) → filter (holds {R = R} []) l ≡ l
filter-none [] = refl
filter-none (r ∷ l) = ap (◌∷◌ r) (filter-none l)

-- A mask that selects no column.
abbrev pub nothing : TdbAnyUnitOsw
nothing = record {
  id = 0;
  any_frame = 0;
  any_slot = 0;
  any_type = 0;
  any_port = 0;
  osw_frame = 0;
  osw_slot = 0;
  osw_type = 0;
  osw_port = 0;
}

-- The search for what the switches of one frame are coupled with finds the whole table, if it has
-- a row, whatever the frame, when the database opens, the statement succeeds and there is memory.
pub select_any_unit_osw-osw_frame :
    (sql : Sqlite TdbAnyUnitOsw number_any_unit_osw) (db : sql.Db) (c : TdbAnyUnitOsw) (n : ℕ)
    (rows : List TdbAnyUnitOsw)
    → sql.opens db ≡ true
    → sql.select_all db [] ≡ some rows
    → n ≢ 0
    → 0 < length (sql.table db)
    → select_any_unit_osw sql db c (record nothing { osw_frame = n }) true
      ≡ some (sql.table db, length (sql.table db))
unfolding select_any_unit_osw masked_all select_some select_any
select_any_unit_osw-osw_frame sql db c n rows o e z l =
    let t = sql.selected_all db [] rows e ∙ filter-none (sql.table db) in
    rw (o, e, t, select_any, select_some) (full (sql.table db) l)
