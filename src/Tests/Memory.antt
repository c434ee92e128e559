-- ===== src/Tests/Memory.antt =====
-- A database that is a list in memory, in place of SQLite.
use tmsxx_tc.Prelude.{
  ℕ, ◌+◌, ◌≡◌, refl, true, not, Option, some, List, [], ◌∷◌, ◌++◌, length, take, drop,
}
use tmsxx_tc.Database.{Sqlite, Term, holds, filter}

module _ (R : Type 0) (with_id : ℕ → R → R) where
  abbrev pub insert_last : List R → R → Option (List R)
  insert_last db r = some (db ++ (with_id (length db + 1) r ∷ []))

  abbrev pub delete_those : List R → List (Term R) → Option (List R)
  delete_those db ts = some (filter (λ r. not (holds ts r)) db)

  abbrev pub select_those : List R → List (Term R) → Option (List R)
  select_those db ts = some (filter (holds ts) db)

  pub inserted :
      (db db' : List R) (r : R)
      → insert_last db r ≡ some db'
      → db' ≡ db ++ (with_id (length db + 1) r ∷ [])
  inserted db db' r e = cc

  pub deleted :
      (db db' : List R) (ts : List (Term R))
      → delete_those db ts ≡ some db'
      → db' ≡ filter (λ r. not (holds ts r)) db
  deleted db db' ts e = cc

  pub selected :
      (db : List R) (ts : List (Term R)) (rows : List R)
      → select_those db ts ≡ some rows
      → rows ≡ filter (holds ts) db
  selected db ts rows e = cc

  abbrev pub in_memory : Sqlite R with_id
  in_memory = record {
    Db = List R;
    opens = λ db. true;
    table = λ db. db;
    next_id = λ db. length db + 1;
    begins = λ db. true;
    commits = λ db. true;
    select = λ db ts from limit. (take limit (drop from (filter (holds ts) db)), true);
    select_all = select_those;
    insert = insert_last;
    delete = delete_those;
    selected = λ db ts from limit e. refl;
    selected_all = selected;
    inserted = inserted;
    deleted = deleted;
  }
