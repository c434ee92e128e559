-- ===== src/Database.antt =====
-- The calls of SQLite in src/tmsxxdb.c. A statement stands for its text: the conditions of a `where` are
-- terms `and <column>=<value>`, and a column is the field of the row that it is read into.
pub mod Rows
use tmsxx_tc.Prelude.{
  ℕ, ◌^◌, ◌-◌, ◌≡◌, Bool, true, false, not, Option, some, List, [], ◌∷◌, ◌++◌, take, drop, ◌==◌,
  ◌&&◌, if◌then◌else◌,
}
use tmsxx_tc.Prelude.Words.{slt}

-- `col=n` and `col>n`, the macros DB_EQ and DB_MORE
pub data Test : Type 0 where
  equal : Test
  more : Test

pub record Term (R : Type 0) : Type 0 where
  pub column : R → ℕ
  pub test : Test
  pub value : ℕ

abbrev pub passes : Test → ℕ → ℕ → Bool
passes equal x n = x == n
passes more x n = slt n x

-- A row satisfies every condition.
abbrev pub holds : {R : Type 0} → List (Term R) → R → Bool
holds [] r = true
holds (t ∷ ts) r = passes t.test (t.column r) t.value && holds ts r

abbrev pub filter : {R : Type 0} → (R → Bool) → List R → List R
filter p [] = []
filter p (r ∷ rs) = let rest = filter p rs in if p r then r ∷ rest else rest

-- `if (pmask->col) { snprintf(sqlval, 32, "and col=%d", pcondition->col); }`
abbrev pub masked : {R : Type 0} → (R → ℕ) → R → R → List (Term R)
masked column pcondition pmask =
    if column pmask == 0
    then []
    else record { column = column; test = equal; value = column pcondition } ∷ []

-- A table as SQLite keeps it. `select` gives the rows that come of `select ... where(...) limit from, limit`,
-- and whether the statement ends without an error; `begins` and `commits` say that BEGIN and COMMIT succeed,
-- the latter in the state that the transaction has come to. `select_all` those of a statement without a limit, or `none` for an error;
-- `insert` and `delete` give the table behind the statement, or `none` for an error. The laws are what
-- SQLite documents of these statements on a table that is read in the order of its row numbers: `table` lists
-- the rows so, and a row that is inserted has the greatest number. `with_id` writes the number of a row.
pub record Sqlite (R : Type 0) (with_id : ℕ → R → R) : Type 1 where
  pub Db : Type 0
  pub opens : Db → Bool
  pub table : Db → List R
  pub next_id : Db → ℕ
  pub begins : Db → Bool
  pub commits : Db → Bool
  pub select : Db → List (Term R) → ℕ → ℕ → List R × Bool
  pub select_all : Db → List (Term R) → Option (List R)
  pub insert : Db → R → Option Db
  pub delete : Db → List (Term R) → Option Db
  pub selected :
      (db : Db) (ts : List (Term R)) (from limit : ℕ)
      → (select db ts from limit).1 ≡ true
      → (select db ts from limit).0 ≡ take limit (drop from (filter (holds ts) (table db)))
  pub selected_all :
      (db : Db) (ts : List (Term R)) (rows : List R)
      → select_all db ts ≡ some rows
      → rows ≡ filter (holds ts) (table db)
  pub inserted :
      (db db' : Db) (r : R)
      → insert db r ≡ some db'
      → table db' ≡ table db ++ (with_id (next_id db) r ∷ [])
  pub deleted :
      (db db' : Db) (ts : List (Term R))
      → delete db ts ≡ some db'
      → table db' ≡ filter (λ r. not (holds ts r)) (table db)

-- No search of a page in this state of the database fails; no search, BEGIN or COMMIT ever fails.
abbrev pub Answers : {R : Type 0} {with_id : ℕ → R → R} → (sql : Sqlite R with_id) → sql.Db → Type 0
Answers {R} sql db = (ts : List (Term R)) (from limit : ℕ) → (sql.select db ts from limit).1 ≡ true

abbrev pub Responds : {R : Type 0} {with_id : ℕ → R → R} → Sqlite R with_id → Type 0
Responds sql =
    ((db : sql.Db) → Answers sql db)
    × ((db : sql.Db) → sql.begins db ≡ true)
    × ((db : sql.Db) → sql.commits db ≡ true)

-- The COMMIT at the end of a transaction that started at `start`, if it began: nothing looks at its
-- result, and sqlite3_close takes back what is not committed.
abbrev pub close_transaction :
    {R : Type 0} {with_id : ℕ → R → R} → (sql : Sqlite R with_id) → sql.Db → sql.Db → sql.Db
close_transaction sql start db = if sql.begins start && not (sql.commits db) then start else db

-- -1, -2, ... as `int`
abbrev pub minus : ℕ → ℕ
minus n = 2 ^ 32 - n

-- `while (sqlite3_step(pstmt) == SQLITE_ROW)`: the callback is called for each row, until it gives another
-- value than 0; -1 ends the loop with 0.
unfoldable pub each_row : {R S : Type 0} → (R → S → S × ℕ) → List R → S → S × ℕ
each_row pcallback [] ptr = (ptr, 0)
each_row pcallback (r ∷ rs) ptr =
    let (ptr', funret) = pcallback r ptr in
    let rest = each_row pcallback rs ptr' in
    if funret == minus 1 then (ptr', 0) else if funret == 0 then rest else (ptr', funret)

abbrev pub is_empty : {R : Type 0} → List R → Bool
is_empty [] = true
is_empty (r ∷ rs) = false
