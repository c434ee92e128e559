-- ===== src/Settings.antt =====
-- src/tmsxxdb.c: the tables of the devices (tb_composition), of what an optical switch is coupled with
-- (tb_any_unit_osw), of triggers (tb_a_trigger_b) and of cyclic tests (tb_osw_cyc, tb_osw_cyc_bak). The
-- functions are given a condition and a mask.
pub mod Laws
use tmsxx_tc.Prelude.{
  ℕ, zero, suc, ◌^◌, Bool, true, false, not, Option, none, some, List, [], ◌∷◌, ◌++◌, length, ◌==◌,
  if◌then◌else◌,
}
use tmsxx_tc.Database.{
  Test, equal, more, Term, Sqlite, masked, minus, each_row, is_empty, close_transaction,
}

-- The conditions on some columns, in the order of the statement.
unfoldable pub masked_all : {R : Type 0} → List (R → ℕ) → R → R → List (Term R)
masked_all [] pcondition pmask = []
masked_all (column ∷ columns) pcondition pmask =
    masked column pcondition pmask ++ masked_all columns pcondition pmask

module _ {R : Type 0} {with_id : ℕ → R → R} (sql : Sqlite R with_id) where
  open sql use {Db, opens, select_all, insert, delete}

  -- The loop of `tmsdb_Insert_composition` and the like: no transaction, so that the rows in front of an error stay.
  unfoldable pub insert_each : Db → List R → Db × ℕ
  insert_each db [] = (db, 0)
  insert_each db (r ∷ rs) = elim (insert db r) [
    | none ↦ (db, minus 1)
    | some db' ↦ insert_each db' rs
  ]

  unfoldable pub insert_some : Db → List R → Db × ℕ
  unfolding insert_each
  insert_some db pcondition = if not (opens db) then (db, minus 1) else insert_each db pcondition

  -- `_tmsdb_Delete_any`
  unfoldable pub delete_any : Db → List (Term R) → Db × ℕ
  delete_any db ts =
      if not (opens db)
      then (db, minus 1)
      else elim (delete db ts) [ none ↦ (db, minus 1) | some db' ↦ (db', 0) ]

  -- What its callers make of it: 0.
  unfoldable pub delete_some : Db → List (Term R) → Db × ℕ
  unfolding delete_any
  delete_some db ts = ((delete_any db ts).0, 0)

  -- `_tmsdb_Select_any`: the rows and what it returns, or `none` where `*prow` is not set.
  unfoldable pub select_any : Db → List (Term R) → Option (List R × ℕ)
  select_any db ts = if not (opens db) then none else elim (select_all db ts) [
    | none ↦ some ([], minus 1)
    | some rows ↦ some (rows, length rows)
  ]

  -- What its callers make of the rows; `got` says that `malloc` succeeds, and `none` is a number of rows that was
  -- never set.
  unfoldable pub select_some : Db → List (Term R) → Bool → Option (List R × ℕ)
  unfolding select_any
  select_some db ts got = elim (select_any db ts) [
    | none ↦ none
    | some (rows, row) ↦
        if is_empty rows
        then some ([], minus 2)
        else if not got
        then some ([], minus 1)
        else some (rows, length rows)
  ]

-- `struct tdb_composition`
pub record TdbComposition : Type 0 where
  pub id : ℕ
  pub frame : ℕ
  pub slot : ℕ
  pub kind : ℕ
  pub port : ℕ

abbrev pub number_composition : ℕ → TdbComposition → TdbComposition
number_composition n r = record r { id = n }

abbrev pub columns_composition : List (TdbComposition → ℕ)
columns_composition =
    TdbComposition.id ∷ TdbComposition.frame ∷ TdbComposition.slot ∷ TdbComposition.kind
    ∷ TdbComposition.port ∷ []

-- `struct tdb_any_unit_osw`
pub record TdbAnyUnitOsw : Type 0 where
  pub id : ℕ
  pub any_frame : ℕ
  pub any_slot : ℕ
  pub any_type : ℕ
  pub any_port : ℕ
  pub osw_frame : ℕ
  pub osw_slot : ℕ
  pub osw_type : ℕ
  pub osw_port : ℕ

abbrev pub number_any_unit_osw : ℕ → TdbAnyUnitOsw → TdbAnyUnitOsw
number_any_unit_osw n r = record r { id = n }

-- `sqlval8` stands in the statement where `sqlval5` is missing; there is no condition on the number.
abbrev pub select_columns_any_unit_osw : List (TdbAnyUnitOsw → ℕ)
select_columns_any_unit_osw =
    TdbAnyUnitOsw.any_frame ∷ TdbAnyUnitOsw.any_slot ∷ TdbAnyUnitOsw.any_type
    ∷ TdbAnyUnitOsw.any_port ∷ TdbAnyUnitOsw.osw_port ∷ TdbAnyUnitOsw.osw_slot
    ∷ TdbAnyUnitOsw.osw_type ∷ TdbAnyUnitOsw.osw_port ∷ []

abbrev pub columns_any_unit_osw : List (TdbAnyUnitOsw → ℕ)
columns_any_unit_osw =
    TdbAnyUnitOsw.id ∷ TdbAnyUnitOsw.any_frame ∷ TdbAnyUnitOsw.any_slot ∷ TdbAnyUnitOsw.any_type
    ∷ TdbAnyUnitOsw.any_port ∷ TdbAnyUnitOsw.osw_frame ∷ TdbAnyUnitOsw.osw_slot
    ∷ TdbAnyUnitOsw.osw_type ∷ TdbAnyUnitOsw.osw_port ∷ []

-- `struct tdb_a_trigger_b`
pub record TdbATriggerB : Type 0 where
  pub id : ℕ
  pub frame_a : ℕ
  pub slot_a : ℕ
  pub type_a : ℕ
  pub port_a : ℕ
  pub frame_b : ℕ
  pub slot_b : ℕ
  pub type_b : ℕ
  pub port_b : ℕ

abbrev pub number_a_trigger_b : ℕ → TdbATriggerB → TdbATriggerB
number_a_trigger_b n r = record r { id = n }

abbrev pub columns_a_trigger_b : List (TdbATriggerB → ℕ)
columns_a_trigger_b =
    TdbATriggerB.id ∷ TdbATriggerB.frame_a ∷ TdbATriggerB.slot_a ∷ TdbATriggerB.type_a
    ∷ TdbATriggerB.port_a ∷ TdbATriggerB.frame_b ∷ TdbATriggerB.slot_b ∷ TdbATriggerB.type_b
    ∷ TdbATriggerB.port_b ∷ []

-- `struct tdb_osw_cyc`
pub record TdbOswCyc : Type 0 where
  pub id : ℕ
  pub frame : ℕ
  pub slot : ℕ
  pub kind : ℕ
  pub port : ℕ
  pub iscyc : ℕ
  pub interval : ℕ

abbrev pub number_osw_cyc : ℕ → TdbOswCyc → TdbOswCyc
number_osw_cyc n r = record r { id = n }

abbrev pub columns_osw_cyc : List (TdbOswCyc → ℕ)
columns_osw_cyc =
    TdbOswCyc.id ∷ TdbOswCyc.frame ∷ TdbOswCyc.slot ∷ TdbOswCyc.kind ∷ TdbOswCyc.port
    ∷ TdbOswCyc.iscyc ∷ TdbOswCyc.interval ∷ []

-- `struct tdb_osw_cyc_bak`
pub record TdbOswCycBak : Type 0 where
  pub id : ℕ
  pub frame : ℕ
  pub slot : ℕ
  pub kind : ℕ
  pub port : ℕ
  pub iscyc : ℕ
  pub interval : ℕ
  pub nexttest : ℕ

abbrev pub number_osw_cyc_bak : ℕ → TdbOswCycBak → TdbOswCycBak
number_osw_cyc_bak n r = record r { id = n }

abbrev pub columns_osw_cyc_bak : List (TdbOswCycBak → ℕ)
columns_osw_cyc_bak =
    TdbOswCycBak.id ∷ TdbOswCycBak.frame ∷ TdbOswCycBak.slot ∷ TdbOswCycBak.kind ∷ TdbOswCycBak.port
    ∷ TdbOswCycBak.iscyc ∷ TdbOswCycBak.interval ∷ []

module _ (sql : Sqlite TdbATriggerB number_a_trigger_b) where
  open sql use {Db, opens, begins, select_all, insert}

  -- `tmsdb_Insert_a_trigger_b`, in a transaction, as `tmsdb_Insert_route`.
  unfoldable pub insert_triggers : Db → Db → List TdbATriggerB → Db × ℕ
  insert_triggers start db [] = (close_transaction sql start db, 0)
  insert_triggers start db (r ∷ rs) = elim (insert db r) [
    | none ↦ (if begins start then start else db, minus 1)
    | some db' ↦ insert_triggers start db' rs
  ]

  unfoldable pub insert_a_trigger_b : Db → List TdbATriggerB → Db × ℕ
  unfolding insert_triggers
  insert_a_trigger_b db pcondition =
      if not (opens db) then (db, minus 1) else insert_triggers db db pcondition

  -- `tmsdb_Delete_a_trigger_b` opens the database twice.
  unfoldable pub delete_a_trigger_b : Db → TdbATriggerB → TdbATriggerB → Db × ℕ
  unfolding delete_some masked_all
  delete_a_trigger_b db pcondition pmask =
      if not (opens db)
      then (db, minus 1)
      else delete_some sql db (masked_all columns_a_trigger_b pcondition pmask)

  -- `tmsdb_Select_a_trigger_b`
  unfoldable pub select_a_trigger_b :
      {S : Type 0} → Db → TdbATriggerB → TdbATriggerB → (TdbATriggerB → S → S × ℕ) → S → S × ℕ
  unfolding masked_all each_row
  select_a_trigger_b db pcondition pmask pcallback ptr =
      if not (opens db)
      then (ptr, minus 1)
      else elim (select_all db (masked_all columns_a_trigger_b pcondition pmask)) [
        | none ↦ (ptr, minus 2)
        | some rows ↦ if is_empty rows then (ptr, minus 2) else each_row pcallback rows ptr
      ]

module _ (sql : Sqlite TdbComposition number_composition) where
  open sql use {Db}

  unfoldable pub insert_composition : Db → List TdbComposition → Db × ℕ
  unfolding insert_some
  insert_composition db pcondition = insert_some sql db pcondition

  unfoldable pub delete_composition : Db → TdbComposition → TdbComposition → Db × ℕ
  unfolding delete_some masked_all
  delete_composition db pcondition pmask =
      delete_some sql db (masked_all columns_composition pcondition pmask)

  unfoldable pub select_composition :
      Db → TdbComposition → TdbComposition → Bool → Option (List TdbComposition × ℕ)
  unfolding select_some masked_all
  select_composition db pcondition pmask got =
      select_some sql db (masked_all columns_composition pcondition pmask) got

module _ (sql : Sqlite TdbAnyUnitOsw number_any_unit_osw) where
  open sql use {Db}

  unfoldable pub insert_any_unit_osw : Db → List TdbAnyUnitOsw → Db × ℕ
  unfolding insert_some
  insert_any_unit_osw db pcondition = insert_some sql db pcondition

  unfoldable pub delete_any_unit_osw : Db → TdbAnyUnitOsw → TdbAnyUnitOsw → Db × ℕ
  unfolding delete_some masked_all
  delete_any_unit_osw db pcondition pmask =
      delete_some sql db (masked_all columns_any_unit_osw pcondition pmask)

  unfoldable pub select_any_unit_osw :
      Db → TdbAnyUnitOsw → TdbAnyUnitOsw → Bool → Option (List TdbAnyUnitOsw × ℕ)
  unfolding select_some masked_all
  select_any_unit_osw db pcondition pmask got =
      select_some sql db (masked_all select_columns_any_unit_osw pcondition pmask) got

module _ (sql : Sqlite TdbOswCyc number_osw_cyc) where
  open sql use {Db}

  unfoldable pub insert_osw_cyc : Db → List TdbOswCyc → Db × ℕ
  unfolding insert_some
  insert_osw_cyc db pcondition = insert_some sql db pcondition

  unfoldable pub delete_osw_cyc : Db → TdbOswCyc → TdbOswCyc → Db × ℕ
  unfolding delete_some masked_all
  delete_osw_cyc db pcondition pmask =
      delete_some sql db (masked_all columns_osw_cyc pcondition pmask)

  unfoldable pub select_osw_cyc : Db → TdbOswCyc → TdbOswCyc → Bool → Option (List TdbOswCyc × ℕ)
  unfolding select_some masked_all
  select_osw_cyc db pcondition pmask got =
      select_some sql db (masked_all columns_osw_cyc pcondition pmask) got

module _ (sql : Sqlite TdbOswCycBak number_osw_cyc_bak) where
  open sql use {Db}

  unfoldable pub insert_osw_cyc_bak : Db → List TdbOswCycBak → Db × ℕ
  unfolding insert_some
  insert_osw_cyc_bak db pcondition = insert_some sql db pcondition

  unfoldable pub delete_osw_cyc_bak : Db → TdbOswCycBak → TdbOswCycBak → Db × ℕ
  unfolding delete_some masked_all
  delete_osw_cyc_bak db pcondition pmask =
      delete_some sql db (masked_all columns_osw_cyc_bak pcondition pmask)

  unfoldable pub select_osw_cyc_bak :
      Db → TdbOswCycBak → TdbOswCycBak → Bool → Option (List TdbOswCycBak × ℕ)
  unfolding select_some masked_all
  select_osw_cyc_bak db pcondition pmask got =
      select_some sql db (masked_all columns_osw_cyc_bak pcondition pmask) got
