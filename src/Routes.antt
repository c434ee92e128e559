-- ===== src/Routes.antt =====
-- src/tmsxxdb.c: the table of routes. A route is a line of rows 0--a, a--b, ..., d--0; each of its places is
-- a frame, a slot, a type and a port.
pub mod Places
pub mod Lines
pub mod Several
pub mod Multi
pub mod Agreement
pub mod Changes
pub mod Starts
pub mod Renumbered
pub mod Trace
pub mod Commands
pub mod Restored
use tmsxx_tc.Prelude.{
  ℕ, zero, suc, ◌+◌, ◌-◌, ◌^◌, Bool, true, false, not, Option, none, some, List, [], ◌∷◌, ◌++◌,
  length, take, drop, ◌==◌, ◌&&◌, ◌||◌, if◌then◌else◌, get_or,
}
use tmsxx_tc.Prelude.Words.{add32, sub32, slt}
use tmsxx_tc.Database.{
  Test, equal, more, Term, Sqlite, masked, minus, each_row, is_empty, close_transaction,
}

-- `struct tdb_route`
pub record TdbRoute : Type 0 where
  pub id : ℕ
  pub ip_src : ℕ
  pub ip_dst : ℕ
  pub frame_a : ℕ
  pub slot_a : ℕ
  pub type_a : ℕ
  pub port_a : ℕ
  pub frame_b : ℕ
  pub slot_b : ℕ
  pub type_b : ℕ
  pub port_b : ℕ

abbrev pub renumber : ℕ → TdbRoute → TdbRoute
renumber n r = record r { id = n }

-- All bytes 0.
abbrev pub zeros : TdbRoute
zeros = record {
  id = 0;
  ip_src = 0;
  ip_dst = 0;
  frame_a = 0;
  slot_a = 0;
  type_a = 0;
  port_a = 0;
  frame_b = 0;
  slot_b = 0;
  type_b = 0;
  port_b = 0;
}

abbrev pub sum_a : TdbRoute → ℕ
sum_a r = add32 (add32 (add32 r.frame_a r.slot_a) r.type_a) r.port_a

abbrev pub sum_b : TdbRoute → ℕ
sum_b r = add32 (add32 (add32 r.frame_b r.slot_b) r.type_b) r.port_b

-- The conditions of `tmsdb_Select_Page_route`.
abbrev pub by_id : TdbRoute → TdbRoute → List (Term TdbRoute)
by_id pcondition pmask =
    if pmask.id == 2
    then record { column = TdbRoute.id; test = more; value = pcondition.id } ∷ []
    else if pmask.id == 1
    then record { column = TdbRoute.id; test = equal; value = pcondition.id } ∷ []
    else []

abbrev pub by_rest : TdbRoute → TdbRoute → List (Term TdbRoute)
by_rest c m =
    masked TdbRoute.ip_src c m
    ++ (masked TdbRoute.ip_dst c m
        ++ (masked TdbRoute.frame_a c m
            ++ (masked TdbRoute.slot_a c m
                ++ (masked TdbRoute.type_a c m
                    ++ (masked TdbRoute.port_a c m
                        ++ (masked TdbRoute.frame_b c m
                            ++ (masked TdbRoute.slot_b c m
                                ++ (masked TdbRoute.type_b c m ++ masked TdbRoute.port_b c m))))))))

-- The chaining of two rows, and the same end.
abbrev pub is_joined : TdbRoute → TdbRoute → Bool
is_joined pnode pnode_next =
    pnode.frame_b == pnode_next.frame_a
    && (pnode.slot_b == pnode_next.slot_a
        && (pnode.type_b == pnode_next.type_a && pnode.port_b == pnode_next.port_a))

abbrev pub is_same_end : TdbRoute → TdbRoute → Bool
is_same_end pnode pnode_next =
    pnode.frame_b == pnode_next.frame_b
    && (pnode.slot_b == pnode_next.slot_b
        && (pnode.type_b == pnode_next.type_b && pnode.port_b == pnode_next.port_b))

unfoldable pub are_joined : List TdbRoute → Bool
are_joined [] = true
are_joined (r ∷ []) = true
are_joined (r ∷ s ∷ rs) = is_joined r s && are_joined (s ∷ rs)

unfoldable pub has_end : TdbRoute → List TdbRoute → Bool
has_end r [] = false
has_end r (s ∷ rs) = is_same_end r s || has_end r rs

unfoldable pub is_twice : List TdbRoute → Bool
unfolding has_end
is_twice [] = false
is_twice (r ∷ rs) = has_end r rs || is_twice rs

-- The mask of the last test.
abbrev pub mask_b : TdbRoute
mask_b = record zeros { frame_b = 1; slot_b = 1; type_b = 1; port_b = 1 }

abbrev pub mask_a : TdbRoute
mask_a = record zeros { frame_a = 1; slot_a = 1; type_a = 1; port_a = 1 }

-- `tmsdb_Check_route_getoneline` on `len` rows: the index that it stores through `len`, or NULL.
unfoldable pub find_end : List TdbRoute → Option ℕ
find_end [] = none
find_end (r ∷ rs) =
    let rest = find_end rs in
    if sum_b r == 0 then some 0 else elim rest [ none ↦ none | some i ↦ some (suc i) ]

unfoldable pub check_route_getoneline : List TdbRoute → ℕ → Option ℕ
unfolding find_end
check_route_getoneline pval len =
    if sum_a (get_or pval 0 zeros) == 0 then find_end (take len pval) else none

-- `_cb_Select_route_checkimpact`
abbrev pub cb_checkimpact : TdbRoute → ℕ → ℕ × ℕ
cb_checkimpact output p = (1, 0)

-- `_cb_Select_route_record`: the row that was found.
abbrev pub cb_record : TdbRoute → Option TdbRoute → Option TdbRoute × ℕ
cb_record output rf = (some output, 0)

-- The conditions of the first search of `tmsdb_Select_oneline`.
abbrev pub by_end : TdbRoute → List (Term TdbRoute)
by_end c =
    if not (c.type_a == 0)
    then by_rest c mask_a
    else if not (c.type_b == 0)
    then by_rest c mask_b
    else []

-- The conditions of `tmsdb_Delete_route`.
abbrev pub by_all : TdbRoute → TdbRoute → List (Term TdbRoute)
by_all c m = masked TdbRoute.id c m ++ by_rest c m

module _ (sql : Sqlite TdbRoute renumber) where
  open sql use {Db, opens, begins, select, insert, delete}

  -- `tmsdb_Select_Page_route` with a condition and a mask.
  unfoldable pub select_page_route :
      {S : Type 0} → Db → TdbRoute → TdbRoute → ℕ → ℕ → (TdbRoute → S → S × ℕ) → S → S × ℕ
  unfolding each_row
  select_page_route db pcondition pmask from limit pcallback ptr =
      let rows = (select db (by_id pcondition pmask ++ by_rest pcondition pmask) from limit).0 in
      if not (opens db)
      then (ptr, minus 1)
      else if is_empty rows
      then (ptr, minus 2)
      else each_row pcallback rows ptr

  -- `tmsdb_Check_route_oneline`; there are at least `count` rows at `pval`, which is not NULL.
  unfoldable pub check_route_oneline : Db → List TdbRoute → ℕ → ℕ
  unfolding are_joined is_twice select_page_route
  check_route_oneline db pval count =
      let rows = take count pval in
      if slt count 2
      then minus 1
      else if not (add32 (sum_a (get_or pval 0 zeros)) (sum_b (get_or pval (count - 1) zeros)) == 0)
      then minus 2
      else if not (are_joined rows)
      then minus 3
      else if is_twice rows
      then minus 4
      else let find = (select_page_route db (get_or pval 0 zeros) mask_b 0 1 cb_checkimpact 0).0 in
        if not (find == 0) then minus 5 else 0

  -- The loop of `tmsdb_Check_route_multiline`, less its printing, in at most `fuel` rounds: `none` is a loop that goes on.
  unfoldable pub check_lines : ℕ → Db → ℕ → ℕ → List TdbRoute → Option ℕ
  unfolding check_route_getoneline check_route_oneline
  check_lines zero db count i pnode = none
  check_lines (suc fuel) db count i pnode =
      if slt i (sub32 count 2)
      then elim (check_route_getoneline pnode (sub32 count i)) [
        | none ↦ some (minus 1)
        | some len ↦
            let rest = check_lines fuel db count (i + len + 1) (drop (len + 1) pnode) in
            if check_route_oneline db pnode (len + 1) == 0 then rest else some (minus 1)
      ]
      else some 0

  unfoldable pub check_route_multiline : ℕ → Db → List TdbRoute → ℕ → Option ℕ
  unfolding check_lines
  check_route_multiline fuel db pval count =
      if slt count 2 then some (minus 1) else check_lines fuel db count 0 pval

  -- `tmsdb_Insert_route`, in a transaction that started at `start`, if BEGIN succeeded: the database, and the
  -- result. Without a transaction an error takes nothing back.
  unfoldable pub insert_rows : Db → Db → List TdbRoute → Db × ℕ
  insert_rows start db [] = (close_transaction sql start db, 0)
  insert_rows start db (r ∷ rs) = elim (insert db r) [
    | none ↦ (if begins start then start else db, minus 1)
    | some db' ↦ insert_rows start db' rs
  ]

  unfoldable pub insert_route : Db → List TdbRoute → Db × ℕ
  unfolding insert_rows
  insert_route db pcondition =
      if not (opens db) then (db, minus 1) else insert_rows db db pcondition

  -- `tmsdb_Delete_route` of the rows that agree with one of the conditions, in a transaction as above.
  unfoldable pub delete_rows : Db → Db → List TdbRoute → TdbRoute → Db × ℕ
  delete_rows start db [] pmask = (close_transaction sql start db, 0)
  delete_rows start db (c ∷ cs) pmask = elim (delete db (by_all c pmask)) [
    | none ↦ (if begins start then start else db, minus 1)
    | some db' ↦ delete_rows start db' cs pmask
  ]

  unfoldable pub delete_route : Db → List TdbRoute → TdbRoute → Db × ℕ
  unfolding delete_rows
  delete_route db pcondition pmask =
      if not (opens db) then (db, minus 1) else delete_rows db db pcondition pmask

  -- The second search of `tmsdb_Select_oneline`, at most `n` rows from the place `input` on.
  unfoldable pub next_rows : Db → ℕ → TdbRoute → List TdbRoute
  unfolding select_page_route
  next_rows db zero input = []
  next_rows db (suc n) input = elim (select_page_route db input mask_a 0 1 cb_record none).0 [
    | none ↦ []
    | some r ↦
        let rest = next_rows db n (record zeros {
          frame_a = r.frame_b;
          slot_a = r.slot_b;
          type_a = r.type_b;
          port_a = r.port_b;
        }) in
        if r.type_a == 0 then [] else if sum_b r == 0 then r ∷ [] else r ∷ rest
  ]

  -- `tmsdb_Select_oneline` with a condition, for at most `len` rows, `len` positive: the rows that stand in
  -- `poutput`, as many as it stores through `plen`, and the result.
  unfoldable pub select_oneline : Db → TdbRoute → ℕ → List TdbRoute × ℕ
  unfolding next_rows
  select_oneline db pcondition len =
      if not (opens db) then ([], minus 1) else elim (select db (by_end pcondition) 0 1).0 [
        | [] ↦ ([], minus 2)
        | r ∷ rs ↦ (
          r
              ∷ next_rows db (len - 1) (record zeros {
                frame_a = r.frame_b;
                slot_a = r.slot_b;
                type_a = r.type_b;
                port_a = r.port_b;
              }),
          0,
        )
      ]
