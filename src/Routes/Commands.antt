-- ===== src/Routes/Commands.antt =====
-- shell/cmd/cmd_tmsxx.c: two branches of `cmd_route`, `route go save` and `route del`.
use tmsxx_tc.Prelude.{ℕ, List, length, ◌==◌, if◌then◌else◌}
use tmsxx_tc.Database.{Sqlite, is_empty}
use tmsxx_tc.Routes.{
  TdbRoute, renumber, zeros, check_route_oneline, insert_route, delete_route, select_oneline,
}

abbrev pub max_route_node : ℕ
max_route_node = 16

module _ (sql : Sqlite TdbRoute renumber) where
  open sql use {Db}

  -- `route go save`, with the rows of `sg_route`.
  unfoldable pub route_go_save : Db → List TdbRoute → Db
  unfolding check_route_oneline insert_route
  route_go_save db sg_route =
      if check_route_oneline sql db sg_route (length sg_route) == 0
      then (insert_route sql db sg_route).0
      else db

  -- `route del`, with the place that the line starts at; `input` is what stands in the variable, which the code
  -- does not clear.
  unfoldable pub route_del : Db → TdbRoute → ℕ → ℕ → ℕ → ℕ → Db
  unfolding select_oneline delete_route
  route_del db input fa sa ta pa =
      let nodes =
        (select_oneline sql db
          (record input { frame_b = fa; slot_b = sa; type_b = ta; port_b = pa })
          max_route_node).0 in
      if is_empty nodes then db else (delete_route sql db nodes (record zeros { id = 1 })).0
