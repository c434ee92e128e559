-- ===== src/Tests/Routing.antt =====
-- src/tmsxxdb.c at concrete tables of routes.
use tmsxx_tc.Prelude.{
  ◌≤◌, ◌≡◌, ◌↔◌, refl, ap, some, List, [], ◌∷◌, ◌++◌, map, arith, subst, sym, not,
}
use tmsxx_tc.Prelude.Words.{add32, sub32, slt}
use tmsxx_tc.Tests.Memory.{in_memory}
use tmsxx_tc.Database.{holds, filter, Sqlite, Answers, Responds, minus, each_row}
use tmsxx_tc.Routes.{
  by_all, TdbRoute, renumber, zeros, are_joined, has_end, is_twice, select_page_route,
  check_route_oneline, find_end, check_route_getoneline, check_lines, check_route_multiline,
  insert_rows, insert_route, delete_rows, delete_route, select_oneline,
}
use tmsxx_tc.Routes.Commands.{route_go_save, route_del}
use tmsxx_tc.Routes.Restored.{AreKeyed, route_del-route_go_save}
use tmsxx_tc.Routes.Places.{Place, place_b, AvoidsEnd, IsLine}
use tmsxx_tc.Routes.Lines.{check_route_oneline_iff}
use tmsxx_tc.Routes.Several.{Passes, Decides}
use tmsxx_tc.Routes.Multi.{check_route_multiline_decides}
use tmsxx_tc.Database.Rows.{Remains}
use tmsxx_tc.Routes.Agreement.{forget, Extends, AgreesAny}
use tmsxx_tc.Routes.Changes.{Transacts, insert_route_lem, delete_route_lem}
use tmsxx_tc.Routes.Starts.{AvoidsStarts, AreTyped}
use tmsxx_tc.Routes.Trace.{select_oneline-insert_route}

abbrev memory : Sqlite TdbRoute renumber
memory = in_memory TdbRoute renumber

answers : (db : List TdbRoute) → Answers memory db
answers db ts from limit = refl

responds : Responds memory
responds = (answers, (λ db. refl), (λ db. refl))

-- 0--a, a--b, b--0 and a line of which another row is stored.
abbrev first : TdbRoute
first = record zeros { frame_b = 1; slot_b = 2; type_b = 3; port_b = 4 }

abbrev second : TdbRoute
second = record zeros {
  frame_a = 1;
  slot_a = 2;
  type_a = 3;
  port_a = 4;
  frame_b = 1;
  slot_b = 5;
  type_b = 6;
  port_b = 7;
}

abbrev third : TdbRoute
third = record zeros { frame_a = 1; slot_a = 5; type_a = 6; port_a = 7 }

abbrev stored : List TdbRoute
stored =
    record zeros { id = 1; frame_b = 9; slot_b = 9; type_b = 9; port_b = 9 }
    ∷ record zeros { id = 2; frame_a = 9; slot_a = 9; type_a = 9; port_a = 9 }
    ∷ []

-- Two lines, and two rows that are no line.
abbrev rows : List TdbRoute
rows = first ∷ second ∷ third ∷ second ∷ second ∷ []

accepted : check_route_oneline memory stored (first ∷ second ∷ third ∷ []) 3 ≡ 0
unfolding check_route_oneline select_page_route each_row are_joined has_end is_twice slt add32
accepted = refl

joined_wrongly : check_route_oneline memory stored (first ∷ third ∷ []) 2 ≡ minus 3
unfolding check_route_oneline select_page_route each_row are_joined has_end is_twice slt add32
joined_wrongly = refl

-- The last two rows are not looked at.
loose_end : check_route_multiline memory 6 stored rows 5 ≡ some 0
unfolding check_route_multiline check_lines check_route_getoneline find_end check_route_oneline
    select_page_route each_row are_joined has_end is_twice slt sub32 add32
loose_end = refl

inserted : (insert_route memory stored (first ∷ second ∷ third ∷ [])).1 ≡ 0
unfolding insert_route insert_rows
inserted = refl

deleted :
    delete_route memory stored (first ∷ []) (record zeros { frame_a = 1 })
    ≡ (record zeros { id = 2; frame_a = 9; slot_a = 9; type_a = 9; port_a = 9 } ∷ [], 0)
unfolding delete_route delete_rows
deleted = refl

-- Where the line begins.
abbrev wanted : TdbRoute
wanted = record zeros { frame_b = 1; slot_b = 2; type_b = 3; port_b = 4 }

second-AreTyped : AreTyped (second ∷ third ∷ [])
second-AreTyped = ((λ e. omega (arith, e)), ((λ e. omega (arith, e)), tt))

second-AvoidsStarts : AvoidsStarts (second ∷ third ∷ []) stored
second-AvoidsStarts = (
  (
    (λ e. let f = ap Place.frame e in omega arith),
    ((λ e. let f = ap Place.frame e in omega arith), tt),
  ),
  (
    (
      (λ e. let f = ap Place.frame e in omega arith),
      ((λ e. let f = ap Place.frame e in omega arith), tt),
    ),
    tt,
  ),
)

check_route_oneline_iff_example :
    (check_route_oneline memory stored ((first ∷ second ∷ third ∷ []) ++ stored) 3 ≡ 0)
    ↔ (IsLine (first ∷ second ∷ third ∷ []) × AvoidsEnd (place_b first) stored)
check_route_oneline_iff_example =
    check_route_oneline_iff memory stored first (second ∷ third ∷ []) stored refl (answers stored)
      (omega arith) (omega arith)

check_route_multiline_decides_example :
    Decides (check_route_multiline memory 6 stored rows 5) ((2 ≤ 5) × Passes stored rows)
check_route_multiline_decides_example =
    check_route_multiline_decides memory 6 stored rows refl (answers stored) (omega arith)
      (omega arith) (omega arith)

insert_route_lem_example :
    Transacts memory stored (Extends stored rows) (insert_route memory stored rows)
insert_route_lem_example = insert_route_lem memory stored rows refl

delete_route_lem_example :
    Transacts memory stored
      (Remains (AgreesAny rows first) stored)
      (delete_route memory stored rows first)
delete_route_lem_example = delete_route_lem memory stored rows first refl

select_oneline-insert_route_example :
    (map forget
        (select_oneline memory
          (insert_route memory stored (first ∷ second ∷ third ∷ [])).0
          wanted
          8).0
      ≡ map forget (first ∷ second ∷ third ∷ []))
    × ((select_oneline memory
          (insert_route memory stored (first ∷ second ∷ third ∷ [])).0
          wanted
          8).1
        ≡ 0)
select_oneline-insert_route_example =
    select_oneline-insert_route memory stored first second (third ∷ []) wanted 8 responds refl
      (omega arith) (omega arith) second-AreTyped second-AvoidsStarts accepted inserted refl refl
      refl (omega arith)

deletes_all :
    (start db nodes : List TdbRoute) (m : TdbRoute) → (delete_rows memory start db nodes m).1 ≡ 0
unfolding delete_rows
deletes_all start db [] m = refl
deletes_all start db (c ∷ cs) m =
    deletes_all start (filter (λ r. not (holds (by_all c m) r)) db) cs m

saved_deletes :
    (db nodes : List TdbRoute) → (delete_route memory db nodes (record zeros { id = 1 })).1 ≡ 0
unfolding delete_route
saved_deletes db nodes = deletes_all db db nodes (record zeros { id = 1 })

saved :
    route_go_save memory stored (first ∷ second ∷ third ∷ [])
    ≡ stored ++ (renumber 3 first ∷ renumber 4 second ∷ renumber 5 third ∷ [])
unfolding route_go_save check_route_oneline select_page_route each_row are_joined has_end is_twice
    slt add32 insert_route insert_rows
saved = refl

saved-AreKeyed : AreKeyed (route_go_save memory stored (first ∷ second ∷ third ∷ []))
saved-AreKeyed = subst AreKeyed (sym saved) (omega arith)

route_del-route_go_save_example :
    route_del memory (route_go_save memory stored (first ∷ second ∷ third ∷ [])) zeros 1 2 3 4
    ≡ stored
route_del-route_go_save_example =
    route_del-route_go_save memory stored first second (third ∷ []) zeros responds refl
      (omega arith) (omega arith) second-AreTyped second-AvoidsStarts accepted inserted refl
      saved-AreKeyed (saved_deletes (route_go_save memory stored (first ∷ second ∷ third ∷ [])))
      refl
