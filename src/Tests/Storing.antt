-- ===== src/Tests/Storing.antt =====
-- The tables of settings of src/tmsxxdb.c at concrete rows.
use tmsxx_tc.Prelude.{ℕ, ◌≡◌, ◌⊎◌, refl, true, false, none, some, List, [], ◌∷◌, ◌++◌, arith}
use tmsxx_tc.Database.{Sqlite, each_row, minus}
use tmsxx_tc.Tests.Memory.{in_memory}
use tmsxx_tc.Database.Rows.{Remains}
use tmsxx_tc.Settings.{
  masked_all, insert_each, insert_some, delete_any, delete_some, select_any, select_some,
  TdbComposition, number_composition, columns_composition, insert_composition, delete_composition,
  select_composition, TdbAnyUnitOsw, number_any_unit_osw, select_any_unit_osw, TdbATriggerB,
  number_a_trigger_b, insert_triggers, insert_a_trigger_b, delete_a_trigger_b, select_a_trigger_b,
}
use tmsxx_tc.Settings.Laws.{
  Extends, nothing, AgreesOn, delete_some_lem, insert_some_lem, select_any_unit_osw-osw_frame,
}

abbrev devices : Sqlite TdbComposition number_composition
devices = in_memory TdbComposition number_composition

abbrev at_slot : ℕ → ℕ → TdbComposition
at_slot i n = record { id = i; frame = 1; slot = n; kind = 2; port = 8 }

-- A mask for frame and slot.
abbrev frame_and_slot : TdbComposition
frame_and_slot = record { id = 0; frame = 1; slot = 1; kind = 0; port = 0 }

abbrev stored : List TdbComposition
stored = at_slot 1 3 ∷ at_slot 2 4 ∷ []

inserts :
    insert_composition devices stored (at_slot 0 5 ∷ [])
    ≡ (at_slot 1 3 ∷ at_slot 2 4 ∷ at_slot 3 5 ∷ [], 0)
unfolding insert_composition insert_some insert_each
inserts = refl

deletes : delete_composition devices stored (at_slot 9 4) frame_and_slot ≡ (at_slot 1 3 ∷ [], 0)
unfolding delete_composition delete_some delete_any masked_all
deletes = refl

selects :
    select_composition devices stored (at_slot 9 4) frame_and_slot true ≡ some (at_slot 2 4 ∷ [], 1)
unfolding select_composition select_some select_any masked_all
selects = refl

delete_some_lem_example :
    ((delete_some devices stored (masked_all columns_composition (at_slot 9 4) frame_and_slot)).1
      ≡ 0)
    × (((true ≡ true)
          × Remains
              (AgreesOn columns_composition (at_slot 9 4) frame_and_slot)
              stored
              (delete_some devices stored
                (masked_all columns_composition (at_slot 9 4) frame_and_slot)).0)
        ⊎ (((true ≡ false)
              ⊎ (devices.delete stored (masked_all columns_composition (at_slot 9 4) frame_and_slot)
                  ≡ none))
            × ((delete_some devices stored
                  (masked_all columns_composition (at_slot 9 4) frame_and_slot)).0
                ≡ stored)))
delete_some_lem_example =
    delete_some_lem devices stored columns_composition (at_slot 9 4) frame_and_slot

insert_some_lem_example :
    (((insert_some devices stored stored).1 ≡ 0)
      × Extends number_composition stored stored (insert_some devices stored stored).0)
    ⊎ (((insert_some devices stored stored).1 ≡ minus 1)
        × ((front : List TdbComposition) × (r : TdbComposition) × (rest : List TdbComposition)
            × (stored ≡ front ++ (r ∷ rest))
            × Extends number_composition stored front (insert_some devices stored stored).0))
insert_some_lem_example = insert_some_lem devices stored stored (λ n r. refl) refl

abbrev couplings : Sqlite TdbAnyUnitOsw number_any_unit_osw
couplings = in_memory TdbAnyUnitOsw number_any_unit_osw

abbrev coupled : List TdbAnyUnitOsw
coupled =
    record nothing { id = 1; any_frame = 1; osw_frame = 7 }
    ∷ record nothing { id = 2; any_frame = 1; osw_frame = 8 }
    ∷ []

select_any_unit_osw-osw_frame_example :
    select_any_unit_osw couplings coupled
      (record nothing { osw_frame = 7 })
      (record nothing { osw_frame = 1 })
      true
    ≡ some (coupled, 2)
select_any_unit_osw-osw_frame_example =
    select_any_unit_osw-osw_frame couplings coupled (record nothing { osw_frame = 7 }) 1 coupled
      refl refl (λ e. omega (arith, e)) (omega arith)

abbrev triggers : Sqlite TdbATriggerB number_a_trigger_b
triggers = in_memory TdbATriggerB number_a_trigger_b

abbrev trigger : ℕ → TdbATriggerB
trigger i = record {
  id = i;
  frame_a = 1;
  slot_a = 2;
  type_a = 3;
  port_a = 4;
  frame_b = 5;
  slot_b = 6;
  type_b = 7;
  port_b = 8;
}

abbrev by_frame : TdbATriggerB
by_frame = record {
  id = 0;
  frame_a = 1;
  slot_a = 0;
  type_a = 0;
  port_a = 0;
  frame_b = 0;
  slot_b = 0;
  type_b = 0;
  port_b = 0;
}

counts :
    (select_a_trigger_b triggers
      (insert_a_trigger_b triggers [] (trigger 0 ∷ trigger 0 ∷ [])).0
      (trigger 0)
      by_frame
      (λ r n. (r.id, 0))
      0)
    ≡ (2, 0)
unfolding select_a_trigger_b insert_a_trigger_b insert_triggers masked_all each_row
counts = refl

clears : delete_a_trigger_b triggers (trigger 1 ∷ []) (trigger 0) by_frame ≡ ([], 0)
unfolding delete_a_trigger_b delete_some delete_any masked_all
clears = refl
