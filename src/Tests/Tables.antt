-- ===== src/Tests/Tables.antt =====
-- protocol/tmsxx.c at concrete tables.
use tmsxx_tc.Prelude.{
  ◌<◌, ◌≡◌, ◌⊎◌, refl, true, false, some, List, [], ◌∷◌, length, replicate, arith, set,
}
use tmsxx_tc.Devices.{DevBase, blank, minus_one, get_dev_base_by_fd}
use tmsxx_tc.Devices.Lookup.{IsTable, count_fd, searched}
use tmsxx_tc.Devices.Descriptors.{Finds, get_dev_base_by_fd_lem}
use tmsxx_tc.Managers.{Manager, free_entry, has_fd, add_manage, manage_count}
use tmsxx_tc.Managers.Table.{IsDistinct}
use tmsxx_tc.Managers.Adding.{AddsTo, add_manage-AddsTo}
use tmsxx_tc.Dispatch.Handlers.{Entry, analyse_get_dev_type}
use tmsxx_tc.Dispatch.{initial, which, set_do_what}
use tmsxx_tc.Dispatch.Rules.{which-set_do_what}

abbrev device : DevBase
device = record blank { fd = 9; port = 4; kind = 2 }

-- One device, in frame 1 and slot 3.
abbrev net : List DevBase
net = set (replicate 272 blank) 19 device

net-IsTable : IsTable net
net-IsTable = refl

get_dev_base_by_fd_lem_example :
    ((count_fd (searched net) 9 ≡ 0) × (get_dev_base_by_fd net 9 blank ≡ (minus_one, blank)))
    ⊎ ((0 < count_fd (searched net) 9) × Finds net 9 (get_dev_base_by_fd net 9 blank))
get_dev_base_by_fd_lem_example = get_dev_base_by_fd_lem net 9 blank (λ e. omega (arith, e))

-- Two managers, with their addresses, and a free entry between them.
abbrev connected : List Manager
connected =
    record free_entry { fd = 11; fd_addr = 101 }
    ∷ free_entry
    ∷ record free_entry { fd = 12; fd_addr = 102 }
    ∷ []

connected-IsDistinct : IsDistinct connected
connected-IsDistinct fd nz = ground arith

connected-new : has_fd connected 13 ≡ false
unfolding has_fd
connected-new = refl

connected-room : manage_count connected < length connected
unfolding manage_count
connected-room = omega arith

add_manage-AddsTo_example : AddsTo true connected 13 11 (add_manage true connected (some 103) 13 1)
add_manage-AddsTo_example =
    add_manage-AddsTo true connected (some 103) 13 1 11 (λ e. omega (arith, e))
      (λ e. omega (arith, e)) connected-IsDistinct

-- The first row of the 0x60000000 table.
abbrev first_row : Entry
first_row = record { handler = analyse_get_dev_type; dowhat = 9 }

which-set_do_what_example :
    which (set_do_what initial 0x60000000 2 (8 ∷ 8 ∷ [])) 0x60000001 ≡ which initial 0x60000001
which-set_do_what_example =
    which-set_do_what initial 0x60000000 2 (8 ∷ 8 ∷ []) 0x60000001 (λ e. omega (arith, e))
