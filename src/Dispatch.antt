-- ===== src/Dispatch.antt =====
-- protocol/tmsxx.c: `tms_Analyse`, which hands a received frame on by its command, and
-- `tms_SetDoWhat`. A command is a 32-bit number; its top four bits choose a table, the others a row.
pub mod Handlers
pub mod Managing
pub mod Device
pub mod Rules
use tmsxx_tc.Prelude.{
  ℕ, zero, suc, ◌+◌, ◌*◌, ◌/◌, ◌%◌, ◌^◌, Bool, true, false, Option, none, some, List, [], ◌∷◌, ◌++◌,
  length, get_elem?, get_or, ltb, leb, ◌==◌, if◌then◌else◌,
}
use tmsxx_tc.Prelude.Words.{slt}
use Handlers.{Handler, Entry}
unfoldable use Managing.{table_8000}
unfoldable use Device.{table_1000, table_2000, table_6000}

-- The tables; `sg_analyse_0x2000xxxx` is there under CONFIG_TEST_NET_STRONG, which autoconfig.h sets.
pub record Tables : Type 0 where
  pub t8000 : List Entry
  pub t6000 : List Entry
  pub t1000 : List Entry
  pub t2000 : List Entry

unfoldable pub initial : Tables
unfolding table_8000 table_6000 table_1000 table_2000
initial = record { t8000 = table_8000; t6000 = table_6000; t1000 = table_1000; t2000 = table_2000 }

-- What is done with a frame.
pub data Action : Type 0 where
  to_device to_manager copy_to_use : Action
  call : Handler → Action

-- `cmdid & 0xf0000000` and `cmdid & 0x0fffffff`
abbrev pub cmdh : ℕ → ℕ
cmdh cmdid = cmdid / 2 ^ 28 * 2 ^ 28

abbrev pub cmdl : ℕ → ℕ
cmdl cmdid = cmdid % 2 ^ 28

-- The first `switch` of `tms_Analyse`: `pwhichArr`. A row number past the end is an unknown command.
unfoldable pub which : Tables → ℕ → Option Entry
which t cmdid =
    if cmdh cmdid == 0x80000000
    then get_elem? t.t8000 (cmdl cmdid)
    else if cmdh cmdid == 0x60000000
    then get_elem? t.t6000 (cmdl cmdid)
    else if cmdh cmdid == 0x10000000
    then get_elem? t.t1000 (cmdl cmdid)
    else if cmdh cmdid == 0x20000000
    then get_elem? t.t2000 (cmdl cmdid)
    else none

-- The second `switch`: PROCCESS_COPY2USE is 0, _CALLBACK 1, _2DEV 2, _2MANAGE 3,
-- _2DEV_AND_COPY2USE 4, _2MANAGE_AND_COPY2USE 5, _2DEV_OR_COPY2USE 6, _2MANAGE_OR_COPY2USE 7,
-- _DONOT 8 and _SPECAIAL 9.
unfoldable pub process : Entry → List Action
process e =
    if e.dowhat == 2
    then to_device ∷ call e.handler ∷ []
    else if e.dowhat == 3
    then to_manager ∷ call e.handler ∷ []
    else if e.dowhat == 1
    then call e.handler ∷ []
    else if e.dowhat == 0
    then call e.handler ∷ copy_to_use ∷ []
    else if e.dowhat == 4
    then to_device ∷ call e.handler ∷ copy_to_use ∷ []
    else if e.dowhat == 5
    then to_manager ∷ call e.handler ∷ copy_to_use ∷ []
    else if e.dowhat == 8
    then []
    else if e.dowhat == 9
    then call e.handler ∷ copy_to_use ∷ []
    else []

-- `tms_Analyse`: what it does with a frame of this command, in order.
unfoldable pub analyse : Tables → ℕ → List Action
unfolding which process
analyse t cmdid = elim (which t cmdid) [ none ↦ [] | some e ↦ process e ]

-- The loop of `tms_SetDoWhat` from index `i`, `n` rounds: `p` stays at the first row. `& 0x07` keeps
-- the lowest three bits.
unfoldable pub set_loop : ℕ → ℕ → List ℕ → List Entry → List Entry
set_loop zero i arr rows = rows
set_loop (suc n) i arr [] = []
set_loop (suc n) i arr (e ∷ es) =
    set_loop n (i + 1) arr (record e { dowhat = get_or arr i 0 % 2 ^ 3 } ∷ es)

-- `if ((uint32_t)count >= size) count = size;` and the loop.
abbrev pub set_rows : List Entry → ℕ → List ℕ → List Entry
set_rows rows count arr =
    set_loop (if leb (length rows) count then length rows else count) 0 arr rows

-- `tms_SetDoWhat`
unfoldable pub set_do_what : Tables → ℕ → ℕ → List ℕ → Tables
unfolding set_loop
set_do_what t cmdh count arr =
    if cmdh == 0x80000000
    then record t { t8000 = set_rows t.t8000 count arr }
    else if cmdh == 0x60000000
    then record t { t6000 = set_rows t.t6000 count arr }
    else if cmdh == 0x10000000
    then record t { t1000 = set_rows t.t1000 count arr }
    else t
