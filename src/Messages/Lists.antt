-- ===== src/Messages/Lists.antt =====
-- protocol/tmsxx.c: `tms_ListFrame` and `tms_AnalyseListFrame`, which send and read a table of rows of
-- words, and their callers. The length of a list is the count that a sender is given.
use tmsxx_tc.Prelude.{
  ℕ, ◌+◌, ◌*◌, ◌/◌, ◌%◌, ◌^◌, Option, none, some, List, [], ◌∷◌, ◌++◌, length, if◌then◌else◌,
}
use tmsxx_tc.Prelude.Words.{slt}
use tmsxx_tc.Glink.Wire.{htonl, load32}
use tmsxx_tc.Messages.{Message, wire, words, Part, swapped, times, on_data, check_ptr}
use tmsxx_tc.Messages.Device.{dev_mcu, mcu_to_device, analyse_mcu_to_device}
use tmsxx_tc.Messages.Structures.{DevPort}

pub record Route : Type 0 where
  pub ip_src : ℕ
  pub ip_dst : ℕ
  pub frame_a : ℕ
  pub slot_a : ℕ
  pub type_a : ℕ
  pub port_a : ℕ
  pub frame_b : ℕ
  pub slot_b : ℕ
  pub type_b : ℕ
  pub port_b : ℕ

pub record LinkedUnit : Type 0 where
  pub frame_a : ℕ
  pub slot_a : ℕ
  pub type_a : ℕ
  pub port_a : ℕ
  pub frame_b : ℕ
  pub slot_b : ℕ
  pub type_b : ℕ
  pub port_b : ℕ

pub record Cyctest : Type 0 where
  pub frame : ℕ
  pub slot : ℕ
  pub kind : ℕ
  pub port : ℕ
  pub reserved0 : ℕ
  pub iscyc : ℕ

abbrev pub route_row : Route → List ℕ
route_row r =
    r.ip_src ∷ r.ip_dst ∷ r.frame_a ∷ r.slot_a ∷ r.type_a ∷ r.port_a ∷ r.frame_b ∷ r.slot_b
    ∷ r.type_b ∷ r.port_b ∷ []

abbrev pub unit_row : LinkedUnit → List ℕ
unit_row u =
    u.frame_a ∷ u.slot_a ∷ u.type_a ∷ u.port_a ∷ u.frame_b ∷ u.slot_b ∷ u.type_b ∷ u.port_b ∷ []

abbrev pub cyctest_row : Cyctest → List ℕ
cyctest_row c = c.frame ∷ c.slot ∷ c.kind ∷ c.port ∷ c.reserved0 ∷ c.iscyc ∷ []

abbrev pub dev_port_row : DevPort → List ℕ
dev_port_row d = d.frame ∷ d.slot ∷ d.kind ∷ d.port ∷ []

-- The words of an array of structures.
abbrev pub rows : {A : Type 0} → (A → List ℕ) → List A → List ℕ
rows row [] = []
rows row (x ∷ xs) = row x ++ rows row xs

-- `tms_ListFrame`: `size` is the size of a row in bytes; `tms_Conv_Nx4Byte` has exchanged the words of
-- the array. Head, count, array and tail are sent one after the other.
abbrev pub list_frame : {A : Type 0} → (A → List ℕ) → List A → ℕ → ℕ → Message
list_frame row plist size cmdid = record {
  cmdid = cmdid;
  len = (4 + size * length plist) % 2 ^ 32;
  memory = wire (words (length plist ∷ rows row plist));
}

-- `tms_Conv_Nx4Byte`, in place: `count >> 2` rounds, none for a negative `count`.
abbrev pub conv_nx4byte : ℕ → List Part
conv_nx4byte count = times (if slt 0 count then count / 2 ^ 2 else 0) (swapped ∷ [])

-- `tms_AnalyseListFrame`; CHECK_PTR takes the size of the variable `size`, 4, and not its value.
unfoldable pub analyse_list_frame : ℕ → ℕ → ℕ → List ℕ → Option (List ℕ)
analyse_list_frame addr len size pdata =
    if check_ptr (addr + 36) 4 4 (htonl (load32 pdata 36)) (addr + len)
    then some (on_data (λ bs. swapped ∷ conv_nx4byte (size * htonl (load32 bs 0) % 2 ^ 32)) pdata)
    else none

-- The callers of the two.
abbrev pub tb_route_insert : List Route → Message
tb_route_insert plist = list_frame route_row plist 40 0x80000054

abbrev pub analyse_tb_route_insert : ℕ → ℕ → List ℕ → Option (List ℕ)
analyse_tb_route_insert addr len pdata = analyse_list_frame addr len 40 pdata

abbrev pub tb_unit_any : List LinkedUnit → ℕ → Message
tb_unit_any plist cmdid = list_frame unit_row plist 32 cmdid

abbrev pub analyse_tb_unit_any : ℕ → ℕ → List ℕ → Option (List ℕ)
analyse_tb_unit_any addr len pdata = analyse_list_frame addr len 32 pdata

abbrev pub insert_tb_unit : List LinkedUnit → Message
insert_tb_unit plist = list_frame unit_row plist 32 0x80000056

abbrev pub analyse_insert_tb_unit : ℕ → ℕ → List ℕ → Option (List ℕ)
analyse_insert_tb_unit addr len pdata = analyse_list_frame addr len 32 pdata

abbrev pub del_tb_unit : List LinkedUnit → Message
del_tb_unit plist = list_frame unit_row plist 32 0x80000057

abbrev pub analyse_del_tb_unit : ℕ → ℕ → List ℕ → Option (List ℕ)
analyse_del_tb_unit addr len pdata = analyse_list_frame addr len 32 pdata

abbrev pub insert_tb_cyc_test : List Cyctest → Message
insert_tb_cyc_test plist = list_frame cyctest_row plist 24 0x80000059

abbrev pub analyse_insert_tb_cyc_test : ℕ → ℕ → List ℕ → Option (List ℕ)
analyse_insert_tb_cyc_test addr len pdata = analyse_list_frame addr len 24 pdata

-- The command that it is given is not used.
abbrev pub del_tb_cyc_test : List Cyctest → ℕ → Message
del_tb_cyc_test plist cmdid = list_frame cyctest_row plist 24 0x80000060

abbrev pub analyse_del_tb_cyc_test : ℕ → ℕ → List ℕ → Option (List ℕ)
analyse_del_tb_cyc_test addr len pdata = analyse_list_frame addr len 24 pdata

abbrev pub del_tb_otdr_ref_data : List DevPort → ℕ → Message
del_tb_otdr_ref_data plist cmdid = list_frame dev_port_row plist 16 0x80000062

abbrev pub analyse_del_tb_otdr_ref_data : ℕ → ℕ → List ℕ → Option (List ℕ)
analyse_del_tb_otdr_ref_data addr len pdata = analyse_list_frame addr len 16 pdata

-- The commands that empty a table have no data.
abbrev pub del_all_tb_route : Message
del_all_tb_route = mcu_to_device 0 0 dev_mcu 0 0x80000055 0

abbrev pub analyse_del_all_tb_route : ℕ → List ℕ → List ℕ
analyse_del_all_tb_route len pdata = analyse_mcu_to_device len pdata

abbrev pub del_all_tb_unit : Message
del_all_tb_unit = mcu_to_device 0 0 dev_mcu 0 0x80000058 0

abbrev pub del_all_tb_cyc_test : Message
del_all_tb_cyc_test = mcu_to_device 0 0 dev_mcu 0 0x80000061 0

abbrev pub del_all_tb_otdr_hist_data : Message
del_all_tb_otdr_hist_data = mcu_to_device 0 0 dev_mcu 0 0x80000063 0

abbrev pub get_device_composition_rt : Message
get_device_composition_rt = mcu_to_device 0 0 0 0 0x80000065 0
