-- ===== src/Messages/Structures.antt =====
-- protocol/tmsxx.h: the structures of the messages, and their parts in the order of their addresses.
-- `type` is `kind` here, and a `float` is its pattern of 32 bits.
use tmsxx_tc.Prelude.{ℕ, List, [], ◌∷◌}
use tmsxx_tc.Messages.{Item, word, raw, Part, swapped, kept}

-- `struct tms_dev_port`, 16 bytes
pub record DevPort : Type 0 where
  pub frame : ℕ
  pub slot : ℕ
  pub kind : ℕ
  pub port : ℕ

abbrev pub dev_port_items : DevPort → List Item
dev_port_items v = word v.frame ∷ word v.slot ∷ word v.kind ∷ word v.port ∷ []

abbrev pub dev_port_parts : List Part
dev_port_parts = swapped ∷ swapped ∷ swapped ∷ swapped ∷ []

-- `struct tms_ret_dev_type`, 32 bytes
pub record RetDevType : Type 0 where
  pub frame : ℕ
  pub slot : ℕ
  pub kind : ℕ
  pub port : ℕ
  pub reserved0 : ℕ
  pub reserved1 : ℕ
  pub reserved2 : ℕ
  pub reserved3 : ℕ

abbrev pub ret_dev_type_items : RetDevType → List Item
ret_dev_type_items v =
    word v.frame
    ∷ word v.slot
    ∷ word v.kind
    ∷ word v.port
    ∷ word v.reserved0
    ∷ word v.reserved1
    ∷ word v.reserved2
    ∷ word v.reserved3
    ∷ []

abbrev pub ret_dev_type_parts : List Part
ret_dev_type_parts =
    swapped ∷ swapped ∷ swapped ∷ swapped ∷ swapped ∷ swapped ∷ swapped ∷ swapped ∷ []

-- `struct tms_dev_version`, 60 bytes
pub record DevVersion : Type 0 where
  pub frame : ℕ
  pub slot : ℕ
  pub kind : ℕ
  pub vsersion : List ℕ

abbrev pub dev_version_items : DevVersion → List Item
dev_version_items v = word v.frame ∷ word v.slot ∷ word v.kind ∷ raw v.vsersion ∷ []

abbrev pub dev_version_parts : List Part
dev_version_parts = swapped ∷ swapped ∷ swapped ∷ kept 48 ∷ []

-- `struct tms_change_addr`, 48 bytes
pub record ChangeAddr : Type 0 where
  pub ip : List ℕ
  pub mask : List ℕ
  pub gw : List ℕ

abbrev pub change_addr_items : ChangeAddr → List Item
change_addr_items v = raw v.ip ∷ raw v.mask ∷ raw v.gw ∷ []

abbrev pub change_addr_parts : List Part
change_addr_parts = kept 16 ∷ kept 16 ∷ kept 16 ∷ []

-- `struct tms_cfg_sms_val`, 28 bytes
pub record CfgSmsVal : Type 0 where
  pub time : ℕ
  pub phone : List ℕ
  pub kind : ℕ
  pub level : ℕ

abbrev pub cfg_sms_val_items : CfgSmsVal → List Item
cfg_sms_val_items v = word v.time ∷ raw v.phone ∷ word v.kind ∷ word v.level ∷ []

abbrev pub cfg_sms_val_parts : List Part
cfg_sms_val_parts = swapped ∷ kept 16 ∷ swapped ∷ swapped ∷ []

-- `struct tms_dev_composition_val`, 32 bytes
pub record DevCompositionVal : Type 0 where
  pub frame : ℕ
  pub slot : ℕ
  pub kind : ℕ
  pub port : ℕ
  pub reserved0 : ℕ
  pub reserved1 : ℕ
  pub reserved2 : ℕ
  pub reserved3 : ℕ

abbrev pub dev_composition_val_items : DevCompositionVal → List Item
dev_composition_val_items v =
    word v.frame
    ∷ word v.slot
    ∷ word v.kind
    ∷ word v.port
    ∷ word v.reserved0
    ∷ word v.reserved1
    ∷ word v.reserved2
    ∷ word v.reserved3
    ∷ []

abbrev pub dev_composition_val_parts : List Part
dev_composition_val_parts =
    swapped ∷ swapped ∷ swapped ∷ swapped ∷ swapped ∷ swapped ∷ swapped ∷ swapped ∷ []

-- `struct tms_cfg_mcu_osw_port`, 272 bytes
pub record CfgMcuOswPort : Type 0 where
  pub frame : ℕ
  pub slot : ℕ
  pub kind : ℕ
  pub port : ℕ
  pub dev_name : List ℕ
  pub cable_name : List ℕ
  pub start_name : List ℕ
  pub end_name : List ℕ

abbrev pub cfg_mcu_osw_port_items : CfgMcuOswPort → List Item
cfg_mcu_osw_port_items v =
    word v.frame
    ∷ word v.slot
    ∷ word v.kind
    ∷ word v.port
    ∷ raw v.dev_name
    ∷ raw v.cable_name
    ∷ raw v.start_name
    ∷ raw v.end_name
    ∷ []

abbrev pub cfg_mcu_osw_port_parts : List Part
cfg_mcu_osw_port_parts =
    swapped ∷ swapped ∷ swapped ∷ swapped ∷ kept 64 ∷ kept 64 ∷ kept 64 ∷ kept 64 ∷ []

-- `struct tms_cfg_mcu_u_any_osw_val`, 20 bytes
pub record CfgMcuUAnyOswVal : Type 0 where
  pub any_port : ℕ
  pub osw_frame : ℕ
  pub osw_slot : ℕ
  pub osw_type : ℕ
  pub osw_port : ℕ

abbrev pub cfg_mcu_u_any_osw_val_items : CfgMcuUAnyOswVal → List Item
cfg_mcu_u_any_osw_val_items v =
    word v.any_port ∷ word v.osw_frame ∷ word v.osw_slot ∷ word v.osw_type ∷ word v.osw_port ∷ []

abbrev pub cfg_mcu_u_any_osw_val_parts : List Part
cfg_mcu_u_any_osw_val_parts = swapped ∷ swapped ∷ swapped ∷ swapped ∷ swapped ∷ []

-- `struct tms_cfg_mcu_any_port_clear_val`, 4 bytes
pub record CfgMcuAnyPortClearVal : Type 0 where
  pub any_port : ℕ

abbrev pub cfg_mcu_any_port_clear_val_items : CfgMcuAnyPortClearVal → List Item
cfg_mcu_any_port_clear_val_items v = word v.any_port ∷ []

abbrev pub cfg_mcu_any_port_clear_val_parts : List Part
cfg_mcu_any_port_clear_val_parts = swapped ∷ []

-- `struct tms_cfg_opm_ref_val`, 28 bytes
pub record CfgOpmRefVal : Type 0 where
  pub port : ℕ
  pub isminitor : ℕ
  pub wave : ℕ
  pub ref_power : ℕ
  pub leve0 : ℕ
  pub leve1 : ℕ
  pub leve2 : ℕ

abbrev pub cfg_opm_ref_val_items : CfgOpmRefVal → List Item
cfg_opm_ref_val_items v =
    word v.port
    ∷ word v.isminitor
    ∷ word v.wave
    ∷ word v.ref_power
    ∷ word v.leve0
    ∷ word v.leve1
    ∷ word v.leve2
    ∷ []

abbrev pub cfg_opm_ref_val_parts : List Part
cfg_opm_ref_val_parts = swapped ∷ swapped ∷ swapped ∷ swapped ∷ swapped ∷ swapped ∷ swapped ∷ []

-- `struct tms_cfg_olp_ref_val`, 28 bytes
pub record CfgOlpRefVal : Type 0 where
  pub port : ℕ
  pub isminitor : ℕ
  pub wave : ℕ
  pub ref_power : ℕ
  pub leve0 : ℕ
  pub leve1 : ℕ
  pub leve2 : ℕ

abbrev pub cfg_olp_ref_val_items : CfgOlpRefVal → List Item
cfg_olp_ref_val_items v =
    word v.port
    ∷ word v.isminitor
    ∷ word v.wave
    ∷ word v.ref_power
    ∷ word v.leve0
    ∷ word v.leve1
    ∷ word v.leve2
    ∷ []

abbrev pub cfg_olp_ref_val_parts : List Part
cfg_olp_ref_val_parts = swapped ∷ swapped ∷ swapped ∷ swapped ∷ swapped ∷ swapped ∷ swapped ∷ []

-- `struct tms_any_op_val`, 8 bytes
pub record AnyOpVal : Type 0 where
  pub port : ℕ
  pub power : ℕ

abbrev pub any_op_val_items : AnyOpVal → List Item
any_op_val_items v = word v.port ∷ word v.power ∷ []

abbrev pub any_op_val_parts : List Part
any_op_val_parts = swapped ∷ swapped ∷ []

-- `struct tms_cfg_mcu_osw_cycle_val`, 12 bytes
pub record CfgMcuOswCycleVal : Type 0 where
  pub port : ℕ
  pub iscyc : ℕ
  pub interval : ℕ

abbrev pub cfg_mcu_osw_cycle_val_items : CfgMcuOswCycleVal → List Item
cfg_mcu_osw_cycle_val_items v = word v.port ∷ word v.iscyc ∷ word v.interval ∷ []

abbrev pub cfg_mcu_osw_cycle_val_parts : List Part
cfg_mcu_osw_cycle_val_parts = swapped ∷ swapped ∷ swapped ∷ []
