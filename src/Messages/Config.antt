-- ===== src/Messages/Config.antt =====
-- protocol/tmsxx.c: messages that configure, and those that answer with a list.
use tmsxx_tc.Prelude.{
  ℕ, ◌+◌, ◌*◌, ◌%◌, ◌^◌, Option, none, some, List, [], ◌∷◌, map, length, ◌==◌, if◌then◌else◌,
}
use tmsxx_tc.Glink.Wire.{htonl, load32}
use tmsxx_tc.Messages.{
  Message, Item, wire, listed, swapped, halves, list_parts, list_parts_unsigned, on_data, check_ptr,
}
use tmsxx_tc.Messages.Device.{dev_opm, dev_osw, dev_olp}
use tmsxx_tc.Messages.Structures.{
  CfgSmsVal, cfg_sms_val_items, cfg_sms_val_parts, DevCompositionVal, dev_composition_val_items,
  dev_composition_val_parts, CfgMcuOswPort, cfg_mcu_osw_port_items, CfgMcuUAnyOswVal,
  cfg_mcu_u_any_osw_val_items, cfg_mcu_u_any_osw_val_parts, CfgMcuAnyPortClearVal,
  cfg_mcu_any_port_clear_val_items, cfg_mcu_any_port_clear_val_parts, CfgOpmRefVal,
  cfg_opm_ref_val_items, cfg_opm_ref_val_parts, CfgOlpRefVal, cfg_olp_ref_val_items,
  cfg_olp_ref_val_parts, AnyOpVal, any_op_val_items, any_op_val_parts, CfgMcuOswCycleVal,
  cfg_mcu_osw_cycle_val_items, cfg_mcu_osw_cycle_val_parts,
}

-- A message with a header of `k` words before the count, and entries of `size` bytes. `malloc` is taken
-- to succeed; where it does not, the senders return -1 and send nothing.
abbrev pub list_message : ℕ → List ℕ → ℕ → List (List Item) → Message
list_message cmdid header size es = record {
  cmdid = cmdid;
  len = (4 * length header + 4 + length es * size) % 2 ^ 32;
  memory = wire (listed header es);
}

-- ID_CFG_SMS
abbrev pub cfg_sms_authorization : List CfgSmsVal → Message
cfg_sms_authorization smslist = list_message 0x80000003 [] 28 (map cfg_sms_val_items smslist)

unfoldable pub analyse_cfg_sms_authorization : List ℕ → List ℕ
analyse_cfg_sms_authorization pdata = on_data (list_parts 0 cfg_sms_val_parts) pdata

-- ID_RET_COMPOSITION
abbrev pub ret_device_composition_any : List DevCompositionVal → ℕ → Message
ret_device_composition_any list cmdid =
    list_message cmdid [] 32 (map dev_composition_val_items list)

abbrev pub ret_device_composition : List DevCompositionVal → Message
ret_device_composition list = ret_device_composition_any list 0x80000006

unfoldable pub analyse_ret_device_composition : List ℕ → List ℕ
analyse_ret_device_composition pdata = on_data (list_parts 0 dev_composition_val_parts) pdata

-- `tms_CfgMCUAnyPort`: the names are copied.
abbrev pub cfg_mcu_any_port : CfgMcuOswPort → ℕ → Message
cfg_mcu_any_port v cmdid = record {
  cmdid = cmdid;
  len = 272;
  memory = wire (cfg_mcu_osw_port_items v);
}

abbrev pub cfg_mcu_osw_port : CfgMcuOswPort → Message
cfg_mcu_osw_port v = cfg_mcu_any_port (record v { kind = dev_osw }) 0x80000007

abbrev pub cfg_mcu_olp_port : CfgMcuOswPort → Message
cfg_mcu_olp_port v = cfg_mcu_any_port (record v { kind = dev_olp }) 0x80000009

-- `tms_AnalyseCfgMCUAnyPort`: the pairs of bytes of the names are exchanged.
unfoldable pub analyse_cfg_mcu_any_port : List ℕ → List ℕ
analyse_cfg_mcu_any_port pdata =
    on_data
      (λ bs.
        swapped ∷ swapped ∷ swapped ∷ swapped ∷ halves 32 ∷ halves 32 ∷ halves 32 ∷ halves 32 ∷ [])
      pdata

-- `tms_CfgMCUUniteAnyOSW`
abbrev pub cfg_mcu_unite_any_osw : ℕ → ℕ → ℕ → ℕ → List CfgMcuUAnyOswVal → Message
cfg_mcu_unite_any_osw any_frame any_slot any_type cmdid list =
    list_message cmdid (any_frame ∷ any_slot ∷ any_type ∷ []) 20
      (map (λ v. cfg_mcu_u_any_osw_val_items (record v { osw_type = dev_osw })) list)

abbrev pub cfg_mcu_unite_opm_osw : ℕ → ℕ → List CfgMcuUAnyOswVal → Message
cfg_mcu_unite_opm_osw frame slot list = cfg_mcu_unite_any_osw frame slot dev_opm 0x80000011 list

abbrev pub cfg_mcu_unite_olp_osw : ℕ → ℕ → List CfgMcuUAnyOswVal → Message
cfg_mcu_unite_olp_osw frame slot list = cfg_mcu_unite_any_osw frame slot dev_olp 0x80000013 list

-- `tms_AnalyseCfgMCUUniteAnyOSW` at the address `pdata`, for a frame of `len` bytes; `none` is -1.
unfoldable pub analyse_cfg_mcu_unite_any_osw : ℕ → ℕ → List ℕ → Option (List ℕ)
analyse_cfg_mcu_unite_any_osw addr len pdata =
    if check_ptr (addr + 36) 16 20 (htonl (load32 pdata 48)) (addr + len)
    then some (on_data (list_parts 3 cfg_mcu_u_any_osw_val_parts) pdata)
    else none

-- `tms_CfgMCUAnyPortClear` and its callers; the one for OPM gives the type of an OLP and the command
-- for an OSW.
abbrev pub cfg_mcu_any_port_clear : ℕ → ℕ → ℕ → ℕ → List CfgMcuAnyPortClearVal → Message
cfg_mcu_any_port_clear any_frame any_slot any_type cmdid list =
    list_message cmdid (any_frame ∷ any_slot ∷ any_type ∷ []) 4
      (map cfg_mcu_any_port_clear_val_items list)

abbrev pub cfg_mcu_opm_port_clear : ℕ → ℕ → List CfgMcuAnyPortClearVal → Message
cfg_mcu_opm_port_clear frame slot list = cfg_mcu_any_port_clear frame slot dev_olp 0x80000008 list

abbrev pub cfg_mcu_osw_port_clear : ℕ → ℕ → List CfgMcuAnyPortClearVal → Message
cfg_mcu_osw_port_clear frame slot list = cfg_mcu_any_port_clear frame slot dev_osw 0x80000008 list

abbrev pub cfg_mcu_olp_port_clear : ℕ → ℕ → List CfgMcuAnyPortClearVal → Message
cfg_mcu_olp_port_clear frame slot list = cfg_mcu_any_port_clear frame slot dev_olp 0x80000010 list

abbrev pub cfg_mcu_unite_opm_osw_clear : ℕ → ℕ → List CfgMcuAnyPortClearVal → Message
cfg_mcu_unite_opm_osw_clear frame slot list =
    cfg_mcu_any_port_clear frame slot dev_opm 0x80000012 list

abbrev pub cfg_mcu_unite_olp_osw_clear : ℕ → ℕ → List CfgMcuAnyPortClearVal → Message
cfg_mcu_unite_olp_osw_clear frame slot list =
    cfg_mcu_any_port_clear frame slot dev_olp 0x80000014 list

unfoldable pub analyse_cfg_mcu_any_port_clear : List ℕ → List ℕ
analyse_cfg_mcu_any_port_clear pdata = on_data (list_parts 3 cfg_mcu_any_port_clear_val_parts) pdata

-- `tms_CfgAnyRefLevel` for an OPM and for any other type, and its callers; both give ID_CFG_OPM_REF_LEVEL.
abbrev pub cfg_opm_ref_level : ℕ → ℕ → List CfgOpmRefVal → Message
cfg_opm_ref_level frame slot list =
    list_message 0x80000015 (frame ∷ slot ∷ dev_opm ∷ []) 28 (map cfg_opm_ref_val_items list)

abbrev pub cfg_olp_ref_level : ℕ → ℕ → List CfgOlpRefVal → Message
cfg_olp_ref_level frame slot list =
    list_message 0x80000015 (frame ∷ slot ∷ dev_olp ∷ []) 28 (map cfg_olp_ref_val_items list)

-- `tms_AnalyseCfgAnyRefLevel`, for the two types.
unfoldable pub analyse_cfg_any_ref_level : ℕ → List ℕ → List ℕ
analyse_cfg_any_ref_level any_type pdata =
    if any_type == dev_opm
    then on_data (list_parts 3 cfg_opm_ref_val_parts) pdata
    else on_data (list_parts 3 cfg_olp_ref_val_parts) pdata

-- `tms_RetAnyOP` and its callers
abbrev pub ret_any_op : ℕ → ℕ → ℕ → ℕ → List AnyOpVal → Message
ret_any_op frame slot kind cmdid list =
    list_message cmdid (frame ∷ slot ∷ kind ∷ []) 8 (map any_op_val_items list)

abbrev pub ret_opm_op : ℕ → ℕ → List AnyOpVal → Message
ret_opm_op frame slot list = ret_any_op frame slot dev_opm 0x80000017 list

abbrev pub ret_olp_op : ℕ → ℕ → List AnyOpVal → Message
ret_olp_op frame slot list = ret_any_op frame slot dev_olp 0x80000020 list

-- `tms_AnalyseRetAnyOP`; with the compiled tables the entry of `sg_dowhat` that it calls first does
-- nothing.
unfoldable pub analyse_ret_any_op : List ℕ → List ℕ
analyse_ret_any_op pdata = on_data (list_parts 3 any_op_val_parts) pdata

-- `tms_CfgMCUOSWCycle_any` and its caller
abbrev pub cfg_mcu_osw_cycle_any : ℕ → ℕ → List CfgMcuOswCycleVal → ℕ → Message
cfg_mcu_osw_cycle_any frame slot list cmdid =
    list_message cmdid (frame ∷ slot ∷ dev_osw ∷ []) 12 (map cfg_mcu_osw_cycle_val_items list)

abbrev pub cfg_mcu_osw_cycle : ℕ → ℕ → List CfgMcuOswCycleVal → Message
cfg_mcu_osw_cycle frame slot list = cfg_mcu_osw_cycle_any frame slot list 0x80000022

-- `tms_AnalyseCfgMCUOSWCycle_any`; the count is unsigned here.
unfoldable pub analyse_cfg_mcu_osw_cycle_any : ℕ → ℕ → List ℕ → Option (List ℕ)
analyse_cfg_mcu_osw_cycle_any addr len pdata =
    if check_ptr (addr + 36) 16 12 (htonl (load32 pdata 48)) (addr + len)
    then some (on_data (list_parts_unsigned 3 cfg_mcu_osw_cycle_val_parts) pdata)
    else none
