-- ===== src/Messages/Request.antt =====
-- The messages of protocol/tmsxx.c whose analysers exchange all their words, as one type.
use tmsxx_tc.Prelude.{ℕ, Option, some, List, [], ◌∷◌, map, take}
use tmsxx_tc.Messages.{Message, Item, word, listed, Part, swapped}
use tmsxx_tc.Messages.Exchange.{Matches, AllMatch, AreWords}
use tmsxx_tc.Messages.Structures.{
  DevVersion, dev_version_items, dev_version_parts, CfgSmsVal, cfg_sms_val_items, cfg_sms_val_parts,
  DevCompositionVal, dev_composition_val_items, dev_composition_val_parts, CfgMcuUAnyOswVal,
  cfg_mcu_u_any_osw_val_items, cfg_mcu_u_any_osw_val_parts, CfgMcuAnyPortClearVal,
  cfg_mcu_any_port_clear_val_items, cfg_mcu_any_port_clear_val_parts, CfgOpmRefVal,
  cfg_opm_ref_val_items, cfg_opm_ref_val_parts, CfgOlpRefVal, cfg_olp_ref_val_items,
  cfg_olp_ref_val_parts, AnyOpVal, any_op_val_items, any_op_val_parts, CfgMcuOswCycleVal,
  cfg_mcu_osw_cycle_val_items, cfg_mcu_osw_cycle_val_parts,
}
use tmsxx_tc.Messages.Measures.{SmsState, sms_state_items, sms_state_parts}
use tmsxx_tc.Messages.Device.{
  dev_opm, dev_osw, dev_olp, mcu_to_device, analyse_get_opm_olp_ray_power,
}
use tmsxx_tc.Messages.Config.{
  cfg_sms_authorization, analyse_cfg_sms_authorization, ret_device_composition_any,
  analyse_ret_device_composition, cfg_mcu_unite_any_osw, analyse_cfg_mcu_unite_any_osw,
  cfg_mcu_any_port_clear, analyse_cfg_mcu_any_port_clear, cfg_opm_ref_level, cfg_olp_ref_level,
  analyse_cfg_any_ref_level, ret_any_op, analyse_ret_any_op, cfg_mcu_osw_cycle_any,
  analyse_cfg_mcu_osw_cycle_any,
}
use tmsxx_tc.Messages.Alarm.{
  get_version, analyse_get_version, ret_version, analyse_ret_version, ret_sms_error,
  analyse_ret_sms_error,
}

pub data Request : Type 0 where
  sms : List CfgSmsVal → Request
  composition : ℕ → List DevCompositionVal → Request
  unite : ℕ → ℕ → ℕ → ℕ → List CfgMcuUAnyOswVal → Request
  port_clear : ℕ → ℕ → ℕ → ℕ → List CfgMcuAnyPortClearVal → Request
  opm_ref : ℕ → ℕ → List CfgOpmRefVal → Request
  olp_ref : ℕ → ℕ → List CfgOlpRefVal → Request
  any_op : ℕ → ℕ → ℕ → ℕ → List AnyOpVal → Request
  osw_cycle : ℕ → ℕ → ℕ → List CfgMcuOswCycleVal → Request
  ray_power : ℕ → ℕ → ℕ → Request
  version_of : ℕ → ℕ → ℕ → Request
  version : DevVersion → Request
  sms_error : SmsState → Request

-- What the sender puts together.
abbrev pub message : Request → Message
message (sms l) = cfg_sms_authorization l
message (composition cmdid l) = ret_device_composition_any l cmdid
message (unite frame slot kind cmdid l) = cfg_mcu_unite_any_osw frame slot kind cmdid l
message (port_clear frame slot kind cmdid l) = cfg_mcu_any_port_clear frame slot kind cmdid l
message (opm_ref frame slot l) = cfg_opm_ref_level frame slot l
message (olp_ref frame slot l) = cfg_olp_ref_level frame slot l
message (any_op frame slot kind cmdid l) = ret_any_op frame slot kind cmdid l
message (osw_cycle frame slot cmdid l) = cfg_mcu_osw_cycle_any frame slot l cmdid
message (ray_power frame slot kind) = mcu_to_device frame slot kind 0 0x60000004 12
message (version_of frame slot kind) = get_version frame slot kind
message (version v) = ret_version v
message (sms_error v) = ret_sms_error v

-- What the analyser of the message makes of a frame of `len` bytes at the address `addr`.
abbrev pub analyser : Request → ℕ → ℕ → List ℕ → Option (List ℕ)
analyser (sms l) addr len pdata = some (analyse_cfg_sms_authorization pdata)
analyser (composition cmdid l) addr len pdata = some (analyse_ret_device_composition pdata)
analyser (unite frame slot kind cmdid l) addr len pdata =
    analyse_cfg_mcu_unite_any_osw addr len pdata
analyser (port_clear frame slot kind cmdid l) addr len pdata =
    some (analyse_cfg_mcu_any_port_clear pdata)
analyser (opm_ref frame slot l) addr len pdata = some (analyse_cfg_any_ref_level dev_opm pdata)
analyser (olp_ref frame slot l) addr len pdata = some (analyse_cfg_any_ref_level dev_olp pdata)
analyser (any_op frame slot kind cmdid l) addr len pdata = some (analyse_ret_any_op pdata)
analyser (osw_cycle frame slot cmdid l) addr len pdata =
    analyse_cfg_mcu_osw_cycle_any addr len pdata
analyser (ray_power frame slot kind) addr len pdata = some (analyse_get_opm_olp_ray_power pdata)
analyser (version_of frame slot kind) addr len pdata = some (analyse_get_version pdata)
analyser (version v) addr len pdata = some (analyse_ret_version pdata)
analyser (sms_error v) addr len pdata = some (analyse_ret_sms_error pdata)

-- A message of one structure, or a list: the header words, the parts and the size of an entry, and the
-- entries.
pub data Shape : Type 0 where
  single : List Part → List Item → Shape
  several : List ℕ → List Part → ℕ → List (List Item) → Shape

abbrev pub shape : Request → Shape
shape (sms l) = several [] cfg_sms_val_parts 28 (map cfg_sms_val_items l)
shape (composition cmdid l) =
    several [] dev_composition_val_parts 32 (map dev_composition_val_items l)
shape (unite frame slot kind cmdid l) =
    several (frame ∷ slot ∷ kind ∷ []) cfg_mcu_u_any_osw_val_parts 20
      (map (λ v. cfg_mcu_u_any_osw_val_items (record v { osw_type = dev_osw })) l)
shape (port_clear frame slot kind cmdid l) =
    several (frame ∷ slot ∷ kind ∷ []) cfg_mcu_any_port_clear_val_parts 4
      (map cfg_mcu_any_port_clear_val_items l)
shape (opm_ref frame slot l) =
    several (frame ∷ slot ∷ dev_opm ∷ []) cfg_opm_ref_val_parts 28 (map cfg_opm_ref_val_items l)
shape (olp_ref frame slot l) =
    several (frame ∷ slot ∷ dev_olp ∷ []) cfg_olp_ref_val_parts 28 (map cfg_olp_ref_val_items l)
shape (any_op frame slot kind cmdid l) =
    several (frame ∷ slot ∷ kind ∷ []) any_op_val_parts 8 (map any_op_val_items l)
shape (osw_cycle frame slot cmdid l) =
    several (frame ∷ slot ∷ dev_osw ∷ []) cfg_mcu_osw_cycle_val_parts 12
      (map cfg_mcu_osw_cycle_val_items l)
shape (ray_power frame slot kind) =
    single (swapped ∷ swapped ∷ swapped ∷ []) (word frame ∷ word slot ∷ word kind ∷ [])
shape (version_of frame slot kind) =
    single (swapped ∷ swapped ∷ swapped ∷ []) (word frame ∷ word slot ∷ word kind ∷ [])
shape (version v) = single dev_version_parts (dev_version_items v)
shape (sms_error v) = single sms_state_parts (sms_state_items v)

abbrev pub items : Shape → List Item
items (single ps is) = is
items (several header ps size es) = listed header es

-- The values have the widths of their fields.
abbrev pub IsFit : Shape → Type 0
IsFit (single ps is) = Matches ps is
IsFit (several header ps size es) = AreWords header × AllMatch ps es

-- The bytes that the sender hands to `glink_Send`.
abbrev pub sent : Request → List ℕ
sent r = take (message r).len (message r).memory
