-- ===== src/Messages/Measures.antt =====
-- protocol/tmsxx.h: the structures of measurements and alarms, and their parts in the order of their addresses.
-- `type` is `kind` here, and a `float` is its pattern of 32 bits.
use tmsxx_tc.Prelude.{ℕ, List, [], ◌∷◌}
use tmsxx_tc.Messages.{Item, word, raw, Part, swapped, kept}

-- `struct tms_getotdr_test_hdr`, 20 bytes
pub record GetotdrTestHdr : Type 0 where
  pub frame : ℕ
  pub slot : ℕ
  pub kind : ℕ
  pub port : ℕ
  pub reserve0 : ℕ

abbrev pub getotdr_test_hdr_items : GetotdrTestHdr → List Item
getotdr_test_hdr_items v =
    word v.frame ∷ word v.slot ∷ word v.kind ∷ word v.port ∷ word v.reserve0 ∷ []

abbrev pub getotdr_test_hdr_parts : List Part
getotdr_test_hdr_parts = swapped ∷ swapped ∷ swapped ∷ swapped ∷ swapped ∷ []

-- `struct tms_getotdr_test_param`, 40 bytes
pub record GetotdrTestParam : Type 0 where
  pub rang : ℕ
  pub wl : ℕ
  pub pw : ℕ
  pub time : ℕ
  pub gi : ℕ
  pub end_threshold : ℕ
  pub none_reflect_threshold : ℕ
  pub reserve0 : ℕ
  pub reserve1 : ℕ
  pub reserve2 : ℕ

abbrev pub getotdr_test_param_items : GetotdrTestParam → List Item
getotdr_test_param_items v =
    word v.rang
    ∷ word v.wl
    ∷ word v.pw
    ∷ word v.time
    ∷ word v.gi
    ∷ word v.end_threshold
    ∷ word v.none_reflect_threshold
    ∷ word v.reserve0
    ∷ word v.reserve1
    ∷ word v.reserve2
    ∷ []

abbrev pub getotdr_test_param_parts : List Part
getotdr_test_param_parts =
    swapped ∷ swapped ∷ swapped ∷ swapped ∷ swapped ∷ swapped ∷ swapped ∷ swapped ∷ swapped
    ∷ swapped ∷ []

-- `struct tms_cfg_olp_mode`, 44 bytes
pub record CfgOlpMode : Type 0 where
  pub frame : ℕ
  pub slot : ℕ
  pub kind : ℕ
  pub flag : ℕ
  pub mode : ℕ
  pub back_time : ℕ
  pub protect_port : ℕ
  pub work_line : ℕ
  pub sw_level1 : ℕ
  pub sw_level2 : ℕ
  pub tx_ref : ℕ

abbrev pub cfg_olp_mode_items : CfgOlpMode → List Item
cfg_olp_mode_items v =
    word v.frame
    ∷ word v.slot
    ∷ word v.kind
    ∷ word v.flag
    ∷ word v.mode
    ∷ word v.back_time
    ∷ word v.protect_port
    ∷ word v.work_line
    ∷ word v.sw_level1
    ∷ word v.sw_level2
    ∷ word v.tx_ref
    ∷ []

abbrev pub cfg_olp_mode_parts : List Part
cfg_olp_mode_parts =
    swapped ∷ swapped ∷ swapped ∷ swapped ∷ swapped ∷ swapped ∷ swapped ∷ swapped ∷ swapped
    ∷ swapped ∷ swapped ∷ []

-- `struct tms_report_olp_action`, 40 bytes
pub record ReportOlpAction : Type 0 where
  pub frame : ℕ
  pub slot : ℕ
  pub kind : ℕ
  pub sw_type : ℕ
  pub sw_port : ℕ
  pub time : List ℕ

abbrev pub report_olp_action_items : ReportOlpAction → List Item
report_olp_action_items v =
    word v.frame ∷ word v.slot ∷ word v.kind ∷ word v.sw_type ∷ word v.sw_port ∷ raw v.time ∷ []

abbrev pub report_olp_action_parts : List Part
report_olp_action_parts = swapped ∷ swapped ∷ swapped ∷ swapped ∷ swapped ∷ kept 20 ∷ []

-- `struct tms_alarm_opm_val`, 32 bytes
pub record AlarmOpmVal : Type 0 where
  pub port : ℕ
  pub levelx : ℕ
  pub power : ℕ
  pub time : List ℕ

abbrev pub alarm_opm_val_items : AlarmOpmVal → List Item
alarm_opm_val_items v = word v.port ∷ word v.levelx ∷ word v.power ∷ raw v.time ∷ []

abbrev pub alarm_opm_val_parts : List Part
alarm_opm_val_parts = swapped ∷ swapped ∷ swapped ∷ kept 20 ∷ []

-- `struct tms_alarm_hw_val`, 40 bytes
pub record AlarmHwVal : Type 0 where
  pub level : ℕ
  pub frame : ℕ
  pub slot : ℕ
  pub kind : ℕ
  pub reason : ℕ
  pub time : List ℕ

abbrev pub alarm_hw_val_items : AlarmHwVal → List Item
alarm_hw_val_items v =
    word v.level ∷ word v.frame ∷ word v.slot ∷ word v.kind ∷ word v.reason ∷ raw v.time ∷ []

abbrev pub alarm_hw_val_parts : List Part
alarm_hw_val_parts = swapped ∷ swapped ∷ swapped ∷ swapped ∷ swapped ∷ kept 20 ∷ []

-- `struct tms_sms_state`, 20 bytes
pub record SmsState : Type 0 where
  pub phone : List ℕ
  pub state : ℕ

abbrev pub sms_state_items : SmsState → List Item
sms_state_items v = raw v.phone ∷ word v.state ∷ []

abbrev pub sms_state_parts : List Part
sms_state_parts = kept 16 ∷ swapped ∷ []
