-- ===== src/Messages/Alarm.antt =====
-- protocol/tmsxx.c: messages that report alarms and measurements, or answer a question. Those of
-- alarms go to all managers for the destination 0x30 (`report`); the others end in `post`.
use tmsxx_tc.Prelude.{ℕ, ◌+◌, Option, none, some, List, [], ◌∷◌, ◌++◌, map, drop, if◌then◌else◌}
use tmsxx_tc.Glink.Wire.{htonl, load32}
use tmsxx_tc.Messages.{
  Message, word, wire, Part, swapped, kept, list_parts, parts_with, rounds_of, on_data, check_ptr,
}
use tmsxx_tc.Messages.Device.{mcu_to_device, dev_opm, dev_olp}
use tmsxx_tc.Messages.Config.{list_message}
use tmsxx_tc.Messages.Structures.{DevVersion, dev_version_items, dev_version_parts}
use tmsxx_tc.Messages.Measures.{
  GetotdrTestHdr, getotdr_test_hdr_items, GetotdrTestParam, getotdr_test_param_items,
  getotdr_test_param_parts, CfgOlpMode, cfg_olp_mode_items, ReportOlpAction,
  report_olp_action_items, AlarmOpmVal, alarm_opm_val_items, alarm_opm_val_parts, AlarmHwVal,
  alarm_hw_val_items, SmsState, sms_state_items, sms_state_parts,
}

-- `tms_AnyGetOTDRTest`: the port of the OTDR stands in `reserve0`.
abbrev pub any_get_otdr_test : GetotdrTestHdr → GetotdrTestParam → ℕ → Message
any_get_otdr_test hdr val cmdid = record {
  cmdid = cmdid;
  len = 60;
  memory = wire (getotdr_test_hdr_items hdr ++ getotdr_test_param_items val);
}

-- ID_GET_OTDR_TEST, ID_GET_OTDR_TEST_CYC
abbrev pub get_otdr_test : GetotdrTestHdr → GetotdrTestParam → Message
get_otdr_test hdr val = any_get_otdr_test hdr val 0x80000023

abbrev pub get_otdr_test_cycle : GetotdrTestHdr → GetotdrTestParam → Message
get_otdr_test_cycle hdr val = any_get_otdr_test hdr val 0x80000039

-- `tms_AnalyseAnyGetOTDRTest` does not exchange `reserve0`.
unfoldable pub analyse_any_get_otdr_test : List ℕ → List ℕ
analyse_any_get_otdr_test pdata =
    on_data (λ bs. swapped ∷ swapped ∷ swapped ∷ swapped ∷ kept 4 ∷ getotdr_test_param_parts) pdata

-- ID_CFG_OLP_MODE
abbrev pub cfg_olp_mode_ex : CfgOlpMode → Message
cfg_olp_mode_ex v = record { cmdid = 0x80000025; len = 44; memory = wire (cfg_olp_mode_items v) }

-- ID_REPORT_OLP_ACTION; without the time, these bytes are what the stack holds.
abbrev pub report_olp_action_ex : ReportOlpAction → Message
report_olp_action_ex v = record {
  cmdid = 0x80000027;
  len = 40;
  memory = wire (report_olp_action_items (record v { kind = dev_olp }));
}

abbrev pub report_olp_action : List ℕ → ℕ → ℕ → ℕ → ℕ → Message
report_olp_action stack frame slot sw_type sw_port = record {
  cmdid = 0x80000027;
  len = 40;
  memory = wire (
      report_olp_action_items (record {
        frame = frame;
        slot = slot;
        kind = dev_olp;
        sw_type = sw_type;
        sw_port = sw_port;
        time = stack;
      }));
}

unfoldable pub analyse_report_olp_action : List ℕ → List ℕ
analyse_report_olp_action pdata =
    on_data (λ bs. swapped ∷ swapped ∷ swapped ∷ swapped ∷ swapped ∷ []) pdata

-- ID_ALARM_OPM
abbrev pub alarm_opm_ex : ℕ → ℕ → ℕ → List AlarmOpmVal → Message
alarm_opm_ex frame slot kind list =
    list_message 0x80000028 (1 ∷ frame ∷ slot ∷ kind ∷ []) 32 (map alarm_opm_val_items list)

abbrev pub alarm_opm : ℕ → ℕ → List AlarmOpmVal → Message
alarm_opm frame slot list = alarm_opm_ex frame slot dev_opm list

-- ID_ALARM_OPM_CHANGE; without a type, this word is what the heap holds.
abbrev pub alarm_opm_change_ex : ℕ → ℕ → ℕ → ℕ → List AlarmOpmVal → Message
alarm_opm_change_ex frame slot kind alarm_cnt list =
    list_message 0x80000029 (1 ∷ frame ∷ slot ∷ kind ∷ alarm_cnt ∷ []) 32
      (map alarm_opm_val_items list)

abbrev pub alarm_opm_change : ℕ → ℕ → ℕ → ℕ → List AlarmOpmVal → Message
alarm_opm_change heap frame slot alarm_cnt list = alarm_opm_change_ex frame slot heap alarm_cnt list

-- `tms_AnalyseAlarmOPM` and `tms_AnalyseAlarmOPMChange` do not exchange the type, the fourth word of
-- the header; `k` words stand between it and the count.
abbrev pub alarm_parts : ℕ → List ℕ → List Part
alarm_parts k bs =
    swapped ∷ swapped ∷ swapped ∷ kept 4 ∷ parts_with rounds_of k alarm_opm_val_parts (drop 16 bs)

unfoldable pub analyse_alarm_opm : List ℕ → List ℕ
analyse_alarm_opm pdata = on_data (alarm_parts 0) pdata

unfoldable pub analyse_alarm_opm_change : ℕ → ℕ → List ℕ → Option (List ℕ)
analyse_alarm_opm_change addr len pdata =
    if check_ptr (addr + 36) 24 32 (htonl (load32 pdata 56)) (addr + len)
    then some (on_data (alarm_parts 1) pdata)
    else none

-- ID_ALARM_HW
abbrev pub alarm_hw : List AlarmHwVal → Message
alarm_hw list = list_message 0x80000031 (3 ∷ []) 40 (map alarm_hw_val_items list)

-- `tms_AnalyseAlarmHW` does not exchange the type of an entry.
unfoldable pub analyse_alarm_hw : List ℕ → List ℕ
analyse_alarm_hw pdata =
    on_data (list_parts 1 (swapped ∷ swapped ∷ swapped ∷ kept 4 ∷ swapped ∷ kept 20 ∷ [])) pdata

-- ID_CMD_SMS_ERROR
abbrev pub ret_sms_error : SmsState → Message
ret_sms_error v = record { cmdid = 0x80000034; len = 20; memory = wire (sms_state_items v) }

unfoldable pub analyse_ret_sms_error : List ℕ → List ℕ
analyse_ret_sms_error pdata = on_data (λ bs. sms_state_parts) pdata

-- ID_GET_VERSION, ID_RET_VERSION
abbrev pub get_version : ℕ → ℕ → ℕ → Message
get_version frame slot kind = mcu_to_device frame slot kind 0 0x80000035 12

unfoldable pub analyse_get_version : List ℕ → List ℕ
analyse_get_version pdata = on_data (λ bs. swapped ∷ swapped ∷ swapped ∷ []) pdata

abbrev pub ret_version : DevVersion → Message
ret_version v = record { cmdid = 0x80000036; len = 60; memory = wire (dev_version_items v) }

unfoldable pub analyse_ret_version : List ℕ → List ℕ
analyse_ret_version pdata = on_data (λ bs. dev_version_parts) pdata

-- ID_ADJUST_TIME: the buffer has 20 bytes, and 24 are sent; `stack` is what follows it.
abbrev pub adjust_time : List ℕ → List ℕ → Message
adjust_time time stack = record { cmdid = 0x80000037; len = 24; memory = time ++ stack }

-- ID_RET_MCU_TIME
abbrev pub ret_mcu_time : List ℕ → Message
ret_mcu_time time = record { cmdid = 0x80000072; len = 20; memory = time }

-- ID_RET_ALARM_SOUND_STATE
abbrev pub ret_alarm_sound_state : ℕ → Message
ret_alarm_sound_state state = record {
  cmdid = 0x80000075;
  len = 4;
  memory = wire (word state ∷ []);
}
