-- ===== src/Dispatch/Managing.antt =====
-- The table of protocol/tmsxx.c for the commands 0x8000xxxx, a row for each command.
use tmsxx_tc.Prelude.{List, [], ◌∷◌}
use tmsxx_tc.Dispatch.Handlers.{
  Entry, row, analyse_set_ip_address, analyse_get_serial_number, analyse_ret_serial_number,
  analyse_cfg_sms_authorization, analyse_clear_sms_authorization, analyse_get_device_composition,
  analyse_ret_device_composition, analyse_cfg_mcuosw_port, analyse_cfg_mcuopm_port_clear,
  analyse_cfg_mcuolp_port, analyse_unuse, analyse_cfg_mcuolp_port_clear,
  analyse_cfg_mcu_unite_opmosw, analyse_cfg_mcu_unite_opmosw_clear, analyse_cfg_mcu_unite_olposw,
  analyse_cfg_mcu_unite_olposw_clear, analyse_cfg_opm_ref_level, analyse_get_opmop,
  analyse_ret_opmop, analyse_cfg_olp_ref_level, analyse_ret_olpop, analyse_cfg_otdr_ref,
  analyse_cfg_mcuosw_cycle, analyse_get_otdr_test, analyse_ret_otdr_test, analyse_cfg_osw_mode,
  mcu_analyse_olp_switch, analyse_report_olp_action, analyse_alarm_opm, analyse_alarm_opm_change,
  analyse_alarm_line, analyse_alarm_hw, analyse_ret_otdr_cycle, analyse_send_sms, analyse_sms_error,
  analyse_get_version, analyse_ret_version, analyse_adjust_time, analyse_ack,
  analyse_del_all_tb_route, analyse_ret_otdr_param, analyse_get_dev_produce,
  analyse_ret_dev_produce, analyse_tb_route_insert, analyse_insert_tb_unit, analyse_del_tb_unit,
  analyse_del_all_tb_unit, analyse_insert_tb_cyc_test, analyse_del_tb_cyc_test,
  analyse_del_all_tb_cyc_test, analyse_del_tb_otdr_ref_data, analyse_del_all_tb_otdr_hist_data,
  analyse_get_device_composition_rt, analyse_alarm_sound_onoff, analyse_ret_total_op_alarm,
  analyse_ret_olp_action_log, analyse_get_mcuosw_port, analyse_get_otdr_ref, analyse_get_olp_line,
  analyse_get_olp_info,
}

-- `sg_analyse_0x8000xxxx`
unfoldable pub table_8000 : List Entry
table_8000 =
    row analyse_set_ip_address 1
    ∷ row analyse_get_serial_number 0
    ∷ row analyse_ret_serial_number 1
    ∷ row analyse_cfg_sms_authorization 0
    ∷ row analyse_clear_sms_authorization 0
    ∷ row analyse_get_device_composition 0
    ∷ row analyse_ret_device_composition 0
    ∷ row analyse_cfg_mcuosw_port 0
    ∷ row analyse_cfg_mcuopm_port_clear 0
    ∷ row analyse_cfg_mcuolp_port 0
    ∷ row analyse_unuse 8
    ∷ row analyse_unuse 8
    ∷ row analyse_unuse 8
    ∷ row analyse_unuse 8
    ∷ row analyse_unuse 8
    ∷ row analyse_unuse 8
    ∷ row analyse_cfg_mcuolp_port_clear 0
    ∷ row analyse_cfg_mcu_unite_opmosw 0
    ∷ row analyse_cfg_mcu_unite_opmosw_clear 0
    ∷ row analyse_cfg_mcu_unite_olposw 0
    ∷ row analyse_cfg_mcu_unite_olposw_clear 0
    ∷ row analyse_cfg_opm_ref_level 2
    ∷ row analyse_get_opmop 4
    ∷ row analyse_ret_opmop 5
    ∷ row analyse_cfg_olp_ref_level 0
    ∷ row analyse_unuse 2
    ∷ row analyse_unuse 8
    ∷ row analyse_unuse 8
    ∷ row analyse_unuse 8
    ∷ row analyse_unuse 8
    ∷ row analyse_unuse 8
    ∷ row analyse_unuse 8
    ∷ row analyse_ret_olpop 5
    ∷ row analyse_cfg_otdr_ref 0
    ∷ row analyse_cfg_mcuosw_cycle 0
    ∷ row analyse_get_otdr_test 9
    ∷ row analyse_ret_otdr_test 5
    ∷ row analyse_cfg_osw_mode 2
    ∷ row mcu_analyse_olp_switch 2
    ∷ row analyse_report_olp_action 5
    ∷ row analyse_alarm_opm 5
    ∷ row analyse_alarm_opm_change 5
    ∷ row analyse_unuse 8
    ∷ row analyse_unuse 8
    ∷ row analyse_unuse 8
    ∷ row analyse_unuse 8
    ∷ row analyse_unuse 8
    ∷ row analyse_unuse 8
    ∷ row analyse_alarm_line 0
    ∷ row analyse_alarm_hw 9
    ∷ row analyse_ret_otdr_cycle 0
    ∷ row analyse_send_sms 9
    ∷ row analyse_sms_error 5
    ∷ row analyse_get_version 2
    ∷ row analyse_ret_version 5
    ∷ row analyse_adjust_time 0
    ∷ row analyse_ack 5
    ∷ row analyse_unuse 9
    ∷ row analyse_unuse 8
    ∷ row analyse_unuse 8
    ∷ row analyse_unuse 8
    ∷ row analyse_unuse 8
    ∷ row analyse_unuse 8
    ∷ row analyse_unuse 8
    ∷ row analyse_ret_otdr_test 5
    ∷ row analyse_unuse 8
    ∷ row analyse_unuse 8
    ∷ row analyse_unuse 8
    ∷ row analyse_unuse 8
    ∷ row analyse_unuse 8
    ∷ row analyse_unuse 8
    ∷ row analyse_unuse 8
    ∷ row analyse_unuse 8
    ∷ row analyse_unuse 8
    ∷ row analyse_unuse 8
    ∷ row analyse_unuse 8
    ∷ row analyse_unuse 8
    ∷ row analyse_unuse 8
    ∷ row analyse_unuse 8
    ∷ row analyse_unuse 8
    ∷ row analyse_del_all_tb_route 2
    ∷ row analyse_ret_otdr_param 3
    ∷ row analyse_get_dev_produce 2
    ∷ row analyse_ret_dev_produce 5
    ∷ row analyse_tb_route_insert 0
    ∷ row analyse_del_all_tb_route 0
    ∷ row analyse_insert_tb_unit 0
    ∷ row analyse_del_tb_unit 0
    ∷ row analyse_del_all_tb_unit 0
    ∷ row analyse_insert_tb_cyc_test 0
    ∷ row analyse_unuse 8
    ∷ row analyse_unuse 8
    ∷ row analyse_unuse 8
    ∷ row analyse_unuse 8
    ∷ row analyse_unuse 8
    ∷ row analyse_unuse 8
    ∷ row analyse_del_tb_cyc_test 0
    ∷ row analyse_del_all_tb_cyc_test 0
    ∷ row analyse_del_tb_otdr_ref_data 0
    ∷ row analyse_del_all_tb_otdr_hist_data 0
    ∷ row analyse_unuse 8
    ∷ row analyse_get_device_composition_rt 0
    ∷ row analyse_ret_device_composition 3
    ∷ row analyse_ret_device_composition 0
    ∷ row analyse_unuse 8
    ∷ row analyse_unuse 2
    ∷ row analyse_unuse 8
    ∷ row analyse_unuse 8
    ∷ row analyse_unuse 8
    ∷ row analyse_unuse 8
    ∷ row analyse_unuse 8
    ∷ row analyse_unuse 8
    ∷ row analyse_unuse 3
    ∷ row analyse_unuse 0
    ∷ row analyse_unuse 8
    ∷ row analyse_alarm_sound_onoff 0
    ∷ row analyse_unuse 0
    ∷ row analyse_unuse 8
    ∷ row analyse_unuse 0
    ∷ row analyse_ret_total_op_alarm 8
    ∷ row analyse_unuse 0
    ∷ row analyse_unuse 0
    ∷ row analyse_unuse 8
    ∷ row analyse_unuse 8
    ∷ row analyse_unuse 8
    ∷ row analyse_unuse 8
    ∷ row analyse_unuse 8
    ∷ row analyse_unuse 8
    ∷ row analyse_ret_olp_action_log 8
    ∷ row analyse_unuse 0
    ∷ row analyse_unuse 8
    ∷ row analyse_get_mcuosw_port 0
    ∷ row analyse_unuse 8
    ∷ row analyse_get_otdr_ref 0
    ∷ row analyse_unuse 8
    ∷ row analyse_unuse 0
    ∷ row analyse_unuse 8
    ∷ row analyse_unuse 0
    ∷ row analyse_unuse 8
    ∷ row analyse_unuse 8
    ∷ row analyse_unuse 8
    ∷ row analyse_unuse 8
    ∷ row analyse_unuse 8
    ∷ row analyse_unuse 8
    ∷ row analyse_unuse 8
    ∷ row analyse_unuse 0
    ∷ row analyse_unuse 8
    ∷ row analyse_get_olp_line 0
    ∷ row analyse_unuse 8
    ∷ row analyse_get_olp_info 0
    ∷ row analyse_unuse 8
    ∷ []
