-- ===== src/Dispatch/Handlers.antt =====
-- The analysers of protocol/tmsxx.c that frames are handed to, by name, and the rows of its tables.
use tmsxx_tc.Prelude.{ℕ}

-- The functions that `ptrfun` points to.
pub data Handler : Type 0 where
  analyse_tick analyse_update analyse_trace analyse_command analyse_test_packet_save
        analyse_test_packet_echo analyse_test_packet_ack analyse_get_dev_type analyse_ret_dev_type
        analyse_cu_note_net analyse_cu_note_manage_connect analyse_get_opmolp_ray_power
        analyse_mcuosw_switch analyse_mcuolp_req_otdr_test analyse_unuse analyse_any_ret_otdr_test
        analyse_ret_dev_state_from_tu analyse_ret_power_state_from_tu analyse_dev_ret_mcu_alarm
        analyse_set_ip_address analyse_get_serial_number analyse_ret_serial_number
        analyse_cfg_sms_authorization analyse_clear_sms_authorization analyse_get_device_composition
        analyse_ret_device_composition analyse_cfg_mcuosw_port analyse_cfg_mcuopm_port_clear
        analyse_cfg_mcuolp_port analyse_cfg_mcuolp_port_clear analyse_cfg_mcu_unite_opmosw
        analyse_cfg_mcu_unite_opmosw_clear analyse_cfg_mcu_unite_olposw
        analyse_cfg_mcu_unite_olposw_clear analyse_cfg_opm_ref_level analyse_get_opmop
        analyse_ret_opmop analyse_cfg_olp_ref_level analyse_ret_olpop analyse_cfg_otdr_ref
        analyse_cfg_mcuosw_cycle analyse_get_otdr_test analyse_ret_otdr_test analyse_cfg_osw_mode
        mcu_analyse_olp_switch analyse_report_olp_action analyse_alarm_opm analyse_alarm_opm_change
        analyse_alarm_line analyse_alarm_hw analyse_ret_otdr_cycle analyse_send_sms
        analyse_sms_error analyse_get_version analyse_ret_version analyse_adjust_time analyse_ack
        analyse_del_all_tb_route analyse_ret_otdr_param analyse_get_dev_produce
        analyse_ret_dev_produce analyse_tb_route_insert analyse_insert_tb_unit analyse_del_tb_unit
        analyse_del_all_tb_unit analyse_insert_tb_cyc_test analyse_del_tb_cyc_test
        analyse_del_all_tb_cyc_test analyse_del_tb_otdr_ref_data analyse_del_all_tb_otdr_hist_data
        analyse_get_device_composition_rt analyse_alarm_sound_onoff analyse_ret_total_op_alarm
        analyse_ret_olp_action_log analyse_get_mcuosw_port analyse_get_otdr_ref analyse_get_olp_line
        analyse_get_olp_info :
      Handler

-- `struct tms_analyse_array`
pub record Entry : Type 0 where
  pub handler : Handler
  pub dowhat : ℕ

-- A row of a table.
abbrev pub row : Handler → ℕ → Entry
row h n = record { handler = h; dowhat = n }
