-- ===== src/Dispatch/Device.antt =====
-- The tables of protocol/tmsxx.c for the commands 0x1000xxxx, 0x2000xxxx and 0x6000xxxx.
use tmsxx_tc.Prelude.{List, [], ◌∷◌}
use tmsxx_tc.Dispatch.Handlers.{
  Entry, row, analyse_tick, analyse_update, analyse_trace, analyse_command,
  analyse_test_packet_save, analyse_test_packet_echo, analyse_test_packet_ack, analyse_get_dev_type,
  analyse_ret_dev_type, analyse_cu_note_net, analyse_cu_note_manage_connect,
  analyse_get_opmolp_ray_power, analyse_mcuosw_switch, analyse_mcuolp_req_otdr_test, analyse_unuse,
  analyse_any_ret_otdr_test, analyse_ret_dev_state_from_tu, analyse_ret_power_state_from_tu,
  analyse_dev_ret_mcu_alarm,
}

-- `sg_analyse_0x1000xxxx`
unfoldable pub table_1000 : List Entry
table_1000 =
    row analyse_tick 1
    ∷ row analyse_update 4
    ∷ row analyse_trace 1
    ∷ row analyse_trace 1
    ∷ row analyse_trace 1
    ∷ row analyse_command 1
    ∷ row analyse_command 1
    ∷ []

-- `sg_analyse_0x2000xxxx`
unfoldable pub table_2000 : List Entry
table_2000 =
    row analyse_test_packet_save 1
    ∷ row analyse_test_packet_echo 1
    ∷ row analyse_test_packet_ack 1
    ∷ []

-- `sg_analyse_0x6000xxxx`
unfoldable pub table_6000 : List Entry
table_6000 =
    row analyse_get_dev_type 9
    ∷ row analyse_ret_dev_type 5
    ∷ row analyse_cu_note_net 1
    ∷ row analyse_cu_note_manage_connect 0
    ∷ row analyse_get_opmolp_ray_power 2
    ∷ row analyse_mcuosw_switch 2
    ∷ row analyse_mcuolp_req_otdr_test 0
    ∷ row analyse_unuse 2
    ∷ row analyse_unuse 2
    ∷ row analyse_unuse 8
    ∷ row analyse_unuse 8
    ∷ row analyse_unuse 8
    ∷ row analyse_unuse 8
    ∷ row analyse_unuse 8
    ∷ row analyse_unuse 8
    ∷ row analyse_unuse 8
    ∷ row analyse_any_ret_otdr_test 0
    ∷ row analyse_unuse 8
    ∷ row analyse_ret_dev_state_from_tu 0
    ∷ row analyse_unuse 8
    ∷ row analyse_ret_power_state_from_tu 0
    ∷ row analyse_unuse 8
    ∷ row analyse_dev_ret_mcu_alarm 0
    ∷ row analyse_dev_ret_mcu_alarm 0
    ∷ []
