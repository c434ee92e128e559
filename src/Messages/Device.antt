-- ===== src/Messages/Device.antt =====
-- protocol/tmsxx.c: messages that name a device by its place, `struct tms_dev_port` or a first part of it.
use tmsxx_tc.Prelude.{ℕ, List, [], ◌∷◌}
use tmsxx_tc.Glink.Wire.{load32}
use tmsxx_tc.Devices.{DevBase, add_dev}
use tmsxx_tc.Messages.{Message, wire, swapped, times, on_data}
use tmsxx_tc.Messages.Structures.{
  dev_port_items, RetDevType, ret_dev_type_items, ret_dev_type_parts,
}

abbrev pub dev_mcu : ℕ
dev_mcu = 2

abbrev pub dev_opm : ℕ
dev_opm = 3

abbrev pub dev_osw : ℕ
dev_osw = 4

abbrev pub dev_otdr : ℕ
dev_otdr = 5

abbrev pub dev_olp : ℕ
dev_olp = 7

-- `tms_MCUtoDevice`: `len` bytes of the structure are sent.
abbrev pub mcu_to_device : ℕ → ℕ → ℕ → ℕ → ℕ → ℕ → Message
mcu_to_device frame slot kind port cmdid len = record {
  cmdid = cmdid;
  len = len;
  memory = wire (dev_port_items (record { frame = frame; slot = slot; kind = kind; port = port }));
}

-- ID_GET_DEVTYPE
abbrev pub mcu_get_device_type : Message
mcu_get_device_type = mcu_to_device 0 0 dev_opm 0 0x60000000 0

-- ID_RET_DEVTYPE; the type and the port that it is given are not used.
abbrev pub mcu_ret_device_type : ℕ → ℕ → ℕ → ℕ → Message
mcu_ret_device_type frame slot kind port = mcu_to_device frame slot dev_opm 0 0x60000001 16

abbrev pub mcu_ret_device_type_v2 : RetDevType → Message
mcu_ret_device_type_v2 v = record {
  cmdid = 0x60000001;
  len = 32;
  memory = wire (ret_dev_type_items v);
}

-- ID_GET_OPM_OLP_RAYPOWER
abbrev pub mcu_get_opm_alarm : ℕ → ℕ → Message
mcu_get_opm_alarm frame slot = mcu_to_device frame slot dev_opm 0 0x60000004 12

abbrev pub mcu_get_olp_alarm : ℕ → ℕ → Message
mcu_get_olp_alarm frame slot = mcu_to_device frame slot dev_olp 0 0x60000004 12

-- ID_CMD_OSW_SWITCH, ID_CMD_OLP_REQ_OTDR, ID_CMD_OLP_START_OTDR, ID_CMD_OLP_FINISH_OTDR
abbrev pub mcu_osw_switch : ℕ → ℕ → ℕ → Message
mcu_osw_switch frame slot port = mcu_to_device frame slot dev_osw port 0x60000005 16

abbrev pub mcu_olp_req_otdr_test : ℕ → ℕ → ℕ → Message
mcu_olp_req_otdr_test frame slot port = mcu_to_device frame slot dev_olp port 0x60000006 16

abbrev pub mcu_olp_start_otdr_test : ℕ → ℕ → ℕ → Message
mcu_olp_start_otdr_test frame slot port = mcu_to_device frame slot dev_olp port 0x60000007 16

abbrev pub mcu_olp_finish_otdr_test : ℕ → ℕ → ℕ → Message
mcu_olp_finish_otdr_test frame slot port = mcu_to_device frame slot dev_olp port 0x60000008 16

-- ID_CFG_SMS_CLEAR, ID_GET_COMPOSITION
abbrev pub clear_sms_authorization : Message
clear_sms_authorization = mcu_to_device 0 0 0 0 0x80000004 0

abbrev pub get_device_composition : Message
get_device_composition = mcu_to_device 0 0 0 0 0x80000005 0

-- ID_GET_OPM_OP, both for the optical power of an OPM and of an OLP.
abbrev pub get_opm_op : ℕ → ℕ → Message
get_opm_op frame slot = mcu_to_device frame slot dev_opm 0 0x80000016 12

abbrev pub get_olp_op : ℕ → ℕ → Message
get_olp_op frame slot = mcu_to_device frame slot dev_opm 0 0x80000016 12

-- ID_CMD_OLP_SWITCH
abbrev pub mcu_olp_switch : ℕ → ℕ → ℕ → Message
mcu_olp_switch frame slot sw_port = mcu_to_device frame slot dev_olp sw_port 0x80000026 16

-- `tms_AnalyseMCUtoDevice`: as many words as `len` says.
unfoldable pub analyse_mcu_to_device : ℕ → List ℕ → List ℕ
analyse_mcu_to_device len pdata = on_data (λ bs. times len (swapped ∷ [])) pdata

-- The callers of it: `len` is the size of the structure in bytes.
abbrev pub analyse_mcu_osw_switch : List ℕ → List ℕ
analyse_mcu_osw_switch pdata = analyse_mcu_to_device 16 pdata

abbrev pub analyse_mcu_olp_req_otdr_test : List ℕ → List ℕ
analyse_mcu_olp_req_otdr_test pdata = analyse_mcu_to_device 16 pdata

abbrev pub analyse_clear_sms_authorization : List ℕ → List ℕ
analyse_clear_sms_authorization pdata = analyse_mcu_to_device 0 pdata

unfoldable pub analyse_get_opm_olp_ray_power : List ℕ → List ℕ
analyse_get_opm_olp_ray_power pdata = on_data (λ bs. swapped ∷ swapped ∷ swapped ∷ []) pdata

unfoldable pub analyse_get_dev_type : List ℕ → List ℕ
analyse_get_dev_type pdata = on_data (λ bs. swapped ∷ swapped ∷ []) pdata

unfoldable pub analyse_get_opm_op : List ℕ → List ℕ
analyse_get_opm_op pdata = on_data (λ bs. swapped ∷ swapped ∷ []) pdata

-- `tms_AnalyseRetDevType`: the frame, and the table of devices. `fd` is the connection.
unfoldable pub analyse_ret_dev_type : List DevBase → ℕ → List ℕ → List ℕ × List DevBase
analyse_ret_dev_type net fd pdata =
    let d = on_data (λ bs. ret_dev_type_parts) pdata in
    (
      d,
      add_dev net (load32 d 36) (load32 d 40) (record {
        fd = fd;
        frame = load32 d 36;
        slot = load32 d 40;
        port = load32 d 48;
        kind = load32 d 44;
        wave = load32 d 52;
        reserved0 = load32 d 56;
        reserved1 = load32 d 60;
        reserved2 = load32 d 64;
      }),
    )
