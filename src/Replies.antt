-- ===== src/Replies.antt =====
-- protocol/tmsxx.c: the heartbeat and the acknowledgements. `local` and `remote` are the addresses
-- TMS_DEFAULT_LOCAL_ADDR and TMS_DEFAULT_RMOTE_ADDR, which the configuration chooses.
pub mod Acknowledged
use tmsxx_tc.Prelude.{
  ℕ, ◌%◌, ◌^◌, Option, none, some, List, [], ◌∷◌, ◌++◌, length, ◌==◌, not, if◌then◌else◌,
}
use tmsxx_tc.Glink.{GlinkBase, build}
use tmsxx_tc.Glink.Wire.{htonl, store32, load32}
use tmsxx_tc.Managers.{Manager, select_fd_by_addr}
use tmsxx_tc.Forward.{load16}

-- `struct glink_addr`
pub record GlinkAddr : Type 0 where
  pub src : ℕ
  pub dst : ℕ
  pub pkid : ℕ

-- `struct tms_ack`
pub record TmsAck : Type 0 where
  pub errcode : ℕ
  pub cmdid : ℕ
  pub reserve1 : ℕ
  pub reserve2 : ℕ
  pub reserve3 : ℕ
  pub reserve4 : ℕ

abbrev pub id_tick : ℕ
id_tick = 0x10000000

abbrev pub id_cmd_ack : ℕ
id_cmd_ack = 0x80000038

-- GLINK_DEV_ADDR
abbrev pub glink_dev_addr : ℕ
glink_dev_addr = 0x0b

-- The bytes of a `struct tms_ack` in memory.
abbrev pub ack_bytes : TmsAck → List ℕ
ack_bytes a =
    store32 a.errcode
    ++ (store32 a.cmdid
        ++ (store32 a.reserve1
            ++ (store32 a.reserve2 ++ (store32 a.reserve3 ++ store32 a.reserve4))))

abbrev pub ack_exchanged : TmsAck → TmsAck
ack_exchanged a = record {
  errcode = htonl a.errcode;
  cmdid = htonl a.cmdid;
  reserve1 = htonl a.reserve1;
  reserve2 = htonl a.reserve2;
  reserve3 = htonl a.reserve3;
  reserve4 = htonl a.reserve4;
}

-- What `glink_Send` is called with.
pub record Call : Type 0 where
  pub fd : ℕ
  pub base : GlinkBase
  pub payload : List ℕ

module _ (local remote : ℕ) where
  -- `tms_FillGlinkFrame`; `none` is a NULL `paddr`.
  unfoldable pub fill_glink_frame : GlinkBase → Option GlinkAddr → GlinkBase
  fill_glink_frame base none = record base { src = local; dst = remote; pkid = 0 }
  fill_glink_frame base (some a) = record base { src = a.src; dst = a.dst; pkid = a.pkid }

  -- `tms_Tick`; `base` is the header before it is filled in. The descriptor that is looked up where
  -- `fd` is 0 is not used.
  unfoldable pub tick : GlinkBase → ℕ → Option GlinkAddr → Call
  unfolding fill_glink_frame
  tick base fd paddr = record {
    fd = fd;
    base = build (fill_glink_frame base paddr) id_tick 0;
    payload = [];
  }

  -- `tms_Ack`, likewise; `reserved` is what its `ack` holds in the fields that are not set.
  unfoldable pub ack : GlinkBase → TmsAck → ℕ → Option GlinkAddr → ℕ → ℕ → Call
  unfolding fill_glink_frame
  ack base reserved fd paddr errcode cmdid = record {
    fd = fd;
    base = build (fill_glink_frame base paddr) id_cmd_ack 24;
    payload = ack_bytes (record reserved { errcode = htonl errcode; cmdid = htonl cmdid });
  }

  -- The call that `tms_AckEx` ends in.
  unfoldable pub acknowledge : GlinkBase → ℕ → Option GlinkAddr → TmsAck → Call
  unfolding fill_glink_frame
  acknowledge base fd paddr pack = record {
    fd = fd;
    base = build (fill_glink_frame base paddr) id_cmd_ack 24;
    payload = ack_bytes (ack_exchanged pack);
  }

  -- `tms_AckEx`; with a NULL `paddr` and an `fd` of 0 it reads through NULL (`none`).
  unfoldable pub ack_ex : List Manager → GlinkBase → ℕ → Option GlinkAddr → TmsAck → Option Call
  unfolding acknowledge
  ack_ex ms base fd none pack = if fd == 0 then none else some (acknowledge base fd none pack)
  ack_ex ms base fd (some paddr) pack = some (
      acknowledge base (if fd == 0 then select_fd_by_addr ms (some paddr.dst) else fd) (some paddr)
        pack)

  -- `tms_AckDevice`: the call of `glink_Send` that it comes to for a frame from a device.
  -- `htonl(pkid)` is cut to the 16 bits of the field that it is stored in.
  unfoldable pub ack_device : List Manager → GlinkBase → ℕ → List ℕ → Option Call
  unfolding ack_ex
  ack_device ms base fd pdata =
      if not (htonl (load32 pdata 12) == glink_dev_addr)
      then none
      else ack_ex ms base fd
          (some (record {
            pkid = htonl (load16 pdata 22) % 2 ^ 16;
            src = htonl (load32 pdata 16);
            dst = htonl (load32 pdata 12);
          }))
          (record {
            cmdid = htonl (load32 pdata 28);
            errcode = htonl 0;
            reserve1 = 0;
            reserve2 = 0;
            reserve3 = 0;
            reserve4 = 0;
          })

-- `tms_AnalyseAck`: what it makes of the data of the frame.
unfoldable pub analyse_ack : List ℕ → TmsAck
analyse_ack pdata = record {
  errcode = htonl (load32 pdata 36);
  cmdid = htonl (load32 pdata 40);
  reserve1 = htonl (load32 pdata 44);
  reserve2 = htonl (load32 pdata 48);
  reserve3 = htonl (load32 pdata 52);
  reserve4 = htonl (load32 pdata 56);
}
