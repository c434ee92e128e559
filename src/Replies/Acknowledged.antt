-- ===== src/Replies/Acknowledged.antt =====
-- What a peer reads in the acknowledgements of protocol/tmsxx.c.
use mathlib.Core.List.{append-nil}
use tmsxx_tc.Prelude.{
  ℕ, ◌+◌, ◌/◌, ◌%◌, ◌*◌, ◌^◌, ◌<◌, ◌≡◌, refl, ap, sym, ◌∙◌, some, List, [], arith, ◌==◌,
  if◌then◌else◌,
}
use tmsxx_tc.Glink.{GlinkBase, build, base_bytes, frame_bytes, found, find_frame}
use tmsxx_tc.Glink.Wire.{htonl, htons, store32, store16, load32, htonl-htonl, htonl-lt}
use tmsxx_tc.Glink.Find.{find_frame-frame}
use tmsxx_tc.Managers.{Manager, select_fd_by_addr}
use tmsxx_tc.Forward.{load16}
use tmsxx_tc.Replies.{
  GlinkAddr, TmsAck, Call, acknowledge, ack_bytes, ack_exchanged, fill_glink_frame, ack_ex,
  ack_device, analyse_ack, id_cmd_ack, glink_dev_addr,
}

-- The fields are words.
pub record IsAck (a : TmsAck) : Type 0 where
  pub errcode : a.errcode < 2 ^ 32
  pub cmdid : a.cmdid < 2 ^ 32
  pub reserve1 : a.reserve1 < 2 ^ 32
  pub reserve2 : a.reserve2 < 2 ^ 32
  pub reserve3 : a.reserve3 < 2 ^ 32
  pub reserve4 : a.reserve4 < 2 ^ 32

-- What a frame with this header and data is read as.
abbrev pub read_as : GlinkBase → List ℕ → TmsAck
read_as b payload = analyse_ack (frame_bytes b payload)

read_ack : (b : GlinkBase) (a : TmsAck) → IsAck a → read_as b (ack_bytes a) ≡ ack_exchanged a
unfolding analyse_ack frame_bytes base_bytes store32 store16 load32
read_ack b a v =
    rw
      (
        word a.errcode v.errcode,
        word a.cmdid v.cmdid,
        word a.reserve1 v.reserve1,
        word a.reserve2 v.reserve2,
        word a.reserve3 v.reserve3,
        word a.reserve4 v.reserve4,
      )
      refl
  where
    word :
        (w : ℕ)
        → w < 2 ^ 32
        → w % 2 ^ 8
            + w / 2 ^ 8 % 2 ^ 8 * 2 ^ 8
            + w / 2 ^ 16 % 2 ^ 8 * 2 ^ 16
            + w / 2 ^ 24 % 2 ^ 8 * 2 ^ 24
          ≡ w
    word w h = omega arith

exchanged-IsAck : (a : TmsAck) → IsAck (ack_exchanged a)
exchanged-IsAck a = record {
  errcode = htonl-lt a.errcode;
  cmdid = htonl-lt a.cmdid;
  reserve1 = htonl-lt a.reserve1;
  reserve2 = htonl-lt a.reserve2;
  reserve3 = htonl-lt a.reserve3;
  reserve4 = htonl-lt a.reserve4;
}

exchanged_twice : (a : TmsAck) → IsAck a → ack_exchanged (ack_exchanged a) ≡ a
exchanged_twice a v =
    rw
      (
        htonl-htonl a.errcode v.errcode,
        htonl-htonl a.cmdid v.cmdid,
        htonl-htonl a.reserve1 v.reserve1,
        htonl-htonl a.reserve2 v.reserve2,
        htonl-htonl a.reserve3 v.reserve3,
        htonl-htonl a.reserve4 v.reserve4,
      )
      refl

module _ (local remote : ℕ) (outside : ℕ → ℕ) (ms : List Manager) (base : GlinkBase) (fd : ℕ)
    (paddr : GlinkAddr) (pack : TmsAck) where
  abbrev pub reply : Call
  reply =
      acknowledge local remote base (if fd == 0 then select_fd_by_addr ms (some paddr.dst) else fd)
        (some paddr) pack

  -- For an address and an acknowledgement of words ack_ex comes to one call of send, whose frame
  -- is found by find_frame with 64 bytes, and analyse_ack reads that acknowledgement from it; it
  -- goes to the given descriptor, or, if that is 0, to the one that select_fd_by_addr gives for
  -- the destination.
  pub ack_ex-analyse_ack :
      IsAck pack
      → (ack_ex local remote ms base fd (some paddr) pack ≡ some reply)
        × (find_frame outside (frame_bytes reply.base reply.payload) 64 ≡ (found, 64))
        × (read_as reply.base reply.payload ≡ pack)
        × (reply.fd ≡ (if fd == 0 then select_fd_by_addr ms (some paddr.dst) else fd))
  unfolding ack_ex acknowledge store32
  ack_ex-analyse_ack v = (
    refl,
    ap (λ bs. find_frame outside bs 64) (sym (append-nil (frame_bytes reply.base reply.payload)))
        ∙ find_frame-frame outside (fill_glink_frame local remote base (some paddr)) id_cmd_ack
            (ack_bytes (ack_exchanged pack)) [] (omega arith),
    read_ack reply.base (ack_exchanged pack) (exchanged-IsAck pack) ∙ exchanged_twice pack v,
    refl,
  )

header_at :
    (b : GlinkBase) (payload : List ℕ)
    → b.src < 2 ^ 32
    → b.dst < 2 ^ 32
    → b.cmdid < 2 ^ 32
    → (load32 (frame_bytes b payload) 12 ≡ b.src)
      × (load32 (frame_bytes b payload) 16 ≡ b.dst)
      × (load32 (frame_bytes b payload) 28 ≡ b.cmdid)
unfolding frame_bytes base_bytes store32 store16 load32
header_at b payload hs hd hc = (omega arith, omega arith, omega arith)

-- The exchange of 32 bits leaves nothing of 16 in the lower half.
htonl_short : (v : ℕ) → v < 2 ^ 16 → htonl v % 2 ^ 16 ≡ 0
unfolding htonl
htonl_short v h = omega arith

htonl-zero : htonl 0 ≡ 0
unfolding htonl
htonl-zero = refl

module _ (local remote : ℕ) (ms : List Manager) (base : GlinkBase) (fd : ℕ) (b : GlinkBase)
    (payload : List ℕ) where
  abbrev acknowledgement : Call
  acknowledgement =
      reply local remote (λ i. 0) ms base fd
        (record { pkid = 0; src = htonl b.dst; dst = htonl b.src })
        (record {
          cmdid = htonl b.cmdid;
          errcode = htonl 0;
          reserve1 = 0;
          reserve2 = 0;
          reserve3 = 0;
          reserve4 = 0;
        })

  acknowledgement-pkid : acknowledgement.base.pkid ≡ 0
  unfolding acknowledge fill_glink_frame build htons
  acknowledgement-pkid = refl

  acknowledgement-IsAck : IsAck (record {
    cmdid = htonl b.cmdid;
    errcode = htonl 0;
    reserve1 = 0;
    reserve2 = 0;
    reserve3 = 0;
    reserve4 = 0;
  })
  acknowledgement-IsAck = record {
    cmdid = htonl-lt b.cmdid;
    errcode = htonl-lt 0;
    reserve1 = omega arith;
    reserve2 = omega arith;
    reserve3 = omega arith;
    reserve4 = omega arith;
  }

  -- For a frame from the address 0x0b (the header in words) ack_device sends an acknowledgement
  -- that names the command of the frame with code 0; its packet number is 0, whatever that of the
  -- frame was.
  pub ack_device-analyse_ack :
      b.src < 2 ^ 32
      → b.dst < 2 ^ 32
      → b.cmdid < 2 ^ 32
      → htonl b.src ≡ glink_dev_addr
      → (c : Call) × (ack_device local remote ms base fd (frame_bytes b payload) ≡ some c)
        × (c.base.pkid ≡ 0)
        × ((read_as c.base c.payload).errcode ≡ 0)
        × ((read_as c.base c.payload).cmdid ≡ htonl b.cmdid)
  unfolding ack_device
  ack_device-analyse_ack hs hd hc from =
      let told =
        (ack_ex-analyse_ack local remote (λ i. 0) ms base fd
          (record { pkid = 0; src = htonl b.dst; dst = htonl b.src }) _ acknowledgement-IsAck) in
      let at = header_at b payload hs hd hc in
      (
        acknowledgement,
        rw (at.0, at.1, at.2, htonl_short (load16 (frame_bytes b payload) 22) (omega arith), from)
            refl,
        acknowledgement-pkid,
        ap (λ a. a.errcode) told.2 ∙ htonl-zero,
        ap (λ a. a.cmdid) told.2,
      )
