-- ===== src/Forward.antt =====
-- protocol/tmsxx.c: the functions that hand a frame on to a device, to a manager, to all managers or
-- to the application. A frame is its bytes, head and tail tag included; `pdata` of the source. What is
-- handed to the senders of protocol/glink.c stands in the result.
pub mod Routes
pub mod Broadcast
pub mod Header
use tmsxx_tc.Prelude.{
  ℕ, zero, suc, ◌+◌, ◌/◌, ◌%◌, ◌^◌, Bool, Option, none, some, List, [], ◌∷◌, ◌++◌, map, ◌==◌, ◌||◌,
  not, if◌then◌else◌,
}
use tmsxx_tc.Prelude.Blocks.{write_at}
use tmsxx_tc.Glink.{GlinkBase, base_bytes, frame_head_tag, frame_tail_tag}
use tmsxx_tc.Glink.Wire.{htonl, htons, store32, store16, load32}
use tmsxx_tc.Devices.{DevBase, blank, get_dev_base_by_location}
use tmsxx_tc.Managers.{Manager, select_fd_by_addr}

abbrev pub glink_manage_addr : ℕ
glink_manage_addr = 0x3e

abbrev pub glink_4412_addr : ℕ
glink_4412_addr = 0x0a

-- `GLINK_MASK_MADDR != (dst & GLINK_MASK_MADDR)`, negated: bits 4 and 5 are set.
abbrev pub is_manager : ℕ → Bool
is_manager dst = dst / 2 ^ 4 % 2 ^ 2 == 3

-- `tms_Transmit2Dev`: the descriptor that the frame is sent to, if it is sent.
unfoldable pub transmit_to_dev : List DevBase → List ℕ → Option ℕ
transmit_to_dev net pdata =
    let fd =
      (get_dev_base_by_location net (htonl (load32 pdata 36)) (htonl (load32 pdata 40)) blank).0 in
    if fd == 0 then none else some fd

-- `tms_Transmit2Manager`: the frame, with its addresses exchanged, and the descriptor that it is sent
-- to, if it is sent.
unfoldable pub transmit_to_manager : List Manager → List ℕ → List ℕ × Option ℕ
transmit_to_manager ms pdata =
    let src = htonl (load32 pdata 12) in
    let dst = htonl (load32 pdata 16) in
    if dst == glink_4412_addr || src == glink_4412_addr || not (is_manager dst)
    then (pdata, none)
    else (
      write_at (write_at pdata 16 (store32 (htonl glink_manage_addr))) 12
          (store32 (htonl glink_4412_addr)),
      (if select_fd_by_addr ms (some dst) == 0
          then none
          else some (select_fd_by_addr ms (some dst))),
    )

-- The loop `for (dst = …; dst <= 0x3f; dst++)` of `tms_SendAllManager`, over `n` addresses: the
-- descriptors and headers that `glink_Send` is called with.
unfoldable pub send_loop : ℕ → ℕ → List Manager → GlinkBase → List (ℕ × GlinkBase)
send_loop zero dst ms base = []
send_loop (suc n) dst ms base =
    let fd = select_fd_by_addr ms (some dst) in
    let sent =
      (fd, record base { dst = htonl dst })
      ∷ send_loop n (dst + 1) ms (record base { dst = htonl dst }) in
    let rest = send_loop n (dst + 1) ms base in if fd == 0 then rest else sent

-- `tms_SendAllManager`: the addresses 0x3a to 0x3f.
unfoldable pub send_all_manager : List Manager → GlinkBase → List (ℕ × GlinkBase)
unfolding send_loop
send_all_manager ms base = send_loop 6 0x3a ms base

-- What `tms_SendAllManagerDot` sends to one manager, piece by piece: `glink_SendHead`, the groups,
-- `glink_SendTail`.
abbrev pub pieces : GlinkBase → List (List ℕ) → List (List ℕ)
pieces base groups =
    store32 (htonl frame_head_tag)
    ∷ base_bytes base
    ∷ (groups ++ (store32 (htonl frame_tail_tag) ∷ []))

-- The loop of `tms_SendAllManagerDot`.
unfoldable pub send_dot_loop :
    ℕ → ℕ → List Manager → GlinkBase → List (List ℕ) → List (ℕ × List (List ℕ))
send_dot_loop zero dst ms base groups = []
send_dot_loop (suc n) dst ms base groups =
    let fd = select_fd_by_addr ms (some dst) in
    let sent =
      (fd, pieces (record base { dst = htonl dst }) groups)
      ∷ send_dot_loop n (dst + 1) ms (record base { dst = htonl dst }) groups in
    let rest = send_dot_loop n (dst + 1) ms base groups in if fd == 0 then rest else sent

-- `tms_SendAllManagerDot`
unfoldable pub send_all_manager_dot :
    List Manager → GlinkBase → List (List ℕ) → List (ℕ × List (List ℕ))
unfolding send_dot_loop
send_all_manager_dot ms base groups = send_dot_loop 6 0x3a ms base groups

-- The exchange of a field in place, of four bytes and of two.
abbrev pub swap32 : ℕ → List ℕ → List ℕ
swap32 i bs = write_at bs i (store32 (htonl (load32 bs i)))

abbrev pub load16 : List ℕ → ℕ → ℕ
load16 bs i = load32 bs i % 2 ^ 16

abbrev pub swap16 : ℕ → List ℕ → List ℕ
swap16 i bs = write_at bs i (store16 (htons (load16 bs i)))

-- `tms_Copy2Use`: the frame with its header in the order of the machine. The application gets it from
-- the command on, and the value of its field `datalen`.
unfoldable pub copy_to_use : List ℕ → List ℕ
copy_to_use pdata = swap32 32 (
    swap32 28
      (swap32 24 (swap16 22 (swap16 20 (swap32 16 (swap32 12 (swap32 8 (swap32 4 pdata))))))))
