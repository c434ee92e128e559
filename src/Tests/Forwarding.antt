-- ===== src/Tests/Forwarding.antt =====
-- Forwarding and acknowledging (protocol/tmsxx.c) at concrete frames.
use tmsxx_tc.Prelude.{
  ◌<◌, ◌≡◌, refl, true, false, some, List, [], ◌∷◌, length, replicate, arith, leb, ltb,
  if◌then◌else◌, ◌==◌, ◌&&◌, not, none,
}
use tmsxx_tc.Glink.{GlinkBase, build, frame_bytes, frame_version, found, find_frame}
use tmsxx_tc.Glink.Wire.{htonl}
use tmsxx_tc.Devices.{DevBase, blank}
use tmsxx_tc.Devices.Lookup.{IsTable}
use tmsxx_tc.Managers.{
  Manager, free_entry, has_fd, occupy_first, enter_manage, add_manage, manage_count,
  select_fd_by_addr,
}
use tmsxx_tc.Forward.{
  transmit_to_manager, copy_to_use, send_all_manager, send_all_manager_dot, glink_4412_addr,
  glink_manage_addr,
}
use tmsxx_tc.Forward.Routes.{answer, transmit_to_manager-add_manage}
use tmsxx_tc.Forward.Broadcast.{
  reached, whole, joined, reached-send_all_manager, send_all_manager_dot-whole,
}
use tmsxx_tc.Forward.Header.{copy_to_use-build}
use tmsxx_tc.Replies.{GlinkAddr, TmsAck, ack_ex}
use tmsxx_tc.Replies.Acknowledged.{IsAck, read_as, reply, ack_ex-analyse_ack}

abbrev header : GlinkBase
header = record {
  pklen = 0;
  version = 0;
  src = 0x0b;
  dst = 0x3b;
  kind = 0;
  pkid = 5;
  reserve = 0;
  cmdid = 0;
  datalen = 0;
}

abbrev net : List DevBase
net = replicate 272 blank

net-IsTable : IsTable net
net-IsTable = refl

abbrev device : DevBase
device = record blank { fd = 9 }

-- One manager, and a free entry.
abbrev connected : List Manager
connected = record free_entry { fd = 11; fd_addr = 0x3c } ∷ free_entry ∷ []

connected-new : has_fd connected 13 ≡ false
unfolding has_fd
connected-new = refl

connected-room : manage_count connected < length connected
unfolding manage_count
connected-room = omega arith

connected-open : (add_manage true connected (some 0x3b) 13 1).closed ≡ none
unfolding add_manage enter_manage has_fd occupy_first
connected-open = refl

transmit_to_manager-add_manage_example :
    transmit_to_manager
      (add_manage true connected (some 0x3b) 13 1).table
      (frame_bytes (answer true connected 13 1 header 0x80000001 (7 ∷ [])) (7 ∷ []))
    ≡ (
      frame_bytes
          (record (answer true connected 13 1 header 0x80000001 (7 ∷ [])) {
            src = htonl glink_4412_addr;
            dst = htonl glink_manage_addr;
          })
          (7 ∷ []),
      some 13,
    )
transmit_to_manager-add_manage_example =
    transmit_to_manager-add_manage true connected 13 1 header 0x80000001 (7 ∷ [])
      (λ e. omega (arith, e)) (omega arith) (λ e. omega (arith, e)) (omega arith) refl connected-new
      refl connected-room connected-open

reached-send_all_manager_example : reached (send_all_manager connected header) 0x3c ≡ (
    if (leb 0x3a 0x3c && ltb 0x3c 0x40) && not (select_fd_by_addr connected (some 0x3c) == 0)
    then select_fd_by_addr connected (some 0x3c) ∷ []
    else [])
reached-send_all_manager_example = reached-send_all_manager connected header 0x3c

send_all_manager_dot-whole_example :
    joined (send_all_manager_dot connected header ((1 ∷ []) ∷ (2 ∷ 3 ∷ []) ∷ []))
    ≡ whole (1 ∷ 2 ∷ 3 ∷ []) (send_all_manager connected header)
send_all_manager_dot-whole_example =
    send_all_manager_dot-whole connected header ((1 ∷ []) ∷ (2 ∷ 3 ∷ []) ∷ [])

copy_to_use-build_example :
    copy_to_use (frame_bytes (build header 0x80000001 1) (7 ∷ []))
    ≡ frame_bytes
        (record header { pklen = 41; version = frame_version; cmdid = 0x80000001; datalen = 9 })
        (7 ∷ [])
copy_to_use-build_example =
    copy_to_use-build header 0x80000001 (7 ∷ []) (omega arith) (omega arith) (omega arith)
      (omega arith) (omega arith)

abbrev refusal : TmsAck
refusal = record {
  errcode = 6;
  cmdid = 0x80000001;
  reserve1 = 1;
  reserve2 = 2;
  reserve3 = 3;
  reserve4 = 4;
}

refusal-IsAck : IsAck refusal
refusal-IsAck = record {
  errcode = omega arith;
  cmdid = omega arith;
  reserve1 = omega arith;
  reserve2 = omega arith;
  reserve3 = omega arith;
  reserve4 = omega arith;
}

abbrev peer : GlinkAddr
peer = record { src = 0x0e; dst = 0x3c; pkid = 5 }

ack_ex-analyse_ack_example :
    let c = reply 0x0a 0x0e (λ i. 0) connected header 0 peer refusal in
    (ack_ex 0x0a 0x0e connected header 0 (some peer) refusal ≡ some c)
    × (find_frame (λ i. 0) (frame_bytes c.base c.payload) 64 ≡ (found, 64))
    × (read_as c.base c.payload ≡ refusal)
    × (c.fd ≡ (if 0 == 0 then select_fd_by_addr connected (some 0x3c) else 0))
ack_ex-analyse_ack_example =
    ack_ex-analyse_ack 0x0a 0x0e (λ i. 0) connected header 0 peer refusal refusal-IsAck

-- A header as it stands in a received frame.
abbrev from_device : GlinkBase
from_device = record header {
  src = 0x0b000000;
  dst = 0x0a000000;
  cmdid = 0x10000000;
  pkid = 0x0500;
}

from_device-addr : htonl from_device.src ≡ 0x0b
unfolding htonl
from_device-addr = refl
