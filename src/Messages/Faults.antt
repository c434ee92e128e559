-- ===== src/Messages/Faults.antt =====
-- Analysers and senders of protocol/tmsxx.c that leave something wrong.
use tmsxx_tc.Prelude.{
  ℕ, zero, suc, ◌+◌, ◌*◌, ◌%◌, ◌^◌, ◌≤◌, ◌<◌, ◌≡◌, refl, subst, true, some, List, [], ◌∷◌, ◌++◌,
  arith, leb,
}
use tmsxx_tc.Prelude.Words.{sub32}
use tmsxx_tc.Glink.{GlinkBase, build, base_bytes, frame_bytes, frame_tail_tag}
use tmsxx_tc.Glink.Wire.{htonl, store32, store16, load32, htonl-lt}
use tmsxx_tc.Managers.{Manager, select_fd, select_fd_by_addr}
use tmsxx_tc.Replies.{GlinkAddr, fill_glink_frame}
use tmsxx_tc.Messages.{Message, wire, exchange, check_ptr, post, addressee}
use tmsxx_tc.Messages.Structures.{DevPort, dev_port_items}
use tmsxx_tc.Messages.Measures.{GetotdrTestHdr, GetotdrTestParam, AlarmOpmVal}
use tmsxx_tc.Messages.Device.{analyse_mcu_to_device, analyse_mcu_osw_switch, dev_opm}
use tmsxx_tc.Messages.Alarm.{
  any_get_otdr_test, analyse_any_get_otdr_test, alarm_opm, analyse_alarm_opm,
}

-- Where the frame of a switching command is followed by another frame, analyse_mcu_osw_switch goes
-- on behind its frame and reverses the head tag of the next one, which then reads as a tail tag.
pub analyse_mcu_osw_switch-next :
    (b b' : GlinkBase) (v : DevPort) (payload : List ℕ)
    → htonl (
        load32
          (analyse_mcu_osw_switch
            (frame_bytes b (wire (dev_port_items v)) ++ frame_bytes b' payload))
          56)
      ≡ frame_tail_tag
unfolding analyse_mcu_to_device exchange frame_bytes base_bytes store32 store16 load32 htonl
analyse_mcu_osw_switch-next b b' v payload = refl

-- The word with the port of the OTDR is left in network order.
pub analyse_any_get_otdr_test-port :
    (b : GlinkBase) (hdr : GetotdrTestHdr) (val : GetotdrTestParam) (cmdid : ℕ)
    → load32 (analyse_any_get_otdr_test (frame_bytes b (any_get_otdr_test hdr val cmdid).memory)) 52
      ≡ htonl hdr.reserve0
unfolding analyse_any_get_otdr_test exchange frame_bytes base_bytes store32 store16 load32
analyse_any_get_otdr_test-port b hdr val cmdid = omega (arith, htonl-lt hdr.reserve0)

-- The type of the device is left in network order.
pub analyse_alarm_opm-type :
    (b : GlinkBase) (frame slot : ℕ) (list : List AlarmOpmVal)
    → load32 (analyse_alarm_opm (frame_bytes b (alarm_opm frame slot list).memory)) 48
      ≡ htonl dev_opm
unfolding analyse_alarm_opm exchange frame_bytes base_bytes store32 store16 load32 htonl
analyse_alarm_opm-type b frame slot list = refl

-- Every address is below 2 ^ 24.
abbrev pub AreLow : List Manager → Type 0
AreLow [] = Unit {0}
AreLow (m ∷ ms) = (m.fd_addr < 2 ^ 24) × AreLow ms

select_fd-high : (ms : List Manager) (a : ℕ) → AreLow ms → 2 ^ 24 ≤ a → select_fd ms a ≡ 0
unfolding select_fd
select_fd-high [] a l h = refl
select_fd-high (m ∷ ms) a l h = ground (arith, l.0, select_fd-high ms a l.1 h)

htonl-high : (a : ℕ) → 0 < a → a < 2 ^ 8 → 2 ^ 24 ≤ htonl a
unfolding htonl
htonl-high a p h = omega arith

-- For a destination from 1 to 255 and a table of managers whose addresses are below 2^24, a sender
-- of alarms that is given descriptor 0 sends to descriptor 0, whoever has the address.
pub addressee-lost :
    (local remote : ℕ) (ms : List Manager) (base : GlinkBase) (a : GlinkAddr) (m : Message)
    → 0 < a.dst
    → a.dst < 2 ^ 8
    → AreLow ms
    → addressee local remote ms base 0 (some a) m ≡ 0
unfolding addressee post fill_glink_frame build select_fd_by_addr
addressee-lost local remote ms base a m p h l =
    select_fd-high ms (htonl a.dst) l (htonl-high a.dst p h)

-- Where the end of the last entry lies below 2^32 and there is at least one entry, CHECK_PTR
-- accepts only entries that end before the end of the frame, which is below 2^32 and not below the
-- size of an entry.
pub check_ptr_sound :
    (ptr size_a size_b count end : ℕ)
    → 0 < count
    → count < 2 ^ 32
    → ptr + size_a + size_b * count < 2 ^ 32
    → size_b ≤ end
    → end < 2 ^ 32
    → check_ptr ptr size_a size_b count end ≡ true
    → ptr + size_a + size_b * count ≤ end
unfolding sub32
check_ptr_sound ptr size_a size_b zero end pos fits room low small e = absurd (omega arith)
check_ptr_sound ptr size_a size_b (suc n) end pos fits room low small e =
    let last : sub32 (suc n) 1 ≡ n = omega arith in
    let e' : leb ((ptr + size_a + size_b * n) % 2 ^ 32) (sub32 end size_b) ≡ true =
      subst (λ k. leb ((ptr + size_a + size_b * k) % 2 ^ 32) (sub32 end size_b) ≡ true) last e in
    ground (arith, e')

-- The sizes wrap: a count of 2 ^ 30 + 1 entries of 20 bytes is accepted where there is room for one.
pub check_ptr_wraps :
    (ptr end : ℕ) → ptr + 36 ≤ end → end < 2 ^ 32 → check_ptr ptr 16 20 (2 ^ 30 + 1) end ≡ true
unfolding sub32
check_ptr_wraps ptr end h k = ground arith
