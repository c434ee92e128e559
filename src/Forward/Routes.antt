-- ===== src/Forward/Routes.antt =====
-- Where frames go (protocol/tmsxx.c).
use tmsxx_tc.Prelude.{
  ℕ, ◌^◌, ◌<◌, ◌≡◌, ◌≢◌, refl, ◌∙◌, Bool, ◌||◌, not, true, false, none, some, List, ◌++◌, length,
  arith, ◌==◌, if◌then◌else◌,
}
use tmsxx_tc.Prelude.Blocks.{write_at}
use tmsxx_tc.Glink.{GlinkBase, build, base_bytes, frame_bytes}
use tmsxx_tc.Glink.Wire.{htonl, store32, store16, load32, htonl-htonl, htonl-lt}
use tmsxx_tc.Devices.{DevBase, max_frame, max_slot, add_dev, get_dev_base_by_location}
use tmsxx_tc.Devices.Lookup.{IsTable, location-add_dev}
use tmsxx_tc.Managers.{Manager, has_fd, add_manage, manage_count, select_fd_by_addr}
use tmsxx_tc.Managers.Addresses.{addressed, select_fd-add_manage}
use tmsxx_tc.Forward.{
  transmit_to_dev, transmit_to_manager, is_manager, glink_4412_addr, glink_manage_addr,
}

-- The bytes with which a message for a device begins: its place.
abbrev pub placed : ℕ → ℕ → List ℕ → List ℕ
placed frame slot rest = store32 (htonl frame) ++ (store32 (htonl slot) ++ rest)

place_at :
    (b : GlinkBase) (f s : ℕ) (rest : List ℕ)
    → f < 2 ^ 32
    → s < 2 ^ 32
    → (htonl (load32 (frame_bytes b (placed f s rest)) 36) ≡ f)
      × (htonl (load32 (frame_bytes b (placed f s rest)) 40) ≡ s)
unfolding frame_bytes base_bytes store32 store16 load32 htonl
place_at b f s rest hf hs = (omega arith, omega arith)

module _ (net : List DevBase) (b : GlinkBase) (f s : ℕ) (d : DevBase) (rest : List ℕ) where
  -- A frame whose data begin with a frame and slot number below their limits is sent on by
  -- transmit_to_dev to the descriptor of the device that add_dev put at that place, and nowhere if
  -- that descriptor is 0.
  pub transmit_to_dev-add_dev :
      IsTable net
      → f < max_frame
      → s < max_slot
      → transmit_to_dev (add_dev net f s d) (frame_bytes b (placed f s rest))
        ≡ (if d.fd == 0 then none else some d.fd)
  unfolding transmit_to_dev get_dev_base_by_location
  transmit_to_dev-add_dev t hf hs =
      ground (arith, place_at b f s rest, location-add_dev net f s f s d t hf hs hf hs)

addresses_at :
    (b : GlinkBase) (payload : List ℕ)
    → b.src < 2 ^ 32
    → b.dst < 2 ^ 32
    → (load32 (frame_bytes b payload) 12 ≡ b.src) × (load32 (frame_bytes b payload) 16 ≡ b.dst)
unfolding frame_bytes base_bytes store32 store16 load32
addresses_at b payload hs hd = (omega arith, omega arith)

readdressed :
    (b : GlinkBase) (payload : List ℕ) (src dst : ℕ)
    → write_at (write_at (frame_bytes b payload) 16 (store32 dst)) 12 (store32 src)
      ≡ frame_bytes (record b { src = src; dst = dst }) payload
unfolding frame_bytes base_bytes store32 store16 write_at
readdressed b payload src dst = refl

-- A frame is kept from the managers.
abbrev pub is_kept : GlinkBase → Bool
is_kept b =
    (htonl b.dst == glink_4412_addr || htonl b.src == glink_4412_addr)
    || not (is_manager (htonl b.dst))

transmit_to_manager-frame :
    (ms : List Manager) (b : GlinkBase) (payload : List ℕ)
    → b.src < 2 ^ 32
    → b.dst < 2 ^ 32
    → transmit_to_manager ms (frame_bytes b payload) ≡ (
        if is_kept b then (frame_bytes b payload, none) else (
          frame_bytes
              (record b { src = htonl glink_4412_addr; dst = htonl glink_manage_addr })
              payload,
          (if select_fd_by_addr ms (some (htonl b.dst)) == 0
              then none
              else some (select_fd_by_addr ms (some (htonl b.dst)))),
        ))
unfolding transmit_to_manager
transmit_to_manager-frame ms b payload hs hd =
    let e = addresses_at b payload hs hd in
    rw (e.0, e.1, readdressed b payload (htonl glink_4412_addr) (htonl glink_manage_addr)) refl

module _ (served : Bool) (ms : List Manager) (fd kind : ℕ) (base : GlinkBase) (cmdid : ℕ)
    (payload : List ℕ) where
  abbrev pub answer : GlinkBase
  answer = build base cmdid (length payload)

  -- A frame that build made for the address of a manager (bits 4 and 5 set), not from 0x0a, is
  -- sent on by transmit_to_manager to the descriptor, not 0, that add_manage took in with that
  -- address, if no entry had the descriptor or the address, one was free, and the call did not
  -- have the connection closed; the frame is the same but for its addresses, now 0x0a and 0x3e.
  pub transmit_to_manager-add_manage :
      fd ≢ 0
      → base.src < 2 ^ 32
      → base.src ≢ glink_4412_addr
      → base.dst < 2 ^ 32
      → is_manager base.dst ≡ true
      → has_fd ms fd ≡ false
      → addressed ms base.dst ≡ 0
      → manage_count ms < length ms
      → (add_manage served ms (some base.dst) fd kind).closed ≡ none
      → transmit_to_manager
          (add_manage served ms (some base.dst) fd kind).table
          (frame_bytes answer payload)
        ≡ (
          frame_bytes
              (record answer { src = htonl glink_4412_addr; dst = htonl glink_manage_addr })
              payload,
          some fd,
        )
  unfolding build
  transmit_to_manager-add_manage nz small from small' to absent none_there room unclosed =
      transmit_to_manager-frame (add_manage served ms (some base.dst) fd kind).table answer payload
        (htonl-lt base.src) (htonl-lt base.dst)
      ∙ ground (
        arith,
        htonl-htonl base.src small,
        htonl-htonl base.dst small',
        select_fd-add_manage served ms fd kind base.dst absent none_there room unclosed,
      )
