-- ===== src/Messages/Registered.antt =====
-- protocol/tmsxx.c: a device answers with its type, and is found at its place from then on.
use tmsxx_tc.Prelude.{ℕ, ◌^◌, ◌<◌, ◌≡◌, refl, none, some, List, take, if◌then◌else◌, ◌==◌, arith}
use tmsxx_tc.Glink.{GlinkBase, base_bytes, frame_bytes}
use tmsxx_tc.Glink.Wire.{store32, store16, load32}
use tmsxx_tc.Devices.{DevBase, max_frame, max_slot}
use tmsxx_tc.Devices.Lookup.{IsTable}
use tmsxx_tc.Forward.{transmit_to_dev}
use tmsxx_tc.Forward.Routes.{placed, transmit_to_dev-add_dev}
use tmsxx_tc.Messages.{wire, host}
use tmsxx_tc.Messages.Exchange.{Matches}
use tmsxx_tc.Messages.Structures.{RetDevType, ret_dev_type_items, ret_dev_type_parts}
use tmsxx_tc.Messages.Device.{mcu_ret_device_type_v2, analyse_ret_dev_type}
use tmsxx_tc.Messages.Understood.{single_understood}

place_read :
    (b : GlinkBase) (v : RetDevType)
    → v.frame < 2 ^ 32
    → v.slot < 2 ^ 32
    → (load32 (frame_bytes b (host (ret_dev_type_items v))) 36 ≡ v.frame)
      × (load32 (frame_bytes b (host (ret_dev_type_items v))) 40 ≡ v.slot)
unfolding frame_bytes base_bytes store32 store16 load32
place_read b v f s = (omega arith, omega arith)

all_sent :
    (v : RetDevType)
    → take (mcu_ret_device_type_v2 v).len (mcu_ret_device_type_v2 v).memory
      ≡ wire (ret_dev_type_items v)
unfolding store32
all_sent v = refl

module _ (net : List DevBase) (fd : ℕ) (b b' : GlinkBase) (v : RetDevType) (rest : List ℕ) where
  abbrev answered : List ℕ × List DevBase
  answered =
      analyse_ret_dev_type net fd
        (frame_bytes b (take (mcu_ret_device_type_v2 v).len (mcu_ret_device_type_v2 v).memory))

  -- When a device whose fields are words answers on a connection with its type and a place below
  -- the limits, analyse_ret_dev_type reads the answer, and transmit_to_dev sends frames for that
  -- place to this connection from then on, or nowhere if its descriptor is 0.
  pub transmit_to_dev-analyse_ret_dev_type :
      IsTable net
      → Matches ret_dev_type_parts (ret_dev_type_items v)
      → v.frame < max_frame
      → v.slot < max_slot
      → (answered.0 ≡ frame_bytes b (host (ret_dev_type_items v)))
        × (transmit_to_dev answered.1 (frame_bytes b' (placed v.frame v.slot rest))
            ≡ (if fd == 0 then none else some fd))
  unfolding analyse_ret_dev_type
  transmit_to_dev-analyse_ret_dev_type t m hf hs =
      rw
        (
          all_sent v,
          single_understood b ret_dev_type_parts (ret_dev_type_items v) m,
          (place_read b v (omega arith) (omega arith)).0,
          (place_read b v (omega arith) (omega arith)).1,
        )
        (refl, transmit_to_dev-add_dev net b' v.frame v.slot _ rest t hf hs)
