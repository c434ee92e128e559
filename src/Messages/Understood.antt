-- ===== src/Messages/Understood.antt =====
-- What analysers make of the messages of the senders.
use tmsxx_tc.Prelude.{
  ℕ, zero, suc, ◌+◌, ◌*◌, ◌^◌, ◌≤◌, ◌<◌, ◌≡◌, refl, ap, true, some, List, [], ◌∷◌, map, length,
  arith,
}
use tmsxx_tc.Prelude.Words.{sub32}
use tmsxx_tc.Glink.{GlinkBase, base_bytes, frame_bytes, frame_tail_tag}
use tmsxx_tc.Glink.Wire.{htonl, store32, store16, load32}
use tmsxx_tc.Messages.{
  Item, wire, host, entries, listed, Part, list_parts, list_parts_unsigned, on_data, check_ptr,
}
use tmsxx_tc.Messages.Exchange.{
  Matches, AllMatch, AreWords, exchange-wire, list_parts-wire, list_parts_unsigned-wire,
  on_data-frame, count_at,
}
use tmsxx_tc.Messages.Structures.{
  cfg_sms_val_items, cfg_sms_val_parts, dev_composition_val_items, dev_composition_val_parts,
  dev_version_items, dev_version_parts, cfg_mcu_u_any_osw_val_items, cfg_mcu_u_any_osw_val_parts,
  cfg_mcu_any_port_clear_val_items, cfg_mcu_any_port_clear_val_parts, cfg_opm_ref_val_items,
  cfg_opm_ref_val_parts, cfg_olp_ref_val_items, cfg_olp_ref_val_parts, any_op_val_items,
  any_op_val_parts, cfg_mcu_osw_cycle_val_items, cfg_mcu_osw_cycle_val_parts,
}
use tmsxx_tc.Messages.Measures.{sms_state_items, sms_state_parts}
use tmsxx_tc.Messages.Device.{dev_opm, dev_osw, dev_olp, analyse_get_opm_olp_ray_power}
use tmsxx_tc.Messages.Config.{
  analyse_cfg_sms_authorization, analyse_ret_device_composition, analyse_cfg_mcu_unite_any_osw,
  analyse_cfg_mcu_any_port_clear, analyse_cfg_any_ref_level, analyse_ret_any_op,
  analyse_cfg_mcu_osw_cycle_any,
}
use tmsxx_tc.Messages.Alarm.{analyse_get_version, analyse_ret_version, analyse_ret_sms_error}
use tmsxx_tc.Messages.Request.{
  Request, sms, composition, unite, port_clear, opm_ref, olp_ref, any_op, osw_cycle, ray_power,
  version_of, version, sms_error, message, analyser, shape, items, IsFit, sent,
}
use tmsxx_tc.Messages.Whole.{size_of, length-listed, sent-items}

pub single_understood :
    (b : GlinkBase) (ps : List Part) (is : List Item)
    → Matches ps is
    → on_data (λ bs. ps) (frame_bytes b (wire is)) ≡ frame_bytes b (host is)
single_understood b ps is m =
    on_data-frame (λ bs. ps) b (wire is) (host is)
      (exchange-wire ps is (store32 (htonl frame_tail_tag)) m)

few : (ps : List Part) (n : ℕ) → 0 < size_of ps → n ≤ n * size_of ps
few ps zero h = omega arith
few ps (suc n) h = omega (arith, few ps n h)

module _ (b : GlinkBase) (header : List ℕ) (ps : List Part) (es : List (List Item))
    (a : AreWords header) (m : AllMatch ps es) (pos : 0 < size_of ps)
    (h : length (wire (listed header es)) < 2 ^ 31) where
  several_few : length es < 2 ^ 31
  several_few = omega (arith, length-listed header ps es m, few ps (length es) pos)

  several_understood :
      on_data (list_parts (length header) ps) (frame_bytes b (wire (listed header es)))
      ≡ frame_bytes b (host (listed header es))
  several_understood =
      on_data-frame (list_parts (length header) ps) b (wire (listed header es))
        (host (listed header es))
        (list_parts-wire header ps es (length header) (store32 (htonl frame_tail_tag)) refl a
          several_few m)

  several_understood_unsigned :
      on_data (list_parts_unsigned (length header) ps) (frame_bytes b (wire (listed header es)))
      ≡ frame_bytes b (host (listed header es))
  several_understood_unsigned =
      on_data-frame (list_parts_unsigned (length header) ps) b (wire (listed header es))
        (host (listed header es))
        (list_parts_unsigned-wire header ps es (length header) (store32 (htonl frame_tail_tag)) refl
          a several_few m)

-- The count of a list with three words in front of it, where the analysers look for it.
count_in_frame :
    (b : GlinkBase) (x y z : ℕ) (es : List (List Item))
    → length es < 2 ^ 32
    → htonl (load32 (frame_bytes b (wire (listed (x ∷ y ∷ z ∷ []) es))) 48) ≡ length es
unfolding frame_bytes base_bytes store32 store16 load32
count_in_frame b x y z es h =
    count_at (x ∷ y ∷ z ∷ []) (length es) (entries es) (store32 (htonl frame_tail_tag)) h

check_ptr_20 :
    (addr n : ℕ)
    → addr + (56 + n * 20) < 2 ^ 32
    → check_ptr (addr + 36) 16 20 n (addr + (56 + n * 20)) ≡ true
unfolding sub32
check_ptr_20 addr n h = ground arith

check_ptr_12 :
    (addr n : ℕ)
    → addr + (56 + n * 12) < 2 ^ 32
    → check_ptr (addr + 36) 16 12 n (addr + (56 + n * 12)) ≡ true
unfolding sub32
check_ptr_12 addr n h = ground arith

module _ (b : GlinkBase) (addr x y z : ℕ) (a : AreWords (x ∷ y ∷ z ∷ [])) where
  unite_understood :
      (es : List (List Item))
      → AllMatch cfg_mcu_u_any_osw_val_parts es
      → length (wire (listed (x ∷ y ∷ z ∷ []) es)) < 2 ^ 31
      → addr + (40 + length (wire (listed (x ∷ y ∷ z ∷ []) es))) < 2 ^ 32
      → analyse_cfg_mcu_unite_any_osw addr
          (40 + length (wire (listed (x ∷ y ∷ z ∷ []) es)))
          (frame_bytes b (wire (listed (x ∷ y ∷ z ∷ []) es)))
        ≡ some (frame_bytes b (host (listed (x ∷ y ∷ z ∷ []) es)))
  unfolding analyse_cfg_mcu_unite_any_osw
  unite_understood es m h room =
      let size : 40 + length (wire (listed (x ∷ y ∷ z ∷ []) es)) ≡ 56 + length es * 20 =
        omega (arith, length-listed (x ∷ y ∷ z ∷ []) cfg_mcu_u_any_osw_val_parts es m) in
      rw
        (
          count_in_frame b x y z es (omega (arith, size)),
          size,
          check_ptr_20 addr (length es) (omega (arith, size)),
        )
        (ap some (
          several_understood b (x ∷ y ∷ z ∷ []) cfg_mcu_u_any_osw_val_parts es a m (omega arith) h))

  osw_cycle_understood :
      (es : List (List Item))
      → AllMatch cfg_mcu_osw_cycle_val_parts es
      → length (wire (listed (x ∷ y ∷ z ∷ []) es)) < 2 ^ 31
      → addr + (40 + length (wire (listed (x ∷ y ∷ z ∷ []) es))) < 2 ^ 32
      → analyse_cfg_mcu_osw_cycle_any addr
          (40 + length (wire (listed (x ∷ y ∷ z ∷ []) es)))
          (frame_bytes b (wire (listed (x ∷ y ∷ z ∷ []) es)))
        ≡ some (frame_bytes b (host (listed (x ∷ y ∷ z ∷ []) es)))
  unfolding analyse_cfg_mcu_osw_cycle_any
  osw_cycle_understood es m h room =
      let size : 40 + length (wire (listed (x ∷ y ∷ z ∷ []) es)) ≡ 56 + length es * 12 =
        omega (arith, length-listed (x ∷ y ∷ z ∷ []) cfg_mcu_osw_cycle_val_parts es m) in
      rw
        (
          count_in_frame b x y z es (omega (arith, size)),
          size,
          check_ptr_12 addr (length es) (omega (arith, size)),
        )
        (ap some (
          several_understood_unsigned b (x ∷ y ∷ z ∷ []) cfg_mcu_osw_cycle_val_parts es a m
            (omega arith) h))

analyser-items :
    (b : GlinkBase) (addr : ℕ) (r : Request)
    → IsFit (shape r)
    → length (wire (items (shape r))) < 2 ^ 31
    → addr + (40 + length (wire (items (shape r)))) < 2 ^ 32
    → analyser r addr
        (40 + length (wire (items (shape r))))
        (frame_bytes b (wire (items (shape r))))
      ≡ some (frame_bytes b (host (items (shape r))))
unfolding analyse_cfg_sms_authorization analyse_ret_device_composition
    analyse_cfg_mcu_any_port_clear analyse_cfg_any_ref_level analyse_ret_any_op
    analyse_get_opm_olp_ray_power analyse_get_version analyse_ret_version analyse_ret_sms_error
analyser-items b addr (sms l) f h room =
    ap some
      (several_understood b [] cfg_sms_val_parts (map cfg_sms_val_items l) f.0 f.1 (omega arith) h)
analyser-items b addr (composition c l) f h room = ap some (
    several_understood b [] dev_composition_val_parts (map dev_composition_val_items l) f.0 f.1
      (omega arith) h)
analyser-items b addr (unite x y k c l) f h room =
    unite_understood b addr x y k f.0
      (map (λ v. cfg_mcu_u_any_osw_val_items (record v { osw_type = dev_osw })) l) f.1 h room
analyser-items b addr (port_clear x y k c l) f h room = ap some (
    several_understood b (x ∷ y ∷ k ∷ []) cfg_mcu_any_port_clear_val_parts
      (map cfg_mcu_any_port_clear_val_items l) f.0 f.1 (omega arith) h)
analyser-items b addr (opm_ref x y l) f h room = ap some (
    several_understood b (x ∷ y ∷ dev_opm ∷ []) cfg_opm_ref_val_parts (map cfg_opm_ref_val_items l)
      f.0 f.1 (omega arith) h)
analyser-items b addr (olp_ref x y l) f h room = ap some (
    several_understood b (x ∷ y ∷ dev_olp ∷ []) cfg_olp_ref_val_parts (map cfg_olp_ref_val_items l)
      f.0 f.1 (omega arith) h)
analyser-items b addr (any_op x y k c l) f h room = ap some (
    several_understood b (x ∷ y ∷ k ∷ []) any_op_val_parts (map any_op_val_items l) f.0 f.1
      (omega arith) h)
analyser-items b addr (osw_cycle x y c l) f h room =
    osw_cycle_understood b addr x y dev_osw f.0 (map cfg_mcu_osw_cycle_val_items l) f.1 h room
analyser-items b addr (ray_power x y k) f h room =
    ap some (single_understood b _ (items (shape (ray_power x y k))) f)
analyser-items b addr (version_of x y k) f h room =
    ap some (single_understood b _ (items (shape (version_of x y k))) f)
analyser-items b addr (version v) f h room =
    ap some (single_understood b dev_version_parts (dev_version_items v) f)
analyser-items b addr (sms_error v) f h room =
    ap some (single_understood b sms_state_parts (sms_state_items v) f)

-- For each message of Request whose values have the widths of their fields, whose data are shorter
-- than 2^31 bytes and whose frame lies below the address 2^32, the analyser accepts the frame of
-- what its sender sends and leaves every word of it as the machine reads it, and every other byte,
-- header and tags as they were.
pub analyser-sent :
    (b : GlinkBase) (addr : ℕ) (r : Request)
    → IsFit (shape r)
    → length (wire (items (shape r))) < 2 ^ 31
    → addr + (40 + length (wire (items (shape r)))) < 2 ^ 32
    → analyser r addr (40 + (message r).len) (frame_bytes b (sent r))
      ≡ some (frame_bytes b (host (items (shape r))))
analyser-sent b addr r f h room =
    let s = sent-items r f h in rw (s.0, s.1) (analyser-items b addr r f h room)
