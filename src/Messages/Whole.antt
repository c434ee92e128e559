-- ===== src/Messages/Whole.antt =====
-- The lengths that senders give, and the frames that come of them.
use mathlib.Core.List.{append-nil}
use tmsxx_tc.Prelude.{
  ℕ, ◌+◌, ◌-◌, ◌*◌, ◌%◌, ◌^◌, ◌<◌, ◌≡◌, refl, sym, ap, ◌∙◌, Option, List, [], ◌∷◌, ◌++◌, map,
  length, length-append, take, take-all, arith,
}
use tmsxx_tc.Glink.{GlinkBase, build, frame_bytes, found, find_frame}
use tmsxx_tc.Glink.Wire.{htonl, store32, length-store32}
use tmsxx_tc.Glink.Find.{find_frame-frame}
use tmsxx_tc.Replies.{GlinkAddr, Call, fill_glink_frame}
use tmsxx_tc.Messages.{
  Message, Item, word, raw, wire, words, entries, listed, Part, swapped, kept, halves, post,
}
use tmsxx_tc.Messages.Exchange.{Matches, AllMatch}
use tmsxx_tc.Messages.Structures.{
  cfg_sms_val_items, cfg_sms_val_parts, dev_composition_val_items, dev_composition_val_parts,
  dev_version_items, dev_version_parts, cfg_mcu_u_any_osw_val_items, cfg_mcu_u_any_osw_val_parts,
  cfg_mcu_any_port_clear_val_items, cfg_mcu_any_port_clear_val_parts, cfg_opm_ref_val_items,
  cfg_opm_ref_val_parts, cfg_olp_ref_val_items, cfg_olp_ref_val_parts, any_op_val_items,
  any_op_val_parts, cfg_mcu_osw_cycle_val_items, cfg_mcu_osw_cycle_val_parts,
}
use tmsxx_tc.Messages.Measures.{sms_state_items, sms_state_parts}
use tmsxx_tc.Messages.Device.{dev_opm, dev_osw, dev_olp, mcu_to_device}
use tmsxx_tc.Messages.Config.{list_message}
use tmsxx_tc.Messages.Request.{
  Request, sms, composition, unite, port_clear, opm_ref, olp_ref, any_op, osw_cycle, ray_power,
  version_of, version, sms_error, message, shape, items, IsFit,
}

abbrev pub size_of : List Part → ℕ
size_of [] = 0
size_of (swapped ∷ ps) = 4 + size_of ps
size_of (kept n ∷ ps) = n + size_of ps
size_of (halves n ∷ ps) = 2 * n + size_of ps

pub length-wire : (ps : List Part) (is : List Item) → Matches ps is → length (wire is) ≡ size_of ps
length-wire [] [] m = refl
length-wire [] (i ∷ is) m = absurd m
length-wire (swapped ∷ ps) [] m = absurd m
length-wire (swapped ∷ ps) (word v ∷ is) m = omega (
  arith,
  length-append (store32 (htonl v)) (wire is),
  length-store32 (htonl v),
  length-wire ps is m.1,
)
length-wire (swapped ∷ ps) (raw bs ∷ is) m = absurd m
length-wire (kept n ∷ ps) [] m = absurd m
length-wire (kept n ∷ ps) (word v ∷ is) m = absurd m
length-wire (kept n ∷ ps) (raw bs ∷ is) m =
    omega (arith, length-append bs (wire is), length-wire ps is m.1, m.0)
length-wire (halves n ∷ ps) is m = absurd m

length-wire_append :
    (is js : List Item) → length (wire (is ++ js)) ≡ length (wire is) + length (wire js)
length-wire_append [] js = omega arith
length-wire_append (word v ∷ is) js = omega (
  arith,
  length-append (store32 (htonl v)) (wire (is ++ js)),
  length-append (store32 (htonl v)) (wire is),
  length-wire_append is js,
)
length-wire_append (raw bs ∷ is) js = omega (
  arith,
  length-append bs (wire (is ++ js)),
  length-append bs (wire is),
  length-wire_append is js,
)

pub length-words : (vs : List ℕ) → length (wire (words vs)) ≡ 4 * length vs
length-words [] = refl
length-words (v ∷ vs) = omega (
  arith,
  length-append (store32 (htonl v)) (wire (words vs)),
  length-store32 (htonl v),
  length-words vs,
)

length-entries :
    (ps : List Part) (es : List (List Item))
    → AllMatch ps es
    → length (wire (entries es)) ≡ length es * size_of ps
length-entries ps [] m = omega arith
length-entries ps (e ∷ es) m =
    omega (arith, length-wire_append e (entries es), length-wire ps e m.0, length-entries ps es m.1)

pub length-listed :
    (header : List ℕ) (ps : List Part) (es : List (List Item))
    → AllMatch ps es
    → length (wire (listed header es)) ≡ 4 * length header + 4 + length es * size_of ps
length-listed header ps es m = omega (
  arith,
  length-wire_append (words header) (word (length es) ∷ entries es),
  length-append (store32 (htonl (length es))) (wire (entries es)),
  length-store32 (htonl (length es)),
  length-words header,
  length-entries ps es m,
)

-- A message is whole: the sender sends what it put together, and says its length.
abbrev IsWhole : Message → List Item → Type 0
IsWhole m is = (take m.len m.memory ≡ wire is) × (m.len ≡ length (wire is))

whole :
    (cmdid len : ℕ) (is : List Item)
    → length (wire is) ≡ len
    → IsWhole (record { cmdid = cmdid; len = len; memory = wire is }) is
whole cmdid len is e = (take-all len (wire is) (omega arith), omega arith)

list-IsWhole :
    (cmdid : ℕ) (header : List ℕ) (ps : List Part) (es : List (List Item))
    → AllMatch ps es
    → length (wire (listed header es)) < 2 ^ 31
    → IsWhole (list_message cmdid header (size_of ps) es) (listed header es)
list-IsWhole cmdid header ps es m h =
    let e : (4 * length header + 4 + length es * size_of ps) % 2 ^ 32
        ≡ length (wire (listed header es)) =
      omega (arith, length-listed header ps es m) in
    (take-all _ (wire (listed header es)) (omega (arith, e)), e)

device-IsWhole :
    (frame slot kind cmdid : ℕ)
    → IsWhole (mcu_to_device frame slot kind 0 cmdid 12) (word frame ∷ word slot ∷ word kind ∷ [])
unfolding store32
device-IsWhole frame slot kind cmdid = (refl, refl)

pub sent-items :
    (r : Request)
    → IsFit (shape r)
    → length (wire (items (shape r))) < 2 ^ 31
    → IsWhole (message r) (items (shape r))
sent-items (sms l) f h = list-IsWhole 0 [] cfg_sms_val_parts (map cfg_sms_val_items l) f.1 h
sent-items (composition c l) f h =
    list-IsWhole 0 [] dev_composition_val_parts (map dev_composition_val_items l) f.1 h
sent-items (unite a b k c l) f h =
    list-IsWhole 0 (a ∷ b ∷ k ∷ []) cfg_mcu_u_any_osw_val_parts
      (map (λ v. cfg_mcu_u_any_osw_val_items (record v { osw_type = dev_osw })) l) f.1 h
sent-items (port_clear a b k c l) f h =
    list-IsWhole 0 (a ∷ b ∷ k ∷ []) cfg_mcu_any_port_clear_val_parts
      (map cfg_mcu_any_port_clear_val_items l) f.1 h
sent-items (opm_ref a b l) f h =
    list-IsWhole 0 (a ∷ b ∷ dev_opm ∷ []) cfg_opm_ref_val_parts (map cfg_opm_ref_val_items l) f.1 h
sent-items (olp_ref a b l) f h =
    list-IsWhole 0 (a ∷ b ∷ dev_olp ∷ []) cfg_olp_ref_val_parts (map cfg_olp_ref_val_items l) f.1 h
sent-items (any_op a b k c l) f h =
    list-IsWhole 0 (a ∷ b ∷ k ∷ []) any_op_val_parts (map any_op_val_items l) f.1 h
sent-items (osw_cycle a b c l) f h =
    list-IsWhole 0 (a ∷ b ∷ dev_osw ∷ []) cfg_mcu_osw_cycle_val_parts
      (map cfg_mcu_osw_cycle_val_items l) f.1 h
sent-items (ray_power a b k) f h = device-IsWhole a b k 0
sent-items (version_of a b k) f h = device-IsWhole a b k 0
sent-items (version v) f h =
    whole 0 60 (dev_version_items v) (length-wire dev_version_parts (dev_version_items v) f)
sent-items (sms_error v) f h =
    whole 0 20 (sms_state_items v) (length-wire sms_state_parts (sms_state_items v) f)

module _ (local remote : ℕ) (outside : ℕ → ℕ) (base : GlinkBase) (fd : ℕ) (paddr : Option GlinkAddr)
    (r : Request) where
  abbrev pub posted : Call
  posted = post local remote base fd paddr (message r)

  -- For each message of Request whose values have the widths of their fields and whose data are
  -- shorter than 2^31 - 40 bytes, the frame that its sender sends to anyone is found whole by
  -- find_frame, and its data are the message in network order.
  pub find_frame-posted :
      IsFit (shape r)
      → length (wire (items (shape r))) < 2 ^ 31 - 40
      → (find_frame outside (frame_bytes posted.base posted.payload) (40 + (message r).len)
          ≡ (found, 40 + (message r).len))
        × (posted.payload ≡ wire (items (shape r)))
  unfolding post
  find_frame-posted f h =
      let s = sent-items r f (omega arith) in
      (
        rw (s.0, s.1)
            (ap (λ bs. find_frame outside bs (40 + length (wire (items (shape r)))))
                (sym (
                  append-nil (
                    frame_bytes
                      (build (fill_glink_frame local remote base paddr) (message r).cmdid
                        (length (wire (items (shape r)))))
                      (wire (items (shape r))))))
              ∙ ap
                  (λ n.
                    find_frame outside
                      (frame_bytes
                          (build (fill_glink_frame local remote base paddr) (message r).cmdid
                            (length (wire (items (shape r)))))
                          (wire (items (shape r)))
                        ++ [])
                      n)
                  {x = 40 + length (wire (items (shape r)))}
                  {y = 40 + length (wire (items (shape r))) + 0} (omega arith)
              ∙ find_frame-frame outside (fill_glink_frame local remote base paddr)
                  (message r).cmdid (wire (items (shape r))) [] (omega arith)),
        s.0,
      )
