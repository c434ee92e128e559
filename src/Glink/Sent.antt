-- ===== src/Glink/Sent.antt =====
-- What the senders of protocol/glink.c put on the wire.
use mathlib.Core.List.{append_assoc, append-nil}
use tmsxx_tc.Prelude.{
  ℕ, zero, suc, ◌+◌, ◌-◌, ◌^◌, ◌≤◌, ◌<◌, min, ◌≡◌, refl, sym, ap, ◌∙◌, Option, none, some, List, [],
  ◌∷◌, ◌++◌, arith, length, length-drop, take, drop, take-append-drop, subst, ◌==◌, Bool-cases, inl,
  inr,
}
use tmsxx_tc.Prelude.Words.{add32, sub32, add32_small, sub32_small}
use tmsxx_tc.Prelude.Blocks.{take-append_ge, take-add}
use tmsxx_tc.Glink.{GlinkBase, base_bytes, frame_bytes, frame_head_tag, frame_tail_tag}
use tmsxx_tc.Glink.Wire.{htonl, store32, store16, length-store32}
use tmsxx_tc.Glink.Send.{
  Outcome, takes, again, fails, Line, Sender, ◌>>=◌, send_loop, send_serial, send,
}

-- A sender that ends with a count put all of `bs` on the wire; one that ends with -1, a prefix.
abbrev pub Delivers : List ℕ → List ℕ → ℕ → Option (Option ℕ × Line) → Type 0
Delivers wire bs n none = Unit {0}
Delivers wire bs n (some (none, line)) = (k : ℕ) × (line.wire ≡ wire ++ take k bs)
Delivers wire bs n (some (some m, line)) = (m ≡ n) × (line.wire ≡ wire ++ bs)

Delivers-after :
    (wire bs : List ℕ) (len k : ℕ) (r : Option (Option ℕ × Line))
    → k ≤ length bs
    → Delivers (wire ++ take k bs) (drop k bs) len r
    → Delivers wire bs len r
Delivers-after wire bs len k none h d = tt
Delivers-after wire bs len k (some (none, line)) h d = (
  k + d.0,
  d.1
      ∙ append_assoc wire (take k bs) (take d.0 (drop k bs))
      ∙ ap (◌++◌ wire) (sym (take-add k d.0 bs)),
)
Delivers-after wire bs len k (some (some m, line)) h d =
    (d.0, d.1 ∙ append_assoc wire (take k bs) (drop k bs) ∙ ap (◌++◌ wire) (take-append-drop k bs))

nothing_left : (wire bs : List ℕ) → length bs ≡ 0 → wire ≡ wire ++ bs
nothing_left wire [] e = sym (append-nil wire)
nothing_left wire (b ∷ bs) e = absurd (omega arith)

send_loop-Delivers :
    (len : ℕ) (os : List Outcome) (pbuf : List ℕ) (tlen : ℕ) (wire : List ℕ)
    → length pbuf ≡ tlen
    → tlen < 2 ^ 31
    → Delivers wire pbuf len (send_loop len os pbuf tlen wire)
unfolding send_loop
send_loop-Delivers len [] pbuf tlen wire e h = elim (Bool-cases (tlen == 0)) [
  | inl done ↦ rw done (refl, nothing_left wire pbuf (ground arith))
  | inr more ↦ rw more tt
]
send_loop-Delivers len (takes r ∷ os) pbuf tlen wire e h = elim (Bool-cases (tlen == 0)) [
  | inl done ↦ rw done (refl, nothing_left wire pbuf (ground arith))
  | inr more ↦ rw more (
      Delivers-after wire pbuf len (min r tlen) _ (omega arith) (
        send_loop-Delivers len os (drop (min r tlen) pbuf) (sub32 tlen (min r tlen))
          (wire ++ take (min r tlen) pbuf)
          (omega (arith, length-drop (min r tlen) pbuf, sub32_small tlen (min r tlen)))
          (omega (arith, sub32_small tlen (min r tlen)))))
]
send_loop-Delivers len (again ∷ os) pbuf tlen wire e h = elim (Bool-cases (tlen == 0)) [
  | inl done ↦ rw done (refl, nothing_left wire pbuf (ground arith))
  | inr more ↦ rw more (send_loop-Delivers len os pbuf tlen wire e h)
]
send_loop-Delivers len (fails ∷ os) pbuf tlen wire e h = elim (Bool-cases (tlen == 0)) [
  | inl done ↦ rw done (refl, nothing_left wire pbuf (ground arith))
  | inr more ↦ rw more (0, sym (append-nil wire))
]

-- `glink_SendSerial` puts all the bytes on the wire, in order and each once, if it ends with their
-- number; if it ends with -1 it put some first part of them there.
pub send_serial-Delivers :
    (bs : List ℕ) (n : ℕ) (line : Line)
    → length bs ≡ n
    → n < 2 ^ 31
    → Delivers line.wire bs n (send_serial bs n line)
unfolding send_serial
send_serial-Delivers bs n line e h = send_loop-Delivers n line.outcomes bs n line.wire e h

Delivers-first :
    (wire xs ys : List ℕ) (k : ℕ) → (j : ℕ) × (wire ++ take k xs ≡ wire ++ take j (xs ++ ys))
Delivers-first wire [] ys zero = (0, refl)
Delivers-first wire [] ys (suc k) = (0, refl)
Delivers-first wire (x ∷ xs) ys zero = (0, refl)
Delivers-first wire (x ∷ xs) ys (suc k) =
    let rest = Delivers-first (wire ++ x ∷ []) xs ys k in
    (
      suc rest.0,
      sym (append_assoc wire (x ∷ []) (take k xs))
          ∙ rest.1
          ∙ append_assoc wire (x ∷ []) (take rest.0 (xs ++ ys)),
    )

take-past : (xs ys : List ℕ) (k : ℕ) → take (length xs + k) (xs ++ ys) ≡ xs ++ take k ys
take-past xs ys k =
    take-append_ge (length xs + k) xs ys (omega arith)
    ∙ ap (λ j. xs ++ take j ys) {x = length xs + k - length xs} (omega arith)

-- One sender after another.
Delivers-bind :
    (wire xs ys : List ℕ) (n m : ℕ) (first : Option (Option ℕ × Line)) (line : Line) (s : Sender ℕ)
    (f : ℕ → Sender ℕ)
    → s line ≡ first
    → Delivers wire xs n first
    → ((line' : Line) → line'.wire ≡ wire ++ xs → Delivers (wire ++ xs) ys m (f n line'))
    → Delivers wire (xs ++ ys) m ((s >>= f) line)
Delivers-bind wire xs ys n m none line s f e d next = rw (e, ◌>>=◌) tt
Delivers-bind wire xs ys n m (some (none, line')) line s f e d next =
    let first = Delivers-first wire xs ys d.0 in rw (e, ◌>>=◌) (first.0, d.1 ∙ first.1)
Delivers-bind wire xs ys n m (some (some k, line')) line s f e d next =
    rw (e, ◌>>=◌, d.0) (Delivers-append (f n line') (next line' d.1))
  where
    Delivers-append :
        (r : Option (Option ℕ × Line)) → Delivers (wire ++ xs) ys m r → Delivers wire (xs ++ ys) m r
    Delivers-append none d' = tt
    Delivers-append (some (none, l)) d' = (
      length xs + d'.0,
      d'.1 ∙ append_assoc wire xs (take d'.0 ys) ∙ ap (◌++◌ wire) (sym (take-past xs ys d'.0)),
    )
    Delivers-append (some (some j, l)) d' = (d'.0, d'.1 ∙ append_assoc wire xs ys)

-- A sender that delivers `bs`, on every line.
abbrev pub Delivering : Sender ℕ → List ℕ → ℕ → Type 0
Delivering s bs n = (line : Line) → Delivers line.wire bs n (s line)

then_send :
    (s : Sender ℕ) (f : ℕ → Sender ℕ) (xs ys : List ℕ) (n m : ℕ)
    → Delivering s xs n
    → Delivering (f n) ys m
    → Delivering (s >>= f) (xs ++ ys) m
then_send s f xs ys n m d next line =
    Delivers-bind line.wire xs ys n m (s line) line s f refl (d line)
      (λ line' e. subst (λ w. Delivers w ys m (f n line')) e (next line'))

length-base_bytes : (b : GlinkBase) → length (base_bytes b) ≡ 32
unfolding base_bytes store32 store16
length-base_bytes b = refl

send_block : (bs : List ℕ) (n : ℕ) → length bs ≡ n → n < 2 ^ 31 → Delivering (send_serial bs n) bs n
send_block bs n e h line = send_serial-Delivers bs n line e h

send_tag : (v : ℕ) → Delivering (send_serial (store32 v) 4) (store32 v) 4
send_tag v = send_block (store32 v) 4 (length-store32 v) (omega arith)

return_count : (a b : ℕ) → a ≡ b → Delivering (λ line. some (some a, line)) [] b
return_count a b e line = (e, sym (append-nil line.wire))

total : (n : ℕ) → n < 2 ^ 31 - 40 → add32 (add32 (add32 4 32) n) 4 ≡ 40 + n
total n h = ground (arith, add32_small 4 32, add32_small 36 n, add32_small (36 + n) 4)

-- If send ends with a count, the whole frame is on the wire (head tag, header, data, tail tag) and
-- the count is its length; if it ends with -1, a first part of the frame is; for fewer than 2^31 -
-- 40 bytes of data.
pub send-Delivers :
    (base : GlinkBase) (payload : List ℕ) (line : Line)
    → length payload < 2 ^ 31 - 40
    → Delivers line.wire
        (frame_bytes base payload)
        (40 + length payload)
        (send base payload (length payload) line)
unfolding send frame_bytes
send-Delivers base payload line h =
    subst
      (λ bs. Delivers line.wire bs (40 + length payload) (send base payload (length payload) line))
      (ap (λ bs. store32 (htonl frame_head_tag) ++ (base_bytes base ++ (payload ++ bs)))
        (append-nil (store32 (htonl frame_tail_tag))))
      (then_send _ _ _ _ _ _ (send_tag (htonl frame_head_tag))
        (then_send _ _ _ _ _ _
          (send_block (base_bytes base) 32 (length-base_bytes base) (omega arith))
          (then_send _ _ _ _ _ _ (send_block payload (length payload) refl (omega arith)) (
            then_send _ _ _ _ _ _ (send_tag (htonl frame_tail_tag))
              (return_count _ _ (total (length payload) h)))))
        line)
