-- ===== src/Receive/Turns.antt =====
-- The turns of the loop of `epFUI_OnRecv` (src/ep_app.c) on frames that were sent.
use tmsxx_tc.Prelude.{
  ℕ, ◌+◌, ◌-◌, ◌^◌, ◌<◌, min, ◌≡◌, refl, sym, ap, ◌∙◌, true, false, inl, inr, List, [], ◌∷◌, ◌++◌,
  length, length-append, take, take-all, drop, arith,
}
use tmsxx_tc.Prelude.Words.{add32, slt, sle, add32_small, slt_small, sle_small}
use tmsxx_tc.Prelude.Blocks.{slice, slice-nil, take-slice, take-append_le, drop-append_ge}
use tmsxx_tc.BipBuffer.{BipBuffer, contents, decommit_block}
use tmsxx_tc.BipBuffer.Fifo.{contents-decommit_block}
use tmsxx_tc.Glink.{found, short, find_frame}
use tmsxx_tc.Glink.Find.{length-sent, find_frame-frame, find_frame-partial}
use tmsxx_tc.Receive.{TmsxxApp, block_a, stopped, analysed, on_short, on_verdict, turn, finish}
use tmsxx_tc.Receive.Frames.{
  contents_a, length_a, recv_total, used, decommit_block-IsPlain, IsConfined, IsPart, IsPlain,
  Keeps, Sent, decommit_block-bytes, decommit_block-place, frame,
}

module _ (malloc : ℕ → ℕ) (outside : ℕ → ℕ) (analyse : List ℕ → ℕ → ℕ → List ℕ) (app : TmsxxApp)
    (off : app.enable_lbb ≡ 0) (p : IsPlain app.bb) where
  small_a : app.bb.sza < 2 ^ 31
  small_a = ground (arith, p.valid)

  module _ (s : Sent) (rest : List ℕ) (e : contents app.bb ≡ frame s ++ rest) where
    total : app.bb.sza ≡ 40 + length s.payload + length rest
    total = sym (length_a p) ∙ ap length e ∙ length-sent outside s.base s.cmdid s.payload rest

    found_frame : find_frame outside (block_a app.bb) app.bb.sza ≡ (found, 40 + length s.payload)
    found_frame =
        ap (λ bs. find_frame outside bs app.bb.sza) (sym (contents_a p) ∙ e)
        ∙ ap (find_frame outside (frame s ++ rest)) total
        ∙ find_frame-frame outside s.base s.cmdid s.payload rest (omega (arith, total, small_a))

    length-frame : length (frame s) ≡ 40 + length s.payload
    length-frame =
        omega (arith, length-sent outside s.base s.cmdid s.payload [], length-append (frame s) [])

    handed_on : take (40 + length s.payload) (block_a app.bb) ≡ frame s
    handed_on =
        ap (take (40 + length s.payload)) (sym (contents_a p) ∙ e)
        ∙ take-append_le (40 + length s.payload) (frame s) rest (omega (arith, length-frame))
        ∙ take-all (40 + length s.payload) (frame s) (omega (arith, length-frame))

    rest_left : contents (decommit_block app.bb (40 + length s.payload)) ≡ rest
    rest_left =
        contents-decommit_block (40 + length s.payload) p.valid
        ∙ ap (drop (min (40 + length s.payload) app.bb.sza)) e
        ∙ ap (λ n. drop n (frame s ++ rest)) {x = min (40 + length s.payload) app.bb.sza}
            {y = length (frame s)} (ground (arith, total, length-frame))
        ∙ drop-append_ge (length (frame s)) (frame s) rest (omega arith)
        ∙ ap (λ n. drop n rest) {x = length (frame s) - length (frame s)} {y = 0} (omega arith)

    module _ (c : IsConfined analyse s) where
      abbrev pub given_back : BipBuffer
      given_back = decommit_block app.bb (40 + length s.payload)

      -- The buffer when the frame has been handled.
      abbrev pub handled : BipBuffer
      handled = analysed malloc outside analyse given_back app.bb.ixa (40 + length s.payload)

      bytes_kept : Keeps given_back.bytes (app.bb.ixa + (40 + length s.payload)) handled.bytes
      bytes_kept = c given_back.bytes app.bb.ixa (
          ap (λ bs. slice bs app.bb.ixa (40 + length s.payload))
            (decommit_block-bytes app.bb (40 + length s.payload))
          ∙ sym (
              take-slice (40 + length s.payload) app.bb.bytes app.bb.ixa app.bb.sza
                (omega (arith, total)))
          ∙ handed_on)

      first_kept :
          slice handled.bytes given_back.ixa given_back.sza
          ≡ slice given_back.bytes given_back.ixa given_back.sza
      first_kept = elim (decommit_block-place p (40 + length s.payload)) [
        | inl z ↦
            ap (slice handled.bytes given_back.ixa) z
            ∙ slice-nil handled.bytes given_back.ixa
            ∙ sym (slice-nil given_back.bytes given_back.ixa)
            ∙ sym (ap (slice given_back.bytes given_back.ixa) z)
        | inr l ↦ bytes_kept.1 given_back.ixa given_back.sza l
      ]

      pub handled-IsPlain : IsPlain handled
      handled-IsPlain =
          let g = decommit_block-IsPlain p (40 + length s.payload) in
          record {
            valid = record {
              holds = bytes_kept.0 ∙ g.valid.holds;
              small = g.valid.small;
              a_in = g.valid.a_in;
              b_first = g.valid.b_first;
              b_before = g.valid.b_before;
              a_first = g.valid.a_first;
              pending = g.valid.pending;
            };
            one = g.one;
          }

      pub left : contents handled ≡ rest
      left =
          let z = (decommit_block-IsPlain p (40 + length s.payload)).one in
          let empty =
            λ (bs : List ℕ). ap (slice bs given_back.ixb) z ∙ slice-nil bs given_back.ixb in
          ap (λ x. x ++ slice handled.bytes given_back.ixb given_back.szb) first_kept
          ∙ ap (λ x. slice given_back.bytes given_back.ixa given_back.sza ++ x)
              (empty handled.bytes ∙ sym (empty given_back.bytes))
          ∙ rest_left

    pub turn_frame : turn malloc outside analyse app ≡ record {
      app = record app {
        bb =
            analysed malloc outside analyse
              (decommit_block app.bb (40 + length s.payload))
              app.bb.ixa
              (40 + length s.payload);
        morebyte = 40;
      };
      frames = frame s ∷ [];
      repeated = true;
    }
    unfolding turn on_verdict
    turn_frame =
        let enough : sle 40 app.bb.sza ≡ true =
          ground (arith, sle_small 40 app.bb.sza, total, small_a) in
        let not_few : slt app.bb.sza 40 ≡ false =
          ground (arith, slt_small app.bb.sza 40, total, small_a) in
        rw (recv_total p, used p, enough, not_few, found_frame, handed_on, off) refl

  pub turn_few : length (contents app.bb) < 40 → turn malloc outside analyse app ≡ stopped app
  unfolding turn
  turn_few h =
      let few : sle 40 app.bb.sza ≡ false =
        ground (arith, sle_small 40 app.bb.sza, length_a p, small_a) in
      rw (recv_total p, used p, few) refl

  pub turn_partial :
      (tail : List ℕ) (s : Sent)
      → contents app.bb ≡ tail
      → IsPart tail s
      → turn malloc outside analyse app ≡ stopped (record app { morebyte = 40 })
  unfolding turn on_verdict on_short
  turn_partial tail s e h =
      let k : app.bb.sza ≡ length tail = sym (length_a p) ∙ ap length e in
      let enough : sle 40 app.bb.sza ≡ true =
        ground (arith, sle_small 40 app.bb.sza, k, small_a, h) in
      let not_few : slt app.bb.sza 40 ≡ false =
        ground (arith, slt_small app.bb.sza 40, k, small_a, h) in
      let missing : find_frame outside (block_a app.bb) app.bb.sza
          ≡ (short, 40 + length s.payload - length tail) =
        ap (λ bs. find_frame outside bs app.bb.sza) (sym (contents_a p) ∙ e ∙ h.part)
        ∙ ap (find_frame outside (take (length tail) (frame s ++ []))) k
        ∙ find_frame-partial outside s.base s.cmdid s.payload (length tail) h.low h.high
            (omega (arith, h.fits)) in
      let size : add32 app.bb.sza (40 + length s.payload - length tail) ≡ 40 + length s.payload =
        ground (arith, add32_small app.bb.sza (40 + length s.payload - length tail), k, h) in
      let incomplete : sle (40 + length s.payload) app.bb.sza ≡ false =
        ground (arith, sle_small (40 + length s.payload) app.bb.sza, k, h, small_a) in
      let not_large : slt 30000 (40 + length s.payload) ≡ false =
        ground (arith, slt_small 30000 (40 + length s.payload), h) in
      rw
        (
          recv_total p,
          used p,
          enough,
          not_few,
          missing,
          size,
          used p,
          incomplete,
          recv_total p,
          incomplete,
          not_large,
        )
        refl

pub finish_off : (app : TmsxxApp) → app.enable_lbb ≡ 0 → finish app ≡ app
unfolding finish
finish_off app off = rw (off) refl
