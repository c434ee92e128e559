-- ===== src/Receive/Frames.antt =====
-- Frames that were sent, one after the other, and a buffer that holds them (src/ep_app.c).
use mathlib.Core.List.{append-nil}
use tmsxx_tc.Prelude.{
  ℕ, ◌+◌, ◌≤◌, ◌<◌, ◌≡◌, ◌⊎◌, inl, inr, Bool-cases, leb, List, [], ◌∷◌, ◌++◌, length, take, arith,
}
use tmsxx_tc.Prelude.Words.{add32_small}
use tmsxx_tc.Prelude.Blocks.{slice, slice-nil}
use tmsxx_tc.BipBuffer.{BipBuffer, contents, decommit_block, get_contiguous_block, get_used_size}
use tmsxx_tc.BipBuffer.Valid.{IsValid, decommit_block-IsValid}
use tmsxx_tc.BipBuffer.Fifo.{length-contents}
use tmsxx_tc.Glink.{GlinkBase, build, frame_bytes}
use tmsxx_tc.Receive.{block_a}

-- A frame that was sent.
pub record Sent : Type 0 where
  pub base : GlinkBase
  pub cmdid : ℕ
  pub payload : List ℕ

abbrev pub frame : Sent → List ℕ
frame s = frame_bytes (build s.base s.cmdid (length s.payload)) s.payload

-- Frames one after the other, and what follows them.
abbrev pub stream : List Sent → List ℕ → List ℕ
stream [] tail = tail
stream (s ∷ ss) tail = frame s ++ stream ss tail

-- The first bytes of a frame, at least as many as a header takes, which is no longer than the buffer.
pub record IsPart (tail : List ℕ) (s : Sent) : Type 0 where
  pub low : 40 ≤ length tail
  pub high : length tail < 40 + length s.payload
  pub fits : 40 + length s.payload ≤ 30000
  pub part : tail ≡ take (length tail) (frame s ++ [])

abbrev pub IsTail : List ℕ → Type 0
IsTail tail = (length tail < 40) ⊎ ((s : Sent) × IsPart tail s)

-- When the bytes of the frame are at `i`, the analyser keeps the bytes behind them.
abbrev pub Keeps : List ℕ → ℕ → List ℕ → Type 0
Keeps bytes behind bytes' =
    (length bytes' ≡ length bytes) × ((i m : ℕ) → behind ≤ i → slice bytes' i m ≡ slice bytes i m)

abbrev pub IsConfined : (List ℕ → ℕ → ℕ → List ℕ) → Sent → Type 0
IsConfined analyse s =
    (bytes : List ℕ) (i : ℕ)
    → slice bytes i (40 + length s.payload) ≡ frame s
    → Keeps bytes (i + (40 + length s.payload)) (analyse bytes i (40 + length s.payload))

abbrev pub AreConfined : (List ℕ → ℕ → ℕ → List ℕ) → List Sent → Type 0
AreConfined analyse [] = Unit {0}
AreConfined analyse (s ∷ ss) = IsConfined analyse s × AreConfined analyse ss

-- The buffer holds its bytes in block A.
pub record IsPlain (bb : BipBuffer) : Type 0 where
  pub valid : IsValid bb
  pub one : bb.szb ≡ 0

pub first_block : (bb : BipBuffer) → (get_contiguous_block bb).1 ≡ bb.sza
unfolding get_contiguous_block
first_block bb = ground arith

pub used_both : {bb : BipBuffer} → IsValid bb → get_used_size bb ≡ bb.sza + bb.szb
unfolding get_used_size
used_both {bb} v = ground (arith, v, add32_small bb.sza bb.szb)

module _ {bb : BipBuffer} (p : IsPlain bb) where
  pub contents_a : contents bb ≡ block_a bb
  contents_a = rw (p.one, slice-nil bb.bytes bb.ixb) (append-nil (block_a bb))

  pub length_a : length (contents bb) ≡ bb.sza
  length_a = omega (arith, length-contents 0 p.valid, p.one)

  pub recv_total : (get_contiguous_block bb).1 ≡ bb.sza
  recv_total = first_block bb

  pub used : get_used_size bb ≡ bb.sza
  used = omega (arith, used_both p.valid, p.one)

  pub decommit_block-IsPlain : (n : ℕ) → IsPlain (decommit_block bb n)
  unfolding decommit_block
  decommit_block-IsPlain n = record {
    valid = decommit_block-IsValid n p.valid;
    one = ground (arith, p.one);
  }

pub decommit_block-bytes : (bb : BipBuffer) (n : ℕ) → (decommit_block bb n).bytes ≡ bb.bytes
unfolding decommit_block
decommit_block-bytes bb n = ground arith

-- Nothing is left in block A, or it begins behind what was given back.
pub decommit_block-place :
    {bb : BipBuffer} (p : IsPlain bb) (n : ℕ)
    → ((decommit_block bb n).sza ≡ 0) ⊎ (bb.ixa + n ≤ (decommit_block bb n).ixa)
unfolding decommit_block
decommit_block-place {bb} p n = elim (Bool-cases (leb bb.sza n)) [
  | inl e ↦ inl (ground (arith, e, p.one))
  | inr e ↦ inr (ground (arith, e, p.valid, add32_small bb.ixa n))
]
