-- ===== src/BipBuffer/Pointers.antt =====
-- osnet/bipbuffer.c: the functions that take pointers into the buffer.
use tmsxx_tc.Prelude.{
  ℕ, ◌+◌, ◌-◌, ◌^◌, ◌≤◌, ◌<◌, ◌≡◌, ◌⊎◌, ◌↔◌, ◌∙◌, ap, arith, Bool, true, false, [], drop, drop-all,
  leb, ltb, ◌==◌, ◌&&◌, ◌||◌, if◌then◌else◌,
}
use tmsxx_tc.Prelude.Words.{add32, sub32, add32_small, sub32_small, sub32_negative, slt-sub32}
use tmsxx_tc.BipBuffer.{BipBuffer, contents, decommit_block, decommit_multi}
use tmsxx_tc.BipBuffer.Valid.{IsValid}
use tmsxx_tc.BipBuffer.Fifo.{contents-decommit_multi, length-contents}

-- `bb->pBuffer + i`
abbrev pub at : BipBuffer → ℕ → ℕ
at bb i = add32 bb.p_buffer i

-- `bipbuffer_FrameLen`; pointers are compared as addresses.
unfoldable pub frame_len : BipBuffer → ℕ → ℕ → ℕ
frame_len bb saddr eaddr =
    if saddr == 0 || eaddr == 0
    then 0
    else if ltb saddr eaddr
    then sub32 eaddr saddr
    else add32 (sub32 eaddr (at bb bb.ixb)) (sub32 (add32 (at bb bb.ixa) bb.sza) saddr)

-- `bipbuffer_DecommitTo`
unfoldable pub decommit_to : BipBuffer → ℕ → BipBuffer
decommit_to bb ptrto = decommit_multi bb (frame_len bb (at bb bb.ixa) ptrto)

-- `bipbuffer_IsSequence`
unfoldable pub is_sequence : BipBuffer → ℕ → ℕ → Bool
is_sequence bb pfrom pto =
    if leb (at bb bb.ixa) pfrom && leb pto (add32 (at bb bb.ixa) bb.sza)
    then true
    else if leb (at bb bb.ixb) pfrom && leb pto (add32 (at bb bb.ixb) bb.szb)
    then true
    else false

-- `bipbuffer_Offset`, on a copy of the structure; 0 is NULL.
unfoldable pub offset : BipBuffer → ℕ → ℕ → ℕ
offset bb ref n =
    let tbb = decommit_to bb ref in if leb n tbb.sza then add32 (at tbb tbb.ixa) n else 0

-- The block is allocated, and ends below the end of the address space.
abbrev pub IsPlaced : BipBuffer → Type 0
IsPlaced bb = (0 < bb.p_buffer) × (bb.p_buffer + bb.buflen < 2 ^ 32)

module _ {bb : BipBuffer} (v : IsValid bb) (p : IsPlaced bb) where
  -- In a well-formed buffer placed in memory, is_sequence holds of two addresses in the storage
  -- exactly if the first is not in front of a block and the second not behind the end of the same
  -- block.
  pub is_sequence_iff :
      (i j : ℕ)
      → i ≤ bb.buflen
      → j ≤ bb.buflen
      → (is_sequence bb (at bb i) (at bb j) ≡ true)
        ↔ (((bb.ixa ≤ i) × (j ≤ bb.ixa + bb.sza)) ⊎ ((bb.ixb ≤ i) × (j ≤ bb.ixb + bb.szb)))
  unfolding is_sequence
  is_sequence_iff i j hi hj = ground (
    arith,
    add32_small bb.p_buffer i,
    add32_small bb.p_buffer j,
    add32_small bb.p_buffer bb.ixa,
    add32_small bb.p_buffer bb.ixb,
    add32_small (bb.p_buffer + bb.ixa) bb.sza,
    add32_small (bb.p_buffer + bb.ixb) bb.szb,
  )

  frame_len_in_a :
      (k : ℕ) → 0 < k → k ≤ bb.sza → frame_len bb (at bb bb.ixa) (at bb (bb.ixa + k)) ≡ k
  unfolding frame_len
  frame_len_in_a k pos h = ground (
    arith,
    add32_small bb.p_buffer bb.ixa,
    add32_small bb.p_buffer (bb.ixa + k),
    sub32_small (bb.p_buffer + (bb.ixa + k)) (bb.p_buffer + bb.ixa),
  )

  frame_len_in_b :
      (k : ℕ) → k ≤ bb.ixa → frame_len bb (at bb bb.ixa) (at bb (bb.ixb + k)) ≡ bb.sza + k
  unfolding frame_len
  frame_len_in_b k h = ground (
    arith,
    add32_small bb.p_buffer bb.ixa,
    add32_small bb.p_buffer bb.ixb,
    add32_small (bb.p_buffer + bb.ixa) bb.sza,
    add32_small bb.p_buffer (bb.ixb + k),
    sub32_small (bb.p_buffer + (bb.ixb + k)) (bb.p_buffer + bb.ixb),
    sub32_small (bb.p_buffer + bb.ixa + bb.sza) (bb.p_buffer + bb.ixa),
    add32_small k bb.sza,
  )

  -- In a well-formed buffer placed in memory, decommit_to an address in block A behind its first
  -- byte, or at its end, drops the bytes in front of it.
  pub contents-decommit_to_a :
      (k : ℕ)
      → 0 < k
      → k ≤ bb.sza
      → contents (decommit_to bb (at bb (bb.ixa + k))) ≡ drop k (contents bb)
  unfolding decommit_to
  contents-decommit_to_a k pos h =
      rw (frame_len_in_a k pos h) (contents-decommit_multi k v (omega arith))

  -- In a well-formed buffer placed in memory, decommit_to an address in block B drops block A and
  -- the bytes of B in front of it.
  pub contents-decommit_to_b :
      (k : ℕ)
      → k < bb.szb
      → contents (decommit_to bb (at bb (bb.ixb + k))) ≡ drop (bb.sza + k) (contents bb)
  unfolding decommit_to
  contents-decommit_to_b k h =
      rw (frame_len_in_b k (omega arith)) (contents-decommit_multi (bb.sza + k) v (omega arith))

  -- In a well-formed buffer placed in memory, decommit_to the first byte of block A leaves no byte
  -- in the buffer, though none is in front of that place.
  pub contents-decommit_to_first : contents (decommit_to bb (at bb bb.ixa)) ≡ []
  unfolding decommit_to
  contents-decommit_to_first =
      ap (λ k. contents (decommit_to bb (at bb k))) {x = bb.ixa} {y = bb.ixb + bb.ixa} (omega arith)
      ∙ rw (frame_len_in_b bb.ixa (omega arith))
          (contents-decommit_multi (bb.sza + bb.ixa) v (omega arith))
      ∙ drop-all (bb.sza + bb.ixa) (contents bb) (omega (arith, length-contents 0 v))

  -- In a well-formed buffer placed in memory, offset from a byte of block A behind its first one
  -- gives the address that many bytes on, if that lies in A or at its end, and NULL otherwise.
  pub offset_lem :
      (k n : ℕ)
      → 0 < k
      → k < bb.sza
      → offset bb (at bb (bb.ixa + k)) n
        ≡ (if leb n (bb.sza - k) then at bb (bb.ixa + k + n) else 0)
  unfolding offset decommit_to decommit_multi decommit_block
  offset_lem k n pos h = rw (frame_len_in_a k pos (omega arith)) (
      ground (
        arith,
        sub32_negative k bb.sza,
        slt-sub32 k bb.sza,
        sub32_small bb.sza k,
        add32_small bb.ixa k,
        add32_small bb.p_buffer (bb.ixa + k),
        add32_small (bb.p_buffer + (bb.ixa + k)) n,
        add32_small bb.p_buffer (bb.ixa + k + n),
      ))
