-- ===== src/BipBuffer/Valid.antt =====
-- The well-formedness of `struct bipbuffer` (osnet/bipbuffer.c), and that the operations keep it.
use tmsxx_tc.Prelude.{
  ℕ, ◌+◌, ◌-◌, ◌^◌, ◌≤◌, ◌<◌, min, ◌≡◌, ◌⊎◌, true, List, arith, length, length-replicate,
}
use tmsxx_tc.Prelude.Words.{sub32, add32_small, sub32_small, slt_small, sle_small}
use tmsxx_tc.Prelude.Blocks.{length-write_at}
use tmsxx_tc.BipBuffer.{
  BipBuffer, space_after_a, b_free_space, at_most, reserve_in_b, reserve_round_a, reserve,
  commit_bytes, commit, fill, decommit_block, decommit_multi, allocate_buffer, clear,
}

-- Where the reserved bytes may lie: right after A while there is no B; right after B, before A;
-- anywhere in an empty buffer; or nowhere.
abbrev pub IsPending : BipBuffer → Type 0
IsPending bb =
    ((bb.ix_resrv ≡ bb.ixa + bb.sza) × (bb.szb ≡ 0) × (bb.ix_resrv + bb.sz_resrv ≤ bb.buflen))
    ⊎ ((bb.ix_resrv ≡ bb.szb) × (bb.ix_resrv + bb.sz_resrv ≤ bb.ixa) × (0 < bb.sza))
    ⊎ ((bb.sza ≡ 0) × (bb.szb ≡ 0) × (bb.ix_resrv + bb.sz_resrv ≤ bb.buflen))
    ⊎ ((bb.ix_resrv ≡ 0) × (bb.sz_resrv ≡ 0))

-- Both blocks lie inside the storage, B begins at its start and ends before A, there is no B
-- without A, and the reserved bytes are free.
pub record IsValid (bb : BipBuffer) : Type 0 where
  pub holds : length bb.bytes ≡ bb.buflen
  pub small : bb.buflen < 2 ^ 31
  pub a_in : bb.ixa + bb.sza ≤ bb.buflen
  pub b_first : bb.ixb ≡ 0
  pub b_before : bb.szb ≤ bb.ixa
  pub a_first : (0 < bb.sza) ⊎ (bb.szb ≡ 0)
  pub pending : IsPending bb

module _ {bb : BipBuffer} (v : IsValid bb) where
  pub space_after_a-eq : space_after_a bb ≡ bb.buflen - bb.ixa - bb.sza
  space_after_a-eq =
      ground (arith, sub32_small bb.buflen bb.ixa, sub32_small (bb.buflen - bb.ixa) bb.sza)

  pub b_free_space-eq : b_free_space bb ≡ bb.ixa - bb.szb
  b_free_space-eq = ground (arith, sub32_small bb.ixa bb.ixb, sub32_small bb.ixa bb.szb)

pub at_most-eq : (size free : ℕ) → size < 2 ^ 31 → free < 2 ^ 31 → at_most size free ≡ min size free
at_most-eq size free h k = ground (arith, slt_small size free)

module _ {bb : BipBuffer} (size : ℕ) (v : IsValid bb) (h : size < 2 ^ 31) where
  reserve_in_b-IsValid : 0 < bb.szb → IsValid (reserve_in_b bb size).0
  unfolding reserve_in_b
  reserve_in_b-IsValid b =
      ground
        (arith, b_free_space-eq v, at_most-eq size (bb.ixa - bb.szb), add32_small bb.ixb bb.szb)

  reserve_round_a-IsValid : bb.szb ≡ 0 → IsValid (reserve_round_a bb size).0
  unfolding reserve_round_a
  reserve_round_a-IsValid b = ground (
    arith,
    space_after_a-eq v,
    at_most-eq size (bb.buflen - bb.ixa - bb.sza),
    add32_small bb.ixa bb.sza,
    sle_small bb.ixa (bb.buflen - bb.ixa - bb.sza),
    slt_small bb.ixa size,
  )

-- `bipbuffer_Reserve` with a size that is not negative keeps the buffer well formed.
pub reserve-IsValid :
    {bb : BipBuffer} (size : ℕ) → IsValid bb → size < 2 ^ 31 → IsValid (reserve bb size).0
unfolding reserve
reserve-IsValid {bb} size v h =
    ground (arith, reserve_in_b-IsValid size v h, reserve_round_a-IsValid size v h)

commit_bytes-IsValid :
    {bb : BipBuffer} (n : ℕ) → IsValid bb → n ≤ bb.sz_resrv → IsValid (commit_bytes bb n)
unfolding commit_bytes
commit_bytes-IsValid {bb} n v h =
    ground (arith, add32_small bb.sza bb.ixa, add32_small bb.sza n, add32_small bb.szb n)

-- `bipbuffer_Commit` keeps the buffer well formed, whatever size it is called with.
pub commit-IsValid : {bb : BipBuffer} (size : ℕ) → IsValid bb → IsValid (commit bb size)
unfolding commit
commit-IsValid {bb} size v =
    ground (arith, commit_bytes-IsValid bb.sz_resrv v, commit_bytes-IsValid size v)

pub fill-IsValid : {bb : BipBuffer} (received : List ℕ) → IsValid bb → IsValid (fill bb received)
unfolding fill
fill-IsValid {bb} received v = ground (arith, length-write_at bb.bytes bb.ix_resrv received)

-- `bipbuffer_DecommitBlock` keeps the buffer well formed, also between a reserve and its commit.
pub decommit_block-IsValid :
    {bb : BipBuffer} (size : ℕ) → IsValid bb → IsValid (decommit_block bb size)
unfolding decommit_block
decommit_block-IsValid {bb} size v =
    ground (arith, sub32_small bb.sza size, add32_small bb.ixa size)

-- So does `bipbuffer_DecommitMulti`.
pub decommit_multi-IsValid :
    {bb : BipBuffer} (size : ℕ) → IsValid bb → IsValid (decommit_multi bb size)
unfolding decommit_multi
decommit_multi-IsValid {bb} size v = ground (
  arith,
  decommit_block-IsValid size v,
  decommit_block-IsValid (sub32 size bb.sza) (decommit_block-IsValid size v),
)

pub clear-IsValid : {bb : BipBuffer} → IsValid bb → IsValid (clear bb)
unfolding clear
clear-IsValid {bb} v = ground arith

-- On a well-formed buffer without a reservation (and without storage while it has no block),
-- allocate_buffer of a positive size below 2^31 whose malloc succeeds returns true and leaves a
-- well-formed empty buffer of that size.
pub allocate_buffer-IsValid :
    (addr buffersize : ℕ) {bb : BipBuffer}
    → 0 < buffersize
    → buffersize < 2 ^ 31
    → 0 < addr
    → IsValid bb
    → (bb.p_buffer ≡ 0 → bb.buflen ≡ 0)
    → bb.ix_resrv ≡ 0
    → bb.sz_resrv ≡ 0
    → let (bb', done) = allocate_buffer addr bb buffersize in
      (done ≡ true) × IsValid bb' × (bb'.sza + bb'.szb ≡ 0) × (bb'.buflen ≡ buffersize)
unfolding allocate_buffer
allocate_buffer-IsValid addr n {bb} h k a v e i s =
    ground (arith, sle_small n 0, length-replicate {0} {A = ℕ} n 0)
