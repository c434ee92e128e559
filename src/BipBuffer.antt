-- ===== src/BipBuffer.antt =====
-- osnet/bipbuffer.h and osnet/bipbuffer.c: the buffer's state and the operations that change it.
-- An `int` field or argument is its 32-bit pattern (Prelude/Words). An address is a 32-bit number,
-- NULL is 0, and a pointer into the buffer is `p_buffer` plus an offset.
pub mod Valid
pub mod Fifo
pub mod Room
pub mod Queue
pub mod Run
pub mod Copy
pub mod Pointers
use tmsxx_tc.Prelude.{
  ℕ, ◌<◌, Bool, true, false, List, [], ◌++◌, Option, none, some, leb, ltb, ◌==◌, not, ◌&&◌,
  replicate, if◌then◌else◌,
}
use tmsxx_tc.Prelude.Words.{add32, sub32, slt, sle}
use tmsxx_tc.Prelude.Blocks.{slice, write_at}

-- `struct bipbuffer`, with the bytes of the block that `pBuffer` points to.
pub record BipBuffer : Type 0 where
  pub p_buffer : ℕ
  pub bytes : List ℕ
  pub ixa : ℕ
  pub sza : ℕ
  pub ixb : ℕ
  pub szb : ℕ
  pub buflen : ℕ
  pub ix_resrv : ℕ
  pub sz_resrv : ℕ

-- `bipbuffer_Init`
abbrev pub init : BipBuffer
init = record {
  p_buffer = 0;
  bytes = [];
  ixa = 0;
  sza = 0;
  ixb = 0;
  szb = 0;
  buflen = 0;
  ix_resrv = 0;
  sz_resrv = 0;
}

-- `bipbuffer_FreeBuffer`: the reservation is left as it was.
unfoldable pub free_buffer : BipBuffer → BipBuffer
free_buffer bb =
    if bb.p_buffer == 0
    then bb
    else record bb { p_buffer = 0; bytes = []; ixa = 0; sza = 0; ixb = 0; szb = 0; buflen = 0 }

-- `bipbuffer_AllocateBuffer`, where `addr` is what `malloc(buffersize)` returns.
unfoldable pub allocate_buffer : ℕ → BipBuffer → ℕ → BipBuffer × Bool
unfolding free_buffer
allocate_buffer addr bb buffersize =
    if sle buffersize 0
    then (bb, false)
    else let bb' = if bb.p_buffer == 0 then bb else free_buffer bb in
      if addr == 0 then (record bb' { p_buffer = 0 }, false) else (
        record bb' { p_buffer = addr; buflen = buffersize; bytes = replicate buffersize 0 },
        true,
      )

-- `bipbuffer_Clear`
unfoldable pub clear : BipBuffer → BipBuffer
clear bb = record bb { ixa = 0; sza = 0; ixb = 0; szb = 0; ix_resrv = 0; sz_resrv = 0 }

-- the macros `GetSpaceAfterA` and `GetBFreeSpace`
abbrev pub space_after_a : BipBuffer → ℕ
space_after_a bb = sub32 (sub32 bb.buflen bb.ixa) bb.sza

abbrev pub b_free_space : BipBuffer → ℕ
b_free_space bb = sub32 (sub32 bb.ixa bb.ixb) bb.szb

-- What `bipbuffer_Reserve` hands back: the returned pointer, and what it stores through
-- `reserved` (`none`: nothing is stored).
pub record Reservation : Type 0 where
  pub ptr : ℕ
  pub reserved : Option ℕ

abbrev pub refused : Option ℕ → Reservation
refused r = record { ptr = 0; reserved = r }

-- A reservation of `n` bytes at index `i`.
abbrev pub grant : BipBuffer → ℕ → ℕ → BipBuffer × Reservation
grant bb i n = (
  record bb { ix_resrv = i; sz_resrv = n },
  record { ptr = add32 bb.p_buffer i; reserved = some n },
)

-- `if (size < freespace) freespace = size;`
abbrev pub at_most : ℕ → ℕ → ℕ
at_most size freespace = if slt size freespace then size else freespace

-- The branch of `bipbuffer_Reserve` where block B exists.
unfoldable pub reserve_in_b : BipBuffer → ℕ → BipBuffer × Reservation
reserve_in_b bb size =
    if at_most size (b_free_space bb) == 0
    then (bb, refused (some 0))
    else grant bb (add32 bb.ixb bb.szb) (at_most size (b_free_space bb))

-- The branch where it does not: after A, or before it.
unfoldable pub reserve_round_a : BipBuffer → ℕ → BipBuffer × Reservation
reserve_round_a bb size =
    if sle bb.ixa (space_after_a bb)
    then (if space_after_a bb == 0
        then (bb, refused none)
        else grant bb (add32 bb.ixa bb.sza) (at_most size (space_after_a bb)))
    else (if bb.ixa == 0
        then (bb, refused none)
        else grant bb 0 (if slt bb.ixa size then bb.ixa else size))

-- `bipbuffer_Reserve`
unfoldable pub reserve : BipBuffer → ℕ → BipBuffer × Reservation
unfolding reserve_in_b reserve_round_a
reserve bb size = if bb.szb == 0 then reserve_round_a bb size else reserve_in_b bb size

-- The part of `bipbuffer_Commit` below the clipping: `tsize` bytes join a block.
unfoldable pub commit_bytes : BipBuffer → ℕ → BipBuffer
commit_bytes bb tsize =
    if bb.sza == 0 && bb.szb == 0
    then record bb { ixa = bb.ix_resrv; sza = tsize; ix_resrv = 0; sz_resrv = 0 }
    else if bb.ix_resrv == add32 bb.sza bb.ixa
    then record bb { sza = add32 bb.sza tsize; ix_resrv = 0; sz_resrv = 0 }
    else record bb { szb = add32 bb.szb tsize; ix_resrv = 0; sz_resrv = 0 }

-- `bipbuffer_Commit`
unfoldable pub commit : BipBuffer → ℕ → BipBuffer
unfolding commit_bytes
commit bb size =
    if slt size 0
    then bb
    else if size == 0
    then record bb { sz_resrv = 0; ix_resrv = 0 }
    else commit_bytes bb (if ltb bb.sz_resrv size then bb.sz_resrv else size)

-- What the caller does between the two: it writes into the reserved bytes.
unfoldable pub fill : BipBuffer → List ℕ → BipBuffer
fill bb received = record bb { bytes = write_at bb.bytes bb.ix_resrv received }

-- `bipbuffer_DecommitBlock`
unfoldable pub decommit_block : BipBuffer → ℕ → BipBuffer
decommit_block bb size =
    if leb bb.sza size
    then record bb { ixa = bb.ixb; sza = bb.szb; ixb = 0; szb = 0 }
    else record bb { sza = sub32 bb.sza size; ixa = add32 bb.ixa size }

-- `bipbuffer_DecommitMulti`
unfoldable pub decommit_multi : BipBuffer → ℕ → BipBuffer
decommit_multi bb size =
    let b = sub32 size bb.sza in
    let bb' = decommit_block bb size in if slt 0 b then decommit_block bb' b else bb'

-- `bipbuffer_GetContiguousBlock`: the pointer and the size.
unfoldable pub get_contiguous_block : BipBuffer → ℕ × ℕ
get_contiguous_block bb = if bb.sza == 0 then (0, 0) else (add32 bb.p_buffer bb.ixa, bb.sza)

-- `bipbuffer_GetCommittedSize` and `bipbuffer_GetUsedSize`
unfoldable pub get_used_size : BipBuffer → ℕ
get_used_size bb = add32 bb.sza bb.szb

-- `bipbuffer_IsSequenceAll`
unfoldable pub is_sequence_all : BipBuffer → Bool
is_sequence_all bb = if bb.szb == 0 then true else false

-- `bipbuffer_GetReservationSize`
unfoldable pub get_reservation_size : BipBuffer → ℕ
get_reservation_size bb = bb.sz_resrv

-- `bipbuffer_GetBufferSize`
unfoldable pub get_buffer_size : BipBuffer → ℕ
get_buffer_size bb = bb.buflen

-- `bipbuffer_IsInitialized`
unfoldable pub is_initialized : BipBuffer → Bool
is_initialized bb = not (bb.p_buffer == 0)

-- The committed bytes, oldest first: block A, then block B.
abbrev pub contents : BipBuffer → List ℕ
contents bb = slice bb.bytes bb.ixa bb.sza ++ slice bb.bytes bb.ixb bb.szb
