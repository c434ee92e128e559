-- ===== src/BipBuffer/Copy.antt =====
-- osnet/bipbuffer.c: making the committed bytes contiguous, in place and into a caller's memory.
use mathlib.Core.List.{append-nil}
use tmsxx_tc.Prelude.{
  ℕ, ◌+◌, ◌-◌, ◌^◌, ◌≤◌, ◌<◌, min, ◌≡◌, Option, none, some, List, ◌++◌, arith, length-drop, take,
  drop, take-all, ◌==◌, leb, if◌then◌else◌,
}
use tmsxx_tc.Prelude.Words.{add32, sub32, slt, sle, add32_small, sub32_small, slt_small, sle_small}
use tmsxx_tc.Prelude.Blocks.{
  slice, write_at, length-write_at, length-slice, slice-nil, slice-write_at_self, take-slice,
  take-append_le, take-append_ge,
}
use tmsxx_tc.BipBuffer.{BipBuffer, contents, decommit_block}
use tmsxx_tc.BipBuffer.Valid.{IsValid, decommit_block-IsValid}
use tmsxx_tc.BipBuffer.Fifo.{contents-decommit_block, length-contents}

-- `bipbuffer_GetUnContiguousBlock`, where `tmp` is what `malloc(buflen)` returns: the returned
-- pointer, and what is stored through `size` (`none`: nothing is stored).
unfoldable pub get_un_contiguous_block : ℕ → BipBuffer → BipBuffer × ℕ × Option ℕ
get_un_contiguous_block tmp bb =
    if bb.sza == 0
    then (bb, 0, some 0)
    else if bb.szb == 0
    then (bb, add32 bb.p_buffer bb.ixa, some bb.sza)
    else if tmp == 0
    then (bb, 0, none)
    else (
      record bb {
        bytes = write_at bb.bytes 0 (slice bb.bytes bb.ixa bb.sza ++ slice bb.bytes bb.ixb bb.szb);
        sza = add32 bb.sza bb.szb;
        ixa = 0;
        ixb = 0;
        szb = 0;
      },
      bb.p_buffer,
      none,
    )

-- `bipbuffer_Copy2User`: the bytes that are written to `puser` on.
unfoldable pub copy_to_user : BipBuffer → ℕ → ℕ → List ℕ
copy_to_user bb offset size =
    let tbb = decommit_block bb offset in
    let used = add32 bb.sza bb.szb in
    let n = if slt used size then used else size in
    if sle n tbb.sza
    then slice tbb.bytes tbb.ixa n
    else slice tbb.bytes tbb.ixa tbb.sza ++ slice tbb.bytes tbb.ixb (sub32 n tbb.sza)

module _ {bb : BipBuffer} (tmp : ℕ) (v : IsValid bb) (got : 0 < tmp) where
  -- If its malloc succeeds, get_un_contiguous_block keeps the contents of a well-formed buffer in
  -- order and leaves no block B, and the buffer stays well formed once a pending reservation is
  -- dropped.
  pub get_un_contiguous_block_lem :
      let bb' = (get_un_contiguous_block tmp bb).0 in
      (contents bb' ≡ contents bb)
      × (bb'.szb ≡ 0)
      × IsValid (record bb' { ix_resrv = 0; sz_resrv = 0 })
  unfolding get_un_contiguous_block
  get_un_contiguous_block_lem = ground (
    arith,
    add32_small bb.sza bb.szb,
    length-contents 0 v,
    slice-write_at_self bb.bytes 0 (contents bb) (bb.sza + bb.szb),
    take-all (bb.sza + bb.szb) (contents bb),
    length-write_at bb.bytes 0 (contents bb),
    slice-nil (write_at bb.bytes 0 (contents bb)) 0,
    append-nil (contents bb),
  )

-- A prefix of the committed bytes, read block by block.
take-contents :
    {bb : BipBuffer} (n : ℕ)
    → IsValid bb
    → n ≤ bb.sza + bb.szb
    → take n (contents bb) ≡ (
        if leb n bb.sza
        then slice bb.bytes bb.ixa n
        else slice bb.bytes bb.ixa bb.sza ++ slice bb.bytes bb.ixb (n - bb.sza))
take-contents {bb} n v h = ground (
  arith,
  length-slice bb.bytes bb.ixa bb.sza,
  take-append_le n (slice bb.bytes bb.ixa bb.sza) (slice bb.bytes bb.ixb bb.szb),
  take-append_ge n (slice bb.bytes bb.ixa bb.sza) (slice bb.bytes bb.ixb bb.szb),
  take-slice n bb.bytes bb.ixa bb.sza,
  take-slice (n - bb.sza) bb.bytes bb.ixb bb.szb,
)

-- On a well-formed buffer and for a size below 2^31, copy_to_user hands out the bytes behind the
-- offset, the offset cut to the length of block A and the size to the length of the contents,
-- provided that so many bytes are there behind the offset.
pub copy_to_user_lem :
    {bb : BipBuffer} (offset size : ℕ)
    → IsValid bb
    → size < 2 ^ 31
    → min offset bb.sza + min size (bb.sza + bb.szb) ≤ bb.sza + bb.szb
    → copy_to_user bb offset size
      ≡ take (min size (bb.sza + bb.szb)) (drop (min offset bb.sza) (contents bb))
unfolding copy_to_user
copy_to_user_lem {bb} offset size v small there =
    let w : IsValid (decommit_block bb offset) = decommit_block-IsValid offset v in
    ground (
      arith,
      add32_small bb.sza bb.szb,
      slt_small (bb.sza + bb.szb) size,
      sle_small (min size (bb.sza + bb.szb)) (decommit_block bb offset).sza,
      sub32_small (min size (bb.sza + bb.szb)) (decommit_block bb offset).sza,
      contents-decommit_block offset v,
      length-contents 0 v,
      length-contents 0 w,
      length-drop (min offset bb.sza) (contents bb),
      take-contents (min size (bb.sza + bb.szb)) w,
    )
