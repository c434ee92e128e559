-- ===== src/Receive.antt =====
-- src/ep_app.c: `epFUI_OnRecv`, which receives into the buffers of a connection and hands the
-- frames that it finds to `tms_Analyse`. These frames are the result here, as they are when they
-- are handed on and in the order of the calls. `analyse` is what `tms_Analyse` leaves of the
-- storage of the buffer, given the offset and the length of the frame, which is already given back
-- when it is called; that it may also close the connection is left out. `malloc` is a function of
-- the size, and does not fail where the code does not look. `outside` is the word that
-- `glink_FindFrame` reads beyond the bytes it is told of, by its offset.
pub mod Frames
pub mod Turns
pub mod Stream
pub mod Cuts
use tmsxx_tc.Prelude.{
  ℕ, zero, suc, ◌^◌, ◌-◌, Bool, true, false, ◌&&◌, Option, none, some, List, [], ◌∷◌, ◌++◌, length,
  take, ◌==◌, if◌then◌else◌,
}
use tmsxx_tc.Prelude.Words.{add32, sub32, slt, sle}
use tmsxx_tc.Prelude.Blocks.{slice}
use tmsxx_tc.BipBuffer.{
  BipBuffer, init, Reservation, allocate_buffer, free_buffer, reserve, commit, fill, decommit_block,
  get_contiguous_block, get_used_size,
}
use tmsxx_tc.BipBuffer.Copy.{get_un_contiguous_block}
use tmsxx_tc.Glink.{Verdict, found, wrong, short, find_frame}

-- `struct tmsxx_app`, less its context
pub record TmsxxApp : Type 0 where
  pub morebyte : ℕ
  pub bb : BipBuffer
  pub enable_lbb : ℕ
  pub lbyte : ℕ
  pub lbb : BipBuffer

-- `BIPBUFFER_LEN`
abbrev pub bipbuffer_len : ℕ
bipbuffer_len = 30000

-- The bytes of block A.
abbrev pub block_a : BipBuffer → List ℕ
block_a bb = slice bb.bytes bb.ixa bb.sza

-- A way from `_Again` to a `goto _Again` (`repeated`) or to the end, with the frame that was handed on.
pub record Turn : Type 0 where
  pub app : TmsxxApp
  pub frames : List (List ℕ)
  pub repeated : Bool

abbrev pub stopped : TmsxxApp → Turn
stopped app = record { app = app; frames = []; repeated = false }

-- Behind the last turn: the large buffer is given up.
unfoldable pub finish : TmsxxApp → TmsxxApp
finish app =
    if app.enable_lbb == 1 && sle app.lbyte 0
    then record app { enable_lbb = 0; bb = app.lbb; lbb = free_buffer app.bb }
    else app

abbrev pub with_frames :
    List (List ℕ) → Option (TmsxxApp × List (List ℕ)) → Option (TmsxxApp × List (List ℕ))
with_frames fs none = none
with_frames fs (some (app, gs)) = some (app, fs ++ gs)

abbrev pub size_of : Option ℕ → ℕ
size_of none = 0
size_of (some n) = n

-- A call of `recv` for `reserved` bytes and the commit of what it gives; `none` is its failure, -1.
abbrev pub received_of : Reservation → Option (List ℕ) → List ℕ
received_of r none = []
received_of r (some bs) = take (size_of r.reserved) bs

abbrev pub ret_of : List ℕ → Option (List ℕ) → ℕ
ret_of taken none = 2 ^ 32 - 1
ret_of taken (some bs) = length taken

unfoldable pub take_in : BipBuffer → Reservation → Option (List ℕ) → BipBuffer × ℕ
take_in bb r o =
    let taken = received_of r o in let ret = ret_of taken o in (commit (fill bb taken) ret, ret)

module _ (malloc : ℕ → ℕ) (outside : ℕ → ℕ) (analyse : List ℕ → ℕ → ℕ → List ℕ) where
  -- `bipbuffer_GetUnContiguousBlock`
  abbrev pub join_blocks : BipBuffer → BipBuffer
  join_blocks bb = (get_un_contiguous_block (malloc bb.buflen) bb).0

  -- The buffer for one large frame of `size` bytes takes over block A.
  unfoldable pub start_large : TmsxxApp → ℕ → TmsxxApp
  start_large app size =
      let pbb_len = (get_contiguous_block app.bb).1 in
      let lbb = (reserve (allocate_buffer (malloc size) init size).0 pbb_len).0 in
      record app {
        lbb = commit (fill lbb (slice app.bb.bytes app.bb.ixa pbb_len)) pbb_len;
        bb = decommit_block app.bb pbb_len;
        lbyte = sub32 size pbb_len;
        enable_lbb = 1;
      }

  -- The branch for -3: `size` is what `recvTotal + retFramelen` is.
  unfoldable pub on_short : TmsxxApp → ℕ → Turn
  unfolding start_large
  on_short app size =
      let bb = if sle size (get_used_size app.bb) then join_blocks app.bb else app.bb in
      let app' = record app { bb = bb; morebyte = 40 } in
      if sle size (get_contiguous_block bb).1
      then record { app = app'; frames = []; repeated = true }
      else if slt bipbuffer_len size
      then stopped (start_large app' size)
      else stopped app'

  -- What `tms_Analyse` leaves of a buffer.
  abbrev pub analysed : BipBuffer → ℕ → ℕ → BipBuffer
  analysed bb at n = record bb { bytes = analyse bb.bytes at n }

  -- What follows a search that gave the verdict and stored `n`.
  unfoldable pub on_verdict : TmsxxApp → ℕ → Verdict × ℕ → Turn
  unfolding on_short
  on_verdict app recv_total (found, n) = record {
    app = record app { bb = analysed (decommit_block app.bb n) app.bb.ixa n; morebyte = 40 };
    frames = take n (block_a app.bb) ∷ [];
    repeated = app.enable_lbb == 0;
  }
  on_verdict app recv_total (wrong, n) = record {
    app = record app { bb = decommit_block app.bb n; morebyte = 40 };
    frames = [];
    repeated = true;
  }
  on_verdict app recv_total (short, n) = on_short app (add32 recv_total n)

  -- The size of block A is taken before the blocks are joined, and not again.
  unfoldable pub turn : TmsxxApp → Turn
  unfolding on_verdict
  turn app =
      let recv_total = (get_contiguous_block app.bb).1 in
      let bb =
        if sle 40 (get_used_size app.bb) && slt recv_total 40 then join_blocks app.bb else app.bb in
      let app' = record app { bb = bb } in
      if sle 40 recv_total
      then on_verdict app' recv_total (find_frame outside (block_a bb) recv_total)
      else stopped app'

  -- From `_Again` to the end: `none` is a loop that has not ended after so many turns.
  unfoldable pub again : ℕ → TmsxxApp → Option (TmsxxApp × List (List ℕ))
  unfolding turn finish
  again zero app = none
  again (suc fuel) app =
      let t = turn app in
      let rest = again fuel t.app in
      if t.repeated then with_frames t.frames rest else some (finish t.app, t.frames)

  -- With the buffer of fixed size: `retRecv`, and what `again` gives.
  unfoldable pub on_recv_small :
      ℕ → TmsxxApp → Option (List ℕ) → ℕ × Option (TmsxxApp × List (List ℕ))
  unfolding again take_in
  on_recv_small fuel app o =
      let (bb, r) = reserve app.bb app.morebyte in
      if r.ptr == 0
      then (1, again fuel (record app { bb = bb }))
      else ((take_in bb r o).1, again fuel (record app { bb = (take_in bb r o).0 }))

  -- With the buffer for one large frame.
  unfoldable pub on_recv_large :
      ℕ → TmsxxApp → Option (List ℕ) → ℕ × Option (TmsxxApp × List (List ℕ))
  unfolding again take_in
  on_recv_large fuel app o =
      let (lbb, r) = reserve app.lbb app.lbyte in
      if r.ptr == 0
      then (1, again fuel (record app { lbb = lbb }))
      else let (lbb', ret) = take_in lbb r o in
        let lbyte = sub32 app.lbyte ret in
        if app.enable_lbb == 1 && slt 0 lbyte
        then (ret, some (record app { lbb = lbb'; lbyte = lbyte }, []))
        else (ret, again fuel (record app { lbb = app.bb; bb = lbb'; lbyte = lbyte }))

  -- `epFUI_OnRecv` on a connection that has its buffers.
  unfoldable pub on_recv : ℕ → TmsxxApp → Option (List ℕ) → ℕ × Option (TmsxxApp × List (List ℕ))
  unfolding on_recv_small on_recv_large
  on_recv fuel app o =
      if app.enable_lbb == 0 then on_recv_small fuel app o else on_recv_large fuel app o
