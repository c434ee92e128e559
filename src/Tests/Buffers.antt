-- ===== src/Tests/Buffers.antt =====
-- osnet/bipbuffer.c at concrete buffers.
use tmsxx_tc.Prelude.{◌≡◌, List, [], ◌∷◌, arith}
use tmsxx_tc.BipBuffer.{BipBuffer, contents}
use tmsxx_tc.BipBuffer.Valid.{IsValid}
use tmsxx_tc.BipBuffer.Room.{Reserves, reserve_lem}
use tmsxx_tc.BipBuffer.Queue
use tmsxx_tc.BipBuffer.Run.{
  Event, reserves, receives, consumes, run, all_seen, run-IsValid, run_refines,
}

-- A is the bytes 5 6 7, B the bytes 8 9 behind them in the queue.
abbrev wrapped : BipBuffer
wrapped = record {
  p_buffer = 4096;
  bytes = 8 ∷ 9 ∷ 0 ∷ 0 ∷ 5 ∷ 6 ∷ 7 ∷ 0 ∷ [];
  ixa = 4;
  sza = 3;
  ixb = 0;
  szb = 2;
  buflen = 8;
  ix_resrv = 0;
  sz_resrv = 0;
}

-- The same with two bytes reserved behind B.
abbrev pending : BipBuffer
pending = record wrapped { ix_resrv = 2; sz_resrv = 2 }

wrapped-IsValid : IsValid wrapped
wrapped-IsValid = omega arith

pending-IsValid : IsValid pending
pending-IsValid = omega arith

abbrev script : List Event
script = reserves 5 ∷ consumes 4 ∷ receives (1 ∷ 2 ∷ 3 ∷ []) ∷ reserves 9 ∷ []

run_refines_example :
    contents (run wrapped script) ≡ Queue.run (contents wrapped) (all_seen wrapped script)
run_refines_example = run_refines script wrapped-IsValid (omega arith)

run-IsValid_example : IsValid (run wrapped script)
run-IsValid_example = run-IsValid script wrapped-IsValid (omega arith)

reserve_lem_example : Reserves wrapped 5
reserve_lem_example = reserve_lem 5 wrapped-IsValid (omega arith) (omega arith)
