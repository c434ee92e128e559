-- ===== src/Tests/Receiving.antt =====
-- `epFUI_OnRecv` of src/ep_app.c on a small buffer.
use tmsxx_tc.Prelude.{
  map, take, drop, ℕ, ◌≡◌, refl, some, List, [], ◌∷◌, ◌++◌, replicate, arith, inl, inr,
}
use tmsxx_tc.Glink.{build, base_bytes, frame_bytes}
use tmsxx_tc.Glink.Wire.{store32, store16}
use tmsxx_tc.Prelude.Blocks.{slice, write_at, length-write_at, slice-write_at_after}
use tmsxx_tc.Prelude.Words.{add32, sub32, slt, sle}
use tmsxx_tc.BipBuffer.{
  BipBuffer, init, contents, reserve, reserve_round_a, commit, commit_bytes, fill,
}
use tmsxx_tc.BipBuffer.Valid.{IsValid}
use tmsxx_tc.Receive.{TmsxxApp, on_recv}
use tmsxx_tc.Receive.Frames.{stream, Sent, frame, IsPlain, IsConfined}
use tmsxx_tc.Receive.Cuts.{IsShort, on_recv-piece}

abbrev buffer : BipBuffer
buffer = record init { p_buffer = 0x1000; bytes = replicate 200 0; buflen = 200 }

abbrev connection : TmsxxApp
connection = record { morebyte = 100; bb = buffer; enable_lbb = 0; lbyte = 0; lbb = init }

buffer-IsPlain : IsPlain buffer
buffer-IsPlain = record {
  valid = record {
    holds = refl;
    small = omega arith;
    a_in = omega arith;
    b_first = refl;
    b_before = omega arith;
    a_first = inr refl;
    pending = inr (inr (inr (refl, refl)));
  };
  one = refl;
}

abbrev report : Sent
report = record {
  base = record {
    pklen = 0;
    version = 0;
    src = 0x0b;
    dst = 0x3b;
    kind = 0;
    pkid = 5;
    reserve = 0;
    cmdid = 0;
    datalen = 0;
  };
  cmdid = 0x80000001;
  payload = 7 ∷ [];
}

-- Two frames are sent; the first arrives with two bytes of the second.
abbrev arrived : List ℕ
arrived = frame report ++ take 2 (frame report)

abbrev pending : List ℕ
pending = drop 2 (frame report)

-- An analyser that writes over the first byte of its frame.
abbrev spoil : List ℕ → ℕ → ℕ → List ℕ
spoil bytes i n = write_at bytes i (0 ∷ [])

spoil-IsConfined : (s : Sent) → IsConfined spoil s
spoil-IsConfined s bytes i e = (
  length-write_at bytes i (0 ∷ []),
  λ j m h. slice-write_at_after bytes i (0 ∷ []) j m (omega arith),
)

on_recv-piece_example :
    (whole : List Sent) × (coming : List Sent) × (app' : TmsxxApp) × ((report ∷ report ∷ []
        ≡ whole ++ coming)
      × ((on_recv (λ n. 0x2000) (λ i. 0) spoil 3 connection (some arrived)
            ≡ (43, some (app', map frame whole)))
          × ((contents app'.bb ++ pending ≡ stream coming [])
              × (IsShort (contents app'.bb) coming × (IsPlain app'.bb × (app'.enable_lbb ≡ 0))))))
unfolding reserve reserve_round_a commit commit_bytes fill slt sle sub32 add32 frame_bytes
    base_bytes store32 store16 build slice
on_recv-piece_example =
    on_recv-piece (λ n. 0x2000) (λ i. 0) spoil connection refl buffer-IsPlain (omega arith)
      (omega arith) (omega arith) (omega arith) (omega arith) arrived (report ∷ report ∷ []) pending
      3 (omega arith, (omega arith, tt)) refl refl (omega arith)
      (spoil-IsConfined report, (spoil-IsConfined report, tt))

-- 30 bytes at the end of the storage, and 20 at its start.
abbrev wrapped : BipBuffer
wrapped = record buffer { ixa = 170; sza = 30; ixb = 0; szb = 20 }

wrapped-IsValid : IsValid wrapped
wrapped-IsValid = record {
  holds = refl;
  small = omega arith;
  a_in = omega arith;
  b_first = refl;
  b_before = omega arith;
  a_first = inl (omega arith);
  pending = inr (inr (inr (refl, refl)));
}
