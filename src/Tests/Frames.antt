-- ===== src/Tests/Frames.antt =====
-- protocol/glink.c at concrete frames.
use tmsxx_tc.Prelude.{
  ◌≤◌, ℕ, ◌-◌, ◌^◌, ◌≡◌, ◌≢◌, refl, none, List, [], ◌∷◌, ◌++◌, replicate, arith, if◌then◌else◌,
  ◌==◌,
}
use tmsxx_tc.Prelude.Words.{add32, sub32, slt}
use tmsxx_tc.Glink.{
  GlinkBase, base_bytes, frame_bytes, frame_head_tag, frame_tail_tag, found, wrong, find_frame,
}
use tmsxx_tc.Glink.Wire.{htonl, load32}
use tmsxx_tc.Glink.Find.{sent, declared, find_frame-frame, find_frame-found, find_frame-negative}
use tmsxx_tc.Glink.Resync.{Skips, find_frame-Skips}
use tmsxx_tc.Glink.Send.{takes, again, Line, send, send_serial}
use tmsxx_tc.Glink.Sent.{Delivers, send-Delivers}
use tmsxx_tc.Glink.Ends.{Completes, send_serial-Completes, send_serial-stalls}

abbrev header : GlinkBase
header = record {
  pklen = 0;
  version = 0;
  src = 0x0a0b0c0d;
  dst = 0x01020304;
  kind = 0;
  pkid = 1;
  reserve = 0;
  cmdid = 0;
  datalen = 0;
}

abbrev payload : List ℕ
payload = 7 ∷ 8 ∷ []

abbrev nowhere : ℕ → ℕ
nowhere i = 0

find_frame-frame_example :
    find_frame nowhere (sent nowhere header 0x80000001 payload ++ (1 ∷ [])) 43 ≡ (found, 42)
find_frame-frame_example = find_frame-frame nowhere header 0x80000001 payload (1 ∷ []) (omega arith)

-- Nothing but zeros, 48 of them: there is no head tag.
abbrev zeros : List ℕ
zeros = replicate 48 0

zeros-untagged : htonl (load32 zeros 0) ≢ frame_head_tag
unfolding load32 htonl
zeros-untagged e = omega (arith, e)

find_frame-Skips_example :
    let (v, n) = find_frame nowhere zeros 48 in (v ≡ wrong) × Skips zeros 48 n
find_frame-Skips_example =
    find_frame-Skips zeros 48 (omega arith) (omega arith) zeros-untagged nowhere

-- The frame of 42 bytes, as it arrives.
abbrev arrived : List ℕ
arrived =
    0xff
    ∷ 0xff
    ∷ 0xee
    ∷ 0xee
    ∷ 0
    ∷ 0
    ∷ 0
    ∷ 42
    ∷ (replicate 24 0 ++ (0 ∷ 0 ∷ 0 ∷ 10 ∷ 7 ∷ 8 ∷ 0xee ∷ 0xee ∷ 0xff ∷ 0xff ∷ []))

arrived-found : find_frame nowhere arrived 42 ≡ (found, 42)
unfolding find_frame htonl load32 sub32 add32 slt
arrived-found = refl

find_frame-found_example :
    (htonl (load32 arrived 0) ≡ frame_head_tag)
    × (42 ≤ 42)
    × (42 ≡ declared nowhere arrived 42)
    × (42 ≡ add32 (htonl (load32 arrived 32)) 32)
    × (htonl (load32 arrived (42 - 4)) ≡ frame_tail_tag)
find_frame-found_example =
    find_frame-found nowhere arrived 42 {n = 42} refl (omega arith) (omega arith) (omega arith)
      arrived-found

-- A header whose length is negative as `int`.
abbrev hostile : List ℕ
hostile =
    0xff
    ∷ 0xff
    ∷ 0xee
    ∷ 0xee
    ∷ 0x80
    ∷ 0
    ∷ 0
    ∷ 32
    ∷ (replicate 24 0 ++ (0x80 ∷ 0 ∷ 0 ∷ 0 ∷ replicate 4 0))

hostile-tagged : htonl (load32 hostile 0) ≡ frame_head_tag
unfolding htonl load32
hostile-tagged = refl

hostile-negative : 2 ^ 31 ≤ declared nowhere hostile 40
unfolding htonl load32
hostile-negative = omega arith

hostile-lengths : declared nowhere hostile 40 ≡ add32 (htonl (load32 hostile 32)) 32
unfolding htonl load32 add32
hostile-lengths = refl

find_frame-negative_example : find_frame nowhere hostile 40 ≡ (
    if htonl (nowhere (sub32 (declared nowhere hostile 40) 4)) == frame_tail_tag
    then (found, declared nowhere hostile 40)
    else (wrong, declared nowhere hostile 40))
find_frame-negative_example =
    find_frame-negative nowhere hostile 40 (omega arith) (omega arith) refl hostile-tagged
      hostile-negative hostile-lengths

-- A connection that takes three bytes, has to wait, and takes the others.
abbrev slow : Line
slow = record {
  wire = [];
  outcomes = takes 3 ∷ again ∷ takes 100 ∷ takes 100 ∷ takes 100 ∷ takes 100 ∷ [];
}

send-Delivers_example : Delivers [] (frame_bytes header payload) 42 (send header payload 2 slow)
send-Delivers_example = send-Delivers header payload slow (omega arith)

send_serial-Completes_example : Completes 32 (send_serial (base_bytes header) 32 slow)
send_serial-Completes_example =
    send_serial-Completes (base_bytes header) 32 slow (omega arith) (omega arith) tt

send_serial-stalls_example :
    send_serial payload 2 (record { wire = []; outcomes = replicate 5 (takes 0) }) ≡ none
send_serial-stalls_example = send_serial-stalls payload 2 5 [] (omega arith) (omega arith)
