-- ===== src/Glink/Find.antt =====
-- What `glink_FindFrame` (protocol/glink.c) makes of the bytes that the senders of the same file
-- put on the wire, and of any others.
use mathlib.Core.List.{append_assoc}
use tmsxx_tc.Prelude.{
  ℕ, ◌+◌, ◌-◌, ◌^◌, ◌≤◌, ◌<◌, ◌≡◌, refl, ap, ◌∙◌, List, [], ◌++◌, arith, length, length-append,
  take, if◌then◌else◌, ◌==◌,
}
use tmsxx_tc.Prelude.Words.{add32, sub32, slt, add32_small, sub32_small, slt_small}
use tmsxx_tc.Glink.{
  GlinkBase, build, base_bytes, frame_bytes, frame_head_tag, frame_tail_tag, found, wrong, short,
  find_frame,
}
use tmsxx_tc.Glink.Resync.{resync-wrong}
use tmsxx_tc.Glink.Wire.{
  htonl, store32, store16, load32, htonl-htonl, htonl-lt, load32-store32, load32-take,
}

length-frame :
    (b : GlinkBase) (payload : List ℕ) → length (frame_bytes b payload) ≡ 40 + length payload
unfolding frame_bytes base_bytes store32 store16
length-frame b payload = omega (arith, length-append {0} payload (store32 (htonl frame_tail_tag)))

module _ (b : GlinkBase) (payload rest : List ℕ) where
  head_at : htonl (load32 (frame_bytes b payload ++ rest) 0) ≡ frame_head_tag
  unfolding frame_bytes base_bytes store32 store16 load32 htonl
  head_at = refl

  pklen_at : b.pklen < 2 ^ 32 → load32 (frame_bytes b payload ++ rest) 4 ≡ b.pklen
  unfolding frame_bytes base_bytes store32 store16 load32
  pklen_at h = omega arith

  datalen_at : b.datalen < 2 ^ 32 → load32 (frame_bytes b payload ++ rest) 32 ≡ b.datalen
  unfolding frame_bytes base_bytes store32 store16 load32
  datalen_at h = omega arith

  frame_split :
      frame_bytes b payload ++ rest
      ≡ (store32 (htonl frame_head_tag) ++ (base_bytes b ++ payload))
        ++ (store32 (htonl frame_tail_tag) ++ rest)
  unfolding frame_bytes
  frame_split = simp append_assoc

  length_front :
      length (store32 (htonl frame_head_tag) ++ (base_bytes b ++ payload)) ≡ 36 + length payload
  unfolding base_bytes store32 store16
  length_front = omega arith

  tail_at : load32 (frame_bytes b payload ++ rest) (36 + length payload) ≡ htonl frame_tail_tag
  tail_at =
      ap (λ bs. load32 bs (36 + length payload)) frame_split
      ∙ load32-store32 (store32 (htonl frame_head_tag) ++ (base_bytes b ++ payload)) rest
          (36 + length payload) (htonl frame_tail_tag) length_front (htonl-lt frame_tail_tag)

module _ (outside : ℕ → ℕ) (base : GlinkBase) (cmdid : ℕ) (payload : List ℕ) where
  abbrev pub sent : List ℕ
  sent = frame_bytes (build base cmdid (length payload)) payload

  pklen_build :
      length payload < 2 ^ 31
      → (build base cmdid (length payload)).pklen ≡ htonl (40 + length payload)
  unfolding build
  pklen_build h = ap htonl (add32_small 40 (length payload) (omega arith))

  datalen_build :
      length payload < 2 ^ 31
      → (build base cmdid (length payload)).datalen ≡ htonl (8 + length payload)
  unfolding build
  datalen_build h = ap htonl (add32_small 8 (length payload) (omega arith))

  lengths_at :
      (rest : List ℕ)
      → length payload < 2 ^ 31
      → (htonl (load32 (sent ++ rest) 4) ≡ 40 + length payload)
        × (htonl (load32 (sent ++ rest) 32) ≡ 8 + length payload)
  lengths_at rest h = (
    ap htonl (
          pklen_at (build base cmdid (length payload)) payload rest
            (omega (arith, pklen_build h, htonl-lt (40 + length payload)))
          ∙ pklen_build h)
        ∙ htonl-htonl (40 + length payload) (omega arith),
    ap htonl (
          datalen_at (build base cmdid (length payload)) payload rest
            (omega (arith, datalen_build h, htonl-lt (8 + length payload)))
          ∙ datalen_build h)
        ∙ htonl-htonl (8 + length payload) (omega arith),
  )

  pub length-sent : (rest : List ℕ) → length (sent ++ rest) ≡ 40 + length payload + length rest
  length-sent rest =
      omega (
        arith,
        length-append {0} sent rest,
        length-frame (build base cmdid (length payload)) payload,
      )

  -- A frame that build and frame_bytes make is found whole at the start of the received bytes,
  -- whatever follows it, if all of them are fewer than 2^31.
  pub find_frame-frame :
      (rest : List ℕ)
      → 40 + length payload + length rest < 2 ^ 31
      → find_frame outside (sent ++ rest) (40 + length payload + length rest)
        ≡ (found, 40 + length payload)
  unfolding find_frame
  find_frame-frame rest h = ground (
    arith,
    lengths_at rest,
    length-sent rest,
    head_at (build base cmdid (length payload)) payload rest,
    tail_at (build base cmdid (length payload)) payload rest,
    htonl-htonl frame_tail_tag,
    add32_small (8 + length payload) 32,
    sub32_small (40 + length payload) 4,
    slt_small (40 + length payload + length rest) (40 + length payload),
  )

  -- While at least the first 40 bytes but not all of a frame of fewer than 2^31 bytes that build
  -- and frame_bytes made have arrived, find_frame returns the number of missing bytes.
  pub find_frame-partial :
      (k : ℕ)
      → 40 ≤ k
      → k < 40 + length payload
      → 40 + length payload < 2 ^ 31
      → find_frame outside (take k (sent ++ [])) k ≡ (short, 40 + length payload - k)
  unfolding find_frame
  find_frame-partial k low high h = ground (
    arith,
    lengths_at [],
    load32-take k (sent ++ []) 0,
    load32-take k (sent ++ []) 4,
    load32-take k (sent ++ []) 32,
    head_at (build base cmdid (length payload)) payload [],
    add32_small (8 + length payload) 32,
    sub32_small (40 + length payload) k,
    slt_small k (40 + length payload),
  )

module _ (outside : ℕ → ℕ) (bytes : List ℕ) (recvlen : ℕ) where
  abbrev pub declared : ℕ
  declared = htonl (load32 bytes 4)

  -- If find_frame, told how many bytes were received, fewer than 2^31 of them, finds a frame of n
  -- bytes, 4 <= n < 2^31, then the head tag is in front, n is within what was received and equals
  -- both length fields, and the tail tag is in the last four bytes.
  pub find_frame-found :
      {n : ℕ}
      → length bytes ≡ recvlen
      → recvlen < 2 ^ 31
      → n < 2 ^ 31
      → 4 ≤ n
      → find_frame outside bytes recvlen ≡ (found, n)
      → (htonl (load32 bytes 0) ≡ frame_head_tag)
        × (n ≤ recvlen)
        × (n ≡ declared)
        × (n ≡ add32 (htonl (load32 bytes 32)) 32)
        × (htonl (load32 bytes (n - 4)) ≡ frame_tail_tag)
  unfolding find_frame
  find_frame-found {n} e small nonneg low h =
      ground (arith, resync-wrong bytes recvlen, slt_small recvlen declared, sub32_small declared 4)

  -- With at least 40 and fewer than 2^31 received bytes, a header with the head tag whose equal
  -- lengths are negative as int passes the length test, and the word that find_frame reads outside
  -- the received bytes decides whether a frame is found.
  pub find_frame-negative :
      40 ≤ recvlen
      → recvlen < 2 ^ 31
      → length bytes ≡ recvlen
      → htonl (load32 bytes 0) ≡ frame_head_tag
      → 2 ^ 31 ≤ declared
      → declared ≡ add32 (htonl (load32 bytes 32)) 32
      → find_frame outside bytes recvlen ≡ (
          if htonl (outside (sub32 declared 4)) == frame_tail_tag
          then (found, declared)
          else (wrong, declared))
  unfolding find_frame slt sub32
  find_frame-negative low small e tagged neg both = ground (arith, htonl-lt (load32 bytes 4))
