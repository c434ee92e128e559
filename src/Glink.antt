-- ===== src/Glink.antt =====
-- protocol/glink.h and protocol/glink.c: the frame header, how it is filled in, and how a frame is
-- found in received bytes. A field holds the value that the machine reads there, so one in network
-- order holds the exchanged value.
pub mod Wire
pub mod Find
pub mod Resync
pub mod Send
pub mod Sent
pub mod Ends
use tmsxx_tc.Prelude.{
  ℕ, zero, suc, ◌+◌, ◌-◌, ◌*◌, ◌^◌, Bool, true, false, Option, none, some, List, [], ◌∷◌, ◌++◌,
  length, ltb, leb, ◌==◌, not, if◌then◌else◌,
}
use tmsxx_tc.Prelude.Words.{add32, sub32, slt}
use Wire.{htonl, htons, store32, store16, load32}

abbrev pub frame_head_tag : ℕ
frame_head_tag = 0xffffeeee

abbrev pub frame_tail_tag : ℕ
frame_tail_tag = 0xeeeeffff

abbrev pub frame_version : ℕ
frame_version = 0x001A0001

-- `struct glink_base`
pub record GlinkBase : Type 0 where
  pub pklen : ℕ
  pub version : ℕ
  pub src : ℕ
  pub dst : ℕ
  pub kind : ℕ
  pub pkid : ℕ
  pub reserve : ℕ
  pub cmdid : ℕ
  pub datalen : ℕ

-- `glink_Build`: GLINK_FRAME_H is 8 and GLINK_BASE_H is 32.
unfoldable pub build : GlinkBase → ℕ → ℕ → GlinkBase
build base cmdid datalen = record {
  pklen = htonl (add32 (8 + 32) datalen);
  version = htonl frame_version;
  src = htonl base.src;
  dst = htonl base.dst;
  kind = 0;
  pkid = htons base.pkid;
  reserve = 0;
  cmdid = htonl cmdid;
  datalen = htonl (add32 8 datalen);
}

-- The bytes of a `struct glink_base` in memory.
unfoldable pub base_bytes : GlinkBase → List ℕ
base_bytes b =
    store32 b.pklen
    ++ (store32 b.version
        ++ (store32 b.src
            ++ (store32 b.dst
                ++ (store16 b.kind
                    ++ (store16 b.pkid
                        ++ (store32 b.reserve ++ (store32 b.cmdid ++ store32 b.datalen)))))))

-- What `glink_Send` puts on the wire: head tag, header, data, tail tag.
unfoldable pub frame_bytes : GlinkBase → List ℕ → List ℕ
frame_bytes b payload =
    store32 (htonl frame_head_tag) ++ (base_bytes b ++ (payload ++ store32 (htonl frame_tail_tag)))

-- `glink_htonlMore` on the words of its memory: `len >> 2` of them are exchanged.
unfoldable pub htonl_more : ℕ → List ℕ → List ℕ
htonl_more zero ws = ws
htonl_more (suc n) [] = []
htonl_more (suc n) (w ∷ ws) = htonl w ∷ htonl_more n ws

-- What `glink_FindFrame` returns: 0, -2 and -3.
pub data Verdict : Type 0 where
  found wrong short : Verdict

-- The search for the head tag, at the indices from `i` on: the index where it stands.
unfoldable pub search_head : List ℕ → ℕ → ℕ → Option ℕ
search_head bytes zero i = none
search_head bytes (suc n) i =
    let rest = search_head bytes n (i + 1) in
    if htonl (load32 bytes i) == frame_head_tag then some i else rest

-- The rounds of `for (i = 0; i < *recvlen - 4; i++)`, compared as `int`.
abbrev pub rounds : ℕ → ℕ
rounds recvlen = if slt 0 (sub32 recvlen 4) then sub32 recvlen 4 else 0

-- Step 2, no head tag at the start: how many bytes to release.
unfoldable pub resync : List ℕ → ℕ → Verdict × ℕ
resync bytes recvlen = elim (search_head bytes (rounds recvlen) 0) [
  | none ↦ (wrong, sub32 recvlen 4)
  | some i ↦ (wrong, i)
]

-- `glink_FindFrame` on the `recvlen` bytes at `pdata`, with what it stores through `retframelen`.
-- `outside` is the word that a read beyond those bytes gets, by its offset.
module _ (outside : ℕ → ℕ) where
  abbrev pub read32 : List ℕ → ℕ → ℕ
  read32 bytes i = if leb (i + 4) (length bytes) then load32 bytes i else outside i

  -- Step 4: the tail tag, `pklen - 4` bytes on.
  unfoldable pub check_tail : List ℕ → ℕ → Verdict × ℕ
  check_tail bytes pklen =
      if htonl (read32 bytes (sub32 pklen 4)) == frame_tail_tag
      then (found, pklen)
      else (wrong, pklen)

  -- Steps 2 (the two lengths) and 3.
  unfoldable pub check_length : List ℕ → ℕ → ℕ → ℕ → Verdict × ℕ
  unfolding check_tail
  check_length bytes recvlen pklen datalen =
      if not (pklen == add32 datalen 32)
      then (wrong, 4)
      else if slt recvlen pklen
      then (short, sub32 pklen recvlen)
      else check_tail bytes pklen

  unfoldable pub find_frame : List ℕ → ℕ → Verdict × ℕ
  unfolding check_length resync
  find_frame bytes recvlen =
      if ltb recvlen (8 + 32)
      then (wrong, sub32 (8 + 32) recvlen)
      else if not (htonl (load32 bytes 0) == frame_head_tag)
      then resync bytes recvlen
      else check_length bytes recvlen (htonl (load32 bytes 4)) (htonl (load32 bytes (4 + 28)))
