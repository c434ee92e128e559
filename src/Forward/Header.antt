-- ===== src/Forward/Header.antt =====
-- The header that the application gets (protocol/tmsxx.c, `tms_Copy2Use`).
use tmsxx_tc.Prelude.{ℕ, ◌+◌, [], ◌∷◌, ◌++◌, ◌^◌, ◌<◌, ◌≡◌, refl, ap, ◌∙◌, List, length, arith}
use tmsxx_tc.Prelude.Words.{add32, add32_small}
use tmsxx_tc.Prelude.Blocks.{write_at}
use tmsxx_tc.Glink.{GlinkBase, build, base_bytes, frame_bytes, frame_version, frame_tail_tag}
use tmsxx_tc.Glink.Wire.{htonl, htons, store32, store16, load32, htonl-htonl, htonl-lt}
use tmsxx_tc.Forward.{swap32, swap16, load16, copy_to_use}

-- The fields are values of their widths.
record IsStored (b : GlinkBase) : Type 0 where
  pklen : b.pklen < 2 ^ 32
  version : b.version < 2 ^ 32
  src : b.src < 2 ^ 32
  dst : b.dst < 2 ^ 32
  kind : b.kind < 2 ^ 16
  pkid : b.pkid < 2 ^ 16
  reserve : b.reserve < 2 ^ 32
  cmdid : b.cmdid < 2 ^ 32
  datalen : b.datalen < 2 ^ 32

write_at-nil : (bs : List ℕ) → write_at bs 0 [] ≡ bs
unfolding write_at
write_at-nil [] = refl
write_at-nil (b ∷ bs) = refl

module _ (b : GlinkBase) (p : List ℕ) where
  swap_pklen :
      b.pklen < 2 ^ 32
      → swap32 4 (frame_bytes b p) ≡ frame_bytes (record b { pklen = htonl b.pklen }) p
  unfolding frame_bytes base_bytes store32 store16 load32 write_at
  swap_pklen h =
      ap (λ w. frame_bytes (record b { pklen = htonl w }) p) {x = load32 (frame_bytes b p) 4}
        {y = b.pklen} (omega arith)

  swap_version :
      b.version < 2 ^ 32
      → swap32 8 (frame_bytes b p) ≡ frame_bytes (record b { version = htonl b.version }) p
  unfolding frame_bytes base_bytes store32 store16 load32 write_at
  swap_version h =
      ap (λ w. frame_bytes (record b { version = htonl w }) p) {x = load32 (frame_bytes b p) 8}
        {y = b.version} (omega arith)

  swap_src :
      b.src < 2 ^ 32 → swap32 12 (frame_bytes b p) ≡ frame_bytes (record b { src = htonl b.src }) p
  unfolding frame_bytes base_bytes store32 store16 load32 write_at
  swap_src h =
      ap (λ w. frame_bytes (record b { src = htonl w }) p) {x = load32 (frame_bytes b p) 12}
        {y = b.src} (omega arith)

  swap_dst :
      b.dst < 2 ^ 32 → swap32 16 (frame_bytes b p) ≡ frame_bytes (record b { dst = htonl b.dst }) p
  unfolding frame_bytes base_bytes store32 store16 load32 write_at
  swap_dst h =
      ap (λ w. frame_bytes (record b { dst = htonl w }) p) {x = load32 (frame_bytes b p) 16}
        {y = b.dst} (omega arith)

  swap_kind :
      b.kind < 2 ^ 16
      → swap16 20 (frame_bytes b p) ≡ frame_bytes (record b { kind = htons b.kind }) p
  unfolding frame_bytes base_bytes store32 store16 load32 write_at
  swap_kind h =
      ap (λ w. frame_bytes (record b { kind = htons w }) p) {x = load16 (frame_bytes b p) 20}
        {y = b.kind} (omega arith)

  swap_pkid :
      b.pkid < 2 ^ 16
      → swap16 22 (frame_bytes b p) ≡ frame_bytes (record b { pkid = htons b.pkid }) p
  unfolding frame_bytes base_bytes store32 store16 load32 write_at
  swap_pkid h =
      ap (λ w. frame_bytes (record b { pkid = htons w }) p) {x = load16 (frame_bytes b p) 22}
        {y = b.pkid} (omega arith)

  swap_reserve :
      b.reserve < 2 ^ 32
      → swap32 24 (frame_bytes b p) ≡ frame_bytes (record b { reserve = htonl b.reserve }) p
  unfolding frame_bytes base_bytes store32 store16 load32 write_at
  swap_reserve h =
      ap (λ w. frame_bytes (record b { reserve = htonl w }) p) {x = load32 (frame_bytes b p) 24}
        {y = b.reserve} (omega arith)

  swap_cmdid :
      b.cmdid < 2 ^ 32
      → swap32 28 (frame_bytes b p) ≡ frame_bytes (record b { cmdid = htonl b.cmdid }) p
  unfolding frame_bytes base_bytes store32 store16 load32 write_at
  swap_cmdid h =
      ap (λ w. frame_bytes (record b { cmdid = htonl w }) p) {x = load32 (frame_bytes b p) 28}
        {y = b.cmdid} (omega arith)

  swap_datalen :
      b.datalen < 2 ^ 32
      → swap32 32 (frame_bytes b p) ≡ frame_bytes (record b { datalen = htonl b.datalen }) p
  unfolding frame_bytes base_bytes store32 store16 load32 write_at
  swap_datalen h =
      ap (λ w. write_at (frame_bytes b p) 32 (store32 (htonl w))) {x = load32 (frame_bytes b p) 32}
        {y = b.datalen} (omega arith)
      ∙ rw (write_at-nil (p ++ store32 (htonl frame_tail_tag))) refl

-- The header with every field exchanged.
abbrev pub exchanged : GlinkBase → GlinkBase
exchanged b = record {
  pklen = htonl b.pklen;
  version = htonl b.version;
  src = htonl b.src;
  dst = htonl b.dst;
  kind = htons b.kind;
  pkid = htons b.pkid;
  reserve = htonl b.reserve;
  cmdid = htonl b.cmdid;
  datalen = htonl b.datalen;
}

copy_to_use-frame :
    (b : GlinkBase) (p : List ℕ)
    → IsStored b
    → copy_to_use (frame_bytes b p) ≡ frame_bytes (exchanged b) p
unfolding copy_to_use
copy_to_use-frame b p s =
    let b1 : GlinkBase = record b { pklen = htonl b.pklen } in
    let b2 : GlinkBase = record b1 { version = htonl b.version } in
    let b3 : GlinkBase = record b2 { src = htonl b.src } in
    let b4 : GlinkBase = record b3 { dst = htonl b.dst } in
    let b5 : GlinkBase = record b4 { kind = htons b.kind } in
    let b6 : GlinkBase = record b5 { pkid = htons b.pkid } in
    let b7 : GlinkBase = record b6 { reserve = htonl b.reserve } in
    let b8 : GlinkBase = record b7 { cmdid = htonl b.cmdid } in
    rw
      (
        swap_pklen b p s.pklen,
        swap_version b1 p s.version,
        swap_src b2 p s.src,
        swap_dst b3 p s.dst,
        swap_kind b4 p s.kind,
        swap_pkid b5 p s.pkid,
        swap_reserve b6 p s.reserve,
        swap_cmdid b7 p s.cmdid,
        swap_datalen b8 p s.datalen,
      )
      refl

htons-htons : (v : ℕ) → v < 2 ^ 16 → htons (htons v) ≡ v
unfolding htons
htons-htons v h = omega arith

htons-lt : (v : ℕ) → htons v < 2 ^ 16
unfolding htons
htons-lt v = omega arith

module _ (base : GlinkBase) (cmdid : ℕ) (payload : List ℕ) where
  build-IsStored : IsStored (build base cmdid (length payload))
  unfolding build
  build-IsStored = record {
    pklen = htonl-lt (add32 (8 + 32) (length payload));
    version = htonl-lt frame_version;
    src = htonl-lt base.src;
    dst = htonl-lt base.dst;
    kind = omega arith;
    pkid = htons-lt base.pkid;
    reserve = omega arith;
    cmdid = htonl-lt cmdid;
    datalen = htonl-lt (add32 8 (length payload));
  }

  -- copy_to_use gives the application, from a frame that build made of fields within their widths
  -- and fewer than 2^31 bytes of data, the header with the values that build was given, and the
  -- data unchanged.
  pub copy_to_use-build :
      length payload < 2 ^ 31
      → base.src < 2 ^ 32
      → base.dst < 2 ^ 32
      → base.pkid < 2 ^ 16
      → cmdid < 2 ^ 32
      → copy_to_use (frame_bytes (build base cmdid (length payload)) payload)
        ≡ frame_bytes
            (record {
              pklen = 40 + length payload;
              version = frame_version;
              src = base.src;
              dst = base.dst;
              kind = 0;
              pkid = base.pkid;
              reserve = 0;
              cmdid = cmdid;
              datalen = 8 + length payload;
            })
            payload
  unfolding build htons htonl
  copy_to_use-build hl hs hd hp hc =
      copy_to_use-frame (build base cmdid (length payload)) payload build-IsStored
      ∙ rw
          (
            add32_small 40 (length payload) (omega arith),
            add32_small 8 (length payload) (omega arith),
            htonl-htonl (40 + length payload) (omega arith),
            htonl-htonl (8 + length payload) (omega arith),
            htonl-htonl frame_version (omega arith),
            htonl-htonl base.src hs,
            htonl-htonl base.dst hd,
            htons-htons base.pkid hp,
            htonl-htonl cmdid hc,
          )
          refl
