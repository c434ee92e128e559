-- ===== src/Devices.antt =====
-- protocol/tmsxx.c and protocol/tmsxx.h: the table of devices, `sg_devnet[MAX_FRAME + 1][MAX_SLOT]`,
-- one entry for each slot of each frame, row after row. `int` values are 32-bit patterns.
pub mod Lookup
pub mod Descriptors
use tmsxx_tc.Prelude.{
  ℕ, zero, suc, ◌+◌, ◌-◌, ◌*◌, ◌/◌, ◌%◌, ◌^◌, Bool, true, false, Option, none, some, List, [], ◌∷◌,
  map, get_or, set, take, ltb, leb, ◌==◌, ◌||◌, if◌then◌else◌,
}
use tmsxx_tc.Prelude.Blocks.{slice, write_at}

abbrev pub max_frame : ℕ
max_frame = 16

abbrev pub max_slot : ℕ
max_slot = 16

-- `struct tms_devbase`
pub record DevBase : Type 0 where
  pub fd : ℕ
  pub frame : ℕ
  pub slot : ℕ
  pub kind : ℕ
  pub port : ℕ
  pub wave : ℕ
  pub reserved0 : ℕ
  pub reserved1 : ℕ
  pub reserved2 : ℕ

abbrev pub blank : DevBase
blank = record {
  fd = 0;
  frame = 0;
  slot = 0;
  kind = 0;
  port = 0;
  wave = 0;
  reserved0 = 0;
  reserved1 = 0;
  reserved2 = 0;
}

-- -1 as `int32_t`
abbrev pub minus_one : ℕ
minus_one = 2 ^ 32 - 1

-- `&sg_devnet[frame][slot]`
abbrev pub place : ℕ → ℕ → ℕ
place frame slot = frame * max_slot + slot

-- `(uint32_t)frame >= MAX_FRAME || (uint32_t)slot > MAX_SLOT`
abbrev pub is_outside : ℕ → ℕ → Bool
is_outside frame slot = leb max_frame frame || ltb max_slot slot

-- `tms_Init`, the part on devices: every entry gets a frame number that no frame has.
unfoldable pub init_devices : List DevBase → List DevBase
init_devices net = map {A = DevBase} (λ d. record d { frame = max_frame }) net

-- `tms_GetDevBaseByLocation`: what it returns, and `*pout` afterwards.
unfoldable pub get_dev_base_by_location : List DevBase → ℕ → ℕ → DevBase → ℕ × DevBase
get_dev_base_by_location net frame slot pout =
    if is_outside frame slot
    then (0, record pout { fd = 0 })
    else let d = get_or net (place frame slot) blank in (d.fd, d)

-- The loop of `tms_GetDevBaseByFd`, at entry `i`.
unfoldable pub scan_fd : List DevBase → ℕ → ℕ → DevBase → ℕ × DevBase
scan_fd [] i fd pout = (minus_one, pout)
scan_fd (d ∷ ds) i fd pout =
    let rest = scan_fd ds (i + 1) fd pout in
    if d.fd == fd
    then (
      0,
      record pout {
        fd = d.fd;
        frame = i / max_slot;
        slot = i % max_slot;
        port = d.port;
        kind = d.kind;
      },
    )
    else rest

-- `tms_GetDevBaseByFd`: the spare last row is not searched.
unfoldable pub get_dev_base_by_fd : List DevBase → ℕ → DevBase → ℕ × DevBase
unfolding scan_fd
get_dev_base_by_fd net fd pout =
    if fd == 0 then (minus_one, pout) else scan_fd (take (max_frame * max_slot) net) 0 fd pout

-- What removing leaves of an entry.
abbrev pub vacate : DevBase → DevBase
vacate d = record d { fd = 0; frame = 0; slot = 0; port = 0; kind = 0 }

-- The loop of `tms_RemoveDev`, over `n` entries.
unfoldable pub remove_first : ℕ → List DevBase → ℕ → List DevBase
remove_first zero net fd = net
remove_first (suc n) [] fd = []
remove_first (suc n) (d ∷ ds) fd =
    let rest = d ∷ remove_first n ds fd in if d.fd == fd then vacate d ∷ ds else rest

-- `tms_RemoveDev`
unfoldable pub remove_dev : List DevBase → ℕ → List DevBase
unfolding remove_first
remove_dev net fd = remove_first (max_frame * max_slot) net fd

-- `tms_RemoveByLocation`
unfoldable pub remove_by_location : List DevBase → ℕ → ℕ → List DevBase × ℕ
remove_by_location net frame slot =
    if is_outside frame slot
    then (net, minus_one)
    else (set net (place frame slot) (vacate (get_or net (place frame slot) blank)), 0)

-- `tms_AddDev` copies every field.
unfoldable pub add_dev : List DevBase → ℕ → ℕ → DevBase → List DevBase
add_dev net frame slot pdev = if is_outside frame slot then net else set net (place frame slot) pdev

-- `tms_GetFrame`: the row that is copied out, or nothing.
unfoldable pub get_frame : List DevBase → ℕ → List DevBase → List DevBase
get_frame net frame out =
    if leb max_frame frame then out else write_at out 0 (slice net (place frame 0) max_slot)
