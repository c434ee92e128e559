-- ===== src/Devices/Lookup.antt =====
-- The laws of the device table of protocol/tmsxx.c.
use tmsxx_tc.Prelude.{
  ℕ, ◌+◌, ◌*◌, ◌<◌, ◌≡◌, List, [], ◌∷◌, arith, length, get_or, set, take, get_or-set_self,
  get_or-set_ne, ◌==◌, ◌&&◌, if◌then◌else◌, inl, inr, Bool-cases, ==_iff,
}
use tmsxx_tc.Devices.{DevBase, blank, place, max_frame, max_slot, get_dev_base_by_location, add_dev}

-- `sg_devnet` has a spare row.
abbrev pub IsTable : List DevBase → Type 0
IsTable net = length net ≡ (max_frame + 1) * max_slot

abbrev pub location : List DevBase → ℕ → ℕ → DevBase
location net f s = (get_dev_base_by_location net f s blank).1

get_or-set :
    (net : List DevBase) (i j : ℕ) (d : DevBase)
    → i < length net
    → get_or (set net i d) j blank ≡ (if i == j then d else get_or net j blank)
get_or-set net i j d h = elim (Bool-cases (i == j)) [
  | inl e ↦ rw (e, ← (==_iff i j).0 e) (get_or-set_self net i d blank h)
  | inr ne ↦ rw ne (get_or-set_ne net i j d blank (λ e. ground arith))
]

-- After add_dev at a frame and slot below their limits, get_dev_base_by_location gives the device
-- there, and at every other place what was there before.
pub location-add_dev :
    (net : List DevBase) (f s f' s' : ℕ) (d : DevBase)
    → IsTable net
    → f < max_frame
    → s < max_slot
    → f' < max_frame
    → s' < max_slot
    → location (add_dev net f s d) f' s' ≡ (if f == f' && s == s' then d else location net f' s')
unfolding add_dev get_dev_base_by_location
location-add_dev net f s f' s' d t hf hs hf' hs' =
    ground (arith, get_or-set net (place f s) (place f' s') d)

-- In every frame but the last, a slot number of MAX_SLOT passes the test of add_dev, and the
-- device goes to the first slot of the next frame.
pub location-add_dev_past :
    (net : List DevBase) (f : ℕ) (d : DevBase)
    → IsTable net
    → f + 1 < max_frame
    → location (add_dev net f max_slot d) (f + 1) 0 ≡ d
unfolding add_dev get_dev_base_by_location
location-add_dev_past net f d t hf =
    ground (arith, get_or-set net (place f max_slot) (place (f + 1) 0) d)

-- How many of the entries have this descriptor.
abbrev pub count_fd : List DevBase → ℕ → ℕ
count_fd [] fd = 0
count_fd (d ∷ ds) fd = (if d.fd == fd then 1 else 0) + count_fd ds fd

abbrev pub searched : List DevBase → List DevBase
searched net = take (max_frame * max_slot) net
