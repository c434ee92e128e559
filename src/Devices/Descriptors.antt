-- ===== src/Devices/Descriptors.antt =====
-- Finding and removing devices of protocol/tmsxx.c by their descriptors.
use tmsxx_tc.Prelude.{
  ℕ, zero, suc, ◌+◌, ◌-◌, ◌*◌, ◌/◌, ◌%◌, ◌≤◌, ◌<◌, ◌≡◌, ◌≢◌, ◌⊎◌, refl, ap, sym, subst, ◌∙◌, List,
  [], ◌∷◌, arith, length, length-take, get_or, take, ◌==◌, if◌then◌else◌, inl, inr, Bool-cases,
}
use tmsxx_tc.Devices.{
  DevBase, blank, minus_one, place, max_frame, max_slot, get_dev_base_by_location, scan_fd,
  get_dev_base_by_fd, remove_first, remove_dev,
}
use tmsxx_tc.Devices.Lookup.{location, count_fd, searched}

scan_fd-none :
    (ds : List DevBase) (i fd : ℕ) (pout : DevBase)
    → count_fd ds fd ≡ 0
    → scan_fd ds i fd pout ≡ (minus_one, pout)
unfolding scan_fd
scan_fd-none [] i fd pout e = refl
scan_fd-none (d ∷ ds) i fd pout e = ground (arith, scan_fd-none ds (i + 1) fd pout)

-- What the scan makes of an entry that it stops at.
abbrev seen_at : List DevBase → ℕ → ℕ → DevBase → DevBase
seen_at ds i k pout = record pout {
  fd = (get_or ds k blank).fd;
  frame = (i + k) / max_slot;
  slot = (i + k) % max_slot;
  port = (get_or ds k blank).port;
  kind = (get_or ds k blank).kind;
}

scan_fd-hit :
    (ds : List DevBase) (i fd : ℕ) (pout : DevBase)
    → 0 < count_fd ds fd
    → (k : ℕ) × (k < length ds)
      × ((get_or ds k blank).fd ≡ fd)
      × (scan_fd ds i fd pout ≡ (0, seen_at ds i k pout))
unfolding scan_fd
scan_fd-hit [] i fd pout h = absurd (omega arith)
scan_fd-hit (d ∷ ds) i fd pout h = elim (Bool-cases (d.fd == fd)) [
  | inl e ↦ (0, omega arith, ground arith, ground arith)
  | inr ne ↦
      let later = scan_fd-hit ds (i + 1) fd pout (ground arith) in
      (suc later.0, omega (arith, later.1), later.2, ground (arith, later.3))
]

get_or-take :
    (n : ℕ) (ds : List DevBase) (k : ℕ) → k < n → get_or (take n ds) k blank ≡ get_or ds k blank
get_or-take zero ds k h = absurd (omega arith)
get_or-take (suc n) [] k h = refl
get_or-take (suc n) (d ∷ ds) zero h = refl
get_or-take (suc n) (d ∷ ds) (suc k) h = get_or-take n ds k (omega arith)

location-index :
    (net : List DevBase) (k : ℕ)
    → k < max_frame * max_slot
    → location net ((0 + k) / max_slot) ((0 + k) % max_slot) ≡ get_or net k blank
unfolding get_dev_base_by_location
location-index net k h =
    let e : place ((0 + k) / max_slot) ((0 + k) % max_slot) ≡ k = omega arith in ground (arith, e)

-- What `tms_GetDevBaseByFd` hands back for a descriptor that the table has.
abbrev pub Finds : List DevBase → ℕ → ℕ × DevBase → Type 0
Finds net fd (r, out) =
    (r ≡ 0)
    × (out.frame < max_frame)
    × (out.slot < max_slot)
    × (out.fd ≡ fd)
    × ((location net out.frame out.slot).fd ≡ fd)

seen_at-Finds :
    (net : List DevBase) (fd k : ℕ) (pout : DevBase)
    → k < length (searched net)
    → (get_or (searched net) k blank).fd ≡ fd
    → Finds net fd (0, seen_at (searched net) 0 k pout)
seen_at-Finds net fd k pout h e =
    let small : k < max_frame * max_slot = omega (arith, length-take (max_frame * max_slot) net) in
    (
      refl,
      omega arith,
      omega arith,
      e,
      ap (λ (d : DevBase). d.fd)
            (location-index net k small ∙ sym (get_or-take (max_frame * max_slot) net k small))
          ∙ e,
    )

by_fd-none :
    (net : List DevBase) (fd : ℕ) (pout : DevBase)
    → count_fd (searched net) fd ≡ 0
    → get_dev_base_by_fd net fd pout ≡ (minus_one, pout)
unfolding get_dev_base_by_fd
by_fd-none net fd pout e = ground (arith, scan_fd-none (searched net) 0 fd pout)

by_fd-hit :
    (net : List DevBase) (fd : ℕ) (pout r : DevBase)
    → fd ≢ 0
    → scan_fd (searched net) 0 fd pout ≡ (0, r)
    → get_dev_base_by_fd net fd pout ≡ (0, r)
unfolding get_dev_base_by_fd
by_fd-hit net fd pout r nz e = ground arith

-- For a descriptor other than 0, either one of the first 256 entries (those of the frames and
-- slots 0 to 15, without the spare row behind them) has it and get_dev_base_by_fd reports a frame
-- and slot where get_dev_base_by_location finds it; or none of these entries has it and the call
-- returns -1 and writes nothing.
pub get_dev_base_by_fd_lem :
    (net : List DevBase) (fd : ℕ) (pout : DevBase)
    → fd ≢ 0
    → ((count_fd (searched net) fd ≡ 0) × (get_dev_base_by_fd net fd pout ≡ (minus_one, pout)))
      ⊎ ((0 < count_fd (searched net) fd) × Finds net fd (get_dev_base_by_fd net fd pout))
get_dev_base_by_fd_lem net fd pout nz = elim (Bool-cases (count_fd (searched net) fd == 0)) [
  | inl none_there ↦
      (let e : count_fd (searched net) fd ≡ 0 = ground arith in inl (e, by_fd-none net fd pout e))
  | inr there ↦
      let hit = scan_fd-hit (searched net) 0 fd pout (ground arith) in
      let reached = by_fd-hit net fd pout (seen_at (searched net) 0 hit.0 pout) nz hit.3 in
      inr (
        ground arith,
        subst (Finds net fd) (sym reached) (seen_at-Finds net fd hit.0 pout hit.1 hit.2),
      )
]

count_fd-remove_first :
    (n : ℕ) (net : List DevBase) (fd fd' : ℕ)
    → fd ≢ 0
    → fd' ≢ 0
    → count_fd (take n (remove_first n net fd)) fd'
      ≡ (if fd == fd' then count_fd (take n net) fd' - 1 else count_fd (take n net) fd')
unfolding remove_first
count_fd-remove_first zero net fd fd' h h' = ground arith
count_fd-remove_first (suc n) [] fd fd' h h' = ground arith
count_fd-remove_first (suc n) (d ∷ ds) fd fd' h h' =
    ground (arith, count_fd-remove_first n ds fd fd' h h')

-- remove_dev takes its descriptor off one entry that has it, if there is one, and leaves every
-- other descriptor as often as it was (descriptors other than 0).
pub count_fd-remove_dev :
    (net : List DevBase) (fd fd' : ℕ)
    → fd ≢ 0
    → fd' ≢ 0
    → count_fd (searched (remove_dev net fd)) fd'
      ≡ (if fd == fd' then count_fd (searched net) fd' - 1 else count_fd (searched net) fd')
unfolding remove_dev
count_fd-remove_dev net fd fd' h h' = count_fd-remove_first (max_frame * max_slot) net fd fd' h h'

-- A descriptor other than 0 that at most one entry has is no longer found after remove_dev.
pub get_dev_base_by_fd-remove_dev :
    (net : List DevBase) (fd : ℕ) (pout : DevBase)
    → fd ≢ 0
    → count_fd (searched net) fd ≤ 1
    → get_dev_base_by_fd (remove_dev net fd) fd pout ≡ (minus_one, pout)
get_dev_base_by_fd-remove_dev net fd pout h once =
    elim (get_dev_base_by_fd_lem (remove_dev net fd) fd pout h) [
      | inl gone ↦ gone.1
      | inr left ↦ absurd (ground (arith, left.0, count_fd-remove_dev net fd fd h h))
    ]
