-- ===== src/Managers/Table.antt =====
-- Adding and removing managers (protocol/tmsxx.c).
use tmsxx_tc.Prelude.{
  ℕ, ◌+◌, ◌≤◌, ◌<◌, ◌≡◌, ◌≢◌, ◌⊎◌, refl, Bool, true, false, Option, none, some, List, [], ◌∷◌,
  length, arith, ◌==◌, ◌&&◌, if◌then◌else◌, inl, inr, Bool-cases, ==_iff,
}
use tmsxx_tc.Managers.{
  Manager, has_fd, occupy, occupy_first, behind, enter_manage, Added, minus_one, manage_count,
}

-- How many entries have this descriptor.
abbrev pub uses : List Manager → ℕ → ℕ
uses [] fd = 0
uses (m ∷ ms) fd = (if m.fd == fd then 1 else 0) + uses ms fd

-- No descriptor but 0 stands twice.
abbrev pub IsDistinct : List Manager → Type 0
IsDistinct ms = (fd : ℕ) → fd ≢ 0 → uses ms fd ≤ 1

has_fd-uses :
    (ms : List Manager) (fd : ℕ) → has_fd ms fd ≡ (if uses ms fd == 0 then false else true)
unfolding has_fd
has_fd-uses [] fd = refl
has_fd-uses (m ∷ ms) fd = ground (arith, has_fd-uses ms fd)

fd-occupy : (m : Manager) (fd kind : ℕ) (src : Option ℕ) → (occupy m fd kind src).fd ≡ fd
unfolding occupy
fd-occupy m fd kind none = refl
fd-occupy m fd kind (some a) = refl

-- What the second loop of `tms_AddManage` does to the table.
abbrev Occupies : List Manager → ℕ → Option (List Manager × ℕ) → Type 0
Occupies ms fd none = manage_count ms ≡ length ms
Occupies ms fd (some (ms', i)) =
    (i < length ms)
    × (i ≤ manage_count ms)
    × (manage_count ms' ≡ manage_count ms + 1)
    × (length ms' ≡ length ms)
    × ((g : ℕ) → g ≢ 0 → uses ms' g ≡ (if g == fd then uses ms g + 1 else uses ms g))

Occupies-behind :
    (m : Manager) (ms : List Manager) (fd : ℕ) (r : Option (List Manager × ℕ))
    → m.fd ≢ 0
    → Occupies ms fd r
    → Occupies (m ∷ ms) fd (behind m r)
unfolding manage_count
Occupies-behind m ms fd none busy h = ground arith
Occupies-behind m ms fd (some (ms', i)) busy (h0, h4, h1, h2, h3) =
    (omega arith, ground arith, ground arith, omega arith, λ g nz. ground (arith, h3 g))

occupy_first-Occupies :
    (ms : List Manager) (fd kind : ℕ) (src : Option ℕ)
    → fd ≢ 0
    → Occupies ms fd (occupy_first ms fd kind src)
unfolding occupy_first manage_count
occupy_first-Occupies [] fd kind src nz = refl
occupy_first-Occupies (m ∷ ms) fd kind src nz = elim (Bool-cases (m.fd == 0)) [
  | inl vacant ↦ rw vacant (
    omega arith,
    omega arith,
    ground (arith, fd-occupy m fd kind src),
    refl,
    λ g h. ground (arith, fd-occupy m fd kind src),
  )
  | inr busy ↦ rw busy (
      Occupies-behind m ms fd (occupy_first ms fd kind src) (λ e. ground arith)
        (occupy_first-Occupies ms fd kind src nz))
]

-- What `tms_AddManage` leaves before the close, as to the descriptor `g`.
abbrev pub EntersIn : Bool → List Manager → ℕ → ℕ → Added → Type 0
EntersIn served ms fd g r =
    ((r.status ≡ 0)
      × (length r.table ≡ length ms)
      × (uses r.table g ≡ (if g == fd then 1 else uses ms g))
      × ((r.closed ≡ none)
          ⊎ ((r.closed ≡ some fd) × (served ≡ true) × (uses ms fd ≡ 0) × (5 ≤ manage_count ms))))
    ⊎ ((r.status ≡ minus_one)
        × (r.table ≡ ms)
        × (uses ms fd ≡ 0)
        × (manage_count ms ≡ length ms)
        × (r.closed ≡ none))

module _ (served : Bool) (ms : List Manager) (src : Option ℕ) (fd kind g : ℕ) (nz : fd ≢ 0)
    (ng : g ≢ 0) (d : IsDistinct ms) where
  entered-EntersIn :
      (o : Option (List Manager × ℕ))
      → occupy_first ms fd kind src ≡ o
      → has_fd ms fd ≡ false
      → Occupies ms fd o
      → EntersIn served ms fd g (enter_manage served ms src fd kind)
  unfolding enter_manage
  entered-EntersIn none e absent occ =
      rw (absent, e) (inr (refl, refl, ground (arith, has_fd-uses ms fd), occ, refl))
  entered-EntersIn (some (ms', i)) e absent (h0, h4, h1, h2, h3) =
      let new : uses ms fd ≡ 0 = ground (arith, has_fd-uses ms fd, absent) in
      let once : uses ms' g ≡ (if g == fd then 1 else uses ms g) =
        ground (arith, new, h3 g, (==_iff g fd).0) in
      elim (Bool-cases (served && i == 5)) [
        | inr early ↦ rw (absent, e, early) (inl (refl, h2, once, inl refl))
        | inl last ↦
            rw (absent, e, last)
              (inl (refl, h2, once, inr (refl, ground (arith, last), new, ground (arith, last))))
      ]

  -- A descriptor that is entered stands once.
  pub enter_manage-EntersIn : EntersIn served ms fd g (enter_manage served ms src fd kind)
  unfolding enter_manage
  enter_manage-EntersIn = elim (Bool-cases (has_fd ms fd)) [
    | inl known ↦
        rw known
          (inl (refl, refl, ground (arith, has_fd-uses ms fd, d fd nz, (==_iff g fd).0), inl refl))
    | inr absent ↦
        entered-EntersIn (occupy_first ms fd kind src) refl absent
          (occupy_first-Occupies ms fd kind src nz)
  ]
