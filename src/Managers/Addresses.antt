-- ===== src/Managers/Addresses.antt =====
-- Finding managers by address, and listing them (protocol/tmsxx.c).
use tmsxx_tc.Prelude.{
  ℕ, suc, ◌+◌, ◌-◌, ◌^◌, ◌<◌, min, ◌≡◌, ◌≢◌, ◌∙◌, Bool, false, Option, none, some, List, [], ◌∷◌,
  length, arith, ◌==◌, if◌then◌else◌, inl, inr, Bool-cases, Option-cases, ap,
}
use tmsxx_tc.Prelude.Words.{add32, sub32, sle_small}
use tmsxx_tc.Managers.{
  Manager, Added, has_fd, occupy, occupy_first, enter_manage, add_manage, del_loop, del_manage,
  select_fd, select_fd_by_addr, count_loop, count_list, manage_count,
}
use tmsxx_tc.Managers.Adding.{add_manage-open, add_manage-close}

-- How many entries have this address.
abbrev pub addressed : List Manager → ℕ → ℕ
addressed [] a = 0
addressed (m ∷ ms) a = (if m.fd_addr == a then 1 else 0) + addressed ms a

select_occupied :
    (ms : List Manager) (fd kind a : ℕ)
    → addressed ms a ≡ 0
    → manage_count ms < length ms
    → (ms' : List Manager) × (i : ℕ) × (occupy_first ms fd kind (some a) ≡ some (ms', i))
      × (select_fd ms' a ≡ fd)
unfolding occupy_first manage_count select_fd occupy
select_occupied [] fd kind a none_there room = absurd (omega arith)
select_occupied (m ∷ ms) fd kind a none_there room = elim (Bool-cases (m.fd == 0)) [
  | inl vacant ↦ (occupy m fd kind (some a) ∷ ms, 0, ground arith, ground arith)
  | inr busy ↦
      let later = select_occupied ms fd kind a (ground arith) (ground arith) in
      (m ∷ later.0, suc later.1, ground (arith, later.2), ground (arith, later.3))
]

-- A new manager that add_manage takes in with an address, and does not close again, is what
-- select_fd_by_addr gives for that address, if its descriptor is not in the table, no entry had the
-- address and one is free.
pub select_fd-add_manage :
    (served : Bool) (ms : List Manager) (fd kind a : ℕ)
    → has_fd ms fd ≡ false
    → addressed ms a ≡ 0
    → manage_count ms < length ms
    → (add_manage served ms (some a) fd kind).closed ≡ none
    → select_fd_by_addr (add_manage served ms (some a) fd kind).table (some a) ≡ fd
unfolding select_fd_by_addr
select_fd-add_manage served ms fd kind a absent none_there room unclosed =
    let taken = select_occupied ms fd kind a none_there room in
    let r = enter_manage served ms (some a) fd kind in
    let k : select_fd r.table a ≡ fd = unfold enter_manage in rw (absent, taken.2) taken.3 in
    elim (Option-cases r.closed) [
      | inl e ↦
          ap (λ (x : Added). select_fd x.table a) (add_manage-open served ms (some a) fd kind e) ∙ k
      | inr (h, e) ↦
          absurd
            (cc (ap Added.closed (add_manage-close served ms (some a) fd kind h e), unclosed, e))
    ]

select_fd-del_loop :
    (ms : List Manager) (fd count a : ℕ) → fd ≢ 0 → select_fd (del_loop ms fd count).0 a ≢ fd
unfolding select_fd del_loop
select_fd-del_loop [] fd count a nz e = nz (ground arith)
select_fd-del_loop (m ∷ ms) fd count a nz e =
    let count' : ℕ = if m.fd == 0 then count else sub32 (add32 count 1) 1 in
    ground (arith, select_fd-del_loop ms fd count' a nz)

-- select_fd_by_addr gives a descriptor that del_manage removed (other than 0) for no address.
pub select_fd-del_manage :
    (ms : List Manager) (context : Bool) (fd : ℕ) (a : Option ℕ)
    → fd ≢ 0
    → select_fd_by_addr (del_manage ms context fd).table a ≢ fd
unfolding del_manage select_fd_by_addr
select_fd-del_manage ms context fd none nz e = nz (ground arith)
select_fd-del_manage ms context fd (some a) nz e = select_fd-del_loop ms fd 0 a nz e

-- How many entries have an address.
abbrev pub with_addr : List Manager → ℕ
with_addr [] = 0
with_addr (m ∷ ms) = (if m.fd_addr == 0 then 0 else 1) + with_addr ms

length-count_loop :
    (ms : List Manager) (count ret : ℕ)
    → count < 2 ^ 31
    → ret + length ms < 2 ^ 31
    → length (count_loop ms count ret) ≡ min (with_addr ms) (count - ret)
unfolding count_loop
length-count_loop [] count ret h k = omega arith
length-count_loop (m ∷ ms) count ret h k = ground (
  arith,
  sle_small count ret,
  length-count_loop ms count ret,
  length-count_loop ms count (ret + 1),
)

-- count_list writes one entry for each manager that has an address, but no more than the given
-- count; for counts and tables below 2^31.
pub length-count_list :
    (ms : List Manager) (count : ℕ)
    → count < 2 ^ 31
    → length ms < 2 ^ 31
    → length (count_list ms count) ≡ min (with_addr ms) count
unfolding count_list
length-count_list ms count h k = length-count_loop ms count 0 h (omega arith) ∙ omega arith
