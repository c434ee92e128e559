-- ===== src/Managers/Adding.antt =====
-- What adding a manager comes to, with the close of the connection that takes the last entry
-- (protocol/tmsxx.c).
use tmsxx_tc.Prelude.{
  ℕ, suc, ◌≤◌, ◌≡◌, ◌≢◌, ◌⊎◌, refl, sym, ap, ◌∙◌, subst, Bool, true, Option, none, some, List, [],
  ◌∷◌, length, arith, ◌==◌, if◌then◌else◌, inl, inr, ==_iff,
}
use tmsxx_tc.Prelude.Words.{add32, sub32}
use tmsxx_tc.Managers.{
  Manager, Added, minus_one, manage_count, enter_manage, close_entered, del_loop, del_manage,
  add_manage,
}
use tmsxx_tc.Managers.Table.{uses, IsDistinct, enter_manage-EntersIn}
use tmsxx_tc.Managers.Removal.{del_manage-uses}

length-del_loop : (ms : List Manager) (fd count : ℕ) → length (del_loop ms fd count).0 ≡ length ms
unfolding del_loop
length-del_loop [] fd count = refl
length-del_loop (m ∷ ms) fd count =
    ap suc (length-del_loop ms fd (if m.fd == 0 then count else sub32 (add32 count 1) 1))

length-del_manage : (ms : List Manager) (fd : ℕ) → length (del_manage ms true fd).table ≡ length ms
unfolding del_manage
length-del_manage ms fd = length-del_loop ms fd 0

-- What `tms_AddManage` leaves, as to the descriptor `g`.
abbrev pub AddsTo : Bool → List Manager → ℕ → ℕ → Added → Type 0
AddsTo served ms fd g r =
    ((r.status ≡ 0)
      × (r.closed ≡ none)
      × (length r.table ≡ length ms)
      × (uses r.table g ≡ (if g == fd then 1 else uses ms g)))
    ⊎ (((r.status ≡ 0)
          × (r.closed ≡ some fd)
          × (served ≡ true)
          × (5 ≤ manage_count ms)
          × (uses ms fd ≡ 0)
          × (length r.table ≡ length ms)
          × (uses r.table g ≡ uses ms g))
        ⊎ ((r.status ≡ minus_one)
            × (r.table ≡ ms)
            × (uses ms fd ≡ 0)
            × (manage_count ms ≡ length ms)
            × (r.closed ≡ none)))

module _ (served : Bool) (ms : List Manager) (src : Option ℕ) (fd kind : ℕ) where
  abbrev pub entered : Added
  entered = enter_manage served ms src fd kind

  pub add_manage-open : entered.closed ≡ none → add_manage served ms src fd kind ≡ entered
  unfolding add_manage
  add_manage-open e = unfold close_entered in ap (close_entered entered) e

  pub add_manage-close :
      (h : ℕ)
      → entered.closed ≡ some h
      → add_manage served ms src fd kind
        ≡ record entered { table = (del_manage entered.table true h).table }
  unfolding add_manage
  add_manage-close h e = unfold close_entered in ap (close_entered entered) e

  module _ (g : ℕ) (nz : fd ≢ 0) (ng : g ≢ 0) (d : IsDistinct ms) where
    -- For a table where no descriptor stands twice, add_manage of a descriptor other than 0 does
    -- one of three things, which this says of every descriptor but 0. It returns 0, has nothing
    -- closed, leaves it there exactly once and each other as often as before; or, with an epoll
    -- server, at least five managers and a new descriptor, it returns 0, has the connection
    -- closed, and each descriptor stands as often as before, the new one not at all; or it returns
    -- -1, changes nothing, and the table is full without it.
    pub add_manage-AddsTo : AddsTo served ms fd g (add_manage served ms src fd kind)
    add_manage-AddsTo = elim (enter_manage-EntersIn served ms src fd kind g nz ng d) [
      | inl (s, l, u, inl c) ↦
          subst (AddsTo served ms fd g) (sym (add_manage-open c)) (inl (s, c, l, u))
      | inl (s, l, u, inr (c, on, new, five)) ↦
          let w = del_manage-uses entered.table true fd g nz ng in
          subst (AddsTo served ms fd g) (sym (add_manage-close fd c)) (
            inr (
              inl (
                s,
                c,
                on,
                five,
                new,
                length-del_manage entered.table fd ∙ l,
                ground (arith, w, u, new, (==_iff g fd).0),
              )))
      | inr (s, t, new, full, c) ↦
          subst (AddsTo served ms fd g) (sym (add_manage-open c)) (inr (inr (s, t, new, full, c)))
    ]
