-- ===== src/Managers/Removal.antt =====
-- Removing managers (protocol/tmsxx.c).
use tmsxx_tc.Prelude.{
  ℕ, ◌^◌, ◌<◌, ◌≡◌, ◌≢◌, refl, ◌∙◌, Bool, List, [], ◌∷◌, arith, ◌==◌, if◌then◌else◌, inl, inr,
  Bool-cases,
}
use tmsxx_tc.Prelude.Words.{add32, sub32}
use tmsxx_tc.Managers.{Manager, minus_one, del_loop, del_manage}
use tmsxx_tc.Managers.Table.{uses}

del_loop-uses :
    (ms : List Manager) (fd count g : ℕ)
    → fd ≢ 0
    → g ≢ 0
    → uses (del_loop ms fd count).0 g ≡ (if g == fd then 0 else uses ms g)
unfolding del_loop
del_loop-uses [] fd count g nz ng = ground arith
del_loop-uses (m ∷ ms) fd count g nz ng =
    let count' : ℕ = if m.fd == 0 then count else sub32 (add32 count 1) 1 in
    ground (arith, del_loop-uses ms fd count' g nz ng)

-- After del_manage of a descriptor other than 0 no entry has it, and every other descriptor but 0
-- stands as often as before.
pub del_manage-uses :
    (ms : List Manager) (context : Bool) (fd g : ℕ)
    → fd ≢ 0
    → g ≢ 0
    → uses (del_manage ms context fd).table g ≡ (if g == fd then 0 else uses ms g)
unfolding del_manage
del_manage-uses ms context fd g nz ng = del_loop-uses ms fd 0 g nz ng

del_loop-count :
    (ms : List Manager) (fd count : ℕ) → count < 2 ^ 31 → (del_loop ms fd count).1 ≡ count
unfolding del_loop add32 sub32
del_loop-count [] fd count h = refl
del_loop-count (m ∷ ms) fd count h = elim (Bool-cases (m.fd == 0)) [
  | inl e ↦ rw e (del_loop-count ms fd count h)
  | inr e ↦ rw e (del_loop-count ms fd (sub32 (add32 count 1) 1) (omega arith) ∙ omega arith)
]

-- del_manage calls pf_OnCUNoteManageConnect exactly if it has a context, whatever managers are
-- left and whether or not the descriptor was in the table, and returns -1.
pub del_manage-notified :
    (ms : List Manager) (context : Bool) (fd : ℕ)
    → ((del_manage ms context fd).notified ≡ context)
      × ((del_manage ms context fd).status ≡ minus_one)
unfolding del_manage
del_manage-notified ms context fd = rw (del_loop-count ms fd 0 (omega arith)) (refl, refl)
