-- ===== src/Shell/Prompt.antt =====
-- The prompt after the command `hostname`.
use tmsxx_tc.Prelude.{
  ℕ, zero, suc, ◌≤◌, ◌<◌, ◌≡◌, refl, sym, ap, false, List, [], ◌∷◌, ◌++◌, length, length-append,
  length-drop, take-all, drop, set, arith, ltb, ◌==◌, if◌then◌else◌,
}
use mathlib.Core.List.{append_assoc}
use tmsxx_tc.Prelude.Blocks.{drop-append_le}
use tmsxx_tc.Shell.{do_hostname}

-- What `%s` shows of the bytes of a string.
abbrev pub shown : List ℕ → List ℕ
shown [] = []
shown (b ∷ bs) = let rest = shown bs in if b == 0 then [] else b ∷ rest

abbrev pub AreNonZero : List ℕ → Type 0
AreNonZero [] = Unit {0}
AreNonZero (b ∷ bs) = ((b == 0) ≡ false) × AreNonZero bs

shown-set :
    (w pad : List ℕ) (n : ℕ) → AreNonZero w → length w ≤ n → shown (set (w ++ (0 ∷ pad)) n 0) ≡ w
shown-set [] pad zero a h = refl
shown-set [] pad (suc n) a h = refl
shown-set (b ∷ w) pad zero a h = absurd (omega arith)
shown-set (b ∷ w) pad (suc n) a h = rw (a.0) (ap (◌∷◌ b) (shown-set w pad n a.1 (omega (arith, h))))

AreNonZero-append : (v w : List ℕ) → AreNonZero v → AreNonZero w → AreNonZero (v ++ w)
AreNonZero-append [] w a b = b
AreNonZero-append (x ∷ v) w a b = (a.0, AreNonZero-append v w a.1 b)

AreNonZero-drop : (n : ℕ) (w : List ℕ) → AreNonZero w → AreNonZero (drop n w)
AreNonZero-drop zero w a = a
AreNonZero-drop (suc n) [] a = a
AreNonZero-drop (suc n) (x ∷ w) a = AreNonZero-drop n w a.1

-- After do_hostname with a name that is not longer than the old one, and an old name of less than
-- ten characters, the name that is shown is the new one with the rest of the old one behind it.
pub shown-do_hostname :
    (old pad argument : List ℕ)
    → AreNonZero old
    → AreNonZero argument
    → length argument ≤ length old
    → length old < 10
    → shown (do_hostname (old ++ (0 ∷ pad)) argument) ≡ argument ++ drop (length argument) old
unfolding do_hostname
shown-do_hostname old pad argument a b h k =
    let len : (if ltb 10 (length argument) then 10 else length argument) ≡ length argument =
      ground arith in
    rw
      (
        len,
        take-all (length argument) argument (omega arith),
        drop-append_le (length argument) old (0 ∷ pad) h,
        sym (append_assoc argument (drop (length argument) old) (0 ∷ pad)),
      )
      (shown-set (argument ++ drop (length argument) old) pad 9
        (AreNonZero-append argument (drop (length argument) old) b
          (AreNonZero-drop (length argument) old a))
        (omega (
          arith,
          length-append argument (drop (length argument) old),
          length-drop (length argument) old,
        )))
