-- ===== src/Glink/Ends.antt =====
-- When the loop of `glink_SendSerial` (protocol/glink.c) ends.
use tmsxx_tc.Prelude.{
  ℕ, zero, suc, ◌+◌, ◌^◌, ◌≤◌, ◌<◌, min, ◌≡◌, refl, Option, none, some, List, [], ◌∷◌, ◌++◌, arith,
  take, drop, replicate, ◌==◌, Bool-cases, inl, inr,
}
use tmsxx_tc.Prelude.Words.{sub32, sub32_small}
use tmsxx_tc.Glink.Send.{Outcome, takes, again, fails, Line, send_loop, send_serial}

-- The room that the peer makes over all the coming calls of `send`.
abbrev pub room : List Outcome → ℕ
room [] = 0
room (takes r ∷ os) = r + room os
room (again ∷ os) = room os
room (fails ∷ os) = room os

-- No call of `send` meets an error but EAGAIN.
abbrev pub IsAlive : List Outcome → Type 0
IsAlive [] = Unit {0}
IsAlive (takes r ∷ os) = IsAlive os
IsAlive (again ∷ os) = IsAlive os
IsAlive (fails ∷ os) = ⊥

-- The sender ends with its count.
abbrev pub Completes : ℕ → Option (Option ℕ × Line) → Type 0
Completes n r = (line : Line) × (r ≡ some (some n, line))

send_loop-Completes :
    (len : ℕ) (os : List Outcome) (pbuf : List ℕ) (tlen : ℕ) (wire : List ℕ)
    → tlen < 2 ^ 31
    → tlen ≤ room os
    → IsAlive os
    → Completes len (send_loop len os pbuf tlen wire)
unfolding send_loop
send_loop-Completes len [] pbuf tlen wire h r a =
    (record { wire = wire; outcomes = [] }, ground arith)
send_loop-Completes len (takes k ∷ os) pbuf tlen wire h r a = elim (Bool-cases (tlen == 0)) [
  | inl done ↦ rw done (_, refl)
  | inr more ↦ rw more (
      send_loop-Completes len os (drop (min k tlen) pbuf) (sub32 tlen (min k tlen))
        (wire ++ take (min k tlen) pbuf) (omega (arith, sub32_small tlen (min k tlen)))
        (omega (arith, sub32_small tlen (min k tlen))) a)
]
send_loop-Completes len (again ∷ os) pbuf tlen wire h r a = elim (Bool-cases (tlen == 0)) [
  | inl done ↦ rw done (_, refl)
  | inr more ↦ rw more (send_loop-Completes len os pbuf tlen wire h r a)
]
send_loop-Completes len (fails ∷ os) pbuf tlen wire h r a = absurd a

-- If the peer in the end makes room for all of fewer than 2^31 bytes and the connection does not
-- break, send_serial ends, and with their number.
pub send_serial-Completes :
    (bs : List ℕ) (n : ℕ) (line : Line)
    → n < 2 ^ 31
    → n ≤ room line.outcomes
    → IsAlive line.outcomes
    → Completes n (send_serial bs n line)
unfolding send_serial
send_serial-Completes bs n line h r a = send_loop-Completes n line.outcomes bs n line.wire h r a

send_loop-stalls :
    (len k : ℕ) (pbuf : List ℕ) (tlen : ℕ) (wire : List ℕ)
    → 0 < tlen
    → tlen < 2 ^ 31
    → send_loop len (replicate k (takes 0)) pbuf tlen wire ≡ none
unfolding send_loop
send_loop-stalls len zero pbuf tlen wire pos h = ground arith
send_loop-stalls len (suc k) pbuf tlen wire pos h = elim (Bool-cases (tlen == 0)) [
  | inl done ↦ absurd (ground arith)
  | inr more ↦ rw more (
      send_loop-stalls len k (drop (min 0 tlen) pbuf) (sub32 tlen (min 0 tlen))
        (wire ++ take (min 0 tlen) pbuf) (omega (arith, sub32_small tlen (min 0 tlen)))
        (omega (arith, sub32_small tlen (min 0 tlen))))
]

-- While send returns 0, send_serial does not end, for a positive number of bytes below 2^31.
pub send_serial-stalls :
    (bs : List ℕ) (n k : ℕ) (wire : List ℕ)
    → 0 < n
    → n < 2 ^ 31
    → send_serial bs n (record { wire = wire; outcomes = replicate k (takes 0) }) ≡ none
unfolding send_serial
send_serial-stalls bs n k wire pos h = send_loop-stalls n k bs n wire pos h
