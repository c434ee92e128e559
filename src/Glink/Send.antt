-- ===== src/Glink/Send.antt =====
-- Sending (protocol/glink.c) over a non-blocking socket, up to the last byte or the loss of the
-- connection. What each `send` call meets is a list of outcomes; `send` takes no more than it is
-- given.
use tmsxx_tc.Prelude.{
  ℕ, min, Option, none, some, List, [], ◌∷◌, ◌++◌, take, drop, ◌==◌, if◌then◌else◌,
}
use tmsxx_tc.Prelude.Words.{add32, sub32}
use tmsxx_tc.Glink.{GlinkBase, base_bytes, frame_head_tag, frame_tail_tag}
use tmsxx_tc.Glink.Wire.{htonl, store32}

-- What a call of `send` meets: room for some bytes, -1 with EAGAIN, or -1 with another error.
pub data Outcome : Type 0 where
  takes : ℕ → Outcome
  again : Outcome
  fails : Outcome

-- A connection: the bytes that the peer was sent, and what the next calls of `send` meet.
pub record Line : Type 0 where
  pub wire : List ℕ
  pub outcomes : List Outcome

-- A sender that ends returns its count, or -1 (`none` in the pair). It may not end: `none`.
abbrev pub Sender : Type 0 → Type 0
Sender A = Line → Option (Option A × Line)

-- `glink_SendSerial`: the loop, with `pbuf` as the bytes that are left and `tlen`.
unfoldable pub send_loop : ℕ → List Outcome → List ℕ → ℕ → List ℕ → Option (Option ℕ × Line)
send_loop len [] pbuf tlen wire =
    if tlen == 0 then some (some len, record { wire = wire; outcomes = [] }) else none
send_loop len (takes r ∷ os) pbuf tlen wire =
    let n = min r tlen in
    let rest = send_loop len os (drop n pbuf) (sub32 tlen n) (wire ++ take n pbuf) in
    if tlen == 0 then some (some len, record { wire = wire; outcomes = takes r ∷ os }) else rest
send_loop len (again ∷ os) pbuf tlen wire =
    let rest = send_loop len os pbuf tlen wire in
    if tlen == 0 then some (some len, record { wire = wire; outcomes = again ∷ os }) else rest
send_loop len (fails ∷ os) pbuf tlen wire =
    if tlen == 0
    then some (some len, record { wire = wire; outcomes = fails ∷ os })
    else some (none, record { wire = wire; outcomes = os })

unfoldable pub send_serial : List ℕ → ℕ → Sender ℕ
unfolding send_loop
send_serial pdata len line = send_loop len line.outcomes pdata len line.wire

-- `ret = …; if (ret >= 0) total += ret; else return -1;`
infixl 5 ◌>>=◌
abbrev pub ◌>>=◌ : {A B : Type 0} → Sender A → (A → Sender B) → Sender B
◌>>=◌ m f line = elim (m line) [
  | none ↦ none
  | some (r, line') ↦ elim r [ none ↦ some (none, line') | some a ↦ f a line' ]
]

abbrev pub return : {A : Type 0} → A → Sender A
return a line = some (some a, line)

-- `glink_Send`
unfoldable pub send : GlinkBase → List ℕ → ℕ → Sender ℕ
unfolding send_serial
send base pdata len = do
  head ← send_serial (store32 (htonl frame_head_tag)) 4
  body ← send_serial (base_bytes base) 32
  payload ← send_serial pdata len
  tail ← send_serial (store32 (htonl frame_tail_tag)) 4
  return (add32 (add32 (add32 head body) payload) tail)

-- `glink_SendHead`
unfoldable pub send_head : GlinkBase → Sender ℕ
unfolding send_serial
send_head base = do
  head ← send_serial (store32 (htonl frame_head_tag)) 4
  body ← send_serial (base_bytes base) 32
  return (add32 head body)

-- `glink_SendTail`
unfoldable pub send_tail : Sender ℕ
unfolding send_serial
send_tail = do tail ← send_serial (store32 (htonl frame_tail_tag)) 4; return tail
