-- ===== src/Forward/Broadcast.antt =====
-- Sending to all managers (protocol/tmsxx.c).
use mathlib.Core.List.{append_assoc, append-nil}
use tmsxx_tc.Prelude.{
  ℕ, zero, suc, ◌+◌, ◌^◌, ◌<◌, ◌≡◌, refl, ap, sym, ◌∙◌, some, List, [], ◌∷◌, ◌++◌, arith, leb, ltb,
  ◌==◌, ◌&&◌, not, if◌then◌else◌, inl, inr, Bool-cases,
}
use tmsxx_tc.Glink.{GlinkBase, base_bytes, frame_bytes, frame_head_tag, frame_tail_tag}
use tmsxx_tc.Glink.Wire.{htonl, store32, htonl-htonl}
use tmsxx_tc.Managers.{Manager, select_fd_by_addr}
use tmsxx_tc.Forward.{send_loop, send_all_manager, pieces, send_dot_loop, send_all_manager_dot}

-- The descriptors that get a frame with the destination `a`.
abbrev pub reached : List (ℕ × GlinkBase) → ℕ → List ℕ
reached [] a = []
reached ((fd, b) ∷ sent) a = if htonl b.dst == a then fd ∷ reached sent a else reached sent a

reached-send_loop :
    (n dst : ℕ) (ms : List Manager) (base : GlinkBase) (a : ℕ)
    → dst + n < 2 ^ 32
    → reached (send_loop n dst ms base) a ≡ (
        if (leb dst a && ltb a (dst + n)) && not (select_fd_by_addr ms (some a) == 0)
        then select_fd_by_addr ms (some a) ∷ []
        else [])
unfolding send_loop
reached-send_loop zero dst ms base a h = ground arith
reached-send_loop (suc n) dst ms base a h = ground (
  arith,
  htonl-htonl dst,
  reached-send_loop n (dst + 1) ms (record base { dst = htonl dst }) a,
  reached-send_loop n (dst + 1) ms base a,
)

abbrev pub join : List (List ℕ) → List ℕ
join [] = []
join (xs ∷ rest) = xs ++ join rest

-- send_all_manager sends a frame with destination a exactly once, to the descriptor that
-- select_fd_by_addr gives for a, if a is from 0x3a to 0x3f and that is not 0; and otherwise to
-- nobody.
pub reached-send_all_manager :
    (ms : List Manager) (base : GlinkBase) (a : ℕ)
    → reached (send_all_manager ms base) a ≡ (
        if (leb 0x3a a && ltb a 0x40) && not (select_fd_by_addr ms (some a) == 0)
        then select_fd_by_addr ms (some a) ∷ []
        else [])
unfolding send_all_manager
reached-send_all_manager ms base a = reached-send_loop 6 0x3a ms base a (omega arith)

join-pieces :
    (groups : List (List ℕ)) (tail : List ℕ) → join (groups ++ (tail ∷ [])) ≡ join groups ++ tail
join-pieces [] tail = append-nil tail
join-pieces (g ∷ groups) tail =
    ap (◌++◌ g) (join-pieces groups tail) ∙ sym (append_assoc g (join groups) tail)

-- The bytes that each descriptor gets, of whole frames and of frames in pieces.
abbrev pub whole : List ℕ → List (ℕ × GlinkBase) → List (ℕ × List ℕ)
whole payload [] = []
whole payload ((fd, b) ∷ sent) = (fd, frame_bytes b payload) ∷ whole payload sent

abbrev pub joined : List (ℕ × List (List ℕ)) → List (ℕ × List ℕ)
joined [] = []
joined ((fd, ps) ∷ sent) = (fd, join ps) ∷ joined sent

pieces-frame :
    (b : GlinkBase) (groups : List (List ℕ)) → join (pieces b groups) ≡ frame_bytes b (join groups)
unfolding frame_bytes
pieces-frame b groups =
    ap (λ rest. store32 (htonl frame_head_tag) ++ (base_bytes b ++ rest))
      (join-pieces groups (store32 (htonl frame_tail_tag)))

send_dot_loop-whole :
    (n dst : ℕ) (ms : List Manager) (base : GlinkBase) (groups : List (List ℕ))
    → joined (send_dot_loop n dst ms base groups) ≡ whole (join groups) (send_loop n dst ms base)
unfolding send_dot_loop send_loop
send_dot_loop-whole zero dst ms base groups = refl
send_dot_loop-whole (suc n) dst ms base groups =
    let addressed : GlinkBase = record base { dst = htonl dst } in
    elim (Bool-cases (select_fd_by_addr ms (some dst) == 0)) [
      | inl nobody ↦ rw nobody (send_dot_loop-whole n (dst + 1) ms base groups)
      | inr there ↦
          rw
            (
              there,
              pieces-frame addressed groups,
              send_dot_loop-whole n (dst + 1) ms addressed groups,
            )
            refl
    ]

-- send_all_manager_dot sends each manager, piece by piece, the bytes of the frame that
-- send_all_manager sends it for the groups joined together.
pub send_all_manager_dot-whole :
    (ms : List Manager) (base : GlinkBase) (groups : List (List ℕ))
    → joined (send_all_manager_dot ms base groups) ≡ whole (join groups) (send_all_manager ms base)
unfolding send_all_manager_dot send_all_manager
send_all_manager_dot-whole ms base groups = send_dot_loop-whole 6 0x3a ms base groups
