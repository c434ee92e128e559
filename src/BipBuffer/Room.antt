-- ===== src/BipBuffer/Room.antt =====
-- How much bipbuffer_Reserve (osnet/bipbuffer.c) hands out, and when it refuses.
use Prim.Native.Nat.{max}
use tmsxx_tc.Prelude.{ℕ, ◌-◌, ◌^◌, ◌<◌, min, ◌≡◌, ◌⊎◌, some, arith, ◌==◌, if◌then◌else◌}
use tmsxx_tc.Prelude.Words.{add32, add32_small, sle_small, slt_small}
use tmsxx_tc.BipBuffer.{BipBuffer, reserve, reserve_in_b, reserve_round_a}
use tmsxx_tc.BipBuffer.Valid.{IsValid, space_after_a-eq, b_free_space-eq, at_most-eq}

-- The largest free run that can be handed out: before A once there is a B, else the longer of
-- the two beside A.
abbrev pub room : BipBuffer → ℕ
room bb = if bb.szb == 0 then max (bb.buflen - bb.ixa - bb.sza) bb.ixa else bb.ixa - bb.szb

-- What a call of `reserve` does to a well-formed buffer, as one of two outcomes.
abbrev pub Reserves : BipBuffer → ℕ → Type 0
Reserves bb size =
    let (bb', r) = reserve bb size in
    ((room bb ≡ 0) × (r.ptr ≡ 0) × (bb' ≡ bb))
    ⊎ ((0 < room bb)
        × (r.reserved ≡ some (min size (room bb)))
        × (r.ptr ≡ add32 bb.p_buffer bb'.ix_resrv)
        × (bb'.sz_resrv ≡ min size (room bb)))

module _ {bb : BipBuffer} (size : ℕ) (v : IsValid bb) (pos : 0 < size) (h : size < 2 ^ 31) where
  -- In a well-formed buffer, for a positive size below 2^31, reserve returns NULL and changes
  -- nothing if there is no room (in front of A once there is a B, else the larger of the two sides
  -- of A); otherwise it hands out and records the size asked for or all the room, whichever is
  -- less.
  pub reserve_lem : Reserves bb size
  unfolding reserve reserve_in_b reserve_round_a
  reserve_lem = ground (
    arith,
    b_free_space-eq v,
    space_after_a-eq v,
    at_most-eq size (bb.ixa - bb.szb),
    at_most-eq size (bb.buflen - bb.ixa - bb.sza),
    add32_small bb.ixb bb.szb,
    add32_small bb.ixa bb.sza,
    sle_small bb.ixa (bb.buflen - bb.ixa - bb.sza),
    slt_small bb.ixa size,
  )
