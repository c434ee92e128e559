-- ===== src/Receive/Stream.antt =====
-- A stream of frames goes through `epFUI_OnRecv` (src/ep_app.c).
use tmsxx_tc.Prelude.{
  ℕ, zero, suc, ◌+◌, ◌^◌, ◌≤◌, ◌<◌, min, ◌≡◌, refl, sym, ap, ◌∙◌, true, false, inl, inr, some, List,
  [], ◌∷◌, ◌++◌, map, length, length-take, take, take-all, arith, ◌==◌,
}
use tmsxx_tc.Prelude.Words.{slt, sle, add32_small, slt_small, sle_small}
use tmsxx_tc.BipBuffer.{
  BipBuffer, contents, reserve, commit, fill, get_contiguous_block, get_used_size,
}
use tmsxx_tc.BipBuffer.Room.{room, reserve_lem}
use tmsxx_tc.BipBuffer.Valid.{IsValid, reserve-IsValid, commit-IsValid, fill-IsValid}
use tmsxx_tc.BipBuffer.Fifo.{contents-reserve, contents-commit-fill}
use tmsxx_tc.Receive.{TmsxxApp, join_blocks, turn, again, take_in, on_recv_small, on_recv}
use tmsxx_tc.Receive.Frames.{
  Sent, frame, stream, IsTail, IsPlain, AreConfined, first_block, used_both,
}
use tmsxx_tc.Receive.Turns.{
  turn_few, turn_partial, turn_frame, left, handled, handled-IsPlain, finish_off,
}

module _ (malloc : ℕ → ℕ) (outside : ℕ → ℕ) (analyse : List ℕ → ℕ → ℕ → List ℕ) (tail : List ℕ)
    (t : IsTail tail) where
  -- What is left of a connection when the loop has ended.
  abbrev pub Delivered : TmsxxApp → ℕ → List Sent → Type 0
  Delivered app fuel ss =
      (app' : TmsxxApp) × ((again malloc outside analyse fuel app ≡ some (app', map frame ss))
        × ((contents app'.bb ≡ tail) × (IsPlain app'.bb × (app'.enable_lbb ≡ 0))))

  -- Frames in block A and a tail are handed on one by one, and the tail is left.
  pub again-stream :
      (ss : List Sent) (app : TmsxxApp) (fuel : ℕ)
      → app.enable_lbb ≡ 0
      → IsPlain app.bb
      → contents app.bb ≡ stream ss tail
      → length ss < fuel
      → AreConfined analyse ss
      → Delivered app fuel ss
  unfolding again
  again-stream ss app zero off p e h k = absurd (omega arith)
  again-stream [] app (suc fuel) off p e h k = elim t [
    | inl few ↦
        let w = turn_few malloc outside analyse app off p (omega (arith, few, ap length e)) in
        (app, (rw (w, finish_off app off) refl, (e, (p, off))))
    | inr (s, part) ↦
        let w = turn_partial malloc outside analyse app off p tail s e part in
        (
          record app { morebyte = 40 },
          (rw (w, finish_off (record app { morebyte = 40 }) off) refl, (e, (p, off))),
        )
  ]
  again-stream (s ∷ ss) app (suc fuel) off p e h k =
      let w = turn_frame malloc outside analyse app off p s (stream ss tail) e in
      let bb = handled malloc outside analyse app off p s (stream ss tail) e k.0 in
      let next = record app { bb = bb; morebyte = 40 } in
      let r =
        again-stream ss next fuel off
          (handled-IsPlain malloc outside analyse app off p s (stream ss tail) e k.0)
          (left malloc outside analyse app off p s (stream ss tail) e k.0) (omega (arith, h)) k.1 in
      (r.0, (rw (w, r.1.0) refl, r.1.1))

module _ (malloc : ℕ → ℕ) (outside : ℕ → ℕ) (analyse : List ℕ → ℕ → ℕ → List ℕ) (app : TmsxxApp)
    (off : app.enable_lbb ≡ 0) (p : IsPlain app.bb) (pos : 0 < app.morebyte)
    (small : app.morebyte < 2 ^ 31) (placed : 0 < app.bb.p_buffer)
    (low : app.bb.p_buffer + app.bb.buflen < 2 ^ 32) (free : 0 < room app.bb) (bs : List ℕ) where
  abbrev reserved : BipBuffer
  reserved = (reserve app.bb app.morebyte).0

  -- The bytes that recv gives, of those that are there.
  abbrev pub taken : List ℕ
  taken = take reserved.sz_resrv bs

  abbrev pub committed : BipBuffer
  committed = commit (fill reserved taken) (length taken)

  reserved-IsValid : IsValid reserved
  reserved-IsValid = reserve-IsValid app.morebyte p.valid small

  buflen-reserve : reserved.buflen ≡ app.bb.buflen
  unfolding reserve
  buflen-reserve = ground arith

  ix_resrv_le : reserved.ix_resrv ≤ app.bb.buflen
  ix_resrv_le = ground (arith, buflen-reserve, reserved-IsValid, reserved-IsValid.pending)

  granted :
      ((reserve app.bb app.morebyte).1.reserved ≡ some reserved.sz_resrv)
      × (((reserve app.bb app.morebyte).1.ptr == 0) ≡ false)
  granted = elim (reserve_lem app.morebyte p.valid pos small) [
    | inl n ↦ absurd (omega (arith, n))
    | inr (_, r, at, n) ↦ (
      r ∙ ap some (sym n),
      ground (arith, at, add32_small app.bb.p_buffer reserved.ix_resrv, ix_resrv_le),
    )
  ]

  sz_small : reserved.sz_resrv < 2 ^ 31
  sz_small = ground (arith, reserved-IsValid.pending, reserved-IsValid)

  contents-committed : contents committed ≡ contents app.bb ++ taken
  contents-committed =
      contents-commit-fill taken (length taken) reserved-IsValid
        (omega (arith, length-take reserved.sz_resrv bs, sz_small))
        (omega (arith, length-take reserved.sz_resrv bs)) (omega arith)
      ∙ ap (◌++◌ (contents reserved)) (
          take-all (min (length taken) reserved.sz_resrv) taken
            (omega (arith, length-take reserved.sz_resrv bs)))
      ∙ ap (λ xs. xs ++ taken) (contents-reserve app.bb app.morebyte)

  committed-IsValid : IsValid committed
  committed-IsValid = commit-IsValid (length taken) (fill-IsValid taken reserved-IsValid)

  on_recv-committed :
      (fuel : ℕ)
      → on_recv malloc outside analyse fuel app (some bs)
        ≡ (length taken, again malloc outside analyse fuel (record app { bb = committed }))
  unfolding on_recv on_recv_small take_in
  on_recv-committed fuel =
      let here : (app.enable_lbb == 0) ≡ true = ground (arith, off) in
      rw (here, granted.1, granted.0) refl

  -- The same for the bytes that a call of `on_recv` takes in behind those in the buffer.
  pub on_recv-stream :
      (ss : List Sent) (tail : List ℕ) (fuel : ℕ)
      → IsTail tail
      → committed.szb ≡ 0
      → contents app.bb ++ taken ≡ stream ss tail
      → length ss < fuel
      → AreConfined analyse ss
      → (app' : TmsxxApp) × ((on_recv malloc outside analyse fuel app (some bs)
            ≡ (length taken, some (app', map frame ss)))
          × ((contents app'.bb ≡ tail) × (IsPlain app'.bb × (app'.enable_lbb ≡ 0))))
  on_recv-stream ss tail fuel t one e h k =
      let r =
        again-stream malloc outside analyse tail t ss (record app { bb = committed }) fuel off
          (record { valid = committed-IsValid; one = one }) (contents-committed ∙ e) h k in
      (r.0, (on_recv-committed fuel ∙ ap (λ o. (length taken, o)) r.1.0, r.1.1))

-- Where a well-formed buffer holds at least 40 bytes but fewer than 40 in block A, and no large
-- frame is under way, the blocks are joined and no frame is looked for, though there may be a
-- whole one.
pub again-stale :
    (malloc : ℕ → ℕ) (outside : ℕ → ℕ) (analyse : List ℕ → ℕ → ℕ → List ℕ) (app : TmsxxApp)
    (fuel : ℕ)
    → app.enable_lbb ≡ 0
    → IsValid app.bb
    → app.bb.sza < 40
    → 40 ≤ app.bb.sza + app.bb.szb
    → again malloc outside analyse (suc fuel) app
      ≡ some (record app { bb = join_blocks malloc outside analyse app.bb }, [])
unfolding again turn
again-stale malloc outside analyse app fuel off v few many =
    let total : get_used_size app.bb ≡ app.bb.sza + app.bb.szb = used_both v in
    let first : (get_contiguous_block app.bb).1 ≡ app.bb.sza = first_block app.bb in
    let enough : sle 40 (app.bb.sza + app.bb.szb) ≡ true =
      ground (arith, sle_small 40 (app.bb.sza + app.bb.szb), v) in
    let not_enough : sle 40 app.bb.sza ≡ false = ground (arith, sle_small 40 app.bb.sza) in
    let stale : slt app.bb.sza 40 ≡ true = ground (arith, slt_small app.bb.sza 40) in
    rw (total, first, enough, stale, not_enough)
      (rw (finish_off (record app { bb = join_blocks malloc outside analyse app.bb }) off) refl)
