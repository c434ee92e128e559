-- ===== src/BipBuffer/Fifo.antt =====
-- osnet/bipbuffer.c as a queue of bytes: what reserving, receiving and giving back do to the
-- committed bytes.
use mathlib.Core.List.{append-nil, append_assoc}
use tmsxx_tc.Prelude.{
  ℕ, zero, suc, ◌+◌, ◌-◌, ◌^◌, ◌≤◌, ◌<◌, min, ◌≡◌, refl, ap, ◌∙◌, sym, inl, inr, List, ◌++◌, arith,
  length, length-append, take, drop, drop-all, Bool-cases, ◌==◌, ltb, Bool, true, false,
  if◌then◌else◌,
}
use tmsxx_tc.Prelude.Words.{add32_small, sub32_small, slt, slt_small, slt-sub32}
use tmsxx_tc.Prelude.Blocks.{
  slice, write_at, slice-nil, slice-add, drop-slice, length-slice, slice-write_at_before,
  slice-write_at_after, slice-write_at_self, drop-append_le, drop-append_ge, drop-drop,
}
use tmsxx_tc.BipBuffer.{
  BipBuffer, contents, reserve_in_b, reserve_round_a, reserve, commit_bytes, commit, fill,
  decommit_block, decommit_multi,
}
use tmsxx_tc.BipBuffer.Valid.{IsValid, decommit_block-IsValid}

module _ {bb : BipBuffer} (received : List ℕ) (n : ℕ) (v : IsValid bb)
    (fits : length received ≤ bb.sz_resrv) (some_of : n ≤ length received) where
  abbrev grown : BipBuffer
  grown = commit_bytes (fill bb received) n

  first_block :
      bb.sza ≡ 0
      → bb.szb ≡ 0
      → bb.ix_resrv + bb.sz_resrv ≤ bb.buflen
      → contents grown ≡ contents bb ++ take n received
  unfolding commit_bytes fill
  first_block a b room = ground (
    arith,
    slice-write_at_self bb.bytes bb.ix_resrv received n,
    slice-nil bb.bytes bb.ixa,
    slice-nil bb.bytes bb.ixb,
    slice-nil (write_at bb.bytes bb.ix_resrv received) bb.ixb,
    append-nil (take n received),
  )

  grow_a :
      0 < bb.sza
      → bb.szb ≡ 0
      → bb.ix_resrv ≡ bb.ixa + bb.sza
      → bb.ix_resrv + bb.sz_resrv ≤ bb.buflen
      → contents grown ≡ contents bb ++ take n received
  unfolding commit_bytes fill
  grow_a a b at room = ground (
    arith,
    add32_small bb.sza bb.ixa,
    add32_small bb.sza n,
    slice-add (write_at bb.bytes bb.ix_resrv received) bb.ixa bb.sza n,
    slice-write_at_before bb.bytes bb.ix_resrv received bb.ixa bb.sza,
    slice-write_at_self bb.bytes bb.ix_resrv received n,
    slice-nil bb.bytes bb.ixb,
    slice-nil (write_at bb.bytes bb.ix_resrv received) bb.ixb,
    append-nil (slice bb.bytes bb.ixa bb.sza),
    append-nil (slice (write_at bb.bytes bb.ix_resrv received) bb.ixa (bb.sza + n)),
  )

  grow_b :
      0 < bb.sza
      → bb.ix_resrv ≡ bb.szb
      → bb.ix_resrv + bb.sz_resrv ≤ bb.ixa
      → contents grown ≡ contents bb ++ take n received
  unfolding commit_bytes fill
  grow_b a at room = ground (
    arith,
    add32_small bb.sza bb.ixa,
    add32_small bb.szb n,
    slice-add (write_at bb.bytes bb.ix_resrv received) 0 bb.szb n,
    slice-write_at_after bb.bytes bb.ix_resrv received bb.ixa bb.sza,
    slice-write_at_before bb.bytes bb.ix_resrv received 0 bb.szb,
    slice-write_at_self bb.bytes bb.ix_resrv received n,
    append_assoc (slice bb.bytes bb.ixa bb.sza) (slice bb.bytes 0 bb.szb) (take n received),
  )

  grow_none : bb.sz_resrv ≡ 0 → bb.ix_resrv ≡ 0 → contents grown ≡ contents bb ++ take n received
  unfolding commit_bytes fill
  grow_none none_left at = elim (Bool-cases (bb.sza == 0)) [
    | inl e ↦ first_block (ground arith) (ground arith) (omega arith)
    | inr e ↦ ground (
      arith,
      add32_small bb.sza bb.ixa,
      add32_small bb.szb n,
      slice-write_at_after bb.bytes bb.ix_resrv received bb.ixa bb.sza,
      slice-write_at_after bb.bytes bb.ix_resrv received 0 bb.szb,
      append-nil (slice bb.bytes bb.ixa bb.sza ++ slice bb.bytes 0 bb.szb),
    )
  ]

  commit_bytes-contents : contents grown ≡ contents bb ++ take n received
  commit_bytes-contents = elim v.pending [
    | inl (at, b, room) ↦ elim v.a_first [
      | inl a ↦ grow_a a b at room
      | inr _ ↦ elim (Bool-cases (bb.sza == 0)) [
        | inl e ↦ first_block (ground arith) b room
        | inr e ↦ grow_a (ground arith) b at room
      ]
    ]
    | inr (inl (at, room, a)) ↦ grow_b a at room
    | inr (inr (inl (a, b, room))) ↦ first_block a b room
    | inr (inr (inr (at, none_left))) ↦ grow_none none_left at
  ]

-- Writing into the reserved bytes leaves the queue alone.
pub contents-fill :
    {bb : BipBuffer} (received : List ℕ)
    → IsValid bb
    → length received ≤ bb.sz_resrv
    → contents (fill bb received) ≡ contents bb
unfolding fill
contents-fill {bb} received v fits = ground (
  arith,
  v.pending,
  slice-nil bb.bytes bb.ixa,
  slice-nil bb.bytes bb.ixb,
  slice-nil (write_at bb.bytes bb.ix_resrv received) bb.ixa,
  slice-nil (write_at bb.bytes bb.ix_resrv received) bb.ixb,
  slice-write_at_before bb.bytes bb.ix_resrv received bb.ixa bb.sza,
  slice-write_at_after bb.bytes bb.ix_resrv received bb.ixa bb.sza,
  slice-write_at_before bb.bytes bb.ix_resrv received bb.ixb bb.szb,
  slice-write_at_after bb.bytes bb.ix_resrv received bb.ixb bb.szb,
)

commit-eq :
    (bb : BipBuffer) (size : ℕ)
    → 0 < size
    → size < 2 ^ 31
    → commit bb size ≡ commit_bytes bb (min size bb.sz_resrv)
unfolding commit
commit-eq bb size pos small =
    rw (slt_small size 0 small (omega arith)) (ground (arith, least (ltb bb.sz_resrv size) refl))
  where
    least :
        (b : Bool)
        → ltb bb.sz_resrv size ≡ b
        → (if b then bb.sz_resrv else size) ≡ min size bb.sz_resrv
    least true e = ground arith
    least false e = ground arith

commit-zero : (bb : BipBuffer) → contents (commit bb 0) ≡ contents bb
unfolding commit slt
commit-zero bb = refl

-- In a well-formed buffer, bytes received into the reservation and committed join the end of the
-- contents: as many as the commit asks for (a size below 2^31), at most the reserved ones, if so
-- many were received.
pub contents-commit-fill :
    {bb : BipBuffer} (received : List ℕ) (size : ℕ)
    → IsValid bb
    → size < 2 ^ 31
    → length received ≤ bb.sz_resrv
    → min size bb.sz_resrv ≤ length received
    → contents (commit (fill bb received) size)
      ≡ contents bb ++ take (min size bb.sz_resrv) received
unfolding fill
contents-commit-fill {bb} received zero v small fits some_of =
    commit-zero (fill bb received)
    ∙ contents-fill received v fits
    ∙ sym (append-nil (contents bb))
    ∙ ap (λ k. contents bb ++ take k received) {x = 0} (omega arith)
contents-commit-fill {bb} received (suc n) v small fits some_of =
    ap contents (commit-eq (fill bb received) (suc n) (omega arith) small)
    ∙ commit_bytes-contents received (min (suc n) bb.sz_resrv) v fits some_of

-- A reservation takes nothing from the queue and adds nothing to it.
pub contents-reserve : (bb : BipBuffer) (size : ℕ) → contents (reserve bb size).0 ≡ contents bb
unfolding reserve reserve_in_b reserve_round_a
contents-reserve bb size = ground arith

module _ {bb : BipBuffer} (size : ℕ) (v : IsValid bb) where
  -- `bipbuffer_DecommitBlock` gives back the oldest bytes, of block A only.
  pub contents-decommit_block :
      contents (decommit_block bb size) ≡ drop (min size bb.sza) (contents bb)
  unfolding decommit_block
  contents-decommit_block = ground (
    arith,
    sub32_small bb.sza size,
    add32_small bb.ixa size,
    length-slice bb.bytes bb.ixa bb.sza,
    drop-slice size bb.bytes bb.ixa bb.sza,
    drop-append_le size (slice bb.bytes bb.ixa bb.sza) (slice bb.bytes bb.ixb bb.szb),
    drop-append_ge bb.sza (slice bb.bytes bb.ixa bb.sza) (slice bb.bytes bb.ixb bb.szb),
    slice-nil bb.bytes 0,
    append-nil (slice bb.bytes bb.ixb bb.szb),
  )

  pub length-contents : length (contents bb) ≡ bb.sza + bb.szb
  length-contents = omega (
    arith,
    length-append (slice bb.bytes bb.ixa bb.sza) (slice bb.bytes bb.ixb bb.szb),
    length-slice bb.bytes bb.ixa bb.sza,
    length-slice bb.bytes bb.ixb bb.szb,
  )

  sza-decommit_block : bb.sza ≤ size → (decommit_block bb size).sza ≡ bb.szb
  unfolding decommit_block
  sza-decommit_block h = ground arith

-- Giving back more than there is empties the queue.
drop_past :
    (m n k : ℕ) (xs : List ℕ)
    → length xs ≡ m + n
    → m ≤ k
    → drop (min (k - m) n) (drop (min k m) xs) ≡ drop k xs
drop_past m n k xs e h = elim (Bool-cases (ltb (m + n) k)) [
  | inl past ↦
      drop-drop (min (k - m) n) (min k m) xs
      ∙ drop-all (min k m + min (k - m) n) xs (ground arith)
      ∙ sym (drop-all k xs (ground arith))
  | inr within ↦
      drop-drop (min (k - m) n) (min k m) xs
      ∙ ap (λ j. drop j xs) {x = min k m + min (k - m) n} (ground arith)
]

-- In a well-formed buffer decommit_multi drops that many bytes from the front of the contents,
-- across the end of block A, for a size below 2^31.
pub contents-decommit_multi :
    {bb : BipBuffer} (size : ℕ)
    → IsValid bb
    → size < 2 ^ 31
    → contents (decommit_multi bb size) ≡ drop size (contents bb)
unfolding decommit_multi
contents-decommit_multi {bb} size v small =
    rw (slt-sub32 size bb.sza small (omega arith)) (elim (Bool-cases (ltb bb.sza size)) [
      | inl past ↦ rw past (
          ground (
            arith,
            sub32_small size bb.sza,
            contents-decommit_block (size - bb.sza) (decommit_block-IsValid size v),
            contents-decommit_block size v,
            sza-decommit_block size v,
            drop_past bb.sza bb.szb size (contents bb) (length-contents size v),
          ))
      | inr within ↦ rw within (
          contents-decommit_block size v
          ∙ ap (λ j. drop j (contents bb)) {x = min size bb.sza} (ground arith))
    ])
