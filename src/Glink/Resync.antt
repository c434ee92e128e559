-- ===== src/Glink/Resync.antt =====
-- How `glink_FindFrame` (protocol/glink.c) gets back in step when no frame starts where it looks.
use tmsxx_tc.Prelude.{
  ℕ, zero, suc, ◌+◌, ◌-◌, ◌^◌, ◌≤◌, ◌<◌, ◌≡◌, ◌≢◌, ◌⊎◌, inl, inr, refl, subst, none, some, List,
  arith, Bool-cases, Option-cases, ◌==◌,
}
use tmsxx_tc.Prelude.Words.{sub32_small, slt_small}
use tmsxx_tc.Glink.{frame_head_tag, wrong, search_head, resync, rounds, find_frame}
use tmsxx_tc.Glink.Wire.{htonl, load32}

-- No head tag at the indices `i`, …, `i + n - 1`.
abbrev pub NoTag : List ℕ → ℕ → ℕ → Type 0
NoTag bytes i zero = Unit {0}
NoTag bytes i (suc n) = (htonl (load32 bytes i) ≢ frame_head_tag) × NoTag bytes (i + 1) n

search_head-some :
    (bytes : List ℕ) (n i : ℕ) {k : ℕ}
    → search_head bytes n i ≡ some k
    → (d : ℕ) × (k ≡ i + d) × (d < n) × (htonl (load32 bytes k) ≡ frame_head_tag) × NoTag bytes i d
unfolding search_head
search_head-some bytes zero i e = cc
search_head-some bytes (suc n) i {k} e =
    elim (Bool-cases (htonl (load32 bytes i) == frame_head_tag)) [
      | inl here ↦ (0, ground arith, omega arith, ground arith, tt)
      | inr off ↦
          let later = search_head-some bytes n (i + 1) {k = k} (ground arith) in
          (
            suc later.0,
            omega (arith, later.1),
            omega (arith, later.2),
            later.3,
            (λ q. ground arith, later.4),
          )
    ]

search_head-none : (bytes : List ℕ) (n i : ℕ) → search_head bytes n i ≡ none → NoTag bytes i n
unfolding search_head
search_head-none bytes zero i e = tt
search_head-none bytes (suc n) i e = elim (Bool-cases (htonl (load32 bytes i) == frame_head_tag)) [
  | inl here ↦ absurd (ground arith)
  | inr off ↦ (λ q. ground arith, search_head-none bytes n (i + 1) (ground arith))
]

pub resync-wrong : (bytes : List ℕ) (recvlen : ℕ) → (resync bytes recvlen).0 ≡ wrong
unfolding resync
resync-wrong bytes recvlen = ground arith

-- How many bytes of the received ones are to be released.
abbrev pub Skips : List ℕ → ℕ → ℕ → Type 0
Skips bytes recvlen n =
    (0 < n)
    × (n ≤ recvlen - 4)
    × ((n ≡ recvlen - 4) ⊎ (htonl (load32 bytes n) ≡ frame_head_tag))
    × NoTag bytes 0 n

module _ (bytes : List ℕ) (recvlen : ℕ) (low : 40 ≤ recvlen) (small : recvlen < 2 ^ 31)
    (untagged : htonl (load32 bytes 0) ≢ frame_head_tag) where
  rounds-eq : rounds recvlen ≡ recvlen - 4
  rounds-eq = ground (arith, sub32_small recvlen 4, slt_small 0 (recvlen - 4))

  tag_not_first : (k : ℕ) → htonl (load32 bytes k) ≡ frame_head_tag → 0 < k
  tag_not_first zero e = absurd (untagged e)
  tag_not_first (suc k) e = omega arith

  resync-none : search_head bytes (recvlen - 4) 0 ≡ none → (resync bytes recvlen).1 ≡ recvlen - 4
  unfolding resync
  resync-none e = ground (arith, rounds-eq, sub32_small recvlen 4)

  resync-some : (k : ℕ) → search_head bytes (recvlen - 4) 0 ≡ some k → (resync bytes recvlen).1 ≡ k
  unfolding resync
  resync-some k e = ground (arith, rounds-eq)

  resync-Skips : Skips bytes recvlen (resync bytes recvlen).1
  resync-Skips = elim (Option-cases (search_head bytes (recvlen - 4) 0)) [
    | inl e ↦
        rw (resync-none e)
          (omega arith, omega arith, inl refl, search_head-none bytes (recvlen - 4) 0 e)
    | inr (k, e) ↦
        let found_at = search_head-some bytes (recvlen - 4) 0 e in
        let same : found_at.0 ≡ k = omega (arith, found_at.1) in
        rw (resync-some k e) (
          tag_not_first k found_at.3,
          omega (arith, found_at.2),
          inr found_at.3,
          subst (NoTag bytes 0) same found_at.4,
        )
  ]

  -- Where at least 40 and fewer than 2^31 received bytes do not begin with the head tag,
  -- find_frame asks for between 1 and all but four of them to be released: up to the next head
  -- tag, or all but four if there is none; no released index has a head tag.
  pub find_frame-Skips :
      (outside : ℕ → ℕ)
      → let (v, n) = find_frame outside bytes recvlen in (v ≡ wrong) × Skips bytes recvlen n
  unfolding find_frame
  find_frame-Skips outside = ground (arith, resync-Skips, resync-wrong bytes recvlen)
