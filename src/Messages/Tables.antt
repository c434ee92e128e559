-- ===== src/Messages/Tables.antt =====
-- What `tms_AnalyseListFrame` makes of the tables of `tms_ListFrame`, and of frames that are too short.
use native.Mathlib.Nat.{mul_assoc}
use tmsxx_tc.Prelude.{
  ℕ, zero, suc, ◌+◌, ◌-◌, ◌*◌, ◌/◌, ◌%◌, ◌^◌, ◌≤◌, ◌<◌, ◌≡◌, sym, ap, ◌∙◌, true, some, List, [],
  ◌∷◌, ◌++◌, length, length-append, drop, take, take-all, arith, if◌then◌else◌,
}
use tmsxx_tc.Prelude.Words.{sub32, slt, slt_small}
use tmsxx_tc.Glink.{GlinkBase, base_bytes, frame_bytes, frame_tail_tag}
use tmsxx_tc.Glink.Wire.{htonl, store32, store16, load32}
use tmsxx_tc.Messages.{wire, host, words, swapped, times, exchange, offset_data, on_data, check_ptr}
use tmsxx_tc.Messages.Exchange.{AreWords, Matches-words, exchange-wire, on_data-frame, count_at}
use tmsxx_tc.Messages.Whole.{length-words}
use tmsxx_tc.Messages.Lists.{rows, list_frame, conv_nx4byte, analyse_list_frame}

check_ptr_4 :
    (addr n len : ℕ)
    → 40 + 4 * n ≤ len
    → addr + len < 2 ^ 32
    → check_ptr (addr + 36) 4 4 n (addr + len) ≡ true
unfolding sub32
check_ptr_4 addr n len h room = ground arith

-- The words of a table of rows that have as many bytes each.
length-rows :
    {A : Type 0} (row : A → List ℕ) (size : ℕ) (xs : List A)
    → ((x : A) → 4 * length (row x) ≡ size)
    → 4 * length (rows row xs) ≡ size * length xs
length-rows row size [] h = omega arith
length-rows row size (x ∷ xs) h =
    omega (arith, length-append (row x) (rows row xs), h x, length-rows row size xs h)

many : (size n : ℕ) → 4 ≤ size → 4 * n ≤ size * n
many size zero p = omega arith
many size (suc n) p = omega (arith, many size n p)

count_in_front :
    (b : GlinkBase) (n : ℕ) (vs : List ℕ)
    → n < 2 ^ 32
    → htonl (load32 (frame_bytes b (wire (words (n ∷ vs)))) 36) ≡ n
unfolding frame_bytes base_bytes store32 store16 load32
count_in_front b n vs h = count_at [] n (words vs) (store32 (htonl frame_tail_tag)) h

rounds : (m : ℕ) → m < 2 ^ 29 → (if slt 0 (4 * m % 2 ^ 32) then 4 * m % 2 ^ 32 / 2 ^ 2 else 0) ≡ m
rounds m h = ground (arith, slt_small 0 (4 * m % 2 ^ 32))

module _ {A : Type 0} (row : A → List ℕ) (size : ℕ) (w : (x : A) → 4 * length (row x) ≡ size)
    (pos : 4 ≤ size) (plist : List A) (a : AreWords (rows row plist))
    (h : size * length plist < 2 ^ 31 - 4) where
  abbrev m : ℕ
  m = length (rows row plist)

  bytes_of : size * length plist ≡ 4 * m
  bytes_of = sym (length-rows row size plist w)

  list_frame-IsWhole :
      (cmdid : ℕ)
      → (take (list_frame row plist size cmdid).len (list_frame row plist size cmdid).memory
          ≡ wire (words (length plist ∷ rows row plist)))
        × ((list_frame row plist size cmdid).len ≡ 4 + 4 * m)
  list_frame-IsWhole cmdid =
      let e : (4 + size * length plist) % 2 ^ 32 ≡ 4 + 4 * m = omega (arith, bytes_of) in
      (
        take-all _ (wire (words (length plist ∷ rows row plist)))
            (omega (arith, e, length-words (length plist ∷ rows row plist))),
        e,
      )

  exchanged :
      (tail : List ℕ)
      → exchange
          (swapped
            ∷ conv_nx4byte (
                size
                * htonl (load32 (wire (words (length plist ∷ rows row plist)) ++ tail) 0)
                % 2 ^ 32))
          (wire (words (length plist ∷ rows row plist)) ++ tail)
        ≡ host (words (length plist ∷ rows row plist)) ++ tail
  exchanged tail =
      rw
        (
          count_at [] (length plist) (words (rows row plist)) tail
              (omega (arith, many size (length plist) pos)),
          bytes_of,
          rounds m (omega (arith, bytes_of)),
        )
        (exchange-wire (swapped ∷ times m (swapped ∷ [])) (words (length plist ∷ rows row plist))
          tail (omega (arith, many size (length plist) pos), Matches-words (rows row plist) a))

  -- For a table of rows of at least one word each, of the same size, whose words are below 2^32,
  -- which is shorter than 2^31 - 4 bytes and whose frame lies below the address 2^32,
  -- analyse_list_frame accepts the frame of list_frame and leaves the count and every word of the
  -- rows as the machine reads them.
  pub analyse_list_frame-list_frame :
      (b : GlinkBase) (addr cmdid : ℕ)
      → addr + (44 + size * length plist) < 2 ^ 32
      → analyse_list_frame addr (40 + (list_frame row plist size cmdid).len) size (
          frame_bytes b
            (take (list_frame row plist size cmdid).len (list_frame row plist size cmdid).memory))
        ≡ some (frame_bytes b (host (words (length plist ∷ rows row plist))))
  unfolding analyse_list_frame
  analyse_list_frame-list_frame b addr cmdid room =
      let s = list_frame-IsWhole cmdid in
      let few : 40 + 4 * length plist ≤ 40 + (4 + 4 * m) =
        omega (arith, many size (length plist) pos, bytes_of) in
      rw
        (
          s.0,
          s.1,
          count_in_front b (length plist) (rows row plist)
              (omega (arith, many size (length plist) pos)),
          check_ptr_4 addr (length plist) (40 + (4 + 4 * m)) few (omega (arith, bytes_of)),
        )
        (ap some (
          on_data-frame (λ bs. swapped ∷ conv_nx4byte (size * htonl (load32 bs 0) % 2 ^ 32)) b
            (wire (words (length plist ∷ rows row plist)))
            (host (words (length plist ∷ rows row plist)))
            (exchanged (store32 (htonl frame_tail_tag)))))

-- analyse_list_frame accepts a count of rows, however large a row is, when there is one word for
-- each of them in the frame, and exchanges as many words as the rows would have; for frames below
-- the address 2^32 and rows of less than 2^31 bytes together.
pub analyse_list_frame-short :
    (b : GlinkBase) (addr n k : ℕ) (vs : List ℕ)
    → length vs ≡ n
    → k * n < 2 ^ 29
    → addr + (44 + 4 * n) < 2 ^ 32
    → analyse_list_frame addr (44 + 4 * n) (4 * k) (frame_bytes b (wire (words (n ∷ vs))))
      ≡ some (
          on_data
            (λ bs. swapped ∷ times (k * n) (swapped ∷ []))
            (frame_bytes b (wire (words (n ∷ vs)))))
unfolding analyse_list_frame frame_bytes base_bytes store32 store16
analyse_list_frame-short b addr n k vs e h room =
    let total : 4 * k * n ≡ 4 * (k * n) = mul_assoc 4 k n in
    let here = count_at [] n (words vs) (store32 (htonl frame_tail_tag)) (omega arith) in
    rw (count_in_front b n vs (omega arith), check_ptr_4 addr n (44 + 4 * n) (omega arith) room)
      (ap
        (λ ps. some (
          take offset_data (frame_bytes b (wire (words (n ∷ vs))))
          ++ exchange (swapped ∷ ps) (drop offset_data (frame_bytes b (wire (words (n ∷ vs)))))))
        (ap (λ c. conv_nx4byte (4 * k * c % 2 ^ 32)) here
          ∙ ap conv_nx4byte (ap (λ t. t % 2 ^ 32) total)
          ∙ ap (λ r. times r (swapped ∷ [])) (rounds (k * n) h)))
