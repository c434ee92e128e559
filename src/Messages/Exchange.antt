-- ===== src/Messages/Exchange.antt =====
-- What an exchange makes of a structure that a sender put together.
use mathlib.Core.List.{append_assoc}
use tmsxx_tc.Prelude.{
  ℕ, ◌+◌, ◌-◌, ◌*◌, ◌^◌, ◌<◌, ◌≡◌, refl, ap, ◌∙◌, List, [], ◌∷◌, ◌++◌, length, take, take-all, drop,
  arith,
}
use tmsxx_tc.Prelude.Words.{slt_small}
use tmsxx_tc.Prelude.Blocks.{take-append_le, drop-append_ge}
use tmsxx_tc.Glink.{GlinkBase, base_bytes, frame_bytes, frame_head_tag, frame_tail_tag}
use tmsxx_tc.Glink.Wire.{
  htonl, store32, store16, load32, htonl-htonl, htonl-lt, load32-store32, get_or-append_ge,
}
use tmsxx_tc.Messages.{
  Item, word, raw, wire, host, words, entries, listed, Part, swapped, kept, halves, exchange, times,
  rounds_of, parts_with, list_parts, list_parts_unsigned, on_data,
}

-- The analyser's parts are those of the structure, and the values have their widths.
abbrev pub Matches : List Part → List Item → Type 0
Matches [] [] = Unit {0}
Matches (swapped ∷ ps) (word v ∷ is) = (v < 2 ^ 32) × Matches ps is
Matches (kept n ∷ ps) (raw bs ∷ is) = (length bs ≡ n) × Matches ps is
Matches _ _ = ⊥

take-length : (xs ys : List ℕ) (n : ℕ) → length xs ≡ n → take n (xs ++ ys) ≡ xs
take-length xs ys n e =
    rw (← e)
      (take-append_le (length xs) xs ys (omega arith) ∙ take-all (length xs) xs (omega arith))

drop-length : (xs ys : List ℕ) (n : ℕ) → length xs ≡ n → drop n (xs ++ ys) ≡ ys
drop-length xs ys n e = rw (← e) (
    drop-append_ge (length xs) xs ys (omega arith)
    ∙ ap (λ k. drop k ys) {x = length xs - length xs} {y = 0} (omega arith))

-- The word in front.
front : (v : ℕ) (bs : List ℕ) → v < 2 ^ 32 → htonl (load32 (store32 (htonl v) ++ bs) 0) ≡ v
front v bs h = ap htonl (load32-store32 [] bs 0 (htonl v) refl (htonl-lt v)) ∙ htonl-htonl v h

-- An analyser whose parts are those of the structure leaves it as the machine reads it, and what
-- follows as it was.
pub exchange-wire :
    (ps : List Part) (is : List Item) (tail : List ℕ)
    → Matches ps is
    → exchange ps (wire is ++ tail) ≡ host is ++ tail
unfolding exchange store32
exchange-wire [] [] tail m = refl
exchange-wire [] (i ∷ is) tail m = absurd m
exchange-wire (swapped ∷ ps) [] tail m = absurd m
exchange-wire (swapped ∷ ps) (word v ∷ is) tail m =
    ap (λ w. store32 w ++ exchange ps (wire is ++ tail)) (front v (wire is ++ tail) m.0)
    ∙ ap (◌++◌ (store32 v)) (exchange-wire ps is tail m.1)
exchange-wire (swapped ∷ ps) (raw bs ∷ is) tail m = absurd m
exchange-wire (kept n ∷ ps) [] tail m = absurd m
exchange-wire (kept n ∷ ps) (word v ∷ is) tail m = absurd m
exchange-wire (kept n ∷ ps) (raw bs ∷ is) tail m =
    rw
      (
        append_assoc bs (wire is) tail,
        take-length bs (wire is ++ tail) n m.0,
        drop-length bs (wire is ++ tail) n m.0,
        append_assoc bs (host is) tail,
      )
      (ap (◌++◌ bs) (exchange-wire ps is tail m.1))
exchange-wire (halves n ∷ ps) is tail m = absurd m

pub Matches-append :
    (ps qs : List Part) (is js : List Item)
    → Matches ps is
    → Matches qs js
    → Matches (ps ++ qs) (is ++ js)
Matches-append [] qs [] js m n = n
Matches-append [] qs (i ∷ is) js m n = absurd m
Matches-append (swapped ∷ ps) qs [] js m n = absurd m
Matches-append (swapped ∷ ps) qs (word v ∷ is) js m n = (m.0, Matches-append ps qs is js m.1 n)
Matches-append (swapped ∷ ps) qs (raw bs ∷ is) js m n = absurd m
Matches-append (kept k ∷ ps) qs [] js m n = absurd m
Matches-append (kept k ∷ ps) qs (word v ∷ is) js m n = absurd m
Matches-append (kept k ∷ ps) qs (raw bs ∷ is) js m n = (m.0, Matches-append ps qs is js m.1 n)
Matches-append (halves k ∷ ps) qs is js m n = absurd m

-- Every entry matches.
abbrev pub AllMatch : List Part → List (List Item) → Type 0
AllMatch ps [] = Unit {0}
AllMatch ps (e ∷ es) = Matches ps e × AllMatch ps es

Matches-entries :
    (ps : List Part) (es : List (List Item))
    → AllMatch ps es
    → Matches (times (length es) ps) (entries es)
Matches-entries ps [] m = tt
Matches-entries ps (e ∷ es) m =
    Matches-append ps (times (length es) ps) e (entries es) m.0 (Matches-entries ps es m.1)

abbrev pub AreWords : List ℕ → Type 0
AreWords [] = Unit {0}
AreWords (v ∷ vs) = (v < 2 ^ 32) × AreWords vs

pub Matches-words :
    (vs : List ℕ) → AreWords vs → Matches (times (length vs) (swapped ∷ [])) (words vs)
Matches-words [] a = tt
Matches-words (v ∷ vs) a = (a.0, Matches-words vs a.1)

past : (w : ℕ) (bs : List ℕ) (i : ℕ) → load32 (store32 w ++ bs) (4 + i) ≡ load32 bs i
unfolding load32 store32
past w bs i = ground (
  arith,
  get_or-append_ge (store32 w) bs i,
  get_or-append_ge (store32 w) bs (i + 1),
  get_or-append_ge (store32 w) bs (i + 2),
  get_or-append_ge (store32 w) bs (i + 3),
)

-- The word behind the header words.
pub count_at :
    (vs : List ℕ) (n : ℕ) (rest : List Item) (tail : List ℕ)
    → n < 2 ^ 32
    → htonl (load32 (wire (words vs ++ (word n ∷ rest)) ++ tail) (4 * length vs)) ≡ n
unfolding store32
count_at [] n rest tail h =
    ap htonl (load32-store32 [] (wire rest ++ tail) 0 (htonl n) refl (htonl-lt n)) ∙ htonl-htonl n h
count_at (v ∷ vs) n rest tail h =
    ap htonl (
      ap (load32 (wire (words (v ∷ vs) ++ (word n ∷ rest)) ++ tail)) {x = 4 * length (v ∷ vs)}
        {y = 4 + 4 * length vs} (omega arith)
      ∙ ap (λ bs. load32 bs (4 + 4 * length vs))
          (append_assoc (store32 (htonl v)) (wire (words vs ++ (word n ∷ rest))) tail)
      ∙ past (htonl v) (wire (words vs ++ (word n ∷ rest)) ++ tail) (4 * length vs))
    ∙ count_at vs n rest tail h

module _ (header : List ℕ) (entry : List Part) (es : List (List Item)) (k : ℕ) (tail : List ℕ)
    (e : length header ≡ k) (a : AreWords header) (h : length es < 2 ^ 31)
    (m : AllMatch entry es) where
  parts_with-wire :
      (rounds : ℕ → ℕ)
      → rounds (length es) ≡ length es
      → exchange
          (parts_with rounds k entry (wire (listed header es) ++ tail))
          (wire (listed header es) ++ tail)
        ≡ host (listed header es) ++ tail
  parts_with-wire rounds eq =
      rw (← e, count_at header (length es) (entries es) tail (omega arith), eq)
        (exchange-wire (times (length header) (swapped ∷ []) ++ (swapped ∷ times (length es) entry))
          (listed header es) tail
          (Matches-append (times (length header) (swapped ∷ [])) (swapped ∷ times (length es) entry)
            (words header) (word (length es) ∷ entries es) (Matches-words header a)
            (omega arith, Matches-entries entry es m)))

  -- The analyser of a list finds the count in the header and exchanges every entry.
  pub list_parts-wire :
      exchange
        (list_parts k entry (wire (listed header es) ++ tail))
        (wire (listed header es) ++ tail)
      ≡ host (listed header es) ++ tail
  list_parts-wire = parts_with-wire rounds_of (ground (arith, slt_small 0 (length es)))

  pub list_parts_unsigned-wire :
      exchange
        (list_parts_unsigned k entry (wire (listed header es) ++ tail))
        (wire (listed header es) ++ tail)
      ≡ host (listed header es) ++ tail
  list_parts_unsigned-wire = parts_with-wire (λ n. n) refl

-- The analyser works on the data of a frame, and leaves header and tags alone.
pub on_data-frame :
    (parts : List ℕ → List Part) (b : GlinkBase) (payload read : List ℕ)
    → exchange
        (parts (payload ++ store32 (htonl frame_tail_tag)))
        (payload ++ store32 (htonl frame_tail_tag))
      ≡ read ++ store32 (htonl frame_tail_tag)
    → on_data parts (frame_bytes b payload) ≡ frame_bytes b read
unfolding frame_bytes base_bytes store32 store16
on_data-frame parts b payload read e =
    ap (λ bs. store32 (htonl frame_head_tag) ++ (base_bytes b ++ bs)) e
