-- ===== src/Messages.antt =====
-- protocol/tmsxx.c: how the data of a message are put together by its sender and taken apart by its
-- analyser. A sender stores words in network order and copies byte strings; an analyser exchanges the
-- words of the structure in place. Each function of the source is here under its own name less the
-- prefix `tms_`; the `int` and `uint32_t` fields of a structure are words, `float` ones too.
pub mod Exchange
pub mod Structures
pub mod Measures
pub mod Device
pub mod Config
pub mod Alarm
pub mod Request
pub mod Whole
pub mod Understood
pub mod Registered
pub mod Lists
pub mod Tables
pub mod Faults
use tmsxx_tc.Prelude.{
  ℕ, zero, suc, ◌+◌, ◌-◌, ◌*◌, ◌%◌, ◌^◌, Bool, true, false, Option, none, some, List, [], ◌∷◌, ◌++◌,
  length, take, drop, leb, ◌==◌, if◌then◌else◌,
}
use tmsxx_tc.Prelude.Words.{add32, sub32, slt}
use tmsxx_tc.Glink.{GlinkBase, build}
use tmsxx_tc.Glink.Wire.{htonl, htons, store32, store16, load32}
use tmsxx_tc.Managers.{Manager, select_fd_by_addr}
use tmsxx_tc.Forward.{load16, send_all_manager}
use tmsxx_tc.Replies.{GlinkAddr, Call, fill_glink_frame}

-- A part of a structure: a word, or bytes that are copied.
pub data Item : Type 0 where
  word : ℕ → Item
  raw : List ℕ → Item

-- The structure as it is sent, its words in network order, and as the machine reads it.
abbrev pub wire : List Item → List ℕ
wire [] = []
wire (word v ∷ is) = store32 (htonl v) ++ wire is
wire (raw bs ∷ is) = bs ++ wire is

abbrev pub host : List Item → List ℕ
host [] = []
host (word v ∷ is) = store32 v ++ host is
host (raw bs ∷ is) = bs ++ host is

-- Header words, the count of the entries as the last of them, and the entries: what the senders of
-- lists build in the memory that they allocate. The list is an array of `count` entries.
abbrev pub words : List ℕ → List Item
words [] = []
words (v ∷ vs) = word v ∷ words vs

abbrev pub entries : List (List Item) → List Item
entries [] = []
entries (e ∷ es) = e ++ entries es

abbrev pub listed : List ℕ → List (List Item) → List Item
listed header es = words header ++ (word (length es) ∷ entries es)

-- What an analyser does with the next part of a structure: exchange a word, leave bytes as they are,
-- exchange pairs of bytes (as many as given).
pub data Part : Type 0 where
  swapped : Part
  kept : ℕ → Part
  halves : ℕ → Part

unfoldable pub swap_halves : ℕ → List ℕ → List ℕ
swap_halves zero bs = bs
swap_halves (suc n) bs = store16 (htons (load16 bs 0)) ++ swap_halves n (drop 2 bs)

unfoldable pub exchange : List Part → List ℕ → List ℕ
unfolding swap_halves
exchange [] bs = bs
exchange (swapped ∷ ps) bs = store32 (htonl (load32 bs 0)) ++ exchange ps (drop 4 bs)
exchange (kept n ∷ ps) bs = take n bs ++ exchange ps (drop n bs)
exchange (halves n ∷ ps) bs = take (2 * n) (swap_halves n bs) ++ exchange ps (drop (2 * n) bs)

abbrev pub times : ℕ → List Part → List Part
times zero ps = []
times (suc n) ps = ps ++ times n ps

-- The rounds of `for (int i = 0; i < count; i++)`.
abbrev pub rounds_of : ℕ → ℕ
rounds_of count = if slt 0 count then count else 0

-- A header of words whose last is the count of the entries behind it, `k` words before it. The count
-- is compared as `int`, or, in one analyser, as `uint32_t`.
abbrev pub parts_with : (ℕ → ℕ) → ℕ → List Part → List ℕ → List Part
parts_with rounds k entry data_bytes =
    times k (swapped ∷ []) ++ (swapped ∷ times (rounds (htonl (load32 data_bytes (4 * k)))) entry)

abbrev pub list_parts : ℕ → List Part → List ℕ → List Part
list_parts k entry data_bytes = parts_with rounds_of k entry data_bytes

abbrev pub list_parts_unsigned : ℕ → List Part → List ℕ → List Part
list_parts_unsigned k entry data_bytes = parts_with (λ n. n) k entry data_bytes

-- `pdata + GLINK_OFFSET_DATA`
abbrev pub offset_data : ℕ
offset_data = 36

-- The exchange that an analyser makes in the data of a frame.
abbrev pub on_data : (List ℕ → List Part) → List ℕ → List ℕ
on_data parts pdata =
    take offset_data pdata ++ exchange (parts (drop offset_data pdata)) (drop offset_data pdata)

-- CHECK_PTR, with the pointers as addresses of 32 bits; `sizeof` is unsigned.
abbrev pub check_ptr : ℕ → ℕ → ℕ → ℕ → ℕ → Bool
check_ptr ptr size_a size_b count end =
    leb ((ptr + size_a + size_b * sub32 count 1) % 2 ^ 32) (sub32 end size_b)

-- A message that is ready to be sent: the command, the length that the sender gives, and its memory.
pub record Message : Type 0 where
  pub cmdid : ℕ
  pub len : ℕ
  pub memory : List ℕ

module _ (local remote : ℕ) where
  -- The end of the senders: `tms_FillGlinkFrame`, `glink_Build`, `glink_Send`. The descriptor that is
  -- looked up where `fd` is 0 is not used.
  unfoldable pub post : GlinkBase → ℕ → Option GlinkAddr → Message → Call
  post base fd paddr m = record {
    fd = fd;
    base = build (fill_glink_frame local remote base paddr) m.cmdid m.len;
    payload = take m.len m.memory;
  }

  -- The end of the senders of alarms: the descriptor is looked up by the destination in the header that
  -- was built.
  unfoldable pub addressee : List Manager → GlinkBase → ℕ → Option GlinkAddr → Message → ℕ
  unfolding post
  addressee ms base fd paddr m =
      if fd == 0 then select_fd_by_addr ms (some (post base fd paddr m).base.dst) else fd

  abbrev pub is_to_all : Option GlinkAddr → Bool
  is_to_all none = false
  is_to_all (some a) = a.dst == 0x30

  -- The descriptors and headers that `glink_Send` is called with; 0x30 stands for all managers.
  unfoldable pub report :
      List Manager → GlinkBase → ℕ → Option GlinkAddr → Message → List (ℕ × GlinkBase)
  unfolding post addressee
  report ms base fd paddr m =
      let base' = (post base fd paddr m).base in
      if is_to_all paddr
      then send_all_manager ms base'
      else (addressee ms base fd paddr m, base') ∷ []
