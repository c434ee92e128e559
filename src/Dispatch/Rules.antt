-- ===== src/Dispatch/Rules.antt =====
-- What `tms_Analyse` and `tms_SetDoWhat` (protocol/tmsxx.c) do over all commands.
use tmsxx_tc.Prelude.{
  ℕ, zero, suc, ◌+◌, ◌%◌, ◌^◌, ◌≤◌, ◌<◌, ◌≡◌, ◌≢◌, ◌⊎◌, ◌↔◌, refl, Bool, true, none, List, [], ◌∷◌,
  length, get_elem?, get_or, arith, leb, ◌==◌, ◌&&◌, not, if◌then◌else◌,
}
use tmsxx_tc.Dispatch.Handlers.{Handler, Entry}
use tmsxx_tc.Dispatch.{
  Tables, initial, Action, to_device, to_manager, copy_to_use, call, cmdl, which, analyse, set_loop,
  set_rows, set_do_what,
}

-- The analysers that are called, in order.
abbrev pub calls : List Action → List Handler
calls [] = []
calls (call h ∷ rest) = h ∷ calls rest
calls (to_device ∷ rest) = calls rest
calls (to_manager ∷ rest) = calls rest
calls (copy_to_use ∷ rest) = calls rest

-- A way of processing that `tms_Analyse` knows: 0 to 5, 8 and 9.
is_settled : Entry → Bool
is_settled e = leb e.dowhat 9 && not (e.dowhat == 6) && not (e.dowhat == 7)

all_settled : List Entry → Bool
all_settled [] = true
all_settled (e ∷ es) = is_settled e && all_settled es

length_rows : (es : List Entry) (i : ℕ) → (get_elem? es i ≡ none) ↔ (length es ≤ i)
length_rows [] i = (λ e. omega arith, λ h. refl)
length_rows (e ∷ es) zero = (λ q. cc, λ h. absurd (omega arith))
length_rows (e ∷ es) (suc i) =
    let later = length_rows es i in (λ q. omega (arith, later.0 q), λ h. later.1 (omega arith))

initial_lengths :
    (length initial.t8000 ≡ 0x97)
    × (length initial.t6000 ≡ 0x18)
    × (length initial.t1000 ≡ 7)
    × (length initial.t2000 ≡ 3)
unfolding initial
initial_lengths = (refl, refl, refl, refl)

-- With the tables as compiled, the commands outside four ranges (0x10000000 to 0x10000006,
-- 0x20000000 to 0x20000002, 0x60000000 to 0x60000017, 0x80000000 to 0x80000096) have no row, and
-- nothing is done with them.
pub analyse-unknown :
    (cmdid : ℕ)
    → cmdid < 2 ^ 32
    → (cmdid < 0x10000000)
      ⊎ ((0x10000007 ≤ cmdid) × (cmdid < 0x20000000))
      ⊎ ((0x20000003 ≤ cmdid) × (cmdid < 0x60000000))
      ⊎ ((0x60000018 ≤ cmdid) × (cmdid < 0x80000000))
      ⊎ (0x80000097 ≤ cmdid)
    → (which initial cmdid ≡ none) × (analyse initial cmdid ≡ [])
unfolding which analyse
analyse-unknown cmdid small range = ground (
  arith,
  initial_lengths,
  length_rows initial.t8000 (cmdl cmdid),
  length_rows initial.t6000 (cmdl cmdid),
  length_rows initial.t1000 (cmdl cmdid),
  length_rows initial.t2000 (cmdl cmdid),
)

set_loop-keeps :
    (n i : ℕ) (arr : List ℕ) (rows : List Entry) (k : ℕ)
    → get_elem? (set_loop n i arr rows) (suc k) ≡ get_elem? rows (suc k)
unfolding set_loop
set_loop-keeps zero i arr rows k = refl
set_loop-keeps (suc n) i arr [] k = refl
set_loop-keeps (suc n) i arr (e ∷ es) k =
    set_loop-keeps n (i + 1) arr (record e { dowhat = get_or arr i 0 % 2 ^ 3 } ∷ es) k

set_rows-keeps :
    (rows : List Entry) (count : ℕ) (arr : List ℕ) (i : ℕ)
    → i ≢ 0
    → get_elem? (set_rows rows count arr) i ≡ get_elem? rows i
set_rows-keeps rows count arr zero nz = absurd (nz refl)
set_rows-keeps rows count arr (suc i) nz =
    set_loop-keeps (if leb (length rows) count then length rows else count) 0 arr rows i

-- set_do_what changes the row of no command but those whose row is the first of a table, whatever
-- count and array it is given.
pub which-set_do_what :
    (t : Tables) (h count : ℕ) (arr : List ℕ) (cmdid : ℕ)
    → cmdl cmdid ≢ 0
    → which (set_do_what t h count arr) cmdid ≡ which t cmdid
unfolding set_do_what which
which-set_do_what t h count arr cmdid nz = ground (
  arith,
  set_rows-keeps t.t8000 count arr (cmdl cmdid),
  set_rows-keeps t.t6000 count arr (cmdl cmdid),
  set_rows-keeps t.t1000 count arr (cmdl cmdid),
)
