-- ===== src/Managers.antt =====
-- protocol/tmsxx.c and protocol/tmsxx.h: the table of network managers, `sg_manage`. The four arrays
-- of `struct tms_manage` have MANAGE_COUNT entries each; an entry here is the four at one index.
pub mod Table
pub mod Removal
pub mod Adding
pub mod Addresses
use tmsxx_tc.Prelude.{
  ℕ, zero, suc, ◌+◌, ◌-◌, ◌^◌, Bool, true, false, Option, none, some, List, [], ◌∷◌, length,
  replicate, ltb, leb, ◌==◌, ◌&&◌, not, if◌then◌else◌,
}
use tmsxx_tc.Prelude.Words.{add32, sub32, sle}

abbrev pub manage_count_max : ℕ
manage_count_max = 6

pub record Manager : Type 0 where
  pub fd : ℕ
  pub fd_addr : ℕ
  pub fdtc : ℕ
  pub fdtc_addr : ℕ

abbrev pub free_entry : Manager
free_entry = record { fd = 0; fd_addr = 0; fdtc = 0; fdtc_addr = 0 }

-- `tms_Init`, the part on managers: `bzero`.
abbrev pub init_managers : List Manager
init_managers = replicate manage_count_max free_entry

-- The first loop of `tms_AddManage`.
unfoldable pub has_fd : List Manager → ℕ → Bool
has_fd [] fd = false
has_fd (m ∷ ms) fd = let rest = has_fd ms fd in if m.fd == fd then true else rest

-- An entry that `tms_AddManage` fills in; `src` is `pcontext->pgb->src`, if there is a context.
unfoldable pub occupy : Manager → ℕ → ℕ → Option ℕ → Manager
occupy m fd kind src =
    let m1 = record m { fd = fd; fdtc = if kind == 1 then fd else m.fdtc } in
    elim src [ none ↦ m1 | some a ↦ record m1 { fd_addr = a; fdtc_addr = a } ]

abbrev pub behind : Manager → Option (List Manager × ℕ) → Option (List Manager × ℕ)
behind m none = none
behind m (some (ms, i)) = some (m ∷ ms, suc i)

-- The second loop: the new table and the index that was free.
unfoldable pub occupy_first : List Manager → ℕ → ℕ → Option ℕ → Option (List Manager × ℕ)
occupy_first [] fd kind src = none
occupy_first (m ∷ ms) fd kind src =
    let rest = behind m (occupy_first ms fd kind src) in
    if m.fd == 0 then some (occupy m fd kind src ∷ ms, 0) else rest

-- -1 as `int32_t`
abbrev pub minus_one : ℕ
minus_one = 2 ^ 32 - 1

-- What a call leaves: the table, what it returns, and the descriptor of the connection that it has
-- the epoll server close.
pub record Added : Type 0 where
  pub table : List Manager
  pub status : ℕ
  pub closed : Option ℕ

-- `tms_AddManage` up to the call of `ep_Close`; `served` says that an epoll server is in use
-- (`psg_ep != NULL`).
unfoldable pub enter_manage : Bool → List Manager → Option ℕ → ℕ → ℕ → Added
enter_manage served ms src fd kind =
    if has_fd ms fd
    then record { table = ms; status = 0; closed = none }
    else elim (occupy_first ms fd kind src) [
      | none ↦ record { table = ms; status = minus_one; closed = none }
      | some (ms', i) ↦ record {
        table = ms';
        status = 0;
        closed = if served && i == manage_count_max - 1 then some fd else none;
      }
    ]

-- What `tms_DelManage` leaves of an entry.
abbrev pub release : Manager → Manager
release m = record m { fd = 0; fdtc = 0; fd_addr = 0 }

-- The loop of `tms_DelManage`, with its `count`.
unfoldable pub del_loop : List Manager → ℕ → ℕ → List Manager × ℕ
del_loop [] fd count = ([], count)
del_loop (m ∷ ms) fd count =
    let count' = if m.fd == 0 then count else sub32 (add32 count 1) 1 in
    let m' = if not (m.fd == 0) && m.fd == fd then release m else m in
    let (ms', c) = del_loop ms fd count' in (m' ∷ ms', c)

pub record Deleted : Type 0 where
  pub table : List Manager
  pub status : ℕ
  -- whether `pf_OnCUNoteManageConnect(0)` is called
  pub notified : Bool

-- `tms_DelManage`; `context` says that `pcontext` is not NULL.
unfoldable pub del_manage : List Manager → Bool → ℕ → Deleted
unfolding del_loop
del_manage ms context fd =
    let (ms', count) = del_loop ms fd 0 in
    record { table = ms'; status = minus_one; notified = count == 0 && context }

-- The call of `ep_Close`: `epFUI_OnClose` takes the descriptor out of the table again.
unfoldable pub close_entered : Added → Option ℕ → Added
unfolding del_manage
close_entered r none = r
close_entered r (some g) = record r { table = (del_manage r.table true g).table }

-- `tms_AddManage` for the descriptor of a connection that has its application.
unfoldable pub add_manage : Bool → List Manager → Option ℕ → ℕ → ℕ → Added
unfolding enter_manage close_entered
add_manage served ms src fd kind =
    let entered = enter_manage served ms src fd kind in close_entered entered entered.closed

-- `tms_ManageCount`
unfoldable pub manage_count : List Manager → ℕ
manage_count [] = 0
manage_count (m ∷ ms) = if m.fd == 0 then manage_count ms else suc (manage_count ms)

-- `tms_GetManageFd`
unfoldable pub get_manage_fd : List Manager → ℕ
get_manage_fd [] = 0
get_manage_fd (m ∷ ms) = let rest = get_manage_fd ms in if m.fd == 0 then rest else m.fd

-- `tms_GetTCManageFd`: the descriptors that are written out; their number is returned.
unfoldable pub get_tc_manage_fd : List Manager → List ℕ
get_tc_manage_fd [] = []
get_tc_manage_fd (m ∷ ms) =
    let rest = get_tc_manage_fd ms in if m.fdtc == 0 then rest else m.fd ∷ rest

-- The loop of `tms_SelectFdByAddr`.
unfoldable pub select_fd : List Manager → ℕ → ℕ
select_fd [] addr = 0
select_fd (m ∷ ms) addr = let rest = select_fd ms addr in if m.fd_addr == addr then m.fd else rest

-- `tms_SelectFdByAddr`; `none` is the NULL pointer.
unfoldable pub select_fd_by_addr : List Manager → Option ℕ → ℕ
unfolding select_fd
select_fd_by_addr ms none = 0
select_fd_by_addr ms (some addr) = select_fd ms addr

-- `struct tms_man_base`
pub record ManBase : Type 0 where
  pub fd : ℕ
  pub addr : ℕ

-- The loop of `tms_CountList`, with `ret`: the entries that it writes from there on.
unfoldable pub count_loop : List Manager → ℕ → ℕ → List ManBase
count_loop [] count ret = []
count_loop (m ∷ ms) count ret =
    let skipped = count_loop ms count ret in
    let listed = record { fd = m.fd; addr = m.fd_addr } ∷ count_loop ms count (ret + 1) in
    if m.fd_addr == 0 then skipped else if sle count ret then [] else listed

-- `tms_CountList`: the entries written to `list`; their number is returned.
unfoldable pub count_list : List Manager → ℕ → List ManBase
unfolding count_loop
count_list ms count = count_loop ms count 0
