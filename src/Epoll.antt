-- ===== src/Epoll.antt =====
-- osnet/epollserver.c, osnet/epollserver.h and the callbacks of src/ep_app.c: the connections of the epoll
-- server. A node of the list is known by its address. What the operating system answers is an argument of
-- an operation; `none` is a run that goes on with a node that was freed or never set, or that reads behind
-- NULL.
pub mod Nodes
pub mod Admitting
pub mod Sound
pub mod Starting
pub mod Steps
pub mod Reachable
pub mod Closing
use tmsxx_tc.Prelude.{
  ℕ, zero, suc, ◌+◌, ◌-◌, ◌%◌, ◌^◌, Bool, true, false, not, Option, none, some, List, [], ◌∷◌, ◌++◌,
  ◌==◌, ◌&&◌, ◌||◌, if◌then◌else◌,
}
use tmsxx_tc.Prelude.Words.{add32, sub32, sle}
use tmsxx_tc.Database.{minus}
use tmsxx_tc.Devices.{DevBase, remove_dev}
use tmsxx_tc.Managers.{Manager, enter_manage, del_manage}

-- `struct ep_con_t`; `has_app` says that `ptr` is not NULL.
pub record EpCon : Type 0 where
  pub addr : ℕ
  pub sockfd : ℕ
  pub this_addr : ℕ
  pub loc_addr : ℕ
  pub rem_addr : ℕ
  pub has_app : Bool
  pub events : ℕ

-- A node behind `bzero`.
abbrev pub new_node : ℕ → EpCon
new_node a = record {
  addr = a;
  sockfd = 0;
  this_addr = 0;
  loc_addr = 0;
  rem_addr = 0;
  has_app = false;
  events = 0;
}

-- `struct ep_t`
pub record Ep : Type 0 where
  pub listen : Option ℕ
  pub cs : ℕ
  pub node_cnt : ℕ
  pub node_head : List EpCon

abbrev pub ep_server : ℕ
ep_server = 1

abbrev pub ep_client : ℕ
ep_client = 2

abbrev pub epollin : ℕ
epollin = 1

-- `ep_Interface`
abbrev pub ep_interface : Ep
ep_interface = record { listen = none; cs = 0; node_cnt = 0; node_head = [] }

unfoldable pub find_node : List EpCon → ℕ → Option EpCon
find_node [] a = none
find_node (n ∷ ns) a = let rest = find_node ns a in if n.addr == a then some n else rest

-- An assignment through the pointer to a node.
unfoldable pub change_node : List EpCon → ℕ → (EpCon → EpCon) → List EpCon
change_node [] a f = []
change_node (n ∷ ns) a f =
    let rest = change_node ns a f in if n.addr == a then f n ∷ ns else n ∷ rest

-- `list_del_init`
unfoldable pub unlink_node : List EpCon → ℕ → List EpCon
unlink_node [] a = []
unlink_node (n ∷ ns) a = let rest = unlink_node ns a in if n.addr == a then ns else n ∷ rest

-- `ep_AddClient`, with the address that `malloc` gives.
unfoldable pub ep_add_client : Ep → ℕ → Ep
ep_add_client pep a = record pep {
  node_head = pep.node_head ++ (new_node a ∷ []);
  node_cnt = add32 pep.node_cnt 1;
}

-- `ep_DelConNode`
unfoldable pub ep_del_con_node : Ep → ℕ → Ep
unfolding unlink_node
ep_del_con_node pep a = record pep {
  node_head = unlink_node pep.node_head a;
  node_cnt = sub32 pep.node_cnt 1;
}

-- `ep_AddEvent`; `added` says that `epoll_ctl` succeeds.
unfoldable pub ep_add_event : Ep → ℕ → ℕ → Bool → Ep × ℕ
unfolding change_node ep_del_con_node
ep_add_event pep a fd added =
    let pep' = record pep {
      node_head =
          change_node pep.node_head a
            (λ n. record n { sockfd = fd; this_addr = a % 2 ^ 32; events = epollin });
    } in
    if added then (pep', 0) else (ep_del_con_node pep' a, minus 1)

-- The server with the tables of its application: the managers, the devices, and how many `struct tmsxx_app`
-- are allocated.
pub record Server : Type 0 where
  pub ep : Ep
  pub managers : List Manager
  pub devnet : List DevBase
  pub apps : ℕ

-- `InitSocketStruct`, called by `epFUI_OnAccept` and `epFUI_OnConnect`; `got` says that `malloc` succeeds.
unfoldable pub init_socket_struct : Server → ℕ → Bool → Server
unfolding change_node
init_socket_struct s a got =
    if got
    then record s {
      ep = record s.ep {
        node_head = change_node s.ep.node_head a (λ n. record n { has_app = true });
      };
      apps = s.apps + 1;
    }
    else s

-- `FreeSocketStruct`
unfoldable pub free_socket_struct : Server → ℕ → Server
unfolding change_node find_node
free_socket_struct s a = elim (find_node s.ep.node_head a) [
  | none ↦ s
  | some n ↦ if not n.has_app then s else record s {
    ep = record s.ep {
      node_head = change_node s.ep.node_head a (λ m. record m { has_app = false });
    };
    apps = s.apps - 1;
  }
]

-- `epFUI_OnClose`, of a node that has its application; `ep_close` says what becomes of another.
unfoldable pub on_close : Server → EpCon → Server
unfolding del_manage remove_dev
on_close s n = record s {
  managers = (del_manage s.managers true n.sockfd).table;
  devnet = remove_dev s.devnet n.sockfd;
}

-- `epFUI_OnRemoveClose`
unfoldable pub on_remove_close : Server → EpCon → Server
unfolding free_socket_struct del_manage remove_dev
on_remove_close s n =
    let s' =
      free_socket_struct (record s { managers = (del_manage s.managers true n.sockfd).table })
        n.addr in
    record s' { devnet = remove_dev s'.devnet n.sockfd }

-- The node is taken out of the list and freed.
abbrev pub without : Server → ℕ → Server
without s a = record s { ep = ep_del_con_node s.ep a }

abbrev pub is_full : Ep → Bool
is_full pep = sle 800 pep.node_cnt

-- `ep_Accept`: `fd` is what `accept` gives, `none` for -1.
unfoldable pub ep_accept : Server → Option ℕ → ℕ → Bool → Bool → ℕ → ℕ → Option (Server × ℕ)
unfolding ep_add_client ep_add_event init_socket_struct change_node
ep_accept s none a added got loc rem = some (s, minus 1)
ep_accept s (some fd) a added got loc rem =
    let (pep, ret) = ep_add_event (ep_add_client s.ep a) a fd added in
    let pep' = record pep {
      node_head = change_node pep.node_head a (λ n. record n { loc_addr = loc; rem_addr = rem });
    } in
    let s' = init_socket_struct (record s { ep = pep' }) a got in
    if not added then none else if is_full s'.ep then some (without s' a, 0) else some (s', 0)

-- `ep_Connect`: `connected` says that `connect` succeeds.
unfoldable pub ep_connect : Server → Bool → ℕ → ℕ → Bool → Bool → ℕ → ℕ → Option (Server × ℕ)
unfolding ep_add_client ep_add_event init_socket_struct change_node
ep_connect s connected fd a added got loc rem =
    let pep = ep_add_client s.ep a in
    let pep' = record pep {
      node_head = change_node pep.node_head a (λ n. record n { loc_addr = loc; rem_addr = rem });
    } in
    let (pep'', ret) = ep_add_event pep' a fd added in
    let s' = init_socket_struct (record s { ep = pep'' }) a got in
    if not connected
    then some (s, minus 1)
    else if not added
    then none
    else if is_full s'.ep
    then some (without s' a, 0)
    else some (s', 0)

-- The errors that `ep_Recv` tells apart: EAGAIN, ECONNRESET, ETIMEDOUT.
abbrev pub eagain : ℕ
eagain = 11

abbrev pub econnreset : ℕ
econnreset = 104

abbrev pub etimedout : ℕ
etimedout = 110

-- `ep_Recv` behind `pFUI_OnRecv`, which gave `ret` and left `errno`.
unfoldable pub ep_recv : Server → EpCon → ℕ → ℕ → Server × ℕ
unfolding on_remove_close
ep_recv s n ret errno =
    let removed = without (on_remove_close s n) n.addr in
    if ret == minus 1
    then (
      if errno == eagain
          then s
          else if errno == econnreset || errno == etimedout
          then removed
          else s,
      minus 1,
    )
    else if ret == 0
    then (removed, 0)
    else (s, ret)

-- The loop of `ep_Close`
unfoldable pub find_fd : List EpCon → ℕ → Option EpCon
find_fd [] fd = none
find_fd (n ∷ ns) fd = let rest = find_fd ns fd in if n.sockfd == fd then some n else rest

-- `ep_Close`: with a node it goes on with a pointer that was not set. `epFUI_OnClose` hands on the
-- address of a field behind `ptr`, and `tms_DelManage` reads there: a node without an application, such
-- as the listener's, is a read near address 0.
unfoldable pub ep_close : Server → Option ℕ → ℕ → Option (Server × ℕ)
unfolding find_fd on_close
ep_close s (some pfreenode) fd = none
ep_close s none fd = elim (find_fd s.ep.node_head fd) [
  | none ↦ some (s, minus 1)
  | some n ↦ if n.has_app then some (without (on_close s n) n.addr, 0) else none
]

-- `ep_Listen`: `bound` is the error of `bind` or 0, of which it takes EADDRINUSE for none; `listens` says that
-- `listen` succeeds, and `errno` is its error.
abbrev pub eaddrinuse : ℕ
eaddrinuse = 98

unfoldable pub ep_listen : Ep → ℕ → Bool → ℕ → ℕ → ℕ → Bool → ℕ → Option (Ep × ℕ)
unfolding ep_add_client ep_add_event change_node
ep_listen pep bound listens errno fd a added loc =
    let (pep', ret) = ep_add_event (ep_add_client pep a) a fd added in
    if not (bound == 0 || bound == eaddrinuse)
    then some (pep, bound)
    else if not listens
    then some (pep, errno)
    else if not added
    then none
    else some (
      record pep' {
        node_head = change_node pep'.node_head a (λ n. record n { loc_addr = loc });
        listen = some a;
        cs = ep_server;
      },
      0,
    )

-- `ep_RunServer`, with the address that `malloc` gives; that node does not join the list.
unfoldable pub ep_run_server : Ep → ℕ → Ep
ep_run_server pep a = elim pep.listen [
  | none ↦ record pep { listen = some a; cs = ep_client }
  | some l ↦ pep
]

-- The second loop of `ep_StopServer`, over the nodes that it found.
unfoldable pub delete_all : Ep → List EpCon → Ep
unfolding ep_del_con_node
delete_all pep [] = pep
delete_all pep (n ∷ ns) = delete_all (ep_del_con_node pep n.addr) ns

-- `ep_StopServer`
unfoldable pub ep_stop_server : Ep → Ep
unfolding delete_all
ep_stop_server pep = record (delete_all pep pep.node_head) { listen = none }

-- `ep_Ergodic`: the callback is called for each node with another descriptor than `fd`, the listener's, until
-- it gives -1.
unfoldable pub visit : {S : Type 0} → ℕ → (EpCon → S → S × ℕ) → List EpCon → S → S
visit fd cb [] ptr = ptr
visit fd cb (n ∷ ns) ptr =
    let skipped = visit fd cb ns ptr in
    let (ptr', ret) = cb n ptr in
    let rest = visit fd cb ns ptr' in
    if n.sockfd == fd then skipped else if ret == minus 1 then ptr' else rest

-- Without a listener in the list it reads a node that is not there.
unfoldable pub ep_ergodic : {S : Type 0} → Ep → (EpCon → S → S × ℕ) → S → Option S
unfolding visit find_node
ep_ergodic pep cb ptr = elim pep.listen [
  | none ↦ none
  | some l ↦ elim (find_node pep.node_head l) [
    | none ↦ none
    | some n ↦ some (visit n.sockfd cb pep.node_head ptr)
  ]
]

-- `tms_AddManage` for the descriptor of a connection, with the close that it asks for.
unfoldable pub serve_manage : Server → Option ℕ → ℕ → ℕ → Option (Server × ℕ)
unfolding enter_manage ep_close
serve_manage s src fd kind =
    let added = enter_manage true s.managers src fd kind in
    let s' = record s { managers = added.table } in
    elim added.closed [
      | none ↦ some (s', added.status)
      | some g ↦ elim (ep_close s' none g) [ none ↦ none | some (t, ret) ↦ some (t, added.status) ]
    ]
