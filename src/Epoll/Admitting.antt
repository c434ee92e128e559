-- ===== src/Epoll/Admitting.antt =====
-- Opening a connection, as one step.
use tmsxx_tc.Prelude.{
  ℕ, ◌+◌, ◌%◌, ◌^◌, ◌≡◌, refl, Bool, true, false, some, List, [], ◌∷◌, ◌++◌, if◌then◌else◌,
}
use tmsxx_tc.Prelude.Words.{add32}
use tmsxx_tc.Epoll.{
  EpCon, new_node, epollin, Server, ep_accept, ep_connect, without, is_full, ep_add_client,
  ep_add_event, init_socket_struct,
}
use tmsxx_tc.Epoll.Nodes.{IsFresh, change_node-append}

-- A connection that was accepted.
abbrev pub accepted : ℕ → ℕ → Bool → ℕ → ℕ → EpCon
accepted a fd got loc rem = record {
  addr = a;
  sockfd = fd;
  this_addr = a % 2 ^ 32;
  loc_addr = loc;
  rem_addr = rem;
  has_app = got;
  events = epollin;
}

-- The server with other nodes, and as many as it counts.
abbrev pub with_nodes : Server → List EpCon → ℕ → Server
with_nodes s ns count = record s { ep = record s.ep { node_head = ns; node_cnt = count } }

abbrev pub admitted : Server → EpCon → Server
admitted s n = record s {
  ep = record s.ep { node_head = s.ep.node_head ++ (n ∷ []); node_cnt = add32 s.ep.node_cnt 1 };
  apps = if n.has_app then s.apps + 1 else s.apps;
}

-- What accepting a connection does, at an address where no node stands.
pub ep_accept-admitted :
    (s : Server) (fd a : ℕ) (got : Bool) (loc rem : ℕ)
    → IsFresh a s.ep.node_head
    → let t = admitted s (accepted a fd got loc rem) in
      ep_accept s (some fd) a true got loc rem
      ≡ (if is_full t.ep then some (without t a, 0) else some (t, 0))
unfolding ep_accept ep_add_event ep_add_client init_socket_struct
ep_accept-admitted s fd a true loc rem h =
    let ns = s.ep.node_head in
    let n1 = record (new_node a) { sockfd = fd; this_addr = a % 2 ^ 32; events = epollin } in
    let n2 = record n1 { loc_addr = loc; rem_addr = rem } in
    rw
      (
        change_node-append a ns (new_node a)
            (λ n. record n { sockfd = fd; this_addr = a % 2 ^ 32; events = epollin }) h refl,
        change_node-append a ns n1 (λ n. record n { loc_addr = loc; rem_addr = rem }) h refl,
        change_node-append a ns n2 (λ n. record n { has_app = true }) h refl,
      )
      refl
ep_accept-admitted s fd a false loc rem h =
    let ns = s.ep.node_head in
    let n1 = record (new_node a) { sockfd = fd; this_addr = a % 2 ^ 32; events = epollin } in
    rw
      (
        change_node-append a ns (new_node a)
            (λ n. record n { sockfd = fd; this_addr = a % 2 ^ 32; events = epollin }) h refl,
        change_node-append a ns n1 (λ n. record n { loc_addr = loc; rem_addr = rem }) h refl,
      )
      refl

pub ep_connect-admitted :
    (s : Server) (fd a : ℕ) (got : Bool) (loc rem : ℕ)
    → IsFresh a s.ep.node_head
    → let t = admitted s (accepted a fd got loc rem) in
      ep_connect s true fd a true got loc rem
      ≡ (if is_full t.ep then some (without t a, 0) else some (t, 0))
unfolding ep_connect ep_add_event ep_add_client init_socket_struct
ep_connect-admitted s fd a true loc rem h =
    let ns = s.ep.node_head in
    let n1 = record (new_node a) { loc_addr = loc; rem_addr = rem } in
    let n2 = record n1 { sockfd = fd; this_addr = a % 2 ^ 32; events = epollin } in
    rw
      (
        change_node-append a ns (new_node a) (λ n. record n { loc_addr = loc; rem_addr = rem }) h
            refl,
        change_node-append a ns n1
            (λ n. record n { sockfd = fd; this_addr = a % 2 ^ 32; events = epollin }) h refl,
        change_node-append a ns n2 (λ n. record n { has_app = true }) h refl,
      )
      refl
ep_connect-admitted s fd a false loc rem h =
    let ns = s.ep.node_head in
    let n1 = record (new_node a) { loc_addr = loc; rem_addr = rem } in
    rw
      (
        change_node-append a ns (new_node a) (λ n. record n { loc_addr = loc; rem_addr = rem }) h
            refl,
        change_node-append a ns n1
            (λ n. record n { sockfd = fd; this_addr = a % 2 ^ 32; events = epollin }) h refl,
      )
      refl
