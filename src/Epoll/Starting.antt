-- ===== src/Epoll/Starting.antt =====
-- Starting and stopping a server keep it sound (osnet/epollserver.c).
use tmsxx_tc.Prelude.{
  ℕ, suc, ◌<◌, ◌++◌, length, ◌%◌, ◌^◌, ◌≡◌, ◌≢◌, refl, subst, Bool, true, false, none, some, List,
  [], ◌∷◌, ◌==◌, ◌||◌, Bool-cases, Option-cases, inl, inr, arith,
}
use tmsxx_tc.Prelude.Words.{add32, sub32}
use tmsxx_tc.Managers.{Manager}
use tmsxx_tc.Epoll.{
  EpCon, unlink_node, eaddrinuse, Ep, epollin, Server, new_node, delete_all, ep_stop_server,
  ep_run_server, ep_listen, ep_add_client, ep_add_event, ep_del_con_node,
}
use tmsxx_tc.Epoll.Nodes.{IsFresh, change_node-append}
use tmsxx_tc.Epoll.Sound.{IsSound, IsSound-same, IsSound-empty, IsSound-grow}

abbrev pub listener : ℕ → ℕ → ℕ → EpCon
listener fd a loc = record {
  addr = a;
  sockfd = fd;
  this_addr = a % 2 ^ 32;
  loc_addr = loc;
  rem_addr = 0;
  has_app = false;
  events = epollin;
}

-- The server with a listener more.
abbrev pub started : Ep → ℕ → ℕ → ℕ → Ep
started pep fd a loc = record {
  listen = some a;
  cs = 1;
  node_cnt = add32 pep.node_cnt 1;
  node_head = pep.node_head ++ (listener fd a loc ∷ []);
}

pub ep_listen-started :
    (pep : Ep) (bound errno fd a loc : ℕ)
    → IsFresh a pep.node_head
    → (bound == 0 || bound == eaddrinuse) ≡ true
    → ep_listen pep bound true errno fd a true loc ≡ some (started pep fd a loc, 0)
unfolding ep_listen ep_add_event ep_add_client
ep_listen-started pep bound errno fd a loc h b =
    let ns = pep.node_head in
    let n1 = record (new_node a) { sockfd = fd; this_addr = a % 2 ^ 32; events = epollin } in
    rw
      (
        change_node-append a ns (new_node a)
            (λ n. record n { sockfd = fd; this_addr = a % 2 ^ 32; events = epollin }) h refl,
        change_node-append a ns n1 (λ n. record n { loc_addr = loc }) h refl,
        b,
      )
      refl

IsSound-more :
    {lines : ℕ} {dropped : List EpCon} (pep : Ep) (ms : List Manager)
    → IsSound lines dropped pep ms
    → suc lines < 2 ^ 30
    → IsSound (suc lines) dropped pep ms
IsSound-more pep ms i f = record {
  few = f;
  counted = IsSound.counted i;
  bounded = let b = IsSound.bounded i in omega arith;
  apart = IsSound.apart i;
  nonzero = IsSound.nonzero i;
  single = IsSound.single i;
  served = IsSound.served i;
}

pub IsSound-listening :
    {lines : ℕ} {dropped : List EpCon} (pep t : Ep) (ms : List Manager)
    (bound errno fd a loc ret : ℕ) (listens : Bool)
    → IsSound lines dropped pep ms
    → suc lines < 2 ^ 30
    → IsFresh a pep.node_head
    → fd ≢ 0
    → ep_listen pep bound listens errno fd a true loc ≡ some (t, ret)
    → IsSound (suc lines) dropped t ms
unfolding ep_listen
IsSound-listening {lines} {dropped} pep t ms bound errno fd a loc ret listens i f h z e =
    let same =
      λ (q : pep ≡ t). subst (λ x. IsSound (suc lines) dropped x ms) q (IsSound-more pep ms i f) in
    elim (Bool-cases (bound == 0 || bound == eaddrinuse)) [
      | inr b ↦ same (ground (arith, e, b))
      | inl b ↦
          elim listens
              as (λ l.
                ep_listen pep bound l errno fd a true loc ≡ some (t, ret)
                → IsSound (suc lines) dropped t ms) [
                  | false ↦ λ q. same (ground (arith, q, b))
                  | true ↦ λ q.
                      let st = started pep fd a loc in
                      let y = IsSound.bounded i in
                      subst (λ x. IsSound (suc lines) dropped x ms) {x = st} {y = t}
                        (cc (ep_listen-started pep bound errno fd a loc h b, q))
                        (IsSound-grow (suc lines) pep st ms (listener fd a loc) i h z (omega arith)
                          f refl refl)
                ]
            e
    ]

delete_all_lem :
    (ns : List EpCon) (pep : Ep)
    → pep.node_head ≡ ns
    → pep.node_cnt ≡ length ns
    → length ns < 2 ^ 31
    → ((delete_all pep ns).node_head ≡ []) × ((delete_all pep ns).node_cnt ≡ 0)
unfolding delete_all ep_del_con_node unlink_node sub32
delete_all_lem [] pep e c l = (e, c)
delete_all_lem (n ∷ ns) pep e c l =
    delete_all_lem ns (ep_del_con_node pep n.addr) (ground (arith, e)) (omega arith) (omega arith)

-- After ep_stop_server in a sound state no node is left, nothing is counted, and there is no
-- listener.
pub ep_stop_server_lem :
    {lines : ℕ} {dropped : List EpCon} (s : Server)
    → IsSound lines dropped s.ep s.managers
    → ((ep_stop_server s.ep).node_head ≡ [])
      × ((ep_stop_server s.ep).node_cnt ≡ 0)
      × ((ep_stop_server s.ep).listen ≡ none)
unfolding ep_stop_server
ep_stop_server_lem s i =
    let b = IsSound.bounded i in
    let f = IsSound.few i in
    let r = delete_all_lem s.ep.node_head s.ep refl (IsSound.counted i) (omega arith) in
    (r.0, r.1, refl)

-- `ep_StopServer` keeps the managers.
pub IsSound-stopped :
    {lines : ℕ} {dropped : List EpCon} (s : Server)
    → IsSound lines dropped s.ep s.managers
    → IsSound lines (s.ep.node_head ++ dropped) (ep_stop_server s.ep) s.managers
IsSound-stopped s i =
    let r = ep_stop_server_lem s i in IsSound-empty s.ep (ep_stop_server s.ep) s.managers i r.1 r.0

pub IsSound-run :
    {lines : ℕ} {dropped : List EpCon} (pep : Ep) (ms : List Manager) (a : ℕ)
    → IsSound lines dropped pep ms
    → IsSound lines dropped (ep_run_server pep a) ms
unfolding ep_run_server
IsSound-run {lines} {dropped} pep ms a i = elim (Option-cases pep.listen) [
  | inl e ↦ rw (e, ep_run_server) (IsSound-same pep _ ms i refl refl)
  | inr (l, e) ↦ rw (e, ep_run_server) i
]
