-- ===== src/Epoll/Steps.antt =====
-- Each operation of a server keeps it sound.
use tmsxx_tc.Prelude.{
  ℕ, ◌+◌, ◌≤◌, ◌≡◌, ◌≢◌, refl, sym, ap, ◌∙◌, subst, Bool, true, false, Option, none, some, List,
  ◌==◌, ◌||◌, if◌then◌else◌, Bool-cases, Option-cases, inl, inr, arith,
}
use tmsxx_tc.Prelude.Words.{add32, sub32, sle_small}
use tmsxx_tc.Database.{minus}
use tmsxx_tc.Managers.{Manager, enter_manage, del_manage}
use tmsxx_tc.Managers.Table.{uses, enter_manage-EntersIn}
use tmsxx_tc.Epoll.{
  EpCon, find_node, unlink_node, find_fd, econnreset, etimedout, Ep, Server, ep_recv, ep_close,
  serve_manage, without, is_full, on_close, on_remove_close, ep_del_con_node, free_socket_struct,
}
use tmsxx_tc.Epoll.Nodes.{
  IsFresh, IsNode, IsOpen, unlink_node-append, unlink_node-change_node, find_fd-IsNode,
}
use tmsxx_tc.Epoll.Admitting.{admitted}
use tmsxx_tc.Epoll.Sound.{IsSound, IsSound-same, IsSound-grow, IsSound-shrink}

-- A connection that is let in or turned away, as `ep_Accept` and `ep_Connect` do.
pub IsSound-admitted :
    {lines : ℕ} {dropped : List EpCon} (s t : Server) (n : EpCon) (ret : ℕ)
    → IsSound lines dropped s.ep s.managers
    → IsFresh n.addr s.ep.node_head
    → n.sockfd ≢ 0
    → if◌then◌else◌ {A = Option (Server × ℕ)}
        (is_full (admitted s n).ep)
        (some (without (admitted s n) n.addr, 0))
        (some (admitted s n, 0))
      ≡ some (t, ret)
    → IsSound lines dropped t.ep t.managers
unfolding ep_del_con_node add32 sub32
IsSound-admitted {lines} {dropped} s t n ret i h z e =
    let c = IsSound.counted i in
    let b = IsSound.bounded i in
    let k = IsSound.few i in
    let small = sle_small 800 (s.ep.node_cnt + 1) (omega arith) (omega arith) in
    elim (Bool-cases (is_full (admitted s n).ep)) [
      | inl f ↦
          let q : without (admitted s n) n.addr ≡ t = ground (arith, e, f) in
          subst (λ (x : Server). IsSound lines dropped x.ep x.managers) q
            (IsSound-same s.ep (without (admitted s n) n.addr).ep s.managers i (omega (arith, c))
              (unlink_node-append n.addr s.ep.node_head n h refl))
      | inr f ↦
          let q : admitted s n ≡ t = ground (arith, e, f) in
          subst (λ (x : Server). IsSound lines dropped x.ep x.managers) q
            (IsSound-grow lines s.ep (admitted s n).ep s.managers n i h z (ground (arith, f, small))
              k refl refl)
    ]

pub IsSound-closed :
    {lines : ℕ} {dropped : List EpCon} (s t : Server) (fd ret : ℕ)
    → IsSound lines dropped s.ep s.managers
    → ep_close s none fd ≡ some (t, ret)
    → IsSound lines dropped t.ep t.managers
unfolding ep_close on_close
IsSound-closed {lines} {dropped} s t fd ret i e = elim (Option-cases (find_fd s.ep.node_head fd)) [
  | inl n ↦
      subst (λ (x : Server). IsSound lines dropped x.ep x.managers) {x = s} {y = t}
        (ground (arith, e, n)) i
  | inr (n, k) ↦
      let h = find_fd-IsNode s.ep.node_head fd n k in
      elim (Bool-cases n.has_app) [
        | inr null ↦ absurd (ground (arith, e, k, null))
        | inl has ↦
            subst (λ (x : Server). IsSound lines dropped x.ep x.managers)
              {x = without (on_close s n) n.addr} {y = t} (ground (arith, e, k, has))
              (IsSound-shrink s.ep s.managers n i h.0)
      ]
]

-- `FreeSocketStruct` writes to the node alone.
pub free_socket_struct-kept :
    (s : Server) (a : ℕ)
    → ((free_socket_struct s a).managers ≡ s.managers)
      × ((free_socket_struct s a).ep.node_cnt ≡ s.ep.node_cnt)
      × (unlink_node (free_socket_struct s a).ep.node_head a ≡ unlink_node s.ep.node_head a)
      × ((free_socket_struct s a).devnet ≡ s.devnet)
unfolding free_socket_struct
free_socket_struct-kept s a = elim (Option-cases (find_node s.ep.node_head a)) [
  | inl e ↦ rw (e, free_socket_struct) (refl, refl, refl, refl)
  | inr (n, e) ↦ elim (Bool-cases n.has_app) [
    | inl p ↦
        rw (e, p, free_socket_struct)
          (
            refl,
            refl,
            unlink_node-change_node a s.ep.node_head (λ m. record m { has_app = false })
                (λ m. refl),
            refl,
          )
    | inr p ↦ rw (e, p, free_socket_struct) (refl, refl, refl, refl)
  ]
]

pub IsSound-removed :
    {lines : ℕ} {dropped : List EpCon} (s : Server) (n : EpCon)
    → IsSound lines dropped s.ep s.managers
    → IsNode n s.ep.node_head
    → IsSound lines dropped
        (without (on_remove_close s n) n.addr).ep
        (without (on_remove_close s n) n.addr).managers
unfolding on_remove_close ep_del_con_node
IsSound-removed {lines} {dropped} s n i h =
    let s1 = record s { managers = (del_manage s.managers true n.sockfd).table } in
    let k = free_socket_struct-kept s1 n.addr in
    let t = free_socket_struct s1 n.addr in
    subst (λ ms. IsSound lines dropped (without (on_remove_close s n) n.addr).ep ms) (sym k.0)
      (IsSound-same (ep_del_con_node s.ep n.addr) (ep_del_con_node t.ep n.addr) s1.managers
        (IsSound-shrink s.ep s.managers n i h) (ap (λ x. sub32 x 1) k.1) k.2)

-- An ended stream, or an error for which the connection is given up.
abbrev pub ends : ℕ → ℕ → Bool
ends ret errno =
    if ret == 0
    then true
    else if ret == minus 1
    then errno == econnreset || errno == etimedout
    else false

pub ep_recv-ends :
    (s : Server) (n : EpCon) (ret errno : ℕ)
    → ((ep_recv s n ret errno).0
        ≡ (if ends ret errno then without (on_remove_close s n) n.addr else s))
      × ((ep_recv s n ret errno).1 ≡ ret)
unfolding ep_recv
ep_recv-ends s n ret errno = ground arith

pub IsSound-received :
    {lines : ℕ} {dropped : List EpCon} (s : Server) (n : EpCon) (ret errno : ℕ)
    → IsSound lines dropped s.ep s.managers
    → IsNode n s.ep.node_head
    → IsSound lines dropped (ep_recv s n ret errno).0.ep (ep_recv s n ret errno).0.managers
IsSound-received {lines} {dropped} s n ret errno i h =
    subst (λ (x : Server). IsSound lines dropped x.ep x.managers)
      (sym (ep_recv-ends s n ret errno).0)
      (elim (Bool-cases (ends ret errno)) [
        | inl e ↦ rw (e) (IsSound-removed s n i h)
        | inr e ↦ rw (e) i
      ])

-- A connection that becomes a manager, and is closed again if it is the last that fits.
pub IsSound-added :
    {lines : ℕ} {dropped : List EpCon} (pep : Ep) (ms : List Manager) (src : Option ℕ) (fd kind : ℕ)
    → IsSound lines dropped pep ms
    → IsOpen fd pep.node_head
    → IsSound lines dropped pep (enter_manage true ms src fd kind).table
IsSound-added {lines} {dropped} pep ms src fd kind i o =
    let z : fd ≢ 0 = λ e. IsSound.nonzero i (subst (λ x. IsOpen x pep.node_head) e o) in
    let added =
      λ (g : ℕ) (k : g ≢ 0). enter_manage-EntersIn true ms src fd kind g z k (IsSound.single i) in
    record {
      few = IsSound.few i;
      counted = IsSound.counted i;
      bounded = IsSound.bounded i;
      apart = IsSound.apart i;
      nonzero = IsSound.nonzero i;
      single = λ g k. elim (added g k) [
        | inl x ↦ ground (arith, x.2, IsSound.single i g k)
        | inr x ↦ subst (λ l. uses l g ≤ 1) (sym x.1) (IsSound.single i g k)
      ];
      served = λ g k u. elim (added g k) [
        | inl x ↦ elim (Bool-cases (g == fd)) [
          | inl e ↦ inl (subst (λ y. IsOpen y pep.node_head) {x = fd} {y = g} (ground (arith, e)) o)
          | inr e ↦ IsSound.served i g k (λ w. u (x.2 ∙ ground (arith, e, w)))
        ]
        | inr x ↦ IsSound.served i g k (subst (λ l. uses l g ≢ 0) x.1 u)
      ];
    }

pub IsSound-managed :
    {lines : ℕ} {dropped : List EpCon} (s t : Server) (src : Option ℕ) (fd kind ret : ℕ)
    → IsSound lines dropped s.ep s.managers
    → IsOpen fd s.ep.node_head
    → serve_manage s src fd kind ≡ some (t, ret)
    → IsSound lines dropped t.ep t.managers
unfolding serve_manage
IsSound-managed {lines} {dropped} s t src fd kind ret i o e =
    let added = enter_manage true s.managers src fd kind in
    let s' = record s { managers = added.table } in
    let j = IsSound-added s.ep s.managers src fd kind i o in
    elim (Option-cases added.closed) [
      | inl c ↦
          subst (λ (x : Server). IsSound lines dropped x.ep x.managers) {x = s'} {y = t}
            (ground (arith, e, c)) j
      | inr (g, c) ↦ elim (Option-cases (ep_close s' none g)) [
        | inl w ↦ absurd (ground (arith, e, c, w))
        | inr ((t', r), w) ↦
            subst (λ (x : Server). IsSound lines dropped x.ep x.managers) {x = t'} {y = t}
              (ground (arith, e, c, w)) (IsSound-closed s' t' g r j w)
      ]
    ]
