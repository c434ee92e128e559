-- ===== src/Epoll/Closing.antt =====
-- What the end of a connection leaves, from this side and from the other, and the end of the server.
use tmsxx_tc.Prelude.{
  ℕ, suc, ◌-◌, ◌≡◌, ◌≢◌, ◌↔◌, ◌⊎◌, refl, sym, ap, ◌∙◌, subst, true, false, none, some, List, [],
  ◌∷◌, length, ◌==◌, if◌then◌else◌, Bool-cases, Option-cases, inl, inr, arith,
}
use tmsxx_tc.Prelude.Words.{sub32}
use tmsxx_tc.Database.{minus}
use tmsxx_tc.Devices.{remove_dev}
use tmsxx_tc.Managers.{del_manage}
use tmsxx_tc.Managers.Table.{uses}
use tmsxx_tc.Managers.Removal.{del_manage-uses}
use tmsxx_tc.Epoll.{
  EpCon, Server, find_node, find_fd, unlink_node, without, on_close, on_remove_close,
  free_socket_struct, ep_close, ep_recv, ep_del_con_node,
}
use tmsxx_tc.Epoll.Nodes.{
  IsFresh, AreApart, IsNode, IsOpen, length-unlink_node, IsOpen-unlink_node,
  IsOpen-unlink_node_before, IsNode-IsOpen, find_fd-IsNode, find_fd-none, IsFresh-IsNode,
}
use tmsxx_tc.Epoll.Sound.{IsSound}
use tmsxx_tc.Epoll.Steps.{free_socket_struct-kept, ep_recv-ends, ends}

IsFresh-unlink_node_self : (a : ℕ) (ns : List EpCon) → AreApart ns → IsFresh a (unlink_node ns a)
unfolding unlink_node
IsFresh-unlink_node_self a [] d = tt
IsFresh-unlink_node_self a (m ∷ ns) d = elim (Bool-cases (m.addr == a)) [
  | inl e ↦ rw (e) (subst (λ x. IsFresh x ns) {x = m.addr} {y = a} (ground (arith, e)) d.0)
  | inr e ↦ rw (e) ((λ p. ground (arith, e, p)), IsFresh-unlink_node_self a ns d.1)
]

-- The node of a connection has gone, and its descriptor from the tables; the others are as they were.
pub record HasGone (s : Server) (n : EpCon) (t : Server) : Type 0 where
  pub gone : IsFresh n.addr t.ep.node_head
  pub size : suc (length t.ep.node_head) ≡ length s.ep.node_head
  pub count : t.ep.node_cnt ≡ length t.ep.node_head
  pub open_others : (fd : ℕ) → fd ≢ n.sockfd → IsOpen fd t.ep.node_head ↔ IsOpen fd s.ep.node_head
  pub unmanaged : uses t.managers n.sockfd ≡ 0
  pub managed_others : (fd : ℕ) → fd ≢ 0 → fd ≢ n.sockfd → uses t.managers fd ≡ uses s.managers fd
  pub devices : t.devnet ≡ remove_dev s.devnet n.sockfd

HasGone-parts :
    {lines : ℕ} {dropped : List EpCon} (s : Server) (n : EpCon) (t : Server)
    → IsSound lines dropped s.ep s.managers
    → IsNode n s.ep.node_head
    → t.ep.node_head ≡ unlink_node s.ep.node_head n.addr
    → t.ep.node_cnt ≡ sub32 s.ep.node_cnt 1
    → t.managers ≡ (del_manage s.managers true n.sockfd).table
    → t.devnet ≡ remove_dev s.devnet n.sockfd
    → HasGone s n t
unfolding sub32
HasGone-parts s n t i h e c m d =
    let z : n.sockfd ≢ 0 = λ q. IsSound.nonzero i (IsNode-IsOpen 0 n s.ep.node_head h q) in
    let u = λ (fd : ℕ) (k : fd ≢ 0). del_manage-uses s.managers true n.sockfd fd z k in
    let l = length-unlink_node n s.ep.node_head h in
    let b = IsSound.bounded i in
    let k = IsSound.counted i in
    let f = IsSound.few i in
    record {
      gone =
          subst (λ x. IsFresh n.addr x) (sym e)
            (IsFresh-unlink_node_self n.addr s.ep.node_head (IsSound.apart i));
      size = let w = ap length e in omega arith;
      count = let w = ap length e in omega arith;
      open_others = λ fd q.
          subst (λ x. IsOpen fd x ↔ IsOpen fd s.ep.node_head) (sym e)
            (
              IsOpen-unlink_node_before fd n.addr s.ep.node_head,
              IsOpen-unlink_node fd n s.ep.node_head (IsSound.apart i) h q,
            );
      unmanaged = ap (λ x. uses x n.sockfd) m ∙ u n.sockfd z ∙ ground arith;
      managed_others = λ fd q r. ap (λ x. uses x fd) m ∙ u fd q ∙ ground arith;
      devices = d;
    }

-- In a sound state, ep_close of an open descriptor finds a connection with that descriptor. If the
-- connection has the structure of its application, the call gives 0 and the connection has gone,
-- but the structure stays allocated; if it has none, like a listener, the call comes to no result.
-- Of another descriptor it gives -1 and changes nothing.
pub ep_close_lem :
    {lines : ℕ} {dropped : List EpCon} (s : Server) (fd : ℕ)
    → IsSound lines dropped s.ep s.managers
    → ((n : EpCon) × (t : Server) × (ep_close s none fd ≡ some (t, 0))
        × IsNode n s.ep.node_head
        × (n.sockfd ≡ fd)
        × (n.has_app ≡ true)
        × HasGone s n t
        × (t.apps ≡ s.apps))
      ⊎ (((n : EpCon) × (ep_close s none fd ≡ none)
            × IsNode n s.ep.node_head
            × (n.sockfd ≡ fd)
            × (n.has_app ≡ false))
          ⊎ ((IsOpen fd s.ep.node_head → ⊥) × (ep_close s none fd ≡ some (s, minus 1))))
unfolding ep_close on_close ep_del_con_node
ep_close_lem s fd i = elim (Option-cases (find_fd s.ep.node_head fd)) [
  | inl e ↦ inr (inr (find_fd-none s.ep.node_head fd e, ground (arith, e)))
  | inr (n, e) ↦
      let h = find_fd-IsNode s.ep.node_head fd n e in
      let t = without (on_close s n) n.addr in
      elim (Bool-cases n.has_app) [
        | inr null ↦ inr (inl (n, ground (arith, e, null), h.0, h.1, null))
        | inl has ↦
            let g = HasGone-parts s n t i h.0 refl refl refl refl in
            inl (n, t, ground (arith, e, has), h.0, h.1, has, g, refl)
      ]
]

find_node-IsNode :
    (n : EpCon) (ns : List EpCon) → AreApart ns → IsNode n ns → find_node ns n.addr ≡ some n
unfolding find_node
find_node-IsNode n [] d h = elim h [ ]
find_node-IsNode n (m ∷ ns) d (inl e) = ground (arith, ap EpCon.addr e, ap some e)
find_node-IsNode n (m ∷ ns) d (inr h) = elim (Bool-cases (m.addr == n.addr)) [
  | inl e ↦ absurd (
      IsFresh-IsNode n ns
        (subst (λ x. IsFresh x ns) {x = m.addr} {y = n.addr} (ground (arith, e)) d.0) h)
  | inr e ↦ ground (arith, e, find_node-IsNode n ns d.1 h)
]

free_socket_struct-apps :
    (s : Server) (n : EpCon)
    → find_node s.ep.node_head n.addr ≡ some n
    → (free_socket_struct s n.addr).apps ≡ (if n.has_app then s.apps - 1 else s.apps)
unfolding free_socket_struct
free_socket_struct-apps s n e = elim (Bool-cases n.has_app) [
  | inl p ↦ rw (e, p, free_socket_struct) refl
  | inr p ↦ rw (e, p, free_socket_struct) refl
]

HasGone-removed :
    {lines : ℕ} {dropped : List EpCon} (s : Server) (n : EpCon)
    → IsSound lines dropped s.ep s.managers
    → IsNode n s.ep.node_head
    → HasGone s n (without (on_remove_close s n) n.addr)
      × ((without (on_remove_close s n) n.addr).apps ≡ (if n.has_app then s.apps - 1 else s.apps))
unfolding on_remove_close ep_del_con_node
HasGone-removed s n i h =
    let s1 = record s { managers = (del_manage s.managers true n.sockfd).table } in
    let k = free_socket_struct-kept s1 n.addr in
    (
      HasGone-parts s n (without (on_remove_close s n) n.addr) i h k.2 (ap (λ x. sub32 x 1) k.1) k.0
          (ap (λ x. remove_dev x n.sockfd) k.3),
      free_socket_struct-apps s1 n (find_node-IsNode n s.ep.node_head (IsSound.apart i) h),
    )

-- In a sound state ep_recv gives what the application received. On a connection whose stream has
-- ended, or that was reset or timed out, it takes the connection away and frees the structure of
-- its application; else it changes nothing.
pub ep_recv_lem :
    {lines : ℕ} {dropped : List EpCon} (s : Server) (n : EpCon) (ret errno : ℕ)
    → IsSound lines dropped s.ep s.managers
    → IsNode n s.ep.node_head
    → ((ep_recv s n ret errno).1 ≡ ret)
      × (((ends ret errno ≡ true)
            × HasGone s n (ep_recv s n ret errno).0
            × ((ep_recv s n ret errno).0.apps ≡ (if n.has_app then s.apps - 1 else s.apps)))
          ⊎ ((ends ret errno ≡ false) × ((ep_recv s n ret errno).0 ≡ s)))
ep_recv_lem s n ret errno i h =
    let r = ep_recv-ends s n ret errno in
    let t = without (on_remove_close s n) n.addr in
    (
      r.1,
      elim (Bool-cases (ends ret errno)) [
        | inl e ↦
            let q : t ≡ (ep_recv s n ret errno).0 = sym (ground (arith, r.0, e)) in
            let g = HasGone-removed s n i h in
            inl (e, subst (λ x. HasGone s n x) q g.0, sym (ap (λ x. x.apps) q) ∙ g.1)
        | inr e ↦ inr (e, ground (arith, r.0, e))
      ],
    )
