-- ===== src/Epoll/Sound.antt =====
-- What holds in every state of a server, and how a node more or less keeps it.
use tmsxx_tc.Prelude.{
  ℕ, ◌<◌, ◌≡◌, ◌≢◌, ◌⊎◌, inl, inr, ◌+◌, ◌^◌, sym, ap, ◌∙◌, subst, true, List, [], ◌∷◌, ◌++◌, length,
  length-append, arith,
}
use tmsxx_tc.Prelude.Words.{add32, sub32}
use tmsxx_tc.Managers.{Manager, init_managers, del_manage}
use tmsxx_tc.Managers.Table.{uses, IsDistinct}
use tmsxx_tc.Managers.Removal.{del_manage-uses}
use tmsxx_tc.Epoll.{EpCon, Ep, ep_del_con_node}
use tmsxx_tc.Epoll.Nodes.{
  IsFresh, AreApart, IsNode, IsOpen, AreApart-append, IsOpen-append, length-unlink_node,
  AreApart-unlink_node, IsOpen-unlink_node, IsOpen-last, IsNode-IsOpen, IsOpen-unlink_node_before,
  IsOpen-join,
}

-- After `lines` calls of `ep_Listen`, and with `dropped` the nodes that the stops of the server dropped: the
-- count of the nodes is right, there are fewer than 800 of them besides one for each of these calls, at
-- addresses of their own and with descriptors other than 0; and each descriptor of a manager but 0 stands once
-- and is that of a node, or of one that was dropped.
pub record IsSound (lines : ℕ) (dropped : List EpCon) (pep : Ep) (ms : List Manager) : Type 0 where
  pub few : lines < 2 ^ 30
  pub counted : pep.node_cnt ≡ length pep.node_head
  pub bounded : length pep.node_head < 800 + lines
  pub apart : AreApart pep.node_head
  pub nonzero : IsOpen 0 pep.node_head → ⊥
  pub single : IsDistinct ms
  pub served : (fd : ℕ) → fd ≢ 0 → uses ms fd ≢ 0 → IsOpen fd pep.node_head ⊎ IsOpen fd dropped

pub IsSound-none :
    (pep : Ep) → pep.node_cnt ≡ 0 → pep.node_head ≡ [] → IsSound 0 [] pep init_managers
IsSound-none pep c e = record {
  few = omega arith;
  counted = c ∙ ap length (sym e);
  bounded = subst (λ l. length l < 800) (sym e) (omega arith);
  apart = subst AreApart (sym e) tt;
  nonzero = subst (λ l. IsOpen 0 l → ⊥) (sym e) (λ h. h);
  single = λ fd h. ground arith;
  served = λ fd h u. absurd (u (ground arith));
}

pub IsSound-same :
    {lines : ℕ} {dropped : List EpCon} (pep t : Ep) (ms : List Manager)
    → IsSound lines dropped pep ms
    → t.node_cnt ≡ pep.node_cnt
    → t.node_head ≡ pep.node_head
    → IsSound lines dropped t ms
IsSound-same {lines} {dropped} pep t ms i c e = record {
  few = IsSound.few i;
  counted = c ∙ IsSound.counted i ∙ ap length (sym e);
  bounded = subst (λ l. length l < 800 + lines) (sym e) (IsSound.bounded i);
  apart = subst AreApart (sym e) (IsSound.apart i);
  nonzero = subst (λ l. IsOpen 0 l → ⊥) (sym e) (IsSound.nonzero i);
  single = IsSound.single i;
  served = λ fd h u. subst (λ l. IsOpen fd l ⊎ IsOpen fd dropped) (sym e) (IsSound.served i fd h u);
}

-- A node more.
pub IsSound-grow :
    {lines : ℕ} {dropped : List EpCon} (more : ℕ) (pep t : Ep) (ms : List Manager) (n : EpCon)
    → IsSound lines dropped pep ms
    → IsFresh n.addr pep.node_head
    → n.sockfd ≢ 0
    → length pep.node_head + 1 < 800 + more
    → more < 2 ^ 30
    → t.node_cnt ≡ add32 pep.node_cnt 1
    → t.node_head ≡ pep.node_head ++ (n ∷ [])
    → IsSound more dropped t ms
unfolding add32
IsSound-grow more pep t ms n i h z l f c e = record {
  few = f;
  counted =
      let p = IsSound.counted i in
      let b = IsSound.bounded i in
      let k = IsSound.few i in
      let q = length-append pep.node_head (n ∷ []) in let r = ap length e in omega arith;
  bounded = let q = length-append pep.node_head (n ∷ []) in let r = ap length e in omega arith;
  apart = subst AreApart (sym e) (AreApart-append pep.node_head n (IsSound.apart i) h);
  nonzero =
      subst (λ l. IsOpen 0 l → ⊥) (sym e)
        (λ o. IsOpen-last 0 pep.node_head n (IsSound.nonzero i) z o);
  single = IsSound.single i;
  served = λ fd k u. elim (IsSound.served i fd k u) [
    | inl o ↦ inl (subst (IsOpen fd) (sym e) (IsOpen-append fd pep.node_head n o))
    | inr o ↦ inr o
  ];
}

-- A node less, whose descriptor no manager keeps.
pub IsSound-shrink :
    {lines : ℕ} {dropped : List EpCon} (pep : Ep) (ms : List Manager) (n : EpCon)
    → IsSound lines dropped pep ms
    → IsNode n pep.node_head
    → IsSound lines dropped (ep_del_con_node pep n.addr) (del_manage ms true n.sockfd).table
unfolding ep_del_con_node sub32
IsSound-shrink pep ms n i h =
    let z : n.sockfd ≢ 0 = λ e. IsSound.nonzero i (IsNode-IsOpen 0 n pep.node_head h e) in
    record {
      few = IsSound.few i;
      counted =
          let p = IsSound.counted i in
          let k = IsSound.few i in
          let q = length-unlink_node n pep.node_head h in let b = IsSound.bounded i in omega arith;
      bounded =
          let q = length-unlink_node n pep.node_head h in let b = IsSound.bounded i in omega arith;
      apart = AreApart-unlink_node n.addr pep.node_head (IsSound.apart i);
      nonzero = λ o. IsSound.nonzero i (IsOpen-unlink_node_before 0 n.addr pep.node_head o);
      single = λ fd k.
          let u = del_manage-uses ms true n.sockfd fd z k in
          let d = IsSound.single i fd k in ground arith;
      served = λ fd k u.
          let w = del_manage-uses ms true n.sockfd fd z k in
          elim (IsSound.served i fd k (λ e. ground arith)) [
            | inl o ↦
                inl
                  (IsOpen-unlink_node fd n pep.node_head (IsSound.apart i) h (λ e. ground arith) o)
            | inr o ↦ inr o
          ];
    }

-- No nodes: the server was stopped.
pub IsSound-empty :
    {lines : ℕ} {dropped : List EpCon} (pep t : Ep) (ms : List Manager)
    → IsSound lines dropped pep ms
    → t.node_cnt ≡ 0
    → t.node_head ≡ []
    → IsSound lines (pep.node_head ++ dropped) t ms
IsSound-empty {lines} {dropped} pep t ms i c e = record {
  few = IsSound.few i;
  counted = c ∙ ap length (sym e);
  bounded = subst (λ l. length l < 800 + lines) (sym e) (omega arith);
  apart = subst AreApart (sym e) tt;
  nonzero = subst (λ l. IsOpen 0 l → ⊥) (sym e) (λ h. h);
  single = IsSound.single i;
  served = λ fd h u. inr (IsOpen-join fd pep.node_head dropped (IsSound.served i fd h u));
}
