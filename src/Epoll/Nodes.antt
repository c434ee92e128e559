-- ===== src/Epoll/Nodes.antt =====
-- The list of nodes: adding, changing and taking out one of them.
use tmsxx_tc.Prelude.{
  ℕ, suc, ◌≡◌, ◌≢◌, ◌⊎◌, refl, sym, ap, ◌∙◌, subst, none, some, List, [], ◌∷◌, ◌++◌, length, ◌==◌,
  if◌then◌else◌, Bool-cases, inl, inr, arith,
}
use tmsxx_tc.Epoll.{EpCon, change_node, unlink_node, find_fd}

-- No node stands at an address; no two stand at one.
abbrev pub IsFresh : ℕ → List EpCon → Type 0
IsFresh a [] = Unit {0}
IsFresh a (n ∷ ns) = (n.addr ≢ a) × IsFresh a ns

abbrev pub AreApart : List EpCon → Type 0
AreApart [] = Unit {0}
AreApart (n ∷ ns) = IsFresh n.addr ns × AreApart ns

-- A node is in the list; a connection has a descriptor.
abbrev pub IsNode : EpCon → List EpCon → Type 0
IsNode m [] = ⊥
IsNode m (n ∷ ns) = (n ≡ m) ⊎ IsNode m ns

abbrev pub IsOpen : ℕ → List EpCon → Type 0
IsOpen fd [] = ⊥
IsOpen fd (n ∷ ns) = (n.sockfd ≡ fd) ⊎ IsOpen fd ns

pub IsFresh-append :
    (a : ℕ) (ns : List EpCon) (n : EpCon) → IsFresh a ns → n.addr ≢ a → IsFresh a (ns ++ (n ∷ []))
IsFresh-append a [] n h k = (k, tt)
IsFresh-append a (m ∷ ns) n h k = (h.0, IsFresh-append a ns n h.1 k)

pub AreApart-append :
    (ns : List EpCon) (n : EpCon) → AreApart ns → IsFresh n.addr ns → AreApart (ns ++ (n ∷ []))
AreApart-append [] n h k = (tt, tt)
AreApart-append (m ∷ ns) n h k =
    (IsFresh-append m.addr ns n h.0 (λ e. k.0 (sym e)), AreApart-append ns n h.1 k.1)

pub IsOpen-append :
    (fd : ℕ) (ns : List EpCon) (n : EpCon) → IsOpen fd ns → IsOpen fd (ns ++ (n ∷ []))
IsOpen-append fd [] n h = elim h [ ]
IsOpen-append fd (m ∷ ns) n (inl e) = inl e
IsOpen-append fd (m ∷ ns) n (inr h) = inr (IsOpen-append fd ns n h)

pub IsOpen-join : (fd : ℕ) (ns ms : List EpCon) → IsOpen fd ns ⊎ IsOpen fd ms → IsOpen fd (ns ++ ms)
IsOpen-join fd [] ms (inl h) = elim h [ ]
IsOpen-join fd [] ms (inr h) = h
IsOpen-join fd (n ∷ ns) ms (inl (inl e)) = inl e
IsOpen-join fd (n ∷ ns) ms (inl (inr h)) = inr (IsOpen-join fd ns ms (inl h))
IsOpen-join fd (n ∷ ns) ms (inr h) = inr (IsOpen-join fd ns ms (inr h))

pub IsOpen-last :
    (fd : ℕ) (ns : List EpCon) (n : EpCon)
    → (IsOpen fd ns → ⊥)
    → n.sockfd ≢ fd
    → IsOpen fd (ns ++ (n ∷ []))
    → ⊥
IsOpen-last fd [] n h k (inl e) = k e
IsOpen-last fd [] n h k (inr o) = o
IsOpen-last fd (m ∷ ns) n h k (inl e) = h (inl e)
IsOpen-last fd (m ∷ ns) n h k (inr o) = IsOpen-last fd ns n (λ p. h (inr p)) k o

pub IsNode-IsOpen :
    (fd : ℕ) (n : EpCon) (ns : List EpCon) → IsNode n ns → n.sockfd ≡ fd → IsOpen fd ns
IsNode-IsOpen fd n [] h e = elim h [ ]
IsNode-IsOpen fd n (m ∷ ns) (inl q) e = inl (ap EpCon.sockfd q ∙ e)
IsNode-IsOpen fd n (m ∷ ns) (inr h) e = inr (IsNode-IsOpen fd n ns h e)

pub IsOpen-unlink_node_before :
    (fd a : ℕ) (ns : List EpCon) → IsOpen fd (unlink_node ns a) → IsOpen fd ns
unfolding unlink_node
IsOpen-unlink_node_before fd a [] h = elim h [ ]
IsOpen-unlink_node_before fd a (m ∷ ns) h = elim (Bool-cases (m.addr == a)) [
  | inl e ↦ inr (subst (λ b. IsOpen fd (if b then ns else m ∷ unlink_node ns a)) e h)
  | inr e ↦ elim (subst (λ b. IsOpen fd (if b then ns else m ∷ unlink_node ns a)) e h) [
    | inl o ↦ inl o
    | inr o ↦ inr (IsOpen-unlink_node_before fd a ns o)
  ]
]

-- The last node, at an address of its own, is the one that a pointer to it changes and takes out.
pub change_node-append :
    (a : ℕ) (ns : List EpCon) (n : EpCon) (f : EpCon → EpCon)
    → IsFresh a ns
    → n.addr ≡ a
    → change_node (ns ++ (n ∷ [])) a f ≡ ns ++ (f n ∷ [])
unfolding change_node
change_node-append a [] n f h e = ground (arith, e)
change_node-append a (m ∷ ns) n f h e = ground (arith, h.0, change_node-append a ns n f h.1 e)

pub unlink_node-append :
    (a : ℕ) (ns : List EpCon) (n : EpCon)
    → IsFresh a ns
    → n.addr ≡ a
    → unlink_node (ns ++ (n ∷ [])) a ≡ ns
unfolding unlink_node
unlink_node-append a [] n h e = ground (arith, e)
unlink_node-append a (m ∷ ns) n h e = ground (arith, h.0, unlink_node-append a ns n h.1 e)

-- Taking a node out.
pub length-unlink_node :
    (n : EpCon) (ns : List EpCon) → IsNode n ns → suc (length (unlink_node ns n.addr)) ≡ length ns
unfolding unlink_node
length-unlink_node n [] h = elim h [ ]
length-unlink_node n (m ∷ ns) (inl e) = ground (arith, ap EpCon.addr e)
length-unlink_node n (m ∷ ns) (inr h) = ground (arith, length-unlink_node n ns h)

pub IsFresh-unlink_node : (b a : ℕ) (ns : List EpCon) → IsFresh b ns → IsFresh b (unlink_node ns a)
unfolding unlink_node
IsFresh-unlink_node b a [] h = tt
IsFresh-unlink_node b a (m ∷ ns) h = elim (Bool-cases (m.addr == a)) [
  | inl e ↦ rw (e) h.1
  | inr e ↦ rw (e) (h.0, IsFresh-unlink_node b a ns h.1)
]

pub AreApart-unlink_node : (a : ℕ) (ns : List EpCon) → AreApart ns → AreApart (unlink_node ns a)
unfolding unlink_node
AreApart-unlink_node a [] h = tt
AreApart-unlink_node a (m ∷ ns) h = elim (Bool-cases (m.addr == a)) [
  | inl e ↦ rw (e) h.1
  | inr e ↦ rw (e) (IsFresh-unlink_node m.addr a ns h.0, AreApart-unlink_node a ns h.1)
]

pub IsFresh-IsNode : (n : EpCon) (ns : List EpCon) → IsFresh n.addr ns → IsNode n ns → ⊥
IsFresh-IsNode n [] h k = elim k [ ]
IsFresh-IsNode n (m ∷ ns) h (inl e) = h.0 (ap EpCon.addr e)
IsFresh-IsNode n (m ∷ ns) h (inr k) = IsFresh-IsNode n ns h.1 k

-- Another descriptor than that of the node stays open.
pub IsOpen-unlink_node :
    (fd : ℕ) (n : EpCon) (ns : List EpCon)
    → AreApart ns
    → IsNode n ns
    → fd ≢ n.sockfd
    → IsOpen fd ns
    → IsOpen fd (unlink_node ns n.addr)
unfolding unlink_node
IsOpen-unlink_node fd n [] d h k o = elim h [ ]
IsOpen-unlink_node fd n (m ∷ ns) d (inl e) k (inl o) = absurd (k (sym o ∙ ap EpCon.sockfd e))
IsOpen-unlink_node fd n (m ∷ ns) d (inl e) k (inr o) = ground (arith, ap EpCon.addr e, o)
IsOpen-unlink_node fd n (m ∷ ns) d (inr h) k o = elim (Bool-cases (m.addr == n.addr)) [
  | inl e ↦ absurd (IsFresh-IsNode n ns (subst (λ x. IsFresh x ns) (ground (arith, e)) d.0) h)
  | inr e ↦ rw (e) (elim o [ inl p ↦ inl p | inr p ↦ inr (IsOpen-unlink_node fd n ns d.1 h k p) ])
]

-- What is written to a node does not matter when it is taken out.
pub unlink_node-change_node :
    (a : ℕ) (ns : List EpCon) (f : EpCon → EpCon)
    → ((n : EpCon) → (f n).addr ≡ n.addr)
    → unlink_node (change_node ns a f) a ≡ unlink_node ns a
unfolding unlink_node change_node
unlink_node-change_node a [] f k = refl
unlink_node-change_node a (m ∷ ns) f k = elim (Bool-cases (m.addr == a)) [
  | inl e ↦ ground (arith, e, k m)
  | inr e ↦ ground (arith, e, unlink_node-change_node a ns f k)
]

-- The search by a descriptor.
pub find_fd-IsNode :
    (ns : List EpCon) (fd : ℕ) (n : EpCon) → find_fd ns fd ≡ some n → IsNode n ns × (n.sockfd ≡ fd)
unfolding find_fd
find_fd-IsNode [] fd n e = absurd (cc)
find_fd-IsNode (m ∷ ns) fd n e = elim (Bool-cases (m.sockfd == fd)) [
  | inl t ↦
      let q : m ≡ n = ground (arith, t, e) in (inl q, sym (ap EpCon.sockfd q) ∙ ground (arith, t))
  | inr t ↦ let ih = find_fd-IsNode ns fd n (ground (arith, t, e)) in (inr ih.0, ih.1)
]

pub find_fd-none : (ns : List EpCon) (fd : ℕ) → find_fd ns fd ≡ none → IsOpen fd ns → ⊥
unfolding find_fd
find_fd-none [] fd e o = elim o [ ]
find_fd-none (m ∷ ns) fd e (inl o) = absurd (ground (arith, e, o))
find_fd-none (m ∷ ns) fd e (inr o) = elim (Bool-cases (m.sockfd == fd)) [
  | inl t ↦ absurd (ground (arith, t, e))
  | inr t ↦ find_fd-none ns fd (ground (arith, t, e)) o
]
