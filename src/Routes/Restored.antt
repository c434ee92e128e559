-- ===== src/Routes/Restored.antt =====
-- A line that is saved and then deleted.
use mathlib.Core.List.{append-nil}
use tmsxx_tc.Prelude.{
  ℕ, ◌≤◌, ◌≡◌, ◌≢◌, refl, sym, ap, ◌∙◌, subst, true, List, [], ◌∷◌, ◌++◌, length, inl, inr, arith,
}
use tmsxx_tc.Database.{Sqlite, Responds}
use tmsxx_tc.Routes.{
  TdbRoute, renumber, zeros, check_route_oneline, insert_route, delete_route, select_oneline,
}
use tmsxx_tc.Routes.Commands.{max_route_node, route_go_save, route_del}
use tmsxx_tc.Routes.Places.{AreSmall}
use tmsxx_tc.Database.Rows.{Remains}
use tmsxx_tc.Routes.Agreement.{AgreesAny}
use tmsxx_tc.Routes.Changes.{delete_route_lem}
use tmsxx_tc.Routes.Starts.{AreTyped, AvoidsStarts}
use tmsxx_tc.Routes.Trace.{select_oneline-saved}

-- No two rows have the same number, the primary key.
abbrev pub AvoidsId : ℕ → List TdbRoute → Type 0
AvoidsId i [] = Unit {0}
AvoidsId i (r ∷ rs) = (r.id ≢ i) × AvoidsId i rs

abbrev pub AreKeyed : List TdbRoute → Type 0
AreKeyed [] = Unit {0}
AreKeyed (r ∷ rs) = AvoidsId r.id rs × AreKeyed rs

-- The mask of `route del`.
abbrev pub by_number : TdbRoute
by_number = record zeros { id = 1 }

AvoidsId-AgreesAny :
    (cs : List TdbRoute) (r : TdbRoute) → AvoidsId r.id cs → AgreesAny cs by_number r → ⊥
AvoidsId-AgreesAny [] r h p = p
AvoidsId-AgreesAny (c ∷ cs) r h (inl p) = h.0 (sym (p.0 (λ e. omega (arith, e))))
AvoidsId-AgreesAny (c ∷ cs) r h (inr p) = AvoidsId-AgreesAny cs r h.1 p

AvoidsId-append : (i : ℕ) (xs ys : List TdbRoute) → AvoidsId i (xs ++ ys) → AvoidsId i ys
AvoidsId-append i [] ys h = h
AvoidsId-append i (x ∷ xs) ys h = AvoidsId-append i xs ys h.1

abbrev AllAgree : List TdbRoute → List TdbRoute → Type 0
AllAgree cs [] = Unit {0}
AllAgree cs (r ∷ rs) = AgreesAny cs by_number r × AllAgree cs rs

AllAgree-cons : (c : TdbRoute) (cs rs : List TdbRoute) → AllAgree cs rs → AllAgree (c ∷ cs) rs
AllAgree-cons c cs [] h = tt
AllAgree-cons c cs (r ∷ rs) h = (inr h.0, AllAgree-cons c cs rs h.1)

AllAgree-self : (rs : List TdbRoute) → AllAgree rs rs
AllAgree-self [] = tt
AllAgree-self (r ∷ rs) = (
  inl (
    (λ e. refl),
    (λ e. refl),
    (λ e. refl),
    (λ e. refl),
    (λ e. refl),
    (λ e. refl),
    (λ e. refl),
    (λ e. refl),
    (λ e. refl),
    (λ e. refl),
    (λ e. refl),
  ),
  AllAgree-cons r rs rs (AllAgree-self rs),
)

Remains-all :
    (cs rows : List TdbRoute) {l : List TdbRoute}
    → AllAgree cs rows
    → Remains (AgreesAny cs by_number) rows l
    → l ≡ []
Remains-all cs [] h (Remains.done) = refl
Remains-all cs (r ∷ rs) h (Remains.gone x p k) = Remains-all cs rs h.1 k
Remains-all cs (r ∷ rs) h (Remains.kept x n k) = absurd (n h.0)

-- Deleting the last rows by their numbers leaves the others.
Remains-append :
    (start new : List TdbRoute) {l : List TdbRoute}
    → AreKeyed (start ++ new)
    → Remains (AgreesAny new by_number) (start ++ new) l
    → l ≡ start
Remains-append [] new k h = Remains-all new new (AllAgree-self new) h
Remains-append (r ∷ start) new k (Remains.kept x n h) = ap (◌∷◌ r) (Remains-append start new k.1 h)
Remains-append (r ∷ start) new k (Remains.gone x p h) =
    absurd (AvoidsId-AgreesAny new r (AvoidsId-append r.id start new k.0) p)

module _ (sql : Sqlite TdbRoute renumber) where
  open sql use {Db, opens, table}

  deleted_by_number :
      (db : Db) (start new : List TdbRoute)
      → AreKeyed (table db)
      → table db ≡ start ++ new
      → (delete_route sql db new by_number).1 ≡ 0
      → Responds sql
      → table (delete_route sql db new by_number).0 ≡ start
  deleted_by_number db start new k t z ok = elim (delete_route_lem sql db new by_number (ok.1 db)) [
    | inl (w, h) ↦ Remains-append start new (subst AreKeyed t k) (
        subst
          (λ x. Remains (AgreesAny new by_number) x (table (delete_route sql db new by_number).0)) t
          h)
    | inr (inl (w, h, (x, n))) ↦ absurd (ground (arith, n.1, ok.2 x))
    | inr (inr (w, h)) ↦ absurd (omega arith)
  ]

  route_del-nodes :
      (db : Db) (input x : TdbRoute) (xs : List TdbRoute) (fa sa ta pa : ℕ)
      → (select_oneline sql db
          (record input { frame_b = fa; slot_b = sa; type_b = ta; port_b = pa })
          max_route_node).0
        ≡ x ∷ xs
      → route_del sql db input fa sa ta pa ≡ (delete_route sql db (x ∷ xs) by_number).0
  unfolding route_del
  route_del-nodes db input x xs fa sa ta pa e = rw (e) refl

  route_del-none :
      (db : Db) (input : TdbRoute) (fa sa ta pa : ℕ)
      → (select_oneline sql db
          (record input { frame_b = fa; slot_b = sa; type_b = ta; port_b = pa })
          max_route_node).0
        ≡ []
      → table (route_del sql db input fa sa ta pa) ≡ table db
  unfolding route_del
  route_del-none db input fa sa ta pa e = rw (e) refl

  restored :
      (db : Db) (start new : List TdbRoute) (input : TdbRoute) (fa sa ta pa : ℕ)
      → AreKeyed (table db)
      → table db ≡ start ++ new
      → (delete_route sql db new by_number).1 ≡ 0
      → (select_oneline sql db
          (record input { frame_b = fa; slot_b = sa; type_b = ta; port_b = pa })
          max_route_node).0
        ≡ new
      → Responds sql
      → table (route_del sql db input fa sa ta pa) ≡ start
  restored db start [] input fa sa ta pa k t d e ok =
      route_del-none db input fa sa ta pa e ∙ t ∙ append-nil start
  restored db start (x ∷ xs) input fa sa ta pa k t d e ok =
      ap table (route_del-nodes db input x xs fa sa ta pa e)
      ∙ deleted_by_number db start (x ∷ xs) k t d ok

  -- A line that route go save takes in and that is then deleted by the end of its first row leaves
  -- the table as it was: for a line of at most 16 rows with small fields that the check accepts,
  -- whose places have types and are the start of no row of the table; where the insertion and the
  -- deletions succeed, no search, BEGIN or COMMIT fails, the database opens before and after, its
  -- rows have different numbers, and the variable of route del has no type a.
  pub route_del-route_go_save :
      (db : Db) (r q : TdbRoute) (qs : List TdbRoute) (input : TdbRoute)
      → Responds sql
      → opens db ≡ true
      → length (r ∷ q ∷ qs) ≤ max_route_node
      → AreSmall (r ∷ q ∷ qs)
      → AreTyped (q ∷ qs)
      → AvoidsStarts (q ∷ qs) (table db)
      → check_route_oneline sql db (r ∷ q ∷ qs) (length (r ∷ q ∷ qs)) ≡ 0
      → (insert_route sql db (r ∷ q ∷ qs)).1 ≡ 0
      → opens (route_go_save sql db (r ∷ q ∷ qs)) ≡ true
      → AreKeyed (table (route_go_save sql db (r ∷ q ∷ qs)))
      → ((nodes : List TdbRoute)
          → (delete_route sql (route_go_save sql db (r ∷ q ∷ qs)) nodes by_number).1 ≡ 0)
      → input.type_a ≡ 0
      → table (
          route_del sql
            (route_go_save sql db (r ∷ q ∷ qs))
            input
            r.frame_b
            r.slot_b
            r.type_b
            r.port_b)
        ≡ table db
  unfolding route_go_save
  route_del-route_go_save db r q qs input ok o l s y v x z o' k d a =
      let c = record input {
        frame_b = r.frame_b;
        slot_b = r.slot_b;
        type_b = r.type_b;
        port_b = r.port_b;
      } in
      let g : route_go_save sql db (r ∷ q ∷ qs) ≡ (insert_route sql db (r ∷ q ∷ qs)).0 =
        ground (arith, x) in
      let found =
        select_oneline-saved sql db r q qs c max_route_node ok o (omega arith) s y v x z
          (subst (λ w. opens w ≡ true) g o') a refl l in
      subst (λ w. table (route_del sql w input r.frame_b r.slot_b r.type_b r.port_b) ≡ table db)
        (sym g)
        (restored (insert_route sql db (r ∷ q ∷ qs)).0 (table db) found.0 input r.frame_b r.slot_b
          r.type_b r.port_b (subst (λ w. AreKeyed (table w)) g k) found.1
          (subst (λ w. (delete_route sql w found.0 by_number).1 ≡ 0) g (d found.0))
          (ap (λ w. w.0) found.3) ok)
