-- ===== src/Routes/Agreement.antt =====
-- The rows that agree with a condition, and those that are left without them.
use tmsxx_tc.Prelude.{
  ℕ, ◌≡◌, ◌≢◌, ◌↔◌, ◌⊎◌, refl, subst, true, not, List, [], ◌∷◌, ◌++◌, map, Bool-cases, inl, inr,
  arith,
}
use mathlib.Core.List.{append-nil}
use tmsxx_tc.Database.{holds, filter, masked}
use tmsxx_tc.Database.Rows.{holds-masked, Remains}
use tmsxx_tc.Routes.{TdbRoute, renumber, by_all}

-- A row without its number, which an insertion does not write.
abbrev pub forget : TdbRoute → TdbRoute
forget r = renumber 0 r

-- `b` is `a` with these rows behind it, under numbers of their own.
abbrev pub Extends : List TdbRoute → List TdbRoute → List TdbRoute → Type 0
Extends a rows b = (new : List TdbRoute) × (b ≡ a ++ new) × (map forget new ≡ map forget rows)

-- A row has the values of `c` in the columns that `m` selects.
abbrev pub Agrees : TdbRoute → TdbRoute → TdbRoute → Type 0
Agrees c m r =
    (m.id ≢ 0 → r.id ≡ c.id)
    × (m.ip_src ≢ 0 → r.ip_src ≡ c.ip_src)
    × (m.ip_dst ≢ 0 → r.ip_dst ≡ c.ip_dst)
    × (m.frame_a ≢ 0 → r.frame_a ≡ c.frame_a)
    × (m.slot_a ≢ 0 → r.slot_a ≡ c.slot_a)
    × (m.type_a ≢ 0 → r.type_a ≡ c.type_a)
    × (m.port_a ≢ 0 → r.port_a ≡ c.port_a)
    × (m.frame_b ≢ 0 → r.frame_b ≡ c.frame_b)
    × (m.slot_b ≢ 0 → r.slot_b ≡ c.slot_b)
    × (m.type_b ≢ 0 → r.type_b ≡ c.type_b)
    × (m.port_b ≢ 0 → r.port_b ≡ c.port_b)

pub holds-masked_last :
    (column : TdbRoute → ℕ) (c m r : TdbRoute)
    → (holds (masked column c m) r ≡ true) ↔ (column m ≢ 0 → column r ≡ column c)
holds-masked_last column c m r =
    let e = holds-masked column c m r [] in
    subst (λ l. (holds l r ≡ true) ↔ (column m ≢ 0 → column r ≡ column c))
      (append-nil (masked column c m)) ((λ h. (e.0 h).0), (λ h. e.1 (h, refl)))

pub holds-Agrees : (c m r : TdbRoute) → (holds (by_all c m) r ≡ true) ↔ Agrees c m r
holds-Agrees c m r =
    let h0 = holds-masked TdbRoute.id c m r (
      masked TdbRoute.ip_src c m
      ++ (masked TdbRoute.ip_dst c m
          ++ (masked TdbRoute.frame_a c m
              ++ (masked TdbRoute.slot_a c m
                  ++ (masked TdbRoute.type_a c m
                      ++ (masked TdbRoute.port_a c m
                          ++ (masked TdbRoute.frame_b c m
                              ++ (masked TdbRoute.slot_b c m
                                  ++ (masked TdbRoute.type_b c m
                                      ++ (masked TdbRoute.port_b c m)))))))))) in
    let h1 = holds-masked TdbRoute.ip_src c m r (
      masked TdbRoute.ip_dst c m
      ++ (masked TdbRoute.frame_a c m
          ++ (masked TdbRoute.slot_a c m
              ++ (masked TdbRoute.type_a c m
                  ++ (masked TdbRoute.port_a c m
                      ++ (masked TdbRoute.frame_b c m
                          ++ (masked TdbRoute.slot_b c m
                              ++ (masked TdbRoute.type_b c m
                                  ++ (masked TdbRoute.port_b c m))))))))) in
    let h2 = holds-masked TdbRoute.ip_dst c m r (
      masked TdbRoute.frame_a c m
      ++ (masked TdbRoute.slot_a c m
          ++ (masked TdbRoute.type_a c m
              ++ (masked TdbRoute.port_a c m
                  ++ (masked TdbRoute.frame_b c m
                      ++ (masked TdbRoute.slot_b c m
                          ++ (masked TdbRoute.type_b c m ++ (masked TdbRoute.port_b c m)))))))) in
    let h3 = holds-masked TdbRoute.frame_a c m r (
      masked TdbRoute.slot_a c m
      ++ (masked TdbRoute.type_a c m
          ++ (masked TdbRoute.port_a c m
              ++ (masked TdbRoute.frame_b c m
                  ++ (masked TdbRoute.slot_b c m
                      ++ (masked TdbRoute.type_b c m ++ (masked TdbRoute.port_b c m))))))) in
    let h4 = holds-masked TdbRoute.slot_a c m r (
      masked TdbRoute.type_a c m
      ++ (masked TdbRoute.port_a c m
          ++ (masked TdbRoute.frame_b c m
              ++ (masked TdbRoute.slot_b c m
                  ++ (masked TdbRoute.type_b c m ++ (masked TdbRoute.port_b c m)))))) in
    let h5 = holds-masked TdbRoute.type_a c m r (
      masked TdbRoute.port_a c m
      ++ (masked TdbRoute.frame_b c m
          ++ (masked TdbRoute.slot_b c m
              ++ (masked TdbRoute.type_b c m ++ (masked TdbRoute.port_b c m))))) in
    let h6 = holds-masked TdbRoute.port_a c m r (
      masked TdbRoute.frame_b c m
      ++ (masked TdbRoute.slot_b c m
          ++ (masked TdbRoute.type_b c m ++ (masked TdbRoute.port_b c m)))) in
    let h7 = holds-masked TdbRoute.frame_b c m r (
      masked TdbRoute.slot_b c m ++ (masked TdbRoute.type_b c m ++ (masked TdbRoute.port_b c m))) in
    let h8 =
      holds-masked TdbRoute.slot_b c m r
        (masked TdbRoute.type_b c m ++ (masked TdbRoute.port_b c m)) in
    let h9 = holds-masked TdbRoute.type_b c m r (masked TdbRoute.port_b c m) in
    let h10 = holds-masked_last TdbRoute.port_b c m r in
    (
      (λ h.
          let x0 = h0.0 h in
          let x1 = h1.0 x0.1 in
          let x2 = h2.0 x1.1 in
          let x3 = h3.0 x2.1 in
          let x4 = h4.0 x3.1 in
          let x5 = h5.0 x4.1 in
          let x6 = h6.0 x5.1 in
          let x7 = h7.0 x6.1 in
          let x8 = h8.0 x7.1 in
          let x9 = h9.0 x8.1 in
          (x0.0, x1.0, x2.0, x3.0, x4.0, x5.0, x6.0, x7.0, x8.0, x9.0, h10.0 x9.1)),
      (λ g. h0.1 (
        g.0,
        h1.1 (
          g.1,
          h2.1 (
            g.2,
            h3.1 (
              g.3,
              h4.1 (g.4, h5.1 (g.5, h6.1 (g.6, h7.1 (g.7, h8.1 (g.8, h9.1 (g.9, h10.1 g.10)))))),
            ),
          ),
        ),
      )),
    )

-- A row agrees with one of the conditions.
abbrev pub AgreesAny : List TdbRoute → TdbRoute → TdbRoute → Type 0
AgreesAny [] m r = ⊥
AgreesAny (c ∷ cs) m r = Agrees c m r ⊎ AgreesAny cs m r

pub Remains-none : (m : TdbRoute) (l : List TdbRoute) → Remains (AgreesAny [] m) l l
Remains-none m [] = Remains.done
Remains-none m (r ∷ l) = Remains.kept r (λ h. h) (Remains-none m l)

pub Remains-filter :
    (c m : TdbRoute) (l : List TdbRoute)
    → Remains (Agrees c m) l (filter (λ r. not (holds (by_all c m) r)) l)
Remains-filter c m [] = Remains.done
Remains-filter c m (r ∷ l) =
    let ih = Remains-filter c m l in
    let e = holds-Agrees c m r in
    elim (Bool-cases (holds (by_all c m) r)) [
      | inl t ↦ rw (t) (Remains.gone r (e.0 t) ih)
      | inr t ↦ rw (t) (Remains.kept r (λ a. ground (arith, t, e.1 a)) ih)
    ]

pub Remains-trans :
    (c : TdbRoute) (cs : List TdbRoute) (m : TdbRoute) {x y z : List TdbRoute}
    → Remains (Agrees c m) x y
    → Remains (AgreesAny cs m) y z
    → Remains (AgreesAny (c ∷ cs) m) x z
Remains-trans c cs m (Remains.done) (Remains.done) = Remains.done
Remains-trans c cs m (Remains.gone r p h) k = Remains.gone r (inl p) (Remains-trans c cs m h k)
Remains-trans c cs m (Remains.kept r p h) (Remains.gone s q k) =
    Remains.gone r (inr q) (Remains-trans c cs m h k)
Remains-trans c cs m (Remains.kept r p h) (Remains.kept s q k) =
    Remains.kept r (λ d. elim d [ inl a ↦ p a | inr a ↦ q a ]) (Remains-trans c cs m h k)
