-- ===== src/Routes/Starts.antt =====
-- Where the rows of a line start, and which row of a table a search for a place finds first.
use tmsxx_tc.Prelude.{
  ◌≡◌, ◌≢◌, ◌↔◌, refl, sym, ap, ◌∙◌, subst, Bool, true, List, [], ◌∷◌, ◌++◌, Bool-cases, inl, inr,
  arith,
}
use tmsxx_tc.Database.{holds, filter}
use tmsxx_tc.Routes.{TdbRoute, zeros, by_id, by_rest, mask_a}
use tmsxx_tc.Routes.Places.{
  Place, nowhere, place_a, place_b, IsPath, AvoidsEnd, AreDistinct, place_path,
}

-- The place behind which the search goes on, and the rows that it finds there.
abbrev pub at : Place → TdbRoute
at p = record zeros { frame_a = p.frame; slot_a = p.slot; type_a = p.kind; port_a = p.port }

abbrev pub starts : Place → TdbRoute → Bool
starts p r = holds (by_id (at p) mask_a ++ by_rest (at p) mask_a) r

-- No row starts at a place; none starts where one of some rows does.
abbrev pub AvoidsStart : Place → List TdbRoute → Type 0
AvoidsStart p [] = Unit {0}
AvoidsStart p (r ∷ rs) = (place_a r ≢ p) × AvoidsStart p rs

abbrev pub AvoidsStarts : List TdbRoute → List TdbRoute → Type 0
AvoidsStarts [] rows = Unit {0}
AvoidsStarts (q ∷ qs) rows = AvoidsStart (place_a q) rows × AvoidsStarts qs rows

-- The places where rows start have a type.
abbrev pub AreTyped : List TdbRoute → Type 0
AreTyped [] = Unit {0}
AreTyped (r ∷ rs) = (r.type_a ≢ 0) × AreTyped rs

pub starts_iff : (p : Place) (r : TdbRoute) → (starts p r ≡ true) ↔ (place_a r ≡ p)
starts_iff p r = (
  (λ e. place_path (place_a r) p (ground arith) (ground arith) (ground arith) (ground arith)),
  (λ e.
      let x = ap Place.frame e in
      let y = ap Place.slot e in
      let z = ap Place.kind e in let w = ap Place.port e in ground arith),
)

pub filter-starts :
    (p : Place) (rows more : List TdbRoute)
    → AvoidsStart p rows
    → filter (starts p) (rows ++ more) ≡ filter (starts p) more
filter-starts p [] more h = refl
filter-starts p (r ∷ rows) more h =
    let e = starts_iff p r in
    elim (Bool-cases (starts p r)) [
      | inl t ↦ absurd (h.0 (e.0 t))
      | inr t ↦ ground (arith, t, filter-starts p rows more h.1)
    ]

-- The first row of the table that starts where a row of a line does is that row.
abbrev pub AreFound : List TdbRoute → List TdbRoute → Type 0
AreFound rows [] = Unit {0}
AreFound rows (q ∷ qs) =
    ((rest : List TdbRoute) × (filter (starts (place_a q)) rows ≡ q ∷ rest)) × AreFound rows qs

pub AreFound-cons :
    (s : TdbRoute) (rows qs : List TdbRoute)
    → AvoidsStart (place_a s) qs
    → AreFound rows qs
    → AreFound (s ∷ rows) qs
AreFound-cons s rows [] a h = tt
AreFound-cons s rows (q ∷ qs) a ((rest, e), h) =
    let k = starts_iff (place_a q) s in
    elim (Bool-cases (starts (place_a q) s)) [
      | inl t ↦ absurd (a.0 (sym (k.0 t)))
      | inr t ↦ ((rest, ground (arith, t, e)), AreFound-cons s rows qs a.1 h)
    ]

pub AreFound-append :
    (rows more qs : List TdbRoute)
    → AvoidsStarts qs rows
    → AreFound more qs
    → AreFound (rows ++ more) qs
AreFound-append rows more [] a h = tt
AreFound-append rows more (q ∷ qs) a ((rest, e), h) =
    ((rest, filter-starts (place_a q) rows more a.0 ∙ e), AreFound-append rows more qs a.1 h)

-- Where the ends of a path differ from a place, the starts do.
pub AvoidsStart-IsPath :
    (p q : Place) (rows : List TdbRoute)
    → IsPath q rows
    → q ≢ p
    → AvoidsEnd p rows
    → AvoidsStart p rows
AvoidsStart-IsPath p q [] h n a = tt
AvoidsStart-IsPath p q (r ∷ rows) h n a =
    ((λ e. n (sym h.0 ∙ e)), AvoidsStart-IsPath p (place_b r) rows h.1 a.0 a.1)

pub AreFound-self :
    (p : Place) (rows : List TdbRoute)
    → IsPath p rows
    → AvoidsEnd p rows
    → AreDistinct rows
    → AreFound rows rows
AreFound-self p [] h a d = tt
AreFound-self p (r ∷ rows) h a d =
    let ih = AreFound-self (place_b r) rows h.1 d.0 d.1 in
    let q = (starts_iff (place_a r) r).1 refl in
    let n : AvoidsStart (place_a r) rows =
      subst (λ x. AvoidsStart x rows) (sym h.0)
        (AvoidsStart-IsPath p (place_b r) rows h.1 a.0 a.1) in
    ((filter (starts (place_a r)) rows, ground (arith, q)), AreFound-cons r rows rows n ih)

pub AvoidsStart-nowhere : (rows : List TdbRoute) → AreTyped rows → AvoidsStart nowhere rows
AvoidsStart-nowhere [] h = tt
AvoidsStart-nowhere (r ∷ rows) h = ((λ e. h.0 (ap Place.kind e)), AvoidsStart-nowhere rows h.1)
