-- ===== src/Routes/Renumbered.antt =====
-- What a line keeps under new numbers.
use tmsxx_tc.Prelude.{
  suc, ◌≡◌, refl, sym, ap, ◌∙◌, subst, Bool, List, [], ◌∷◌, ◌++◌, map, length, Bool-cases, inl, inr,
  arith,
}
use tmsxx_tc.Database.{filter}
use tmsxx_tc.Routes.{TdbRoute}
use tmsxx_tc.Routes.Places.{
  Place, place_a, place_b, IsPath, AvoidsEnd, AreDistinct, AreSmall, IsSmall,
}
use tmsxx_tc.Routes.Agreement.{forget}
use tmsxx_tc.Routes.Starts.{AvoidsStart, AvoidsStarts, AreTyped}

-- What a line keeps under new numbers.
abbrev pub IsTail : Place → List TdbRoute → Type 0
IsTail p rows = IsPath p rows × AreDistinct rows × AreTyped rows × AreSmall rows

pub AvoidsEnd-forget :
    (p : Place) (xs ys : List TdbRoute)
    → map forget xs ≡ map forget ys
    → AvoidsEnd p ys
    → AvoidsEnd p xs
AvoidsEnd-forget p [] ys e h = tt
AvoidsEnd-forget p (x ∷ xs) [] e h = absurd (cc)
AvoidsEnd-forget p (x ∷ xs) (y ∷ ys) e h =
    let f : forget x ≡ forget y = cc in
    ((λ q. h.0 (sym (ap place_b f) ∙ q)), AvoidsEnd-forget p xs ys (cc) h.1)

pub IsTail-forget :
    (p : Place) (xs ys : List TdbRoute) → map forget xs ≡ map forget ys → IsTail p ys → IsTail p xs
IsTail-forget p [] [] e h = h
IsTail-forget p [] (y ∷ ys) e h = absurd (cc)
IsTail-forget p (x ∷ xs) [] e h = absurd (cc)
IsTail-forget p (x ∷ xs) (y ∷ ys) e h =
    let f : forget x ≡ forget y = cc in
    let g : map forget xs ≡ map forget ys = cc in
    let b = ap place_b f in
    let ih = IsTail-forget (place_b y) xs ys g (h.0.1, h.1.1, h.2.1, h.3.1) in
    (
      (ap place_a f ∙ h.0.0, subst (λ q. IsPath q xs) (sym b) ih.0),
      (subst (λ q. AvoidsEnd q xs) (sym b) (AvoidsEnd-forget (place_b y) xs ys g h.1.0), ih.1),
      ((λ q. h.2.0 (ap TdbRoute.type_a (sym f) ∙ q)), ih.2),
      (subst IsSmall (sym f) h.3.0, ih.3),
    )

pub AvoidsStarts-forget :
    (xs ys rows : List TdbRoute)
    → map forget xs ≡ map forget ys
    → AvoidsStarts ys rows
    → AvoidsStarts xs rows
AvoidsStarts-forget [] ys rows e h = tt
AvoidsStarts-forget (x ∷ xs) [] rows e h = absurd (cc)
AvoidsStarts-forget (x ∷ xs) (y ∷ ys) rows e h =
    let f : forget x ≡ forget y = cc in
    (
      subst (λ q. AvoidsStart q rows) (sym (ap place_a f)) h.0,
      AvoidsStarts-forget xs ys rows (cc) h.1,
    )

pub length-forget : (xs ys : List TdbRoute) → map forget xs ≡ map forget ys → length xs ≡ length ys
length-forget [] [] e = refl
length-forget [] (y ∷ ys) e = absurd (cc)
length-forget (x ∷ xs) [] e = absurd (cc)
length-forget (x ∷ xs) (y ∷ ys) e = ap suc (length-forget xs ys (cc))

pub filter-append_nil :
    (p : TdbRoute → Bool) (xs ys : List TdbRoute)
    → filter p xs ≡ []
    → filter p (xs ++ ys) ≡ filter p ys
filter-append_nil p [] ys e = refl
filter-append_nil p (x ∷ xs) ys e = elim (Bool-cases (p x)) [
  | inl t ↦ absurd (ground (arith, t, e))
  | inr t ↦ ground (arith, t, filter-append_nil p xs ys (ground (arith, t, e)))
]
