-- ===== src/Routes/Places.antt =====
-- Places, and what makes a line of routes of them.
use tmsxx_tc.Prelude.{ℕ, ◌^◌, ◌≤◌, ◌<◌, ◌≡◌, ◌≢◌, ◌↔◌, ap, true, List, [], ◌∷◌, length, arith}
use tmsxx_tc.Prelude.Words.{add32}
use tmsxx_tc.Routes.{TdbRoute, sum_a, sum_b, is_joined, is_same_end}

-- A place: a frame, a slot, a type and a port.
pub record Place : Type 0 where
  pub frame : ℕ
  pub slot : ℕ
  pub kind : ℕ
  pub port : ℕ

abbrev pub nowhere : Place
nowhere = record { frame = 0; slot = 0; kind = 0; port = 0 }

abbrev pub place_a : TdbRoute → Place
place_a r = record { frame = r.frame_a; slot = r.slot_a; kind = r.type_a; port = r.port_a }

abbrev pub place_b : TdbRoute → Place
place_b r = record { frame = r.frame_b; slot = r.slot_b; kind = r.type_b; port = r.port_b }

-- The rows lead from a place to nowhere, each from where the one before it ends.
abbrev pub IsPath : Place → List TdbRoute → Type 0
IsPath p [] = p ≡ nowhere
IsPath p (r ∷ rs) = (place_a r ≡ p) × IsPath (place_b r) rs

-- No row ends at a place.
abbrev pub AvoidsEnd : Place → List TdbRoute → Type 0
AvoidsEnd p [] = Unit {0}
AvoidsEnd p (r ∷ rs) = (place_b r ≢ p) × AvoidsEnd p rs

-- No two rows have the same end.
abbrev pub AreDistinct : List TdbRoute → Type 0
AreDistinct [] = Unit {0}
AreDistinct (r ∷ rs) = AvoidsEnd (place_b r) rs × AreDistinct rs

-- A line 0--a, a--b, ..., d--0 through different places.
abbrev pub IsLine : List TdbRoute → Type 0
IsLine rows = (2 ≤ length rows) × IsPath nowhere rows × AreDistinct rows

-- Fields so small that their sums do not wrap.
abbrev pub IsSmall : TdbRoute → Type 0
IsSmall r =
    (r.frame_a < 2 ^ 29)
    × (r.slot_a < 2 ^ 29)
    × (r.type_a < 2 ^ 29)
    × (r.port_a < 2 ^ 29)
    × (r.frame_b < 2 ^ 29)
    × (r.slot_b < 2 ^ 29)
    × (r.type_b < 2 ^ 29)
    × (r.port_b < 2 ^ 29)

abbrev pub AreSmall : List TdbRoute → Type 0
AreSmall [] = Unit {0}
AreSmall (r ∷ rs) = IsSmall r × AreSmall rs

pub place_path :
    (p q : Place) → p.frame ≡ q.frame → p.slot ≡ q.slot → p.kind ≡ q.kind → p.port ≡ q.port → p ≡ q
place_path p q e f g h = cc

pub sum_a_iff : (r : TdbRoute) → IsSmall r → (sum_a r ≡ 0) ↔ (place_a r ≡ nowhere)
unfolding add32
sum_a_iff r h = (
  (λ e. place_path (place_a r) nowhere (omega arith) (omega arith) (omega arith) (omega arith)),
  (λ e.
      let x = ap Place.frame e in
      let y = ap Place.slot e in let z = ap Place.kind e in let w = ap Place.port e in omega arith),
)

pub sum_b_iff : (r : TdbRoute) → IsSmall r → (sum_b r ≡ 0) ↔ (place_b r ≡ nowhere)
unfolding add32
sum_b_iff r h = (
  (λ e. place_path (place_b r) nowhere (omega arith) (omega arith) (omega arith) (omega arith)),
  (λ e.
      let x = ap Place.frame e in
      let y = ap Place.slot e in let z = ap Place.kind e in let w = ap Place.port e in omega arith),
)

pub sum_ab_iff :
    (r s : TdbRoute)
    → IsSmall r
    → IsSmall s
    → (add32 (sum_a r) (sum_b s) ≡ 0) ↔ ((sum_a r ≡ 0) × (sum_b s ≡ 0))
unfolding add32
sum_ab_iff r s h k = ((λ e. (omega arith, omega arith)), (λ e. omega arith))

pub is_joined_iff : (r s : TdbRoute) → (is_joined r s ≡ true) ↔ (place_a s ≡ place_b r)
is_joined_iff r s = (
  (λ e.
      place_path (place_a s) (place_b r) (ground arith) (ground arith) (ground arith)
        (ground arith)),
  (λ e.
      let x = ap Place.frame e in
      let y = ap Place.slot e in
      let z = ap Place.kind e in let w = ap Place.port e in ground arith),
)

pub is_same_end_iff : (r s : TdbRoute) → (is_same_end r s ≡ true) ↔ (place_b s ≡ place_b r)
is_same_end_iff r s = (
  (λ e.
      place_path (place_b s) (place_b r) (ground arith) (ground arith) (ground arith)
        (ground arith)),
  (λ e.
      let x = ap Place.frame e in
      let y = ap Place.slot e in
      let z = ap Place.kind e in let w = ap Place.port e in ground arith),
)
