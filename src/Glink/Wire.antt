-- ===== src/Glink/Wire.antt =====
-- Values in memory on the little-endian target, and the byte order of the network: what
-- protocol/glink.c uses of <arpa/inet.h>.
use tmsxx_tc.Prelude.{
  ℕ, zero, suc, ◌+◌, ◌*◌, ◌/◌, ◌%◌, ◌^◌, ◌<◌, ◌≡◌, refl, ap, ◌∙◌, List, [], ◌∷◌, ◌++◌, arith,
  length, take, get_or,
}

-- `htonl` and `htons` exchange the bytes of a word.
unfoldable pub htonl : ℕ → ℕ
htonl v =
    v % 2 ^ 8 * 2 ^ 24
    + v / 2 ^ 8 % 2 ^ 8 * 2 ^ 16
    + v / 2 ^ 16 % 2 ^ 8 * 2 ^ 8
    + v / 2 ^ 24 % 2 ^ 8

unfoldable pub htons : ℕ → ℕ
htons v = v % 2 ^ 8 * 2 ^ 8 + v / 2 ^ 8 % 2 ^ 8

-- The bytes of a stored `uint32_t` and `uint16_t`, in the order of their addresses.
unfoldable pub store32 : ℕ → List ℕ
store32 v = v % 2 ^ 8 ∷ v / 2 ^ 8 % 2 ^ 8 ∷ v / 2 ^ 16 % 2 ^ 8 ∷ v / 2 ^ 24 % 2 ^ 8 ∷ []

unfoldable pub store16 : ℕ → List ℕ
store16 v = v % 2 ^ 8 ∷ v / 2 ^ 8 % 2 ^ 8 ∷ []

-- The `uint32_t` at index `i`.
unfoldable pub load32 : List ℕ → ℕ → ℕ
load32 bs i =
    get_or bs i 0
    + get_or bs (i + 1) 0 * 2 ^ 8
    + get_or bs (i + 2) 0 * 2 ^ 16
    + get_or bs (i + 3) 0 * 2 ^ 24

pub htonl-htonl : (v : ℕ) → v < 2 ^ 32 → htonl (htonl v) ≡ v
unfolding htonl
htonl-htonl v h = omega arith

pub htonl-lt : (v : ℕ) → htonl v < 2 ^ 32
unfolding htonl
htonl-lt v = omega arith

pub length-store32 : (v : ℕ) → length (store32 v) ≡ 4
unfolding store32
length-store32 v = refl

pub get_or-append_ge :
    (xs ys : List ℕ) (i : ℕ) → get_or (xs ++ ys) (length xs + i) 0 ≡ get_or ys i 0
get_or-append_ge [] ys i = ap (λ k. get_or ys k 0) (omega arith)
get_or-append_ge (x ∷ xs) ys i =
    ap (λ k. get_or (x ∷ xs ++ ys) k 0) {x = length (x ∷ xs) + i} {y = suc (length xs + i)}
      (omega arith)
    ∙ get_or-append_ge xs ys i

-- A word stored behind `n` bytes is read back there.
pub load32-store32 :
    (xs ys : List ℕ) (n v : ℕ) → length xs ≡ n → v < 2 ^ 32 → load32 (xs ++ (store32 v ++ ys)) n ≡ v
unfolding load32 store32
load32-store32 xs ys n v e h = ground (
  arith,
  get_or-append_ge xs (store32 v ++ ys) 0,
  get_or-append_ge xs (store32 v ++ ys) 1,
  get_or-append_ge xs (store32 v ++ ys) 2,
  get_or-append_ge xs (store32 v ++ ys) 3,
)

get_or-take : (k : ℕ) (bs : List ℕ) (i : ℕ) → i < k → get_or (take k bs) i 0 ≡ get_or bs i 0
get_or-take zero bs i h = absurd (omega arith)
get_or-take (suc k) [] i h = refl
get_or-take (suc k) (b ∷ bs) zero h = refl
get_or-take (suc k) (b ∷ bs) (suc i) h = get_or-take k bs i (omega arith)

pub load32-take : (k : ℕ) (bs : List ℕ) (i : ℕ) → i + 3 < k → load32 (take k bs) i ≡ load32 bs i
unfolding load32
load32-take k bs i h = omega (
  arith,
  get_or-take k bs i,
  get_or-take k bs (i + 1),
  get_or-take k bs (i + 2),
  get_or-take k bs (i + 3),
)
