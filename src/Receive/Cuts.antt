-- ===== src/Receive/Cuts.antt =====
-- A stream of frames that arrives in pieces (src/ep_app.c, `epFUI_OnRecv`).
use mathlib.Core.List.{append_assoc}
use tmsxx_tc.Prelude.{
  ℕ, ◌+◌, ◌-◌, ◌^◌, ◌≤◌, ◌<◌, ◌≡◌, refl, sym, ap, ◌∙◌, subst, Bool-cases, leb, inl, inr, some, List,
  [], ◌∷◌, ◌++◌, map, length, length-append, take, take-all, take-append-drop, drop, arith,
}
use tmsxx_tc.Prelude.Blocks.{take-append_le, drop-append_le, drop-append_ge}
use tmsxx_tc.BipBuffer.{contents}
use tmsxx_tc.BipBuffer.Room.{room}
use tmsxx_tc.Glink.Find.{length-sent}
use tmsxx_tc.Receive.{TmsxxApp, on_recv}
use tmsxx_tc.Receive.Frames.{Sent, frame, stream, IsTail, IsPlain, AreConfined}
use tmsxx_tc.Receive.Stream.{taken, committed, on_recv-stream}

-- Every frame is no longer than the buffer.
abbrev pub AreFitting : List Sent → Type 0
AreFitting [] = Unit {0}
AreFitting (s ∷ ss) = (40 + length s.payload ≤ 30000) × AreFitting ss

-- The bytes do not reach the end of the first of these frames.
abbrev pub IsShort : List ℕ → List Sent → Type 0
IsShort tail [] = tail ≡ []
IsShort tail (s ∷ ss) = length tail < 40 + length s.payload

pub record Cut (ss : List Sent) (xs later : List ℕ) : Type 0 where
  pub whole : List Sent
  pub coming : List Sent
  pub tail : List ℕ
  pub all : ss ≡ whole ++ coming
  pub front : xs ≡ stream whole tail
  pub is_tail : IsTail tail
  pub joined : tail ++ later ≡ stream coming []
  pub is_short : IsShort tail coming

length_frame : (s : Sent) → length (frame s) ≡ 40 + length s.payload
length_frame s =
    omega (arith, length-sent (λ i. 0) s.base s.cmdid s.payload [], length-append (frame s) [])

nothing : (xs ys : List ℕ) → xs ++ ys ≡ [] → xs ≡ []
nothing [] ys e = refl
nothing (x ∷ xs) ys e = absurd (omega (arith, ap length e))

module _ (s : Sent) (ss : List Sent) (xs later : List ℕ)
    (e : xs ++ later ≡ frame s ++ stream ss []) where
  -- The first frame is there.
  first_there : 40 + length s.payload ≤ length xs → xs ≡ frame s ++ drop (length (frame s)) xs
  first_there h =
      sym (take-append-drop (length (frame s)) xs)
      ∙ ap (λ ys. ys ++ drop (length (frame s)) xs)
          (sym (take-append_le (length (frame s)) xs later (omega (arith, h, length_frame s)))
            ∙ ap (take (length (frame s))) e
            ∙ take-append_le (length (frame s)) (frame s) (stream ss []) (omega arith)
            ∙ take-all (length (frame s)) (frame s) (omega arith))

  rest_there :
      40 + length s.payload ≤ length xs → drop (length (frame s)) xs ++ later ≡ stream ss []
  rest_there h =
      sym (drop-append_le (length (frame s)) xs later (omega (arith, h, length_frame s)))
      ∙ ap (drop (length (frame s))) e
      ∙ drop-append_ge (length (frame s)) (frame s) (stream ss []) (omega arith)
      ∙ ap (λ n. drop n (stream ss [])) {x = length (frame s) - length (frame s)} {y = 0}
          (omega arith)

  -- It is not.
  first_part : length xs < 40 + length s.payload → xs ≡ take (length xs) (frame s ++ [])
  first_part h =
      sym (take-all (length xs) xs (omega arith))
      ∙ sym (take-append_le (length xs) xs later (omega arith))
      ∙ ap (take (length xs)) e
      ∙ take-append_le (length xs) (frame s) (stream ss []) (omega (arith, h, length_frame s))
      ∙ sym (take-append_le (length xs) (frame s) [] (omega (arith, h, length_frame s)))

pub cut :
    (ss : List Sent) (xs later : List ℕ)
    → AreFitting ss
    → xs ++ later ≡ stream ss []
    → Cut ss xs later
cut [] xs later f e = record {
  whole = [];
  coming = [];
  tail = xs;
  all = refl;
  front = refl;
  is_tail = inl (omega (arith, ap length (nothing xs later e)));
  joined = e;
  is_short = nothing xs later e;
}
cut (s ∷ ss) xs later f e = elim (Bool-cases (leb (40 + length s.payload) (length xs))) [
  | inl h ↦
      let c =
        cut ss (drop (length (frame s)) xs) later f.1
          (rest_there s ss xs later e (ground (arith, h))) in
      record {
        whole = s ∷ c.whole;
        coming = c.coming;
        tail = c.tail;
        all = ap (◌∷◌ s) c.all;
        front = first_there s ss xs later e (ground (arith, h)) ∙ ap (◌++◌ (frame s)) c.front;
        is_tail = c.is_tail;
        joined = c.joined;
        is_short = c.is_short;
      }
  | inr h ↦ record {
    whole = [];
    coming = s ∷ ss;
    tail = xs;
    all = refl;
    front = refl;
    is_tail = elim (Bool-cases (leb 40 (length xs))) [
      | inl low ↦ inr (
        s,
        record {
          low = ground (arith, low);
          high = ground (arith, h);
          fits = f.0;
          part = first_part s ss xs later e (ground (arith, h));
        },
      )
      | inr few ↦ inl (ground (arith, few))
    ];
    joined = e;
    is_short = ground (arith, h);
  }
]

AreConfined-front :
    (analyse : List ℕ → ℕ → ℕ → List ℕ) (ss rs : List Sent)
    → AreConfined analyse (ss ++ rs)
    → AreConfined analyse ss
AreConfined-front analyse [] rs h = tt
AreConfined-front analyse (s ∷ ss) rs h = (h.0, AreConfined-front analyse ss rs h.1)

shorter : (ss rs : List Sent) (n : ℕ) → length (ss ++ rs) < n → length ss < n
shorter ss rs n h = omega (arith, h, length-append ss rs)

module _ (malloc : ℕ → ℕ) (outside : ℕ → ℕ) (analyse : List ℕ → ℕ → ℕ → List ℕ) (app : TmsxxApp)
    (off : app.enable_lbb ≡ 0) (p : IsPlain app.bb) (pos : 0 < app.morebyte)
    (small : app.morebyte < 2 ^ 31) (placed : 0 < app.bb.p_buffer)
    (low : app.bb.p_buffer + app.bb.buflen < 2 ^ 32) (free : 0 < room app.bb) (bs : List ℕ) where
  -- The bytes that the call takes in.
  abbrev here : List ℕ
  here = taken malloc outside analyse app off p pos small placed low free bs

  -- Let the bytes in the buffer of a connection, those that a call of on_recv takes in and those
  -- still to come be a stream of frames of build, each at most 30000 bytes. The call ends after at
  -- most one turn more than there are frames and returns the number of bytes taken in; it hands on
  -- the first frames of the stream, in order and unchanged; the bytes left in the buffer with
  -- those to come are the stream of the other frames, and do not reach the end of the first of
  -- these. This holds where the analyser of each frame of the stream, wherever the frame stands in
  -- the storage, writes over no byte behind it, and while what is in the buffer and what joins it
  -- is in block A, for a well-formed buffer with room that lies above 0 and below 2^32, a positive
  -- morebyte below 2^31, and no large frame under way; afterwards the buffer is well formed, its
  -- bytes are in block A, and no large frame is under way.
  pub on_recv-piece :
      (ss : List Sent) (later : List ℕ) (fuel : ℕ)
      → AreFitting ss
      → (committed malloc outside analyse app off p pos small placed low free bs).szb ≡ 0
      → contents app.bb ++ (here ++ later) ≡ stream ss []
      → length ss < fuel
      → AreConfined analyse ss
      → (whole : List Sent) × (coming : List Sent) × (app' : TmsxxApp) × ((ss ≡ whole ++ coming)
          × ((on_recv malloc outside analyse fuel app (some bs)
                ≡ (length here, some (app', map frame whole)))
              × ((contents app'.bb ++ later ≡ stream coming [])
                  × (IsShort (contents app'.bb) coming
                      × (IsPlain app'.bb × (app'.enable_lbb ≡ 0))))))
  on_recv-piece ss later fuel f one e h k =
      let c =
        cut ss (contents app.bb ++ here) later f (append_assoc (contents app.bb) here later ∙ e) in
      let r =
        on_recv-stream malloc outside analyse app off p pos small placed low free bs c.whole c.tail
          fuel c.is_tail one c.front
          (shorter c.whole c.coming fuel (omega (arith, h, ap length c.all)))
          (AreConfined-front analyse c.whole c.coming (subst (AreConfined analyse) c.all k)) in
      (
        c.whole,
        c.coming,
        r.0,
        (
          c.all,
          (
            r.1.0,
            (
              ap (λ xs. xs ++ later) r.1.1.0 ∙ c.joined,
              (subst (λ xs. IsShort xs c.coming) (sym r.1.1.0) c.is_short, r.1.1.1),
            ),
          ),
        ),
      )
