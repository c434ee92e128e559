-- ===== src/BipBuffer/Run.antt =====
-- The calls that a client of osnet/bipbuffer.c makes, in any order: reserving, receiving into the
-- reservation and committing (as `ep_app.c` does around `recv`), and giving bytes back.
use mathlib.Core.List.{append-nil}
use tmsxx_tc.Prelude.{
  ℕ, ◌^◌, ◌<◌, min, ◌≡◌, refl, sym, ap, ◌∙◌, List, [], ◌∷◌, ◌++◌, length, length-take, take,
  take-all, arith,
}
use tmsxx_tc.BipBuffer.{BipBuffer, contents, reserve, commit, fill, decommit_multi}
use tmsxx_tc.BipBuffer.Valid.{
  IsValid, reserve-IsValid, commit-IsValid, fill-IsValid, decommit_multi-IsValid,
}
use tmsxx_tc.BipBuffer.Fifo.{contents-reserve, contents-commit-fill, contents-decommit_multi}
use tmsxx_tc.BipBuffer.Queue
use tmsxx_tc.BipBuffer.Queue.{Op, put, get}

pub data Event : Type 0 where
  reserves : ℕ → Event
  receives : List ℕ → Event
  consumes : ℕ → Event

-- The bytes of a receipt that the reservation has room for.
abbrev pub received : BipBuffer → List ℕ → List ℕ
received bb xs = take bb.sz_resrv xs

unfoldable pub step : BipBuffer → Event → BipBuffer
step bb (reserves size) = (reserve bb size).0
step bb (receives xs) = commit (fill bb (received bb xs)) (length (received bb xs))
step bb (consumes size) = decommit_multi bb size

unfoldable pub run : BipBuffer → List Event → BipBuffer
run bb [] = bb
run bb (e ∷ es) = run (step bb e) es

-- What the queue sees of an event.
unfoldable pub seen : BipBuffer → Event → Op
seen bb (reserves size) = put []
seen bb (receives xs) = put (received bb xs)
seen bb (consumes size) = get size

unfoldable pub all_seen : BipBuffer → List Event → List Op
all_seen bb [] = []
all_seen bb (e ∷ es) = seen bb e ∷ all_seen (step bb e) es

-- Sizes are not negative as `int`.
abbrev pub IsSized : Event → Type 0
IsSized (reserves size) = size < 2 ^ 31
IsSized (receives xs) = Unit {0}
IsSized (consumes size) = size < 2 ^ 31

abbrev pub AreSized : List Event → Type 0
AreSized [] = Unit {0}
AreSized (e ∷ es) = IsSized e × AreSized es

step-IsValid : {bb : BipBuffer} (e : Event) → IsValid bb → IsSized e → IsValid (step bb e)
unfolding step
step-IsValid (reserves size) v h = reserve-IsValid size v h
step-IsValid {bb} (receives xs) v h =
    commit-IsValid (length (received bb xs)) (fill-IsValid (received bb xs) v)
step-IsValid (consumes size) v h = decommit_multi-IsValid size v

sz_resrv_small : {bb : BipBuffer} → IsValid bb → bb.sz_resrv < 2 ^ 31
sz_resrv_small v = ground (arith, v.pending)

take-received :
    (bb : BipBuffer) (xs : List ℕ)
    → take (min (length (received bb xs)) bb.sz_resrv) (received bb xs) ≡ received bb xs
take-received bb xs =
    take-all (min (length (received bb xs)) bb.sz_resrv) (received bb xs)
      (omega (arith, length-take bb.sz_resrv xs))

step_refines :
    {bb : BipBuffer} (e : Event)
    → IsValid bb
    → IsSized e
    → contents (step bb e) ≡ Queue.step (contents bb) (seen bb e)
unfolding step Queue.step seen
step_refines {bb} (reserves size) v h = contents-reserve bb size ∙ sym (append-nil (contents bb))
step_refines {bb} (receives xs) v h =
    contents-commit-fill (received bb xs) (length (received bb xs)) v
      (omega (arith, length-take bb.sz_resrv xs, sz_resrv_small v))
      (omega (arith, length-take bb.sz_resrv xs)) (omega arith)
    ∙ ap (λ ys. contents bb ++ ys) (take-received bb xs)
step_refines (consumes size) v h = contents-decommit_multi size v h

-- Every sequence of reserving, receiving and taking (sizes below 2^31) keeps the buffer well
-- formed.
pub run-IsValid :
    (es : List Event) {bb : BipBuffer} → IsValid bb → AreSized es → IsValid (run bb es)
unfolding run
run-IsValid [] v h = v
run-IsValid (e ∷ es) v h = run-IsValid es (step-IsValid e v h.0) h.1

-- From a well-formed buffer, whatever sequence of reserving, receiving and taking is run (sizes
-- below 2^31), the bytes in the buffer are those of the queue on which each reception puts what
-- was taken in behind and each taking drops from the front; a reservation changes nothing.
pub run_refines :
    (es : List Event) {bb : BipBuffer}
    → IsValid bb
    → AreSized es
    → contents (run bb es) ≡ Queue.run (contents bb) (all_seen bb es)
unfolding run Queue.run all_seen
run_refines [] v h = refl
run_refines (e ∷ es) {bb} v h =
    run_refines es (step-IsValid e v h.0) h.1
    ∙ ap (λ q. Queue.run q (all_seen (step bb e) es)) (step_refines e v h.0)
