-- ===== src/BipBuffer/Queue.antt =====
-- What a client may expect of osnet/bipbuffer.c: a queue of bytes.
use tmsxx_tc.Prelude.{ℕ, List, [], ◌∷◌, ◌++◌, drop}

pub data Op : Type 0 where
  put : List ℕ → Op
  get : ℕ → Op

unfoldable pub step : List ℕ → Op → List ℕ
step q (put xs) = q ++ xs
step q (get n) = drop n q

unfoldable pub run : List ℕ → List Op → List ℕ
run q [] = q
run q (op ∷ ops) = run (step q op) ops
