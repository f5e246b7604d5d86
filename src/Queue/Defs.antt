-- ===== src/Queue/Defs.antt =====
-- What a ring buffer promises, in both programs: a first-in first-out queue of at most `cap` bytes.

use ammc.Base.{ℕ, Option, none, some, List, [], ◌∷◌, ◌++◌, length, ◌==◌, if◌then◌else◌, flag}

-- The calls of ringbuffer.h.
pub data Op : Type 0 where
  push : ℕ → Op
  pop flush used is_empty is_full : Op

-- The returned number, and what a call writes through its pointer.
abbrev pub Reply : Type 0
Reply = ℕ × Option ℕ

unfoldable pub pop_oldest : List ℕ → Reply × List ℕ
pop_oldest [] = ((1, none), [])
pop_oldest (x ∷ q) = ((0, some x), q)

unfoldable pub step : ℕ → List ℕ → Op → Reply × List ℕ
unfolding pop_oldest
step cap q (push x) = if length q == cap then ((1, none), q) else ((0, none), q ++ x ∷ [])
step cap q pop = pop_oldest q
step cap q flush = ((0, none), [])
step cap q used = ((length q, none), q)
step cap q is_empty = ((flag (length q == 0), none), q)
step cap q is_full = ((flag (length q == cap), none), q)

-- The replies to a sequence of calls.
unfoldable pub run : ℕ → List ℕ → List Op → List Reply
run cap q [] = []
run cap q (op ∷ ops) = let (reply, q') = step cap q op in reply ∷ run cap q' ops
