-- ===== src/Queue/Interface.antt =====
-- A ring buffer as its clients see it, and what follows from its laws alone.
use ammc.Base.{ℕ, ◌≡◌, refl, List, [], ◌∷◌}
use ammc.Queue.Defs.{Op, Reply, step, run}

pub record Implementation : Type 1 where
  pub State : Type 0
  pub IsValid : State → Type 0
  pub capacity : State → ℕ
  pub contents : State → List ℕ
  pub call : State → Op → Reply × State
  pub call-IsValid : (s : State) (op : Op) → IsValid s → IsValid (call s op).1
  pub capacity-call : (s : State) (op : Op) → capacity (call s op).1 ≡ capacity s
  pub call_refines :
      (s : State) (op : Op)
      → IsValid s
      → ((call s op).0, contents (call s op).1) ≡ step (capacity s) (contents s) op

module _ (i : Implementation) where
  open i use {State, IsValid, capacity, contents, call, call-IsValid, capacity-call, call_refines}

  -- The replies of an implementation to a sequence of calls.
  unfoldable pub replies : State → List Op → List Reply
  replies s [] = []
  replies s (op ∷ ops) = (call s op).0 ∷ replies (call s op).1 ops

  pub replies_refine :
      (s : State) (ops : List Op) → IsValid s → replies s ops ≡ run (capacity s) (contents s) ops
  unfolding replies run
  replies_refine s [] v = refl
  replies_refine s (op ∷ ops) v = rw (
    replies_refine (call s op).1 ops (call-IsValid s op v),
    capacity-call s op,
    ← call_refines s op v,
  )
