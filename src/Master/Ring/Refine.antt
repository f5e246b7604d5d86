-- ===== src/Master/Ring/Refine.antt =====
-- A valid ring behaves as the bounded queue of the bytes that it holds.
use native.Mathlib.Decide.{ℕ_discrete}
use ammc.Base.{
  ℕ, suc, ◌+◌, ◌%◌, ◌<◌, ◌≡◌, ◌≢◌, ◌⊎◌, inl, inr, refl, sym, ap, ◌∙◌, none, some, List, [], ◌∷◌,
  ◌++◌, length, get_or, set, ◌==◌, flag, get_elem?-eq-get_or, arith,
}
use ammc.Cyclic.{
  held, length-collect, held-set, held-tail, distance, distance-lt, add-distance, distance_next,
  distance_closes, distance_pred, distance_next_self, distance_self, distance_zero,
}
use ammc.Queue.{Op, Reply}
use ammc.Queue.Defs.{
  push as put, pop as get, flush as clear, used as count, is_empty as empty?, is_full as full?,
  step, pop_oldest, run,
}
use ammc.Queue.Interface.{Implementation, replies, replies_refine}
use ammc.Master.Ring.{Ring, used, is_empty, is_full, pop, push, flush}
use ammc.Master.Ring.Valid.{IsValid, push-IsValid, pop-IsValid, flush-IsValid}

abbrev pub contents : Ring → List ℕ
contents rb = held rb.base rb.size rb.first (used rb)

pub length-contents : (rb : Ring) → length (contents rb) ≡ used rb
length-contents rb = length-collect _ (used rb)

pub used_full : (rb : Ring) → rb.full ≡ 1 → used rb ≡ rb.size
unfolding used
used_full rb e = ground arith

pub used_part : (rb : Ring) → IsValid rb → rb.full ≡ 0 → used rb ≡ distance rb.size rb.first rb.last
unfolding used
used_part rb v e = ground (arith, distance-lt rb.size rb.first rb.last v.first_in v.last_in)

-- A ring that is not full has room for the byte.
push_part :
    (rb : Ring) (x : ℕ)
    → IsValid rb
    → rb.full ≡ 0
    → ((push rb x).0 ≡ 0)
      × (used rb < rb.size)
      × ((push rb x).1.base ≡ set rb.base rb.last x)
      × ((push rb x).1.first ≡ rb.first)
      × ((push rb x).1.size ≡ rb.size)
      × (used (push rb x).1 ≡ suc (used rb))
unfolding push used
push_part rb x v e = ground (
  arith,
  distance-lt rb.size rb.first rb.last v.first_in v.last_in,
  distance_next rb.size rb.first rb.last v.first_in v.last_in,
  distance_closes rb.size rb.first rb.last v.first_in v.last_in,
)

pop-some :
    (rb : Ring)
    → IsValid rb
    → (rb.full ≡ 1) ⊎ (rb.first ≢ rb.last)
    → ((pop rb).0 ≡ 0)
      × ((pop rb).1 ≡ some (get_or rb.base rb.first 0))
      × ((pop rb).2.base ≡ rb.base)
      × ((pop rb).2.first ≡ (rb.first + 1) % rb.size)
      × ((pop rb).2.size ≡ rb.size)
      × (suc (used (pop rb).2) ≡ used rb)
unfolding pop used
pop-some rb v e = ground (
  arith,
  get_elem?-eq-get_or rb.base rb.first 0 (omega arith),
  distance-lt rb.size rb.first rb.last v.first_in v.last_in,
  distance-lt rb.size ((rb.first + 1) % rb.size) rb.last (omega arith) v.last_in,
  distance_pred rb.size rb.first rb.last v.first_in v.last_in,
  distance_next_self rb.size rb.first v.least v.first_in,
)

-- A call by its name in ringbuffer.h.
unfoldable pub call : Ring → Op → Reply × Ring
call rb (put x) = let (code, rb') = push rb x in ((code, none), rb')
call rb get = let (code, dest, rb') = pop rb in ((code, dest), rb')
call rb clear = ((0, none), flush rb)
call rb count = ((used rb, none), rb)
call rb empty? = ((is_empty rb, none), rb)
call rb full? = ((is_full rb, none), rb)

pub contents-push :
    (rb : Ring) (x : ℕ) → IsValid rb → rb.full ≡ 0 → contents (push rb x).1 ≡ contents rb ++ x ∷ []
contents-push rb x v e =
    let facts = push_part rb x v e in
    rw (facts.2, facts.3, facts.4, facts.5)
      (held-set rb.base rb.size rb.first (used rb) rb.last x v.fits v.first_in facts.1
        (add-distance rb.size rb.first rb.last v.first_in v.last_in
          ∙ ap (λ n. (rb.first + n) % rb.size) (sym (used_part rb v e)))
        v.last_in)

contents-pop :
    (rb : Ring)
    → IsValid rb
    → (rb.full ≡ 1) ⊎ (rb.first ≢ rb.last)
    → contents rb ≡ get_or rb.base rb.first 0 ∷ contents (pop rb).2
contents-pop rb v e =
    let facts = pop-some rb v e in
    ap (held rb.base rb.size rb.first) (sym facts.5)
    ∙ held-tail rb.base rb.size rb.first (used (pop rb).2) v.first_in
    ∙ rw (facts.2, facts.3, facts.4) refl

push_refines :
    (rb : Ring) (x : ℕ)
    → IsValid rb
    → ((call rb (put x)).0, contents (call rb (put x)).1) ≡ step rb.size (contents rb) (put x)
unfolding call step
push_refines rb x v = elim v.state [
  | inl e ↦ ground (arith, push_part rb x v e, contents-push rb x v e, length-contents rb)
  | inr (e, _) ↦ unfold push in ground (arith, used_full rb e, length-contents rb)
]

pop_some_refines :
    (rb : Ring)
    → IsValid rb
    → (rb.full ≡ 1) ⊎ (rb.first ≢ rb.last)
    → ((call rb get).0, contents (call rb get).1) ≡ step rb.size (contents rb) get
unfolding call step
pop_some_refines rb v e =
    rw (contents-pop rb v e) (unfold pop_oldest in ground (arith, pop-some rb v e))

pop-empty : (rb : Ring) → rb.full ≡ 0 → rb.first ≡ rb.last → pop rb ≡ (1, none, rb)
unfolding pop
pop-empty rb e h = ground arith

used-empty : (rb : Ring) → IsValid rb → rb.full ≡ 0 → rb.first ≡ rb.last → used rb ≡ 0
used-empty rb v e h =
    used_part rb v e
    ∙ ap (distance rb.size rb.first) (sym h)
    ∙ distance_self rb.size rb.first v.first_in

pop_none_refines :
    (rb : Ring)
    → IsValid rb
    → rb.full ≡ 0
    → rb.first ≡ rb.last
    → ((call rb get).0, contents (call rb get).1) ≡ step rb.size (contents rb) get
unfolding call step pop_oldest
pop_none_refines rb v e h = rw (pop-empty rb e h, used-empty rb v e h) refl

pop_refines :
    (rb : Ring)
    → IsValid rb
    → ((call rb get).0, contents (call rb get).1) ≡ step rb.size (contents rb) get
pop_refines rb v = elim v.state [
  | inl e ↦ elim (ℕ_discrete rb.first rb.last) [
    | yes h ↦ pop_none_refines rb v e h
    | no h ↦ pop_some_refines rb v (inr h)
  ]
  | inr (e, _) ↦ pop_some_refines rb v (inl e)
]

flush_refines :
    (rb : Ring)
    → IsValid rb
    → ((call rb clear).0, contents (call rb clear).1) ≡ step rb.size (contents rb) clear
unfolding call step flush
flush_refines rb v =
    ap (λ n. ((0, none), held rb.base rb.size 0 n))
      (used-empty (flush rb) (flush-IsValid rb v) refl refl)

-- `ringbuffer_isempty` and `ringbuffer_isfull` agree with the number of held bytes.
pub queries :
    (rb : Ring)
    → IsValid rb
    → (is_empty rb ≡ flag (used rb == 0)) × (is_full rb ≡ flag (used rb == rb.size))
unfolding is_empty is_full
queries rb v = elim v.state [
  | inl e ↦ ground (
    arith,
    used_part rb v e,
    distance-lt rb.size rb.first rb.last v.first_in v.last_in,
    distance_zero rb.size rb.first rb.last v.first_in v.last_in,
    used-empty rb v e,
  )
  | inr (e, h) ↦ ground (arith, used_full rb e)
]

pub call_refines :
    (rb : Ring) (op : Op)
    → IsValid rb
    → ((call rb op).0, contents (call rb op).1) ≡ step rb.size (contents rb) op
call_refines rb (put x) v = push_refines rb x v
call_refines rb get v = pop_refines rb v
call_refines rb clear v = flush_refines rb v
call_refines rb count v = unfold call step in rw (length-contents rb) refl
call_refines rb empty? v = unfold call step in rw (length-contents rb, (queries rb v).0) refl
call_refines rb full? v = unfold call step in rw (length-contents rb, (queries rb v).1) refl

pub call-IsValid : (rb : Ring) (op : Op) → IsValid rb → IsValid (call rb op).1
unfolding call
call-IsValid rb (put x) v = push-IsValid rb x v
call-IsValid rb get v = pop-IsValid rb v
call-IsValid rb clear v = flush-IsValid rb v
call-IsValid rb _ v = v

pub size-call : (rb : Ring) (op : Op) → (call rb op).1.size ≡ rb.size
unfolding call push pop flush
size-call rb (put x) = ground arith
size-call rb _ = ground arith

-- The master's ring fills the interface of a bounded queue.
abbrev pub ring : Implementation
ring = record {
  State = Ring;
  IsValid = IsValid;
  capacity = λ rb. rb.size;
  contents = contents;
  call = call;
  call-IsValid = call-IsValid;
  capacity-call = size-call;
  call_refines = call_refines;
}

-- Any sequence of calls of the master's ringbuffer.h on a valid ring returns what a first-in
-- first-out queue of `size` bytes, holding the ring's bytes, returns.
pub ring_refines_queue :
    (rb : Ring) (ops : List Op) → IsValid rb → replies ring rb ops ≡ run rb.size (contents rb) ops
ring_refines_queue rb ops v = replies_refine ring rb ops v
