-- ===== src/Client/Ring/Threads.antt =====
-- The calls of client/source/ringbuffer.c by several threads: each call is a run of small steps,
-- its lock, its accesses to the ring and its unlock, which the steps of the other threads may come
-- between.
pub mod Partial
pub mod Invariant
pub mod Calls
mod Tests
use ammc.Base.{
  ℕ, Bool, true, false, Option, none, some, List, [], ◌∷◌, ◌++◌, get_elem?, set, ◌≡◌, ◌==◌,
  if◌then◌else◌,
}
use ammc.Queue.{Op, Reply}
use ammc.Queue.Defs.{
  push as put, pop as get, flush as clear, used as count, is_empty as empty?, is_full as full?,
}
use ammc.Client.Ring.{
  Ring, full_now, empty_now, shifted_idx, virt_idx, is_empty, is_full, not_full, is_full_state,
}

-- Where a thread is: outside, in front of the lock, behind it, between the accesses of a call, or
-- in front of the unlock with what it is going to return.
pub data Pc : Type 0 where
  idle flush_moved used_part : Pc
  waiting entered : (op : Op) → Pc
  push_stored push_shifted : (val : ℕ) → Pc
  pop_read pop_shifted : (dest : Option ℕ) → Pc
  leaving : (op : Op) (reply : Reply) → Pc

unfoldable pub inside : Pc → Bool
inside idle = false
inside (waiting op) = false
inside _ = true

-- A thread that has an access to make.
unfoldable pub working : Pc → Bool
working idle = false
working (waiting op) = false
working (leaving op reply) = false
working _ = true

-- The next access of a call to the ring.
unfoldable pub access : Ring → Pc → Ring × Pc
access rb (entered (put val)) =
    if full_now rb
    then (rb, leaving (put val) (1, none))
    else (record rb { base = set rb.base rb.last val }, push_stored val)
access rb (push_stored val) = (record rb { last = shifted_idx rb rb.last }, push_shifted val)
access rb (push_shifted val) = (
  (if rb.first == rb.last then record rb { full = is_full_state } else rb),
  leaving (put val) (0, none),
)
access rb (entered get) =
    if empty_now rb
    then (rb, leaving get (1, none))
    else (rb, pop_read (get_elem? rb.base rb.first))
access rb (pop_read dest) = (record rb { first = shifted_idx rb rb.first }, pop_shifted dest)
access rb (pop_shifted dest) = (record rb { full = not_full }, leaving get (0, dest))
access rb (entered clear) = (record rb { first = rb.last }, flush_moved)
access rb flush_moved = (record rb { full = not_full }, leaving clear (0, none))
access rb (entered count) =
    if full_now rb then (rb, leaving count (rb.size, none)) else (rb, used_part)
access rb used_part = (rb, leaving count (virt_idx rb rb.last, none))
access rb (entered empty?) = (rb, leaving empty? (is_empty rb, none))
access rb (entered full?) = (rb, leaving full? (is_full rb, none))
access rb idle = (rb, idle)
access rb (waiting op) = (rb, waiting op)
access rb (leaving op reply) = (rb, leaving op reply)

-- A thread and the others.
unfoldable pub update : (ℕ → Pc) → ℕ → Pc → ℕ → Pc
update pc i p j = if j == i then p else pc j

-- The ring, the mutex with the thread that holds it, the threads, and the calls that have returned,
-- in the order of their unlocks, with what they returned.
pub record System : Type 0 where
  pub ring : Ring
  pub lock : Option ℕ
  pub pc : ℕ → Pc
  pub finished : List Op
  pub replied : List Reply

-- `pthread_mutex_lock` returns when no thread holds the mutex.
pub data Step (s : System) : System → Type 0 where
  call : (i : ℕ) (op : Op) → s.pc i ≡ idle → Step s (record s { pc = update s.pc i (waiting op) })
  acquire :
      (i : ℕ) (op : Op)
      → s.pc i ≡ waiting op
      → s.lock ≡ none
      → Step s (record s { lock = some i; pc = update s.pc i (entered op) })
  work :
      (i : ℕ)
      → working (s.pc i) ≡ true
      → Step s (record s {
        ring = (access s.ring (s.pc i)).0;
        pc = update s.pc i (access s.ring (s.pc i)).1;
      })
  release :
      (i : ℕ) (op : Op) (reply : Reply)
      → s.pc i ≡ leaving op reply
      → Step s (record s {
        lock = none;
        pc = update s.pc i idle;
        finished = s.finished ++ op ∷ [];
        replied = s.replied ++ reply ∷ [];
      })

abbrev pub started : Ring → System
started rb = record { ring = rb; lock = none; pc = λ i. idle; finished = []; replied = [] }

pub data Reach (rb : Ring) : System → Type 0 where
  start : Reach rb (started rb)
  later : {s t : System} → Reach rb s → Step s t → Reach rb t
