-- ===== src/Client/Ring/Threads/Calls.antt =====
-- What the threads that call the ring may rely on.
use ammc.Base.{ℕ, Option, true, some, none, ◌≡◌, ◌≢◌, refl, ◌∙◌, ◌⊎◌, inl, inr}
use ammc.Queue.{Op, Reply}
use ammc.Queue.Defs.{run}
use ammc.Queue.Interface.{replies}
use ammc.Client.Ring.{Ring}
use ammc.Client.Ring.Valid.{IsValid}
use ammc.Client.Ring.Refine.{contents, locked_ring_refines_queue}
use ammc.Client.Ring.Threads.{
  Pc, idle, waiting, leaving, inside, working, System, Reach, start, later,
}
use ammc.Client.Ring.Threads.Partial.{Partial}
use ammc.Client.Ring.Threads.Invariant.{Inv, Step-Inv, after, after-IsValid}

Reach-Inv : (rb : Ring) {s : System} → Reach rb s → Inv rb s
unfolding inside after replies
Reach-Inv rb start = record { told = refl; only = λ i e. cc; free = λ e. refl; held = λ i e. cc }
Reach-Inv rb (later r st) = Step-Inv rb (Reach-Inv rb r) st

-- Two threads are never between the lock and the unlock of a call at once.
pub mutual_exclusion :
    {s : System} (rb : Ring) (i j : ℕ)
    → Reach rb s
    → inside (s.pc i) ≡ true
    → inside (s.pc j) ≡ true
    → i ≡ j
mutual_exclusion rb i j r in_i in_j =
    let first = (Reach-Inv rb r).only i in_i in let second = (Reach-Inv rb r).only j in_j in cc

-- Any number of threads call the functions of ringbuffer.h on a valid ring (of fewer than 2 ^ 63
-- bytes), and their accesses come in any order that the mutex allows. In every state that they
-- reach, the calls that have returned, in the order of their unlocks, have returned what a first-in
-- first-out queue of `size` bytes, holding the ring's bytes at the start, returns to these calls one
-- after the other.
pub calls_linearize :
    {s : System} (rb : Ring)
    → Reach rb s
    → IsValid rb
    → s.replied ≡ run rb.size (contents rb) s.finished
calls_linearize {s} rb r v = (Reach-Inv rb r).told ∙ locked_ring_refines_queue rb s.finished v

-- While no thread holds the mutex, the ring is valid.
unlocked-IsValid :
    {s : System} (rb : Ring) → Reach rb s → IsValid rb → s.lock ≡ none → IsValid s.ring
unlocked-IsValid {s} rb r v e = rw ((Reach-Inv rb r).free e) (after-IsValid rb s.finished v)

-- A thread that goes on alone: it has an access to make, or to unlock, or finds the mutex free.
abbrev pub Enabled : System → ℕ → Type 0
Enabled s i =
    (working (s.pc i) ≡ true)
    ⊎ ((op : Op) × (reply : Reply) × (s.pc i ≡ leaving op reply))
    ⊎ ((op : Op) × (s.pc i ≡ waiting op) × (s.lock ≡ none))

Partial-Enabled :
    (before rb : Ring) (p : Pc)
    → Partial before p rb
    → (working p ≡ true) ⊎ ((op : Op) × (reply : Reply) × (p ≡ leaving op reply))
unfolding working
Partial-Enabled before rb idle k = absurd k
Partial-Enabled before rb (waiting op) k = absurd k
Partial-Enabled before rb (leaving op reply) k = inr (op, reply, refl)
Partial-Enabled before rb _ k = inl refl

-- While a thread is in a call, some thread that is in a call can go on.
pub no_deadlock :
    {s : System} (rb : Ring) (i : ℕ) → Reach rb s → s.pc i ≢ idle → (j : ℕ) × Enabled s j
no_deadlock {s} rb i r busy = go s.lock refl
  where
    open (Reach-Inv rb r) use {only, held}

    unlocked : (p : Pc) → s.pc i ≡ p → s.lock ≡ none → Enabled s i
    unlocked idle e n = absurd (busy e)
    unlocked (waiting op) e n = inr (inr (op, e, n))
    unlocked _ e n = let locked = only i (unfold inside in rw e refl) in cc

    go : (lock : Option ℕ) → s.lock ≡ lock → (j : ℕ) × Enabled s j
    go none e = (i, unlocked (s.pc i) refl e)
    go (some j) e = elim (Partial-Enabled (after rb s.finished) s.ring (s.pc j) (held j e)) [
      | inl works ↦ (j, inl works)
      | inr leaves ↦ (j, inr (inl leaves))
    ]
