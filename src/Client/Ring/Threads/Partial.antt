-- ===== src/Client/Ring/Threads/Partial.antt =====
-- The ring in the middle of a call, and that the accesses of a call add up to the call.
use ammc.Base.{ℕ, true, false, get_elem?, set, ◌≡◌, refl, ap, ◌==◌, inl, inr, Bool-cases}
use ammc.Queue.Defs.{
  push as put, pop as get, flush as clear, used as count, is_empty as empty?, is_full as full?,
}
use ammc.Client.Ring.{Ring, full_now, empty_now, shifted_idx, push, pop, flush, used}
use ammc.Client.Ring.Refine.{call as whole_call}
use ammc.Client.Ring.Threads.{
  Pc, idle, flush_moved, used_part, waiting, entered, push_stored, push_shifted, pop_read,
  pop_shifted, leaving, working, access,
}

-- The ring when its base and its last index were set.
abbrev pushing : Ring → ℕ → Ring
pushing rb val = record rb { base = set rb.base rb.last val }

-- What the ring is while a thread is at a place of a call that began with the ring `before`.
abbrev pub Partial : Ring → Pc → Ring → Type 0
Partial before idle rb = ⊥
Partial before (waiting op) rb = ⊥
Partial before (entered op) rb = rb ≡ before
Partial before (push_stored val) rb = (full_now before ≡ false) × (rb ≡ pushing before val)
Partial before (push_shifted val) rb =
    (full_now before ≡ false)
    × (rb ≡ record (pushing before val) { last = shifted_idx before before.last })
Partial before (pop_read dest) rb =
    (empty_now before ≡ false) × (dest ≡ get_elem? before.base before.first) × (rb ≡ before)
Partial before (pop_shifted dest) rb =
    (empty_now before ≡ false)
    × (dest ≡ get_elem? before.base before.first)
    × (rb ≡ record before { first = shifted_idx before before.first })
Partial before flush_moved rb = rb ≡ record before { first = before.last }
Partial before used_part rb = (full_now before ≡ false) × (rb ≡ before)
Partial before (leaving op reply) rb = (reply, rb) ≡ whole_call before op

-- The first access of a call, which may be the last one.
entered-put :
    (rb : Ring) (val : ℕ)
    → Partial rb (access rb (entered (put val))).1 (access rb (entered (put val))).0
unfolding access whole_call push
entered-put rb val = elim (Bool-cases (full_now rb)) [
  | inl e ↦ rw (e, push, e) refl
  | inr e ↦ rw e (e, refl)
]

entered-get : (rb : Ring) → Partial rb (access rb (entered get)).1 (access rb (entered get)).0
unfolding access whole_call pop
entered-get rb = elim (Bool-cases (empty_now rb)) [
  | inl e ↦ rw (e, pop, e) refl
  | inr e ↦ rw e (e, refl, refl)
]

entered-count : (rb : Ring) → Partial rb (access rb (entered count)).1 (access rb (entered count)).0
unfolding access whole_call used
entered-count rb = elim (Bool-cases (full_now rb)) [
  | inl e ↦ rw (e, used, e) refl
  | inr e ↦ rw e (e, refl)
]

-- The last access of a call.
push_shifted-put :
    (rb : Ring) (val : ℕ)
    → full_now rb ≡ false
    → let shifted = record (pushing rb val) { last = shifted_idx rb rb.last } in
      Partial rb (access shifted (push_shifted val)).1 (access shifted (push_shifted val)).0
unfolding access whole_call push shifted_idx
push_shifted-put rb val room =
    let shifted = record (pushing rb val) { last = shifted_idx rb rb.last } in
    elim (Bool-cases (rb.first == shifted.last)) [
      | inl e ↦ rw (room, push, e) refl
      | inr e ↦ rw (room, push, e) refl
    ]

pop_shifted-get :
    (rb : Ring)
    → empty_now rb ≡ false
    → let shifted = record rb { first = shifted_idx rb rb.first } in
      let read = pop_shifted (get_elem? rb.base rb.first) in
      Partial rb (access shifted read).1 (access shifted read).0
unfolding access whole_call pop
pop_shifted-get rb some_left = rw (some_left, pop) refl

used_part-count :
    (rb : Ring) → full_now rb ≡ false → Partial rb (access rb used_part).1 (access rb used_part).0
unfolding access whole_call used
used_part-count rb part = rw (part, used) refl

-- The steps of a call take the ring from each of its places to the next.
pub Partial-access :
    (before rb : Ring) (p : Pc)
    → working p ≡ true
    → Partial before p rb
    → Partial before (access rb p).1 (access rb p).0
unfolding access whole_call flush shifted_idx
Partial-access before rb idle h k = absurd k
Partial-access before rb (waiting op) h k = absurd k
Partial-access before rb (leaving op reply) h k = k
Partial-access before rb (entered (put val)) h k = rw k (entered-put before val)
Partial-access before rb (entered get) h k = rw k (entered-get before)
Partial-access before rb (entered clear) h k = rw k refl
Partial-access before rb (entered count) h k = rw k (entered-count before)
Partial-access before rb (entered empty?) h k = rw k refl
Partial-access before rb (entered full?) h k = rw k refl
Partial-access before rb (push_stored val) h (room, k) =
    (room, ap {A = Ring} {B = Ring} (λ r. record r { last = shifted_idx r r.last }) k)
Partial-access before rb (push_shifted val) h (room, k) = rw k (push_shifted-put before val room)
Partial-access before rb (pop_read dest) h (some_left, read, k) =
    (some_left, read, ap {A = Ring} {B = Ring} (λ r. record r { first = shifted_idx r r.first }) k)
Partial-access before rb (pop_shifted dest) h (some_left, read, k) =
    rw (k, read) (pop_shifted-get before some_left)
Partial-access before rb flush_moved h k = rw k refl
Partial-access before rb used_part h (part, k) = rw k (used_part-count before part)
