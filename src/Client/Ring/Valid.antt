-- ===== src/Client/Ring/Valid.antt =====
-- The representation invariant of the client's ring.
use native.Mathlib.Decide.{dec_lt}
use ammc.Base.{
  ℕ, ◌+◌, ◌-◌, ◌%◌, ◌^◌, ◌≤◌, ◌<◌, ◌≡◌, ◌⊎◌, inl, inr, refl, ap, ◌∙◌, length, length-set, List,
  none, some, true, arith,
}
use ammc.Cyclic.{distance_self}
use ammc.Client.Ring.{Ring, new, used, pop, push, flush, shifted_idx, virt_idx}

pub record IsValid (rb : Ring) : Type 0 where
  pub least : 2 ≤ rb.size
  pub small : rb.size < 2 ^ 63
  pub fits : rb.size ≤ length rb.base
  pub first_in : rb.first < rb.size
  pub last_in : rb.last < rb.size
  pub state : (rb.full ≡ 0) ⊎ ((rb.full ≡ 1) × (rb.first ≡ rb.last))

-- Indices do not wrap round `size_t`.
pub virt_idx_lem :
    (rb : Ring) (real : ℕ)
    → IsValid rb
    → real < rb.size
    → virt_idx rb real ≡ (real + rb.size - rb.first) % rb.size
unfolding virt_idx
virt_idx_lem rb real v h = ap (λ t. t % rb.size) (omega arith)

pub shifted_idx_lem :
    (rb : Ring) (i : ℕ) → IsValid rb → i < rb.size → shifted_idx rb i ≡ (i + 1) % rb.size
unfolding shifted_idx
shifted_idx_lem rb i v h = ap (λ t. t % rb.size) (omega arith)

-- When the library's calls succeed, `ringbuffer_new` makes a valid, empty ring of the size asked
-- for; a size below 2 is refused.
pub new_lem :
    (memory : List ℕ) (n : ℕ)
    → n < 2 ^ 63
    → length memory ≡ n + 1
    → ((n < 2) × (new true (some memory) true n ≡ none))
      ⊎ ((rb : Ring) × (new true (some memory) true n ≡ some rb)
          × IsValid rb
          × (rb.size ≡ n)
          × (used rb ≡ 0))
new_lem memory n p q = elim (dec_lt n 2) [
  | yes h ↦ inl (h, unfold new in ground arith)
  | no h ↦ inr (fresh, unfold new in ground arith, valid h, refl, empty h)
]
  where
    fresh : Ring
    fresh = record { base = memory; first = 0; last = 0; size = n; full = 0 }

    valid : ¬ (n < 2) → IsValid fresh
    valid h = omega arith

    empty : ¬ (n < 2) → used fresh ≡ 0
    empty h =
        unfold used in
        (virt_idx_lem fresh 0 (valid h) (omega arith) ∙ distance_self n 0 (omega arith))

pub push-IsValid : (rb : Ring) (v : ℕ) → IsValid rb → IsValid (push rb v).1
unfolding push
push-IsValid rb v h =
    ground (arith, shifted_idx_lem rb rb.last h h.last_in, length-set rb.base rb.last v)

pub pop-IsValid : (rb : Ring) → IsValid rb → IsValid (pop rb).2
unfolding pop
pop-IsValid rb h = ground (arith, shifted_idx_lem rb rb.first h h.first_in)

pub flush-IsValid : (rb : Ring) → IsValid rb → IsValid (flush rb)
unfolding flush
flush-IsValid rb h = ground arith
