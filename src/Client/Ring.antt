-- ===== src/Client/Ring.antt =====
-- client/source/ringbuffer.c: a ring that allocates its array and locks a mutex around each
-- call; a call is one step here, and the steps within it are those of Threads. A `Ring` is the
-- target of a pointer that is not null.
pub mod Valid
pub mod Refine
pub mod Threads
pub mod Samples
use ammc.Base.{
  ℕ, ◌+◌, ◌-◌, ◌%◌, ◌^◌, Bool, true, false, not, ◌&&◌, Option, none, some, List, get_elem?, set,
  ltb, ◌==◌, if◌then◌else◌, flag,
}

-- `ringbuffer_t`, without the mutex
pub record Ring : Type 0 where
  pub base : List ℕ
  pub first : ℕ
  pub last : ℕ
  pub size : ℕ
  pub full : ℕ

abbrev pub not_full : ℕ
not_full = 0

abbrev pub is_full_state : ℕ
is_full_state = 1

-- `size_t` sums and differences
abbrev pub add_size : ℕ → ℕ → ℕ
add_size a b = (a + b) % 2 ^ 64

abbrev pub sub_size : ℕ → ℕ → ℕ
sub_size a b = (a + 2 ^ 64 - b) % 2 ^ 64

-- `virt_idx` and `shifted_idx`
unfoldable pub virt_idx : Ring → ℕ → ℕ
virt_idx rb real = sub_size (add_size real rb.size) rb.first % rb.size

unfoldable pub shifted_idx : Ring → ℕ → ℕ
shifted_idx rb idx = add_size idx 1 % rb.size

-- `_isfull` and `_isempty`
abbrev pub full_now : Ring → Bool
full_now rb = not (rb.full == 0)

abbrev pub empty_now : Ring → Bool
empty_now rb = rb.first == rb.last && not (not (rb.full == 0))

-- `ringbuffer_new`. The library's answers are arguments: whether the first allocation succeeds,
-- what the second one gives (`size + 1` bytes of any content), and whether the mutex is made.
unfoldable pub new : Bool → Option (List ℕ) → Bool → ℕ → Option Ring
new allocated memory mutex size =
    if ltb size 2 then none else if not allocated then none else elim memory [
      | none ↦ none
      | some base ↦
          if not mutex
          then none
          else some (record { base = base; first = 0; last = 0; size = size; full = 0 })
    ]

-- `ringbuffer_size`; a null pointer is `none`.
unfoldable pub size_of : Option Ring → ℕ
size_of none = 0
size_of (some rb) = rb.size

-- `ringbuffer_used`, `ringbuffer_isempty`, `ringbuffer_isfull`
unfoldable pub used : Ring → ℕ
used rb = if full_now rb then rb.size else virt_idx rb rb.last

unfoldable pub is_empty : Ring → ℕ
is_empty rb = flag (empty_now rb)

unfoldable pub is_full : Ring → ℕ
is_full rb = rb.full

-- `ringbuffer_pop`: the code, the byte written to `*dest` (`none` for none, or for a read out of
-- the array), and the ring.
unfoldable pub pop : Ring → ℕ × Option ℕ × Ring
pop rb = if empty_now rb then (1, none, rb) else (
  0,
  get_elem? rb.base rb.first,
  record rb { first = shifted_idx rb rb.first; full = not_full },
)

-- `ringbuffer_push`; a write out of the array is dropped.
unfoldable pub push : Ring → ℕ → ℕ × Ring
push rb val =
    if full_now rb
    then (1, rb)
    else let last = shifted_idx rb rb.last in
      (
        0,
        record rb {
          base = set rb.base rb.last val;
          last = last;
          full = if rb.first == last then is_full_state else rb.full;
        },
      )

-- `ringbuffer_flush`
unfoldable pub flush : Ring → Ring
flush rb = record rb { first = rb.last; full = not_full }
