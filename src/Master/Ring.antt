-- ===== src/Master/Ring.antt =====
-- master/source/ringbuffer.c: a ring over a caller's array. A `Ring` is the target of a pointer
-- that is not null; the array pointer of `ringbuffer_new` may be.
pub mod Valid
pub mod Refine
pub mod Rules
mod Tests
use ammc.Base.{
  ℕ, ◌+◌, ◌-◌, ◌%◌, Bool, not, ◌&&◌, ◌||◌, Option, none, some, List, get_elem?, set, ltb, ◌==◌,
  if◌then◌else◌, flag, u8,
}

-- `ringbuffer_t`
pub record Ring : Type 0 where
  pub base : List ℕ
  pub first : ℕ
  pub last : ℕ
  pub size : ℕ
  pub full : ℕ

-- `RINGBUFFER_STATE_E`
abbrev pub not_full : ℕ
not_full = 0

abbrev pub is_full_state : ℕ
is_full_state = 1

-- `real_idx`, `virt_idx` and `shifted_idx`: sums of `int`s, cut to a byte at the return.
abbrev pub real_idx : Ring → ℕ → ℕ
real_idx rb virt = u8 ((virt + rb.first) % rb.size)

abbrev pub virt_idx : Ring → ℕ → ℕ
virt_idx rb real = u8 ((real + rb.size - rb.first) % rb.size)

abbrev pub shifted_idx : Ring → ℕ → ℕ
shifted_idx rb idx = u8 ((idx + 1) % rb.size)

-- `ringbuffer_new`: the returned code, and what `*rb` is then.
unfoldable pub new : Ring → Option (List ℕ) → ℕ → ℕ × Ring
new rb none buf_size = (1, rb)
new rb (some buf) buf_size =
    if ltb buf_size 2
    then (1, rb)
    else (0, record { base = buf; first = 0; last = 0; size = buf_size; full = not_full })

-- `ringbuffer_used`, `ringbuffer_isempty`, `ringbuffer_isfull`
unfoldable pub used : Ring → ℕ
used rb = if not (rb.full == 0) then rb.size else virt_idx rb rb.last

unfoldable pub is_empty : Ring → ℕ
is_empty rb = flag (rb.full == 0 && rb.first == rb.last)

unfoldable pub is_full : Ring → ℕ
is_full rb = flag (not (rb.full == 0) && rb.first == rb.last)

-- `ringbuffer_pop`: the code, the byte written to `*dest` (`none` for none, or for a read out of
-- the array), and the ring.
unfoldable pub pop : Ring → ℕ × Option ℕ × Ring
unfolding is_empty
pop rb = if not (is_empty rb == 0) then (1, none, rb) else (
  0,
  get_elem? rb.base rb.first,
  record rb { first = shifted_idx rb rb.first; full = not_full },
)

-- `ringbuffer_push`; a write out of the array is dropped.
unfoldable pub push : Ring → ℕ → ℕ × Ring
push rb val =
    if not (rb.full == 0)
    then (1, rb)
    else let last = shifted_idx rb rb.last in
      (
        0,
        record rb {
          base = set rb.base rb.last val;
          last = last;
          full = if rb.first == last then is_full_state else rb.full;
        },
      )

-- `ringbuffer_flush`
unfoldable pub flush : Ring → Ring
flush rb = record rb { first = 0; last = 0; full = 0 }
