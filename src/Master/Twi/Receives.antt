-- ===== src/Master/Twi/Receives.antt =====
-- What the master receives from a slave that it has addressed.
use ammc.Base.{
  ℕ, suc, ◌+◌, ◌-◌, ◌%◌, ◌^◌, ◌≤◌, ◌<◌, ◌≡◌, refl, ap, ◌∙◌, true, false, none, some, List, [], ◌∷◌,
  ◌++◌, append_assoc, length, length-append, drop, get_or, set, set-append_at, length-append_at,
  overlay, ltb, length-set, length-overlay, inl, inr, Bool-cases, arith,
}
use ammc.Master.Twi.{
  Twi, start, no_info, ready, initializing, receiving, acking, going, stopping, isr, transmit,
  finish, store, fetch, take_bytes, send_raw, start_recv, recv, addr_read,
}

-- The module that has stored a byte, and waits for the next one or for the last one.
abbrev pub stored : Twi → ℕ → Twi
stored t b = record t { twdr = b; rx_buffer = set t.rx_buffer t.rx_idx b; rx_idx = suc t.rx_idx }

abbrev pub more : Twi → Twi
more t = record t { mode = receiving; error = some no_info; twcr = acking }

abbrev pub last : Twi → Twi
last t = record t { mode = receiving; error = some no_info; twcr = going }

abbrev pub released : Twi → Twi
released t = record t { error = none; mode = ready; twcr = stopping }

-- With `n` bytes and one more to come, the next one is acknowledged unless it is the last one.
pub fetch-more :
    (t : Twi) (n : ℕ) → t.rx_size ≡ t.rx_idx + suc (suc n) → t.rx_size < 2 ^ 16 → fetch t ≡ more t
unfolding fetch
fetch-more t n size word =
    let left : ltb t.rx_idx ((t.rx_size + 2 ^ 16 - 1) % 2 ^ 16) ≡ true = ground arith in
    rw left refl

pub fetch-last : (t : Twi) → t.rx_size ≡ suc t.rx_idx → t.rx_size < 2 ^ 16 → fetch t ≡ last t
unfolding fetch
fetch-last t size word =
    let left : ltb t.rx_idx ((t.rx_size + 2 ^ 16 - 1) % 2 ^ 16) ≡ false = ground arith in
    rw left refl

pub store_lem :
    (t : Twi) (b : ℕ)
    → t.rx_idx < length t.rx_buffer
    → store (record t { twdr = b }) ≡ some (stored t b)
unfolding store
store_lem t b inside =
    let within : ltb t.rx_idx (length t.rx_buffer) ≡ true = ground arith in rw within refl

-- A byte that the master acknowledged, and one that it did not.
take_bytes-more :
    (t : Twi) (b : ℕ) (bs : List ℕ)
    → t.rx_idx < length t.rx_buffer
    → take_bytes (b ∷ bs) (more t) ≡ take_bytes bs (fetch (stored (more t) b))
unfolding take_bytes isr
take_bytes-more t b bs inside = rw (store_lem (more t) b inside, take_bytes) refl

take_bytes-last :
    (t : Twi) (b : ℕ) (bs : List ℕ)
    → t.rx_idx < length t.rx_buffer
    → t.locks ≡ false
    → take_bytes (b ∷ bs) (last t) ≡ some (bs, released (stored (last t) b))
unfolding take_bytes isr finish
take_bytes-last t b bs inside free = rw (store_lem (last t) b inside, take_bytes, free) refl

-- The bytes of the slave go behind those that are stored already, until the array is full.
take_bytes_lem :
    (t : Twi) (pre room bs rest : List ℕ) (b : ℕ)
    → t.rx_buffer ≡ pre ++ room
    → t.rx_idx ≡ length pre
    → t.rx_size ≡ length pre + suc (length bs)
    → length bs < length room
    → t.rx_size < 2 ^ 16
    → t.locks ≡ false
    → (t' : Twi) × (take_bytes (b ∷ (bs ++ rest)) (fetch t) ≡ some (rest, t'))
      × (t'.rx_buffer ≡ pre ++ (b ∷ (bs ++ drop (suc (length bs)) room)))
      × (t'.rx_idx ≡ t.rx_size)
      × (t'.mode ≡ ready)
      × (t'.error ≡ none)
      × (t'.twcr ≡ stopping)
take_bytes_lem t pre [] bs rest b buffer idx size fits word free = absurd (omega arith)
take_bytes_lem t pre (r ∷ room) [] rest b buffer idx size fits word free =
    let inside : t.rx_idx < length t.rx_buffer = length-append_at pre room r buffer idx in
    (
      released (stored (last t) b),
      ap (take_bytes (b ∷ rest)) (fetch-last t (omega (arith, idx, size)) word)
          ∙ take_bytes-last t b rest inside free,
      set-append_at pre room r b buffer idx ∙ append_assoc pre (b ∷ []) room,
      omega (arith, idx, size),
      refl,
      refl,
      refl,
    )
take_bytes_lem t pre (r ∷ room) (c ∷ bs) rest b buffer idx size fits word free =
    let inside : t.rx_idx < length t.rx_buffer = length-append_at pre room r buffer idx in
    let (t', run, buffer', idx', is_ready, fine, stops) =
      take_bytes_lem (stored (more t) b) (pre ++ b ∷ []) room bs rest c
        (set-append_at pre room r b buffer idx) (omega (arith, idx, length-append {0} pre (b ∷ [])))
        (omega (arith, size, length-append {0} pre (b ∷ []))) (omega arith) word free in
    (
      t',
      ap (take_bytes (b ∷ c ∷ (bs ++ rest)))
            (fetch-more t (length bs) (omega (arith, idx, size)) word)
          ∙ take_bytes-more t b (c ∷ (bs ++ rest)) inside
          ∙ run,
      buffer' ∙ append_assoc pre (b ∷ []) (c ∷ (bs ++ drop (suc (length bs)) room)),
      idx',
      is_ready,
      fine,
      stops,
    )

-- The module when the address byte is on the wire.
abbrev pub addressing : Twi → ℕ → List ℕ → ℕ → Twi
addressing t addr buf to_recv = record t {
  rx_buffer = buf;
  rx_size = to_recv;
  rx_idx = 0;
  tx_buffer = overlay t.tx_buffer (addr_read addr ∷ []);
  tx_size = 1;
  tx_idx = 1;
  locks = false;
  mode = initializing;
  error = some no_info;
  twdr = get_or (overlay t.tx_buffer (addr_read addr ∷ [])) 0 0;
  twcr = going;
}

pub address_lem :
    (t : Twi) (addr : ℕ) (buf : List ℕ) (to_recv : ℕ)
    → t.mode ≡ ready
    → 0 < length t.tx_buffer
    → isr start (start_recv t addr buf to_recv false) ≡ some (addressing t addr buf to_recv)
unfolding isr start_recv send_raw transmit
address_lem t addr buf to_recv is_ready room =
    let inside : ltb 0 (length (overlay t.tx_buffer (addr_read addr ∷ []))) ≡ true =
      ground (arith, length-overlay t.tx_buffer (addr_read addr ∷ [])) in
    rw (is_ready, inside) refl

-- `twi_recv` of 1 to 32 bytes into an array with room for them, with the module ready, from a slave
-- that takes its address and sends at least that many bytes: the array has them at its start, in
-- order, and what is behind is untouched; no further byte is taken; the count is as asked for, and
-- the module has released the bus without an error and is ready again.
pub recv-takes :
    (t : Twi) (addr : ℕ) (buf bs rest : List ℕ) (b : ℕ)
    → t.mode ≡ ready
    → 0 < length t.tx_buffer
    → length bs < length buf
    → length bs < 32
    → (t' : Twi) × (recv t addr buf (suc (length bs)) (b ∷ (bs ++ rest)) ≡ some (rest, t'))
      × (t'.rx_buffer ≡ b ∷ (bs ++ drop (suc (length bs)) buf))
      × (t'.rx_idx ≡ suc (length bs))
      × (t'.mode ≡ ready)
      × (t'.error ≡ none)
      × (t'.twcr ≡ stopping)
unfolding recv isr
recv-takes t addr buf bs rest b is_ready room fits short =
    let (t', run, buffer, idx, again, fine, stops) =
      take_bytes_lem (addressing t addr buf (suc (length bs))) [] buf bs rest b refl refl
        (omega arith) fits (omega arith) refl in
    (
      t',
      rw (address_lem t addr buf (suc (length bs)) is_ready room, recv) run,
      buffer,
      idx,
      again,
      fine,
      stops,
    )

fetch_zero : (t : Twi) → t.rx_size ≡ 0 → t.rx_idx < 2 ^ 16 - 1 → fetch t ≡ more t
unfolding fetch
fetch_zero t size word =
    let left : ltb t.rx_idx ((t.rx_size + 2 ^ 16 - 1) % 2 ^ 16) ≡ true = ground arith in
    rw left refl

-- While the count of bytes to receive is 0, every byte is stored and acknowledged.
take_bytes_overflow :
    (t : Twi) (bs : List ℕ)
    → t.rx_size ≡ 0
    → t.rx_idx ≤ length t.rx_buffer
    → length t.rx_buffer < 2 ^ 16 - 1
    → length t.rx_buffer < t.rx_idx + length bs
    → take_bytes bs (more t) ≡ none
take_bytes_overflow t [] size inside word long = absurd (omega (arith, long))
take_bytes_overflow t (b ∷ bs) size inside word long =
    elim (Bool-cases (ltb t.rx_idx (length t.rx_buffer))) [
      | inl less ↦
          take_bytes-more t b bs (ground arith)
          ∙ ap (take_bytes bs) (
              fetch_zero (stored (more t) b) size
                (ground (arith, length-set t.rx_buffer t.rx_idx b)))
          ∙ take_bytes_overflow (stored (more t) b) bs size
              (ground (arith, length-set t.rx_buffer t.rx_idx b))
              (omega (arith, length-set t.rx_buffer t.rx_idx b))
              (omega (arith, length-set t.rx_buffer t.rx_idx b))
      | inr full ↦ unfold take_bytes isr store in rw (full, take_bytes) refl
    ]

-- `twi_recv` accepts a count of 0. If the slave takes its address, its bytes are then stored and
-- acknowledged one by one, past the end of the array.
pub recv_unbounded :
    (t : Twi) (addr : ℕ) (buf bs : List ℕ)
    → t.mode ≡ ready
    → 0 < length t.tx_buffer
    → length buf < 2 ^ 16 - 1
    → length buf < length bs
    → recv t addr buf 0 bs ≡ none
unfolding recv isr
recv_unbounded t addr buf bs is_ready room word long =
    rw (address_lem t addr buf 0 is_ready room, recv)
      (ap (take_bytes bs) (fetch_zero (addressing t addr buf 0) refl (omega arith))
        ∙ take_bytes_overflow (addressing t addr buf 0) bs refl (omega arith) word (omega arith))
