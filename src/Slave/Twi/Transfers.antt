-- ===== src/Slave/Twi/Transfers.antt =====
-- Whole transfers on the bus, as the slave's interrupt routine sees them.
use ammc.Base.{
  ℕ, suc, ◌+◌, ◌≤◌, ◌<◌, ◌≡◌, refl, ◌∙◌, true, false, none, some, List, [], ◌∷◌, ◌++◌, append_assoc,
  length, length-append, drop, set, set-append_at, length-append_at, ltb, length-set, inl, inr,
  Bool-cases, arith,
}
use ammc.Slave.Twi.{
  Twi, ready, enabled, isr, receive, receive_all, start_recv, recv, transfer, receiving, no_info,
  acking,
}

-- The module behind a data byte.
abbrev pub stored : Twi → ℕ → Twi
stored t b = record t {
  rx_buffer = set t.rx_buffer t.rx_idx b;
  rx_idx = suc t.rx_idx;
  error = some no_info;
  twdr = b;
  twcr = acking;
}

-- The module behind the master's address.
abbrev pub addressed : Twi → List ℕ → ℕ → Twi
addressed t buf to_recv = record t {
  mode = receiving;
  rx_buffer = buf;
  rx_size = to_recv;
  rx_idx = 0;
  twcr = acking;
}

pub receive_step :
    (t : Twi) (b : ℕ) (bs : List ℕ)
    → t.rx_idx < length t.rx_buffer
    → receive_all t (b ∷ bs) ≡ receive_all (stored t b) bs
unfolding receive_all isr receive
receive_step t b bs h = rw (there, receive_all) refl
  where
    there : ltb t.rx_idx (length t.rx_buffer) ≡ true
    there = ground arith

receive_full :
    (t : Twi) (b : ℕ) (bs : List ℕ) → length t.rx_buffer ≤ t.rx_idx → receive_all t (b ∷ bs) ≡ none
unfolding receive_all isr receive
receive_full t b bs h = rw (full, receive_all) refl
  where
    full : ltb t.rx_idx (length t.rx_buffer) ≡ false
    full = ground arith

-- Data bytes for which there is room behind those that were stored before.
receive_all_lem :
    (t : Twi) (bs pre post : List ℕ)
    → t.rx_buffer ≡ pre ++ post
    → t.rx_idx ≡ length pre
    → length bs ≤ length post
    → (t' : Twi) × (receive_all t bs ≡ some t')
      × (t'.rx_buffer ≡ pre ++ (bs ++ drop (length bs) post))
      × (t'.rx_idx ≡ length pre + length bs)
      × (t'.address ≡ t.address)
unfolding receive_all
receive_all_lem t [] pre post buffer idx room = (t, refl, buffer, omega (arith, idx), refl)
receive_all_lem t (b ∷ bs) pre [] buffer idx room = absurd (omega arith)
receive_all_lem t (b ∷ bs) pre (c ∷ post) buffer idx room =
    let (t', run, buffer', idx', address) =
      receive_all_lem (stored t b) bs (pre ++ b ∷ []) post (set-append_at pre post c b buffer idx)
        (omega (arith, idx, length-append {0} pre (b ∷ []))) (omega arith) in
    (
      t',
      receive_step t b bs (length-append_at pre post c buffer idx) ∙ run,
      buffer' ∙ append_assoc pre (b ∷ []) (bs ++ drop (length bs) post),
      omega (arith, idx', length-append {0} pre (b ∷ [])),
      address,
    )

-- More data bytes than the array has room for.
receive_all_overflow :
    (t : Twi) (bs : List ℕ)
    → length t.rx_buffer < t.rx_idx + length bs
    → t.rx_idx ≤ length t.rx_buffer
    → receive_all t bs ≡ none
receive_all_overflow t [] h k = absurd (omega arith)
receive_all_overflow t (b ∷ bs) h k = elim (Bool-cases (ltb t.rx_idx (length t.rx_buffer))) [
  | inl less ↦
      receive_step t b bs (ground arith)
      ∙ receive_all_overflow (stored t b) bs (omega (arith, length-set t.rx_buffer t.rx_idx b))
          (ground (arith, length-set t.rx_buffer t.rx_idx b))
  | inr full ↦ receive_full t b bs (ground arith)
]

-- `twi_recv` into an array with room for the bytes that the master sends: they lie at the start of
-- the array, in order, the rest of it is untouched, the count is theirs, the module is ready
-- again, and its address is as before.
pub recv-stored :
    (t : Twi) (buf bs : List ℕ) (to_recv : ℕ)
    → length bs ≤ length buf
    → (t' : Twi) × (recv t buf to_recv bs ≡ some t')
      × (t'.mode ≡ ready)
      × (t'.rx_buffer ≡ bs ++ drop (length bs) buf)
      × (t'.rx_idx ≡ length bs)
      × (t'.address ≡ t.address)
unfolding recv transfer start_recv isr
recv-stored t buf bs to_recv room =
    let (t', run, buffer, idx, address) =
      receive_all_lem (addressed t buf to_recv) bs [] buf refl refl room in
    (
      record t' { mode = ready; twcr = enabled },
      rw (run, transfer) refl,
      refl,
      buffer,
      omega (arith, idx),
      address,
    )

-- If the master sends more bytes than the array has, the interrupt routine writes past it, whatever
-- count `twi_recv` was asked for.
pub recv_overflow :
    (t : Twi) (buf bs : List ℕ) (to_recv : ℕ)
    → length buf < length bs
    → recv t buf to_recv bs ≡ none
unfolding recv transfer start_recv isr
recv_overflow t buf bs to_recv more =
    rw (receive_all_overflow (addressed t buf to_recv) bs (omega arith) (omega arith), transfer)
      refl
