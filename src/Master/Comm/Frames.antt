-- ===== src/Master/Comm/Frames.antt =====
-- What `communication_recv` does with a frame of the client, whole or with one byte changed.
use ammc.Base.{
  ℕ, suc, ◌+◌, ◌≤◌, ◌<◌, ◌≡◌, ◌≢◌, refl, sym, ap, ◌∙◌, List, [], ◌∷◌, ◌++◌, append_assoc, length,
  length-append, drop, overlay, overlay-append-drop, take-append, take_all, IsBytes, IsBytes-append,
  IsBytes-parts, ==_ne, arith,
}
use mathlib.Core.Path.{subst}
use ammc.Crc.{crc, crc_check}
use ammc.Crc.Detect.{crc_check_detects_byte}
use ammc.Packet.{Packet, raw, com_type, limit}
use ammc.Packet.Frame.{message, frame, crafted, crc_check-crafted, crc-lt}
use ammc.ComError.{success, corrupted_checksum}
use ammc.Master.Comm.{done, packet_sanity, recv}
use ammc.Master.Comm.Receive.{IsExpected, header, recv_whole}

module _ (g id type selector : ℕ) (body rest output : List ℕ) (rx : Packet) where
  abbrev pub trailer : ℕ
  trailer = crc (message id type selector body) (length (message id type selector body))

  pub stored-crafted :
      length rx.body ≡ 33
      → length body ≤ 32
      → overlay rx.body (body ++ trailer ∷ []) ≡ (crafted rx id type selector body).body
  stored-crafted room fits =
      overlay-append-drop rx.body (body ++ trailer ∷ []) (omega (arith, count))
      ∙ ap (λ n. (body ++ trailer ∷ []) ++ drop n rx.body) (count ∙ one)
      ∙ append_assoc body (trailer ∷ []) (drop (suc (length body)) rx.body)
    where
      count : length (body ++ trailer ∷ []) ≡ length body + 1
      count = length-append body (trailer ∷ [])

      one : length body + 1 ≡ suc (length body)
      one = omega arith

  sane-crafted :
      type < com_type limit
      → IsBytes (message id type selector body)
      → packet_sanity (crafted rx id type selector body) ≡ success
  unfolding packet_sanity
  sane-crafted known bytes = rw (crc_check-crafted rx id type selector body bytes) (ground arith)

  -- A frame of bytes with the expected id (or a handshake with id 0), a known type and a body of at
  -- most 32 bytes is accepted, whatever follows it: the packet is the crafted one, and exactly its
  -- bytes have been read.
  pub recv-frame :
      IsExpected g id type
      → length rx.body ≡ 33
      → length body ≤ 32
      → type < com_type limit
      → IsBytes (message id type selector body)
      → recv g (record { input = frame id type selector body ++ rest; output = output }) rx
        ≡ done success (crafted rx id type selector body) (record { input = rest; output = output })
  recv-frame expected room fits known bytes =
      recv_whole g id type selector (5 + length body) (body ++ trailer ∷ []) rest output rx expected
        (omega (arith, length-append {0} body (trailer ∷ []))) (omega arith)
      ∙ rw (stored-crafted room fits, sane-crafted known bytes) refl

  -- The remainder that is computed over a stored packet is that of its bytes on the wire.
  check-stored :
      (size : ℕ) (tail : List ℕ)
      → length rx.body ≡ 33
      → length tail ≤ 33
      → size ≡ suc (suc (suc (suc (length tail))))
      → crc_check (id ∷ type ∷ selector ∷ size ∷ overlay rx.body tail) size
        ≡ crc_check
            (id ∷ type ∷ selector ∷ size ∷ tail)
            (length (id ∷ type ∷ selector ∷ size ∷ tail))
  unfolding crc_check
  check-stored size tail room fits e =
      rw
        (
          e,
          overlay-append-drop rx.body tail (omega arith),
          take-append tail (drop (length tail) rx.body),
          take_all (length tail) tail (omega arith),
        )
        refl

  -- A frame of bytes that would be accepted (an expected id or a handshake, a known type, a body of
  -- at most 32 bytes), with one byte behind its size replaced by another byte, is refused as
  -- corrupted: the byte may be of the body or the checksum. Exactly the frame has been read.
  pub recv_corrupted :
      (a b : ℕ) (xs ys : List ℕ)
      → IsExpected g id type
      → length rx.body ≡ 33
      → length body ≤ 32
      → type < com_type limit
      → IsBytes (message id type selector body)
      → body ++ trailer ∷ [] ≡ xs ++ a ∷ ys
      → b < 256
      → a ≢ b
      → (rx' : Packet) × (recv g
            (record {
              input = id ∷ type ∷ selector ∷ (5 + length body) ∷ ((xs ++ b ∷ ys) ++ rest);
              output = output;
            })
            rx
          ≡ done corrupted_checksum rx' (record { input = rest; output = output }))
  recv_corrupted a b xs ys expected room fits known bytes e small ne = (
    rx',
    recv_whole g id type selector (5 + length body) (xs ++ b ∷ ys) rest output rx expected
          (omega (arith, ap length e, count a, count b, length-append {0} body (trailer ∷ [])))
          (omega arith)
        ∙ ap (λ t. done t rx' (record { input = rest; output = output })) refused,
  )
    where
      rx' : Packet
      rx' = record (header rx id type selector (5 + length body)) {
        body = overlay rx.body (xs ++ b ∷ ys);
      }

      count : (c : ℕ) → length (xs ++ c ∷ ys) ≡ length xs + suc (length ys)
      count c = length-append xs (c ∷ ys)

      five : 5 + length body ≡ suc (suc (suc (suc (length (xs ++ b ∷ ys)))))
      five = omega (arith, ap length e, count a, count b, length-append {0} body (trailer ∷ []))

      parts : IsBytes xs × (a < 256) × IsBytes ys
      parts = IsBytes-parts xs ys a (
          subst IsBytes e (
            IsBytes-append body (trailer ∷ []) bytes.1.1.1.1
              (crc-lt (message id type selector body) bytes, tt)))

      front : List ℕ
      front = id ∷ type ∷ selector ∷ (5 + length body) ∷ []

      accepted : crc_check (front ++ (xs ++ a ∷ ys)) (length (front ++ (xs ++ a ∷ ys))) ≡ 0
      accepted =
          ap (λ t. crc_check (front ++ t) (length (front ++ t))) (sym e)
          ∙ sym (
              check-stored (5 + length body) (body ++ trailer ∷ []) room
                (omega (arith, length-append {0} body (trailer ∷ [])))
                (omega (arith, length-append {0} body (trailer ∷ []))))
          ∙ ap (λ t. crc_check (front ++ t) (5 + length body)) (stored-crafted room fits)
          ∙ crc_check-crafted rx id type selector body bytes

      nonzero : crc_check (raw rx') (5 + length body) ≢ 0
      nonzero z =
          crc_check_detects_byte a b (front ++ xs) ys parts.1 small
            (bytes.0, (bytes.1.0, (bytes.1.1.0, (bytes.1.1.1.0, parts.0)))) parts.2 ne accepted
            (sym (check-stored (5 + length body) (xs ++ b ∷ ys) room (omega (arith, five)) five)
              ∙ z)

      refused : packet_sanity rx' ≡ corrupted_checksum
      refused = unfold packet_sanity in rw ((==_ne _ 0).1 nonzero) (ground arith)
