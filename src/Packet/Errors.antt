-- ===== src/Packet/Errors.antt =====
-- When `packet_craft` refuses.
use ammc.Base.{ℕ, ◌≤◌, ◌<◌, ◌≡◌, ◌↔◌, ◌⊎◌, ◌≢◌, Option, none, some, List, arith}
use ammc.Packet.{Packet, craft, com_type, limit}

-- `packet_craft` returns 1 exactly when the body is too long, is missing although it has a size,
-- or the type is not one of the protocol's. Either it returns 0, or it leaves `*p` alone.
pub craft_refuses :
    (p : Packet) (id type selector n : ℕ) (body : Option (List ℕ))
    → let (code, q) = craft p id type selector body n in
      ((code ≡ 1) ↔ ((32 < n) ⊎ ((body ≡ none) × (n ≢ 0)) ⊎ (com_type limit ≤ type)))
      × ((code ≡ 0) ⊎ (q ≡ p))
unfolding craft
craft_refuses p id type selector n none = (ground arith, ground arith)
craft_refuses p id type selector n (some body) = (ground arith, ground arith)
