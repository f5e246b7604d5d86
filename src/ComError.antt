-- ===== src/ComError.antt =====
-- The error codes of include/common/communication.h.
use ammc.Base.{ℕ}

-- `com_error_t`
pub data ComError : Type 0 where
  success id_mismatch corrupted_checksum wrong_type too_big slave_not_found : ComError

-- The value of each enumerator.
abbrev pub error_code : ComError → ℕ
error_code success = 0
error_code id_mismatch = 1
error_code corrupted_checksum = 2
error_code wrong_type = 3
error_code too_big = 4
error_code slave_not_found = 5
