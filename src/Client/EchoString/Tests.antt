-- ===== src/Client/EchoString/Tests.antt =====
-- An example of the string of dev-echo.
use mathlib.Core.List.{replicate}
use ammc.Base.{ℕ, ◌≡◌, refl, List, [], ◌∷◌, drop, some}
use ammc.Client.EchoString.{prepare_echo_string}
use ammc.Client.EchoString.Fits.{prepare_echo_string-IsJoined, IsJoined, join}

-- The words of `dev-echo a bc`.
abbrev argv : List (List ℕ)
argv = (b'e' ∷ []) ∷ (b'a' ∷ []) ∷ (b'b' ∷ b'c' ∷ []) ∷ []

prepare_echo_string-IsJoined_example :
    (dest' : List ℕ) × (code : ℕ) × (prepare_echo_string (replicate 31 7) argv ≡ some (dest', code))
    × IsJoined (join [] (drop 1 argv)) dest' code
prepare_echo_string-IsJoined_example = prepare_echo_string-IsJoined (replicate 31 7) argv refl
