-- ===== src/Kamara/Crypto/Hex.antt =====
-- hex.EncodeToString of Go's encoding/hex.
use Prim.Native.Char.{Char}
use peristera.Prelude.{ℕ, ◌/◌, ◌%◌, List, [], ◌∷◌, String, get_or}

abbrev digits : List Char
digits =
    "0" ∷ "1" ∷ "2" ∷ "3" ∷ "4" ∷ "5" ∷ "6" ∷ "7" ∷ "8" ∷ "9" ∷ "a" ∷ "b" ∷ "c" ∷ "d" ∷ "e" ∷ "f"
    ∷ []

unfoldable pub hex_digit : ℕ → Char
hex_digit n = get_or digits n "0"

-- Two digits for each byte.
unfoldable pub encode : List ℕ → String
unfolding hex_digit
encode [] = String.[]
encode (b ∷ bytes) =
    String.◌∷◌ (hex_digit (b / 16)) (String.◌∷◌ (hex_digit (b % 16)) (encode bytes))
