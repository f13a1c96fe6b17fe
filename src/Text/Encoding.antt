-- ===== src/Text/Encoding.antt =====
-- encoding/hex, and base64.RawURLEncoding.
use go_tunnels.Shared.{ℕ, ◌+◌, ◌-◌, ◌*◌, ◌/◌, ◌%◌, [], ◌∷◌, Text, ltb, if◌then◌else◌, ◌==◌, nat_eq}

unfoldable pub hex_digit : ℕ → ℕ
hex_digit n = if ltb n 10 then b'0' + n else b'a' + (n - 10)

unfoldable pub hex_encode : Text → Text
unfolding hex_digit
hex_encode [] = []
hex_encode (b ∷ s) = hex_digit (b / 16) ∷ hex_digit (b % 16) ∷ hex_encode s

base64_digit : ℕ → ℕ
base64_digit n =
    if ltb n 26
    then b'A' + n
    else if ltb n 52
    then b'a' + (n - 26)
    else if ltb n 62
    then b'0' + (n - 52)
    else if n == 62
    then b'-'
    else b'_'

-- Three bytes are four digits; no padding at the end.
unfoldable pub base64_raw_url : Text → Text
unfolding base64_digit
base64_raw_url [] = []
base64_raw_url (a ∷ []) = base64_digit (a / 4) ∷ base64_digit (a % 4 * 16) ∷ []
base64_raw_url (a ∷ b ∷ []) =
    base64_digit (a / 4) ∷ base64_digit (a % 4 * 16 + b / 16) ∷ base64_digit (b % 16 * 4) ∷ []
base64_raw_url (a ∷ b ∷ c ∷ s) =
    base64_digit (a / 4)
    ∷ base64_digit (a % 4 * 16 + b / 16)
    ∷ base64_digit (b % 16 * 4 + c / 64)
    ∷ base64_digit (c % 64)
    ∷ base64_raw_url s
