-- ===== src/Auth/Password.antt =====
-- internal/auth/password.go: argon2id hashes in PHC form.
use go_tunnels.Shared.{
  zero, suc, ℤ, pos, negsuc, ℕ, ◌+◌, ◌-◌, ◌*◌, ◌/◌, ◌%◌, ◌^◌, Bool, true, false, ◌&&◌, ◌||◌, List,
  [], ◌∷◌, ◌++◌, Option, none, some, Result, ok, err, Text, codes, ltb, leb, if◌then◌else◌, length,
  ◌==◌, nat_eq, text_eq,
}
use go_tunnels.Text.{skip_space}
use go_tunnels.Store.{Platform, Argon}

pub data HashError : Type 0 where
  empty_password no_entropy invalid_hash incompatible_version : HashError

abbrev argon_time : ℕ
argon_time = 1

abbrev argon_memory : ℕ
argon_memory = 64 * 1024

abbrev argon_threads : ℕ
argon_threads = 4

abbrev argon_key_len : ℕ
argon_key_len = 32

abbrev pub argon_salt_len : ℕ
argon_salt_len = 16

-- argon2.Version
abbrev argon_version : ℕ
argon_version = 0x13

abbrev argon_params : Argon
argon_params = record { memory = argon_memory; time = argon_time; threads = argon_threads }

std_digit : ℕ → ℕ
std_digit n =
    if ltb n 26
    then b'A' + n
    else if ltb n 52
    then b'a' + (n - 26)
    else if ltb n 62
    then b'0' + (n - 52)
    else if n == 62
    then b'+'
    else b'/'

-- base64.RawStdEncoding.EncodeToString
unfoldable pub base64_raw_std : Text → Text
unfolding std_digit
base64_raw_std [] = []
base64_raw_std (a ∷ []) = std_digit (a / 4) ∷ std_digit (a % 4 * 16) ∷ []
base64_raw_std (a ∷ b ∷ []) =
    std_digit (a / 4) ∷ std_digit (a % 4 * 16 + b / 16) ∷ std_digit (b % 16 * 4) ∷ []
base64_raw_std (a ∷ b ∷ c ∷ s) =
    std_digit (a / 4)
    ∷ std_digit (a % 4 * 16 + b / 16)
    ∷ std_digit (b % 16 * 4 + c / 64)
    ∷ std_digit (c % 64)
    ∷ base64_raw_std s

digit_value : ℕ → Option ℕ
digit_value c =
    if leb b'A' c && leb c b'Z'
    then some (c - b'A')
    else if leb b'a' c && leb c b'z'
    then some (c - b'a' + 26)
    else if leb b'0' c && leb c b'9'
    then some (c - b'0' + 52)
    else if c == b'+'
    then some 62
    else if c == b'/'
    then some 63
    else none

-- The digits of a text, without the line breaks, which DecodeString skips.
digit_values : Text → Option (List ℕ)
unfolding digit_value
digit_values [] = some []
digit_values (c ∷ s) =
    let rest = digit_values s in
    if c == 10 || c == 13 then rest else elim (digit_value c) [
      | none ↦ none
      | some v ↦ elim rest [ none ↦ none | some vs ↦ some (v ∷ vs) ]
    ]

-- Four digits are three bytes; one digit left over is an error.
bytes_of_digits : List ℕ → Option Text
bytes_of_digits [] = some []
bytes_of_digits (a ∷ []) = none
bytes_of_digits (a ∷ b ∷ []) = some ((a * 4 + b / 16) ∷ [])
bytes_of_digits (a ∷ b ∷ c ∷ []) = some ((a * 4 + b / 16) ∷ (b % 16 * 16 + c / 4) ∷ [])
bytes_of_digits (a ∷ b ∷ c ∷ d ∷ s) = elim (bytes_of_digits s) [
  | none ↦ none
  | some rest ↦ some ((a * 4 + b / 16) ∷ (b % 16 * 16 + c / 4) ∷ (c % 4 * 64 + d) ∷ rest)
]

-- base64.RawStdEncoding.DecodeString
unfoldable pub base64_decode : Text → Option Text
unfolding digit_values bytes_of_digits
base64_decode s = elim (digit_values s) [ none ↦ none | some vs ↦ bytes_of_digits vs ]

-- strings.Split with a one-byte separator.
unfoldable pub split : ℕ → Text → List Text
split sep [] = [] ∷ []
split sep (c ∷ s) = elim (split sep s) [
  | [] ↦ (c ∷ []) ∷ []
  | p ∷ ps ↦ if c == sep then [] ∷ p ∷ ps else (c ∷ p) ∷ ps
]

-- `%d` of fmt.Sscanf for an unsigned value: digits, at least one; the rest of the text follows.
read_digits : ℕ → Text → ℕ × Text
read_digits acc [] = (acc, [])
read_digits acc (c ∷ s) = elim (leb b'0' c && leb c b'9') [
  | true ↦ read_digits (acc * 10 + (c - b'0')) s
  | false ↦ (acc, c ∷ s)
]

read_unsigned : ℕ → Text → Option (ℕ × Text)
unfolding read_digits
read_unsigned bound [] = none
read_unsigned bound (c ∷ s) =
    let (n, rest) = read_digits 0 (c ∷ s) in
    if leb b'0' c && leb c b'9' && ltb n bound then some (n, rest) else none

-- A literal of the format, and what follows it.
read_literal : Text → Text → Option Text
read_literal [] s = some s
read_literal (p ∷ ps) [] = none
read_literal (p ∷ ps) (c ∷ s) = if c == p then read_literal ps s else none

infixl 5 ◌>>=◌
abbrev ◌>>=◌ : {A B : Type 0} → Option A → (A → Option B) → Option B
none >>= f = none
some a >>= f = f a

-- `%d` of fmt.Sscanf into an unsigned value, after spaces.
read_number : ℕ → Text → Option (ℕ × Text)
unfolding skip_space read_unsigned
read_number bound s = skip_space 0 s >>= read_unsigned bound

-- `%d` of fmt.Sscanf into an int, after spaces and a sign.
negative : ℕ × Text → Option (ℤ × Text)
negative (zero, rest) = some (pos 0, rest)
negative (suc n, rest) = some (negsuc n, rest)

positive : ℕ × Text → Option (ℤ × Text)
positive (n, rest) = some (pos n, rest)

read_signed : Text → Option (ℤ × Text)
unfolding read_unsigned negative positive
read_signed [] = none
read_signed (c ∷ s) =
    if c == b'-'
    then read_unsigned (2 ^ 63 + 1) s >>= negative
    else if c == b'+'
    then read_unsigned (2 ^ 63) s >>= positive
    else read_unsigned (2 ^ 63) (c ∷ s) >>= positive

read_int : Text → Option (ℤ × Text)
unfolding skip_space read_signed
read_int s = skip_space 0 s >>= read_signed

-- Sscanf(s, "v=%d")
read_version : Text → Option ℤ
unfolding read_int read_literal
read_version s = do (v, _) ← read_literal (codes "v=") s >>= read_int; some v

-- Sscanf(s, "m=%d,t=%d,p=%d") into uint32, uint32, uint8
read_params : Text → Option Argon
unfolding read_number read_literal
read_params s = do
  (m, s1) ← read_literal (codes "m=") s >>= read_number (2 ^ 32)
  (t, s2) ← read_literal (codes ",t=") s1 >>= read_number (2 ^ 32)
  (p, _) ← read_literal (codes ",p=") s2 >>= read_number (2 ^ 8)
  some (record { memory = m; time = t; threads = p })

-- The parameters, salt and hash of the last three parts.
decode_parts : Text → Text → Text → Result HashError (Argon × Text × Text)
unfolding read_params base64_decode
decode_parts params salt hash =
    elim (do
      p ← read_params params
      s ← base64_decode salt
      h ← base64_decode hash
      some (p, s, h)) [ none ↦ err invalid_hash | some r ↦ ok r ]

check_version :
    Option ℤ → Result HashError (Argon × Text × Text) → Result HashError (Argon × Text × Text)
check_version none rest = err invalid_hash
check_version (some (pos v)) rest = if v == argon_version then rest else err incompatible_version
check_version (some (negsuc v)) rest = err incompatible_version

decode_split : List Text → Result HashError (Argon × Text × Text)
unfolding check_version decode_parts read_version
decode_split (a ∷ b ∷ c ∷ d ∷ e ∷ f ∷ []) =
    if b == codes "argon2id"
    then check_version (read_version c) (decode_parts d e f)
    else err invalid_hash
decode_split _ = err invalid_hash

unfoldable pub decode_phc : Text → Result HashError (Argon × Text × Text)
unfolding split decode_split
decode_phc encoded = decode_split (split b'$' encoded)

module _ (platform : Platform) where
  -- The PHC text for a salt; the decimals are those of the constants above.
  unfoldable pub phc : Text → Text → Text
  unfolding base64_raw_std
  phc password salt =
      codes "$argon2id$v=19$m=65536,t=1,p=4$"
      ++ (base64_raw_std salt
          ++ (codes "$"
              ++ base64_raw_std (platform.argon2_id_key password salt argon_params argon_key_len)))

  -- HashPassword; `salt` is what the read of random bytes returned.
  unfoldable pub hash_password : Text → Option Text → Result HashError Text
  unfolding phc
  hash_password [] salt = err empty_password
  hash_password (c ∷ s) none = err no_entropy
  hash_password (c ∷ s) (some salt) = ok (phc (c ∷ s) salt)

  unfoldable pub verify_password : Text → Text → Result HashError Bool
  unfolding decode_phc
  verify_password encoded password = elim (decode_phc encoded) [
    | err e ↦ err e
    | ok (p, salt, hash) ↦
        let computed = platform.argon2_id_key password salt p (length hash) in
        ok (length computed == length hash && computed == hash)
  ]
