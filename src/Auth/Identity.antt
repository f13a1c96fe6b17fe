-- ===== src/Auth/Identity.antt =====
-- The identity rules of internal/auth/handlers.go: normalizeIdentity, validUsername,
-- validatePassword.
use Prim.Native.String.{String}
use go_tunnels.Shared.{
  ℕ, Bool, false, not, ◌&&◌, ◌||◌, [], Option, none, some, Result, ok, err, Text, ltb, leb,
  if◌then◌else◌, length, all, any, ◌==◌, nat_eq, text_eq,
}
use go_tunnels.Text.{trim_space, runes, rune_count, valid_string}

abbrev pub min_password_len : ℕ
min_password_len = 8

abbrev pub max_password_bytes : ℕ
max_password_bytes = 1024

abbrev pub max_display_name_rune : ℕ
max_display_name_rune = 64

unfoldable pub is_username_rune : ℕ → Bool
is_username_rune r =
    (leb b'a' r && leb r b'z')
    || (leb b'A' r && leb r b'Z')
    || (leb b'0' r && leb r b'9')
    || r == b'.'
    || r == b'-'
    || r == b'_'

unfoldable pub valid_username : Text → Bool
unfolding runes all is_username_rune
valid_username u =
    if ltb (length u) 3 || ltb 32 (length u)
    then false
    else all (λ r. is_username_rune r.point) (runes u)

-- r < 0x20 || (r >= 0x7f && r < 0xa0)
unfoldable pub is_control : ℕ → Bool
is_control r = ltb r 0x20 || (leb 0x7f r && ltb r 0xa0)

-- The display name after trimming, with the username for a blank one.
abbrev shown_name : Text → Text → Text
shown_name username display_name =
    if trim_space display_name == [] then username else trim_space display_name

-- The username and display name, or the problem.
unfoldable pub normalize_identity : Text → Text → Result String (Text × Text)
unfolding trim_space valid_username valid_string rune_count any is_control
normalize_identity raw_username raw_display_name =
    let username = trim_space raw_username in
    let display_name = shown_name username raw_display_name in
    if not (valid_username username)
    then err "username must be 3-32 chars: letters, digits, dot, dash, underscore"
    else if not (valid_string display_name) || ltb max_display_name_rune (rune_count display_name)
    then err "display name must be at most 64 characters"
    else if any (λ r. is_control r.point) (runes display_name)
    then err "display name must not contain control characters"
    else ok (username, display_name)

unfoldable pub validate_password : Text → Option String
validate_password p =
    if ltb (length p) min_password_len
    then some "password must be at least 8 characters"
    else if ltb max_password_bytes (length p)
    then some "password must be at most 1024 bytes"
    else none
