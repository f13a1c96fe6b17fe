-- ===== src/Prefs.antt =====
-- internal/prefs/prefs.go: the handlers of the preferences, after RequireAuth.
pub mod Saved
use go_tunnels.Shared.{
  ℕ, Bool, true, false, not, ◌&&◌, ◌||◌, [], ◌∷◌, Option, none, some, Text, ltb, leb, if◌then◌else◌,
  length, all, Result, ok, err, pure, stop, ◌>>=◌, ◌>>◌, ◌==◌, nat_eq, text_eq, List,
}
use go_tunnels.Text.{Rune, runes}
use go_tunnels.Store.{World, User}
use go_tunnels.Store.Prefs.{get_user_pref, set_user_pref}
use go_tunnels.Httpx.Reply.{
  Response, Handler, DecodeProblem, decode_json, or_server_error, write_json, write_error,
  status_word, pref_body,
}
use go_tunnels.Auth.Sessions.{found}

abbrev pub max_key_len : ℕ
max_key_len = 64

abbrev pub max_value_bytes : ℕ
max_value_bytes = 4096

-- A letter or a digit.
abbrev is_key_rune : Rune → Bool
is_key_rune r = (leb b'a' r.point && leb r.point b'z') || (leb b'0' r.point && leb r.point b'9')

abbrev is_inner_rune : Rune → Bool
is_inner_rune r = is_key_rune r || r.point == b'.' || r.point == b'-' || r.point == b'_'

-- The first rune has fewer choices than the others.
abbrev valid_runes : List Rune → Bool
valid_runes [] = true
valid_runes (r ∷ rs) = is_key_rune r && all is_inner_rune rs

unfoldable pub valid_key : Text → Bool
unfolding runes all
valid_key k =
    if ltb (length k) 1 || ltb max_key_len (length k) then false else valid_runes (runes k)

-- The reply for the stored value, or for none.
abbrev pub pref_reply : Text → Option Text → Response
pref_reply key none = write_json 200 (pref_body key [] false)
pref_reply key (some value) = write_json 200 (pref_body key value true)

unfoldable pub get_pref : Text → User × Text → Handler Response
unfolding valid_key
get_pref key (user, _) =
    if not (valid_key key)
    then stop (write_error 400 "invalid preference key")
    else do value ← found (get_user_pref user.id key); pure (pref_reply key value)

-- Set, for a value that is not too large.
unfoldable pub save_pref : Text → Text → User → Handler Response
save_pref key value user = do
  or_server_error (set_user_pref user.id key value)
  pure (write_json 200 (status_word "saved"))

unfoldable pub set_pref : Text → Result DecodeProblem Text → User × Text → Handler Response
unfolding valid_key save_pref
set_pref key body (user, _) =
    if not (valid_key key) then stop (write_error 400 "invalid preference key") else do
      value ← decode_json body
      if ltb max_value_bytes (length value)
          then stop (write_error 400 "preference value too large")
          else save_pref key value user
