-- ===== src/Activity.antt =====
-- internal/activity/activity.go: audit events, with the client's address hashed.
use go_tunnels.Shared.{
  ℕ, Bool, ◌&&◌, [], ◌∷◌, ◌++◌, Option, none, some, Text, leb, if◌then◌else◌, length, take, ◌==◌,
  nat_eq, text_eq,
}
use mathlib.Core.List.{flat_map}
use go_tunnels.Text.{Rune, runes, encode_rune, trim_space, hex_encode, rune_error}
use go_tunnels.Store.{Platform, Stored, Detail}
use go_tunnels.Store.Audit.{insert_activity}

-- What the handlers read of an HTTP request; `cookie` is the session cookie's value, and
-- `remote_host` is net.SplitHostPort of the remote address.
pub record Request : Type 0 where
  pub authorization : Text
  pub cookie : Option Text
  pub user_agent : Text
  pub cf_connecting_ip : Text
  pub x_forwarded_for : Text
  pub remote_addr : Text
  pub remote_host : Option Text
  -- the Origin header, and the query parameter `flow`
  pub origin : Text
  pub flow : Text

unfoldable pub hash_ip : Platform → Text → Text → Text
unfolding hex_encode trim_space
hash_ip platform pepper ip =
    if trim_space ip == [] then [] else hex_encode (platform.sha256 (pepper ++ trim_space ip))

-- What precedes the first comma, or the whole text.
before_comma : Text → Text
before_comma [] = []
before_comma (c ∷ s) = let rest = before_comma s in if c == b',' then [] else c ∷ rest

unfoldable pub client_ip : Request → Text
unfolding trim_space before_comma
client_ip r =
    if trim_space r.cf_connecting_ip == []
    then if r.x_forwarded_for == []
      then elim r.remote_host [ none ↦ trim_space r.remote_addr | some host ↦ host ]
      else trim_space (before_comma r.x_forwarded_for)
    else trim_space r.cf_connecting_ip

-- A byte that is no UTF-8 is read as U+FFFD of width 1.
abbrev is_invalid : Rune → Bool
is_invalid r = r.point == rune_error && r.width == 1

-- strings.ToValidUTF8(s, "")
unfoldable pub to_valid_utf8 : Text → Text
unfolding runes encode_rune
to_valid_utf8 s = flat_map (λ r. if is_invalid r then [] else encode_rune r.point) (runes s)

unfoldable pub truncate : Text → ℕ → Text
unfolding to_valid_utf8 runes encode_rune
truncate s n =
    let points = runes (to_valid_utf8 s) in
    if leb (length points) n
    then to_valid_utf8 s
    else flat_map (λ r. encode_rune r.point) (take n points)

pub record Event : Type 0 where
  pub user_id : Option Text
  pub username : Text
  pub event_type : Text
  pub auth_method : Text
  pub outcome : Text
  pub detail : Detail

abbrev max_username_runes : ℕ
max_username_runes = 64

abbrev max_user_agent_runes : ℕ
max_user_agent_runes = 512

-- Recorder.Record
unfoldable pub record_event : Platform → Text → Request → Event → Stored Unit
record_event platform pepper r e = insert_activity platform (record {
  user_id = e.user_id;
  username = truncate e.username max_username_runes;
  event_type = e.event_type;
  auth_method = e.auth_method;
  outcome = e.outcome;
  ip_hash = hash_ip platform pepper (client_ip r);
  user_agent = truncate r.user_agent max_user_agent_runes;
  detail = e.detail;
})
