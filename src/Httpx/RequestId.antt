-- ===== src/Httpx/RequestId.antt =====
-- Request identifiers, body limits and fixed headers of internal/httpx/middleware.go.
pub mod Safe
use go_tunnels.Shared.{
  ℕ, suc, ◌+◌, ◌*◌, Bool, true, false, not, ◌&&◌, ◌||◌, List, [], ◌∷◌, Option, none, some, Text,
  codes, ℤ, pos, negsuc, ok, Exec, ltb, leb, if◌then◌else◌, length, all, ◌==◌, nat_eq, text_eq,
  pure, ◌>>=◌,
}
use go_tunnels.Text.{hex_encode}
use go_tunnels.Store.{World}
use go_tunnels.Httpx.Origins.{Header}

abbrev pub max_request_id_len : ℕ
max_request_id_len = 128

-- [A-Za-z0-9._:-]
unfoldable pub is_id_byte : ℕ → Bool
is_id_byte c =
    (leb b'a' c && leb c b'z')
    || (leb b'A' c && leb c b'Z')
    || (leb b'0' c && leb c b'9')
    || c == b'.'
    || c == b'_'
    || c == b':'
    || c == b'-'

-- validRequestID
unfoldable pub valid_request_id : Text → Bool
unfolding is_id_byte all
valid_request_id id =
    if id == [] || ltb max_request_id_len (length id) then false else all is_id_byte id

-- The id of 16 random bytes.
abbrev pub id_of : Option Text → Text
id_of none = codes "unknown"
id_of (some bytes) = hex_encode bytes

-- newID
unfoldable pub new_id : {E : Type 0} → Exec World E Text
new_id w = (ok (id_of (w.entropy w.reads 16)), record w { reads = suc w.reads })

-- RequestID: the identifier of the response header and of the context.
unfoldable pub request_id : {E : Type 0} → Text → Exec World E Text
unfolding valid_request_id new_id
request_id inbound = if not (valid_request_id inbound) then new_id else pure inbound

-- SecurityHeaders
abbrev pub security_headers : List Header
security_headers =
    (codes "X-Content-Type-Options", codes "nosniff")
    ∷ (codes "Referrer-Policy", codes "no-referrer")
    ∷ (codes "Cache-Control", codes "no-store")
    ∷ (codes "Cross-Origin-Resource-Policy", codes "cross-origin")
    ∷ []

abbrev default_max_body : ℕ
default_max_body = 1024 * 1024

-- The limit that MaxBody applies.
unfoldable pub body_limit : ℤ → ℕ
body_limit (pos (suc n)) = suc n
body_limit _ = default_max_body
