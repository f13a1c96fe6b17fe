-- ===== src/Httpx/Origins.antt =====
-- The origin policy of internal/httpx/middleware.go: OriginAllowed, MatchOriginPattern,
-- splitOrigin, CORS.
use go_tunnels.Shared.{
  ℕ, suc, ◌+◌, ◌-◌, Bool, true, false, not, ◌&&◌, ◌||◌, List, [], ◌∷◌, Option, none, some, Text,
  codes, if◌then◌else◌, length, take, drop, any, ◌==◌, nat_eq, text_eq,
}
use go_tunnels.Text.{trim_space, to_lower, has_prefix, has_suffix, index_of}
pub mod Split
pub mod Match

-- scheme and host
pub record SplitOrigin : Type 0 where
  pub scheme : Text
  pub host : Text

-- strings.ContainsAny(host, "/?#@ ")
abbrev pub is_not_host : ℕ → Bool
is_not_host c = c == b'/' || c == b'?' || c == b'#' || c == b'@' || c == b' '

-- strings.ContainsAny(label, ".:/")
abbrev pub is_not_label : ℕ → Bool
is_not_label c = c == b'.' || c == b':' || c == b'/'

abbrev pub separator : Text
separator = codes "://"

-- strings.ToLower(strings.TrimSpace(o))
unfoldable pub normal_origin : (ℕ → ℕ) → Text → Text
unfolding trim_space to_lower
normal_origin lower_rune o = to_lower lower_rune (trim_space o)

-- What splitOrigin returns for the position of the separator.
unfoldable pub split_at : Text → ℕ → Option SplitOrigin
unfolding any
split_at o i =
    let host = drop (i + 3) o in
    if i == 0 || host == [] || any is_not_host host
    then none
    else some (record { scheme = take i o; host = host })

unfoldable pub split_origin : (ℕ → ℕ) → Text → Option SplitOrigin
unfolding normal_origin index_of split_at
split_origin lower_rune o =
    let normal = normal_origin lower_rune o in
    elim (index_of separator normal) [ none ↦ none | some i ↦ split_at normal i ]

-- The comparison of a split pattern with a split origin.
unfoldable pub match_split : SplitOrigin → SplitOrigin → Bool
unfolding has_prefix has_suffix any
match_split p o =
    let suffix = drop 1 p.host in
    let label = take (length o.host - length suffix) o.host in
    if not (p.scheme == o.scheme)
    then false
    else if not (has_prefix p.host (codes "*."))
    then p.host == o.host
    else if not (has_suffix o.host suffix)
    then false
    else not (label == [] || any is_not_label label)

unfoldable pub match_origin_pattern : (ℕ → ℕ) → Text → Text → Bool
unfolding split_origin match_split
match_origin_pattern lower_rune pattern origin = elim (split_origin lower_rune pattern) [
  | none ↦ false
  | some p ↦ elim (split_origin lower_rune origin) [ none ↦ false | some o ↦ match_split p o ]
]

-- One turn of OriginAllowed's loop.
abbrev pub is_listed : (ℕ → ℕ) → Text → Text → Bool
is_listed lower_rune origin a =
    a == origin || (any (λ c. c == b'*') a && match_origin_pattern lower_rune a origin)

-- The echoed origin, if any.
unfoldable pub origin_allowed : (ℕ → ℕ) → List Text → Bool → Text → Option Text
unfolding any match_origin_pattern
origin_allowed lower_rune allowed allow_any origin =
    if origin == []
    then none
    else if allow_any
    then some origin
    else if any (is_listed lower_rune origin) allowed
    then some origin
    else none

abbrev pub Header : Type 0
Header = Text × Text

-- The headers for an echoed origin.
abbrev pub credentialed : Text → List Header
credentialed echo =
    (codes "Access-Control-Allow-Origin", echo)
    ∷ (codes "Access-Control-Allow-Credentials", codes "true")
    ∷ (codes "Access-Control-Allow-Headers", codes "Content-Type, Authorization, X-Requested-With")
    ∷ (codes "Access-Control-Allow-Methods", codes "GET, POST, PUT, DELETE, OPTIONS")
    ∷ (codes "Access-Control-Max-Age", codes "600")
    ∷ []

-- CORS: the headers it sets, and the next handler's answer; a preflight is answered with 204, which
-- is `none`.
unfoldable pub cors :
    {A : Type 0} → (ℕ → ℕ) → List Text → Bool → Text → Text → A → List Header × Option A
unfolding origin_allowed
cors lower_rune allowed allow_any method origin next = (
  (codes "Vary", codes "Origin") ∷ elim (origin_allowed lower_rune allowed allow_any origin) [
    | none ↦ []
    | some echo ↦ credentialed echo
  ],
  if method == codes "OPTIONS" then none else some next,
)
