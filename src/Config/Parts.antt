-- ===== src/Config/Parts.antt =====
-- splitList, parseHeaders and endpointFromDSN of internal/config/config.go.
use go_tunnels.Shared.{
  ℕ, suc, ◌+◌, Bool, ◌||◌, List, [], ◌∷◌, ◌++◌, Option, none, some, Text, codes, if◌then◌else◌,
  take, drop, ◌==◌, nat_eq, text_eq, length,
}
use go_tunnels.Text.{trim_space, index_of}
use go_tunnels.Auth.Password.{split}
use go_tunnels.Auth.Passkey.{before_last}

abbrev pub is_separator : ℕ → Bool
is_separator c = c == b',' || c == b' ' || c == 9 || c == 10

-- strings.FieldsFunc; `field` is what was read of the current field.
unfoldable pub fields_after : (ℕ → Bool) → Text → Text → List Text
fields_after is_sep field [] = if field == [] then [] else field ∷ []
fields_after is_sep field (c ∷ s) =
    let ended = fields_after is_sep [] s in
    let longer = fields_after is_sep (field ++ c ∷ []) s in
    if is_sep c then (if field == [] then ended else field ∷ ended) else longer

-- The loop that trims the fields and drops the blank ones.
unfoldable pub trimmed : List Text → List Text
unfolding trim_space
trimmed [] = []
trimmed (f ∷ fs) = let rest = trimmed fs in if trim_space f == [] then rest else trim_space f ∷ rest

unfoldable pub split_list : Text → List Text
unfolding fields_after trimmed
split_list s = trimmed (fields_after is_separator [] s)

-- A map of headers, with the latest value of a key.
unfoldable pub set_header : Text → Text → List (Text × Text) → List (Text × Text)
set_header k v [] = (k, v) ∷ []
set_header k v ((key, value) ∷ rest) =
    let later = set_header k v rest in if key == k then (key, v) ∷ rest else (key, value) ∷ later

-- strings.Cut(pair, "=")
unfoldable pub cut_at : ℕ → Text → Option (Text × Text)
cut_at c [] = none
cut_at c (x ∷ s) =
    let rest = cut_at c s in
    if x == c then some ([], s) else elim rest [ none ↦ none | some (k, v) ↦ some (x ∷ k, v) ]

unfoldable pub headers_of : List (Text × Text) → List Text → List (Text × Text)
unfolding trim_space cut_at set_header
headers_of out [] = out
headers_of out (pair ∷ pairs) =
    let same = headers_of out pairs in
    if trim_space pair == [] then same else elim (cut_at b'=' (trim_space pair)) [
      | none ↦ same
      | some (k, v) ↦ headers_of (set_header (trim_space k) (trim_space v) out) pairs
    ]

unfoldable pub parse_headers : Text → List (Text × Text)
unfolding headers_of
parse_headers s = headers_of [] (split b',' s)

-- What follows the last "@", or the whole text.
abbrev pub after_userinfo : Text → Text
after_userinfo rest = elim (before_last b'@' rest) [
  | none ↦ rest
  | some userinfo ↦ drop (suc (length userinfo)) rest
]

-- What precedes the first '/' or '?', or the whole text.
unfoldable pub until_path : Text → Text
until_path [] = []
until_path (c ∷ s) = let rest = until_path s in if c == b'/' || c == b'?' then [] else c ∷ rest

-- The endpoint for a scheme and what follows it, and whether it is insecure.
unfoldable pub endpoint_of : Text → Text → Text × Bool
unfolding before_last until_path
endpoint_of scheme rest =
    (scheme ++ (codes "://" ++ until_path (after_userinfo rest)), scheme == codes "http")

unfoldable pub endpoint_from_dsn : Text → Text × Bool
unfolding endpoint_of index_of
endpoint_from_dsn dsn = elim (index_of (codes "://") dsn) [
  | none ↦ endpoint_of (codes "https") dsn
  | some i ↦ endpoint_of (take i dsn) (drop (i + 3) dsn)
]
