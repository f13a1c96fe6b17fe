-- ===== src/Notes.antt =====
-- internal/notes/notes.go: the handlers of the notes, after RequireAuth.
pub mod Body
pub mod Feed
use Prim.Native.String.{String}
use go_tunnels.Shared.{
  ℕ, zero, suc, ◌+◌, ◌-◌, ◌*◌, ◌^◌, Bool, true, false, not, ◌&&◌, ◌||◌, List, [], ◌∷◌, ◌++◌, Option,
  none, some, Text, ℤ, pos, negsuc, ltb, leb, if◌then◌else◌, length, any, Result, ok, err, pure,
  stop, ◌>>=◌, ◌>>◌, ◌==◌, nat_eq, text_eq,
}
use go_tunnels.Text.{parse_int, Rune, runes, rune_count, valid_string, trim_space}
use go_tunnels.Store.{World, User, Note}
use go_tunnels.Store.Notes.{create_note, list_notes, delete_note}
use go_tunnels.Store.Summaries.{list_note_authors}
use go_tunnels.Httpx.Reply.{
  authors_body, Response, Handler, DecodeProblem, decode_json, or_server_error, write_json,
  write_error, notes_body, note_body, status_word,
}
use go_tunnels.Auth.Identity.{is_control}
use go_tunnels.Auth.Password.{split}

abbrev pub max_body_chars : ℕ
max_body_chars = 500

abbrev default_page_size : ℕ
default_page_size = 50

abbrev max_page_size : ℕ
max_page_size = 200

abbrev max_author_filter : ℕ
max_author_filter = 50

-- The ranges are those of the bidirectional controls and the invisible characters.
unfoldable pub forbidden_rune : ℕ → Bool
unfolding is_control
forbidden_rune r =
    if r == 10 || r == 9
    then false
    else is_control r
      || (leb 0x202a r && leb r 0x202e)
      || (leb 0x2066 r && leb r 0x2069)
      || r == 0x200b
      || r == 0x200e
      || r == 0x200f
      || r == 0x2060
      || r == 0xfeff

-- ReplaceAll of "\r\n" by "\n".
replace_crlf : Text → Text
replace_crlf [] = []
replace_crlf (a ∷ []) = a ∷ []
replace_crlf (a ∷ b ∷ s) =
    let short = replace_crlf s in
    let long = replace_crlf (b ∷ s) in if a == 13 && b == 10 then 10 ∷ short else a ∷ long

-- ReplaceAll of "\r" by "\n".
replace_cr : Text → Text
replace_cr [] = []
replace_cr (c ∷ s) = (if c == 13 then 10 else c) ∷ replace_cr s

-- ValidateBody, for the normalised body; the message's count is left out.
unfoldable pub validate_normalised : Text → Result String Text
unfolding rune_count runes any forbidden_rune
validate_normalised body =
    if body == []
    then err "note body must not be empty"
    else if ltb max_body_chars (rune_count body)
    then err "note body must be at most 500 characters"
    else if any (λ r. forbidden_rune r.point) (runes body)
    then err "note body must not contain control or invisible formatting characters"
    else ok body

unfoldable pub validate_body : Text → Result String Text
unfolding validate_normalised valid_string trim_space replace_crlf replace_cr
validate_body raw =
    if not (valid_string raw)
    then err "note body must be valid UTF-8"
    else validate_normalised (trim_space (replace_cr (replace_crlf raw)))

-- The before cursor: 0 for none.
abbrev cursor_of : Option ℤ → Handler ℕ
cursor_of (some (pos n)) = pure n
cursor_of _ = stop (write_error 400 "invalid before cursor")

unfoldable pub before_cursor : Text → Handler ℕ
unfolding parse_int
before_cursor v = if v == [] then pure 0 else cursor_of (parse_int v)

-- n < 1 || n > maxPageSize
abbrev limit_of : Option ℤ → Handler ℕ
limit_of (some (pos n)) =
    if ltb n 1 || ltb max_page_size n then stop (write_error 400 "invalid limit") else pure n
limit_of _ = stop (write_error 400 "invalid limit")

unfoldable pub limit_parameter : Text → Handler ℕ
unfolding parse_int
limit_parameter v = if v == [] then pure default_page_size else limit_of (parse_int v)

-- `parse_uuid` is uuid.Parse and its String: the canonical text.
module _ (parse_uuid : Text → Option Text) where
  -- The loop of parseAuthors, with the ids seen so far.
  collect_authors : List Text → List Text → Result String (List Text)
  unfolding trim_space any
  collect_authors seen [] = ok seen
  collect_authors seen (p ∷ ps) =
      let same = collect_authors seen ps in
      if trim_space p == [] then same else elim (parse_uuid (trim_space p)) [
        | none ↦ err "invalid author id"
        | some id ↦ if any (λ a. a == id) seen then same else collect_authors (seen ++ id ∷ []) ps
      ]

  abbrev capped : Result String (List Text) → Result String (List Text)
  capped (err problem) = err problem
  capped (ok ids) =
      if ltb max_author_filter (length ids)
      then err "at most 50 authors may be selected"
      else ok ids

  unfoldable pub parse_authors : Text → Result String (List Text)
  unfolding collect_authors split trim_space
  parse_authors raw =
      if trim_space raw == []
      then ok []
      else capped (collect_authors [] (split b',' (trim_space raw)))

  abbrev authors_or_refuse : Result String (List Text) → Handler (List Text)
  authors_or_refuse (ok ids) = pure ids
  authors_or_refuse (err problem) = stop (write_error 400 problem)

  -- List, for the query parameters before, limit and authors.
  unfoldable pub list : Text → Text → Text → User × Text → Handler Response
  unfolding before_cursor limit_parameter parse_authors
  list before limit authors who = do
    before_id ← before_cursor before
    n ← limit_parameter limit
    ids ← authors_or_refuse (parse_authors authors)
    rows ← or_server_error (list_notes before_id n ids)
    pure (write_json 200 (notes_body rows))

abbrev body_or_refuse : Result String Text → Handler Text
body_or_refuse (ok body) = pure body
body_or_refuse (err problem) = stop (write_error 400 problem)

unfoldable pub create : Result DecodeProblem Text → User × Text → Handler Response
unfolding validate_body
create sent (user, _) = do
  raw ← decode_json sent
  body ← body_or_refuse (validate_body raw)
  note ← or_server_error (create_note user.id body)
  pure (write_json 201 (note_body note))

-- err != nil || id < 1
abbrev note_id : Option ℤ → Handler ℕ
note_id (some (pos (suc n))) = pure (suc n)
note_id _ = stop (write_error 400 "invalid note id")

-- Delete, for the id of the path.
unfoldable pub delete : Text → User × Text → Handler Response
unfolding parse_int
delete path_id (user, _) = do
  id ← note_id (parse_int path_id)
  removed ← or_server_error (delete_note id user.id)
  if removed
      then pure (write_json 200 (status_word "deleted"))
      else stop (write_error 404 "note not found")

-- Authors
unfoldable pub authors : User × Text → Handler Response
authors _ = do rows ← or_server_error list_note_authors; pure (write_json 200 (authors_body rows))
