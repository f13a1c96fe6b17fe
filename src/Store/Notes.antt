-- ===== src/Store/Notes.antt =====
-- The notes of internal/store/store.go (CreateNote, ListNotes, DeleteNote).
use go_tunnels.Shared.{
  ℕ, suc, Bool, true, false, ◌&&◌, ◌||◌, List, [], ◌∷◌, ◌++◌, none, some, ok, err, Text, ltb, leb,
  if◌then◌else◌, ◌==◌, nat_eq, text_eq, any, take,
}
use go_tunnels.Text.{rune_count}
use go_tunnels.Store.Schema.{Db, UserRow, NoteRow, Note, check_violation, foreign_key_violation}
use go_tunnels.Store.Table.{find, delete_where, select_where, count_where, order_by}
use go_tunnels.Store.Statement.{Query, Stored, statement}

-- A note and its author's names.
abbrev pub joined : UserRow → NoteRow → Note
joined u n = record {
  id = n.id;
  user_id = n.user_id;
  username = u.user.username;
  display_name = u.user.display_name;
  body = n.body;
  created_at = n.created_at;
}

abbrev note_row : Db → Text → Text → ℕ → NoteRow
note_row d user_id body now = record {
  id = d.next_note_id;
  user_id = user_id;
  body = body;
  created_at = now;
}

-- CHECK (char_length(body) BETWEEN 1 AND 500)
unfoldable pub body_fits : Text → Bool
unfolding rune_count
body_fits body = leb 1 (rune_count body) && leb (rune_count body) 500

-- INSERT … RETURNING, joined with the author.
unfoldable pub insert_note : Text → Text → Query Note
unfolding find body_fits
insert_note user_id body now d =
    if body_fits body
    then elim (find (λ u. u.user.id == user_id) d.users) [
      | none ↦ (err foreign_key_violation, d)
      | some u ↦ (
        ok (joined u (note_row d user_id body now)),
        record d {
          notes = d.notes ++ note_row d user_id body now ∷ [];
          next_note_id = suc d.next_note_id;
        },
      )
    ]
    else (err check_violation, d)

unfoldable pub create_note : Text → Text → Stored Note
create_note user_id body = statement (insert_note user_id body)

-- notes n JOIN users u ON u.id = n.user_id
unfoldable pub join_users : List UserRow → List NoteRow → List Note
unfolding find
join_users us [] = []
join_users us (n ∷ ns) =
    let rest = join_users us ns in
    elim (find (λ u. u.user.id == n.user_id) us) [ none ↦ rest | some u ↦ joined u n ∷ rest ]

-- ($1 = 0 OR n.id < $1) AND (cardinality($3) = 0 OR n.user_id = ANY($3))
unfoldable pub is_listed : ℕ → List Text → Note → Bool
unfolding any
is_listed before authors n =
    (before == 0 || ltb n.id before) && (no_filter authors || any (λ a. n.user_id == a) authors)
  where
    no_filter : List Text → Bool
    no_filter [] = true
    no_filter (a ∷ rest) = false

-- ORDER BY n.id DESC
abbrev pub is_later : Note → Note → Bool
is_later m n = ltb n.id m.id

-- limit <= 0 || limit > 200
abbrev pub page_limit : ℕ → ℕ
page_limit limit = if limit == 0 || ltb 200 limit then 50 else limit

unfoldable pub select_notes : ℕ → ℕ → List Text → Query (List Note)
unfolding select_where order_by join_users is_listed
select_notes before limit authors now d = (
  ok (
      take limit
        (order_by is_later (select_where (is_listed before authors) (join_users d.users d.notes)))),
  d,
)

unfoldable pub list_notes : ℕ → ℕ → List Text → Stored (List Note)
list_notes before limit authors = statement (select_notes before (page_limit limit) authors)

-- id = $1 AND user_id = $2
abbrev pub is_own_note : ℕ → Text → NoteRow → Bool
is_own_note id user_id n = n.id == id && n.user_id == user_id

unfoldable pub delete_own_note : ℕ → Text → Query Bool
unfolding count_where delete_where
delete_own_note id user_id now d = (
  ok (ltb 0 (count_where (is_own_note id user_id) d.notes)),
  record d { notes = delete_where (is_own_note id user_id) d.notes },
)

unfoldable pub delete_note : ℕ → Text → Stored Bool
delete_note id user_id = statement (delete_own_note id user_id)
