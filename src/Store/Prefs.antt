-- ===== src/Store/Prefs.antt =====
-- User preferences of internal/store/store.go (GetUserPref, SetUserPref).
use go_tunnels.Shared.{
  ℕ, Bool, false, ◌&&◌, [], ◌∷◌, ◌++◌, Option, none, some, Result, ok, err, Text, leb,
  if◌then◌else◌, length, ◌==◌, text_eq, any,
}
use go_tunnels.Text.{rune_count, valid_string}
use go_tunnels.Store.Schema.{Db, PrefRow, StoreError, check_violation, unavailable}
use go_tunnels.Store.Table.{find, update_where}
use go_tunnels.Store.Statement.{Query, Stored, statement, checked_insert, or_not_found, is_text}

-- user_id = $1 AND key = $2
abbrev pub is_pref : Text → Text → PrefRow → Bool
is_pref user_id key r = r.user_id == user_id && r.key == key

abbrev value_of : Option PrefRow → Option Text
value_of none = none
value_of (some r) = some r.value

unfoldable pub select_pref : Text → Text → Query Text
unfolding find
select_pref user_id key now d =
    (or_not_found (value_of (find (is_pref user_id key) d.user_prefs)), d)

unfoldable pub get_user_pref : Text → Text → Stored Text
get_user_pref user_id key = statement (select_pref user_id key)

abbrev pub pref_row : Text → Text → Text → ℕ → PrefRow
pref_row user_id key value now = record {
  user_id = user_id;
  key = key;
  value = value;
  updated_at = now;
}

-- The CHECKs on key and value.
unfoldable pub pref_fits : Text → Text → Bool
unfolding rune_count
pref_fits key value = leb 1 (rune_count key) && leb (rune_count key) 64 && leb (length value) 4096

-- The row that is there is updated, or else a row is inserted.
unfoldable pub write_pref : Text → Text → Text → ℕ → Db → Result StoreError Unit × Db
unfolding any update_where
write_pref user_id key value now d =
    if any (is_pref user_id key) d.user_prefs
    then (
      ok tt,
      record d {
        user_prefs =
            update_where (is_pref user_id key) (λ r. record r { value = value; updated_at = now })
              d.user_prefs;
      },
    )
    else checked_insert false (any (λ u. u.user.id == user_id) d.users) tt d
        (record d { user_prefs = d.user_prefs ++ pref_row user_id key value now ∷ [] })

-- INSERT … ON CONFLICT (user_id, key) DO UPDATE …
unfoldable pub upsert_pref : Text → Text → Text → Query Unit
unfolding pref_fits write_pref valid_string any
upsert_pref user_id key value now d =
    if is_text key && is_text value
    then (if pref_fits key value
        then write_pref user_id key value now d
        else (err check_violation, d))
    else (err unavailable, d)

unfoldable pub set_user_pref : Text → Text → Text → Stored Unit
set_user_pref user_id key value = statement (upsert_pref user_id key value)
