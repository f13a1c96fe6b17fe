-- ===== src/Store/Audit.antt =====
-- The activity log of internal/store/store.go (InsertActivity, ListActivityForUser).
use go_tunnels.Shared.{
  ℕ, suc, Bool, true, ◌&&◌, ◌||◌, List, [], ◌∷◌, ◌++◌, Option, none, some, ok, Text, if◌then◌else◌,
  ◌==◌, nat_eq, text_eq, any, stop, ltb, take, codes, false,
}
use go_tunnels.Store.Schema.{Db, ActivityInput, ActivityRow, unavailable}
use go_tunnels.Store.Outside.{Platform}
use go_tunnels.Store.Table.{select_where, order_by}
use go_tunnels.Store.Statement.{Query, Stored, statement, checked_insert}

-- An empty outcome is a success.
abbrev outcome_of : Text → Text
outcome_of outcome = if outcome == [] then codes "success" else outcome

abbrev user_known : Option Text → Db → Bool
user_known none d = true
user_known (some user_id) d = any (λ u. u.user.id == user_id) d.users

abbrev activity_row : ActivityInput → Text → ℕ → ℕ → ActivityRow
activity_row e blob id now = record {
  id = id;
  user_id = e.user_id;
  username = e.username;
  event_type = e.event_type;
  auth_method = e.auth_method;
  outcome = outcome_of e.outcome;
  ip_hash = e.ip_hash;
  user_agent = e.user_agent;
  detail = blob;
  created_at = now;
}

unfoldable pub insert_activity_row : ActivityInput → Text → Query Unit
unfolding any
insert_activity_row e blob now d = checked_insert false (user_known e.user_id d) tt d (record d {
  activity_log = d.activity_log ++ activity_row e blob d.next_activity_id now ∷ [];
  next_activity_id = suc d.next_activity_id;
})

unfoldable pub insert_activity : Platform → ActivityInput → Stored Unit
insert_activity platform e = elim (platform.marshal_detail e.detail) [
  | none ↦ stop unavailable
  | some blob ↦ statement (insert_activity_row e blob)
]

-- user_id = $1
abbrev is_event_of : Text → ActivityRow → Bool
is_event_of user_id r = elim r.user_id [ none ↦ false | some id ↦ id == user_id ]

-- ORDER BY created_at DESC, id DESC
abbrev pub is_newer : ActivityRow → ActivityRow → Bool
is_newer r s = ltb s.created_at r.created_at || (s.created_at == r.created_at && ltb s.id r.id)

-- limit <= 0 || limit > 500
abbrev activity_limit : ℕ → ℕ
activity_limit limit = if limit == 0 || ltb 500 limit then 100 else limit

unfoldable pub select_activity : Text → ℕ → Query (List ActivityRow)
unfolding select_where order_by
select_activity user_id limit now d =
    (ok (take limit (order_by is_newer (select_where (is_event_of user_id) d.activity_log))), d)

unfoldable pub list_activity_for_user : Text → ℕ → Stored (List ActivityRow)
list_activity_for_user user_id limit = statement (select_activity user_id (activity_limit limit))
