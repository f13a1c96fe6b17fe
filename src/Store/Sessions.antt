-- ===== src/Store/Sessions.antt =====
-- Sessions of internal/store/store.go (CreateSession to RevokeAllSessionsForUser).
use go_tunnels.Shared.{
  ℕ, ◌+◌, ◌*◌, ◌^◌, Bool, true, ◌&&◌, [], ◌∷◌, ◌++◌, Option, none, some, ok, Text, ltb, ◌==◌,
  text_eq, any,
}
use go_tunnels.Store.Schema.{Session}
use go_tunnels.Store.Table.{find, update_where, count_where}
use go_tunnels.Store.Statement.{
  Query, Stored, statement, checked_insert, or_not_found, is_null, timestamptz, timestamptz_or_null,
}

-- Durations are in nanoseconds, as in package time.
abbrev minute : ℕ
minute = 60 * 10 ^ 9

abbrev pub has_id : Text → Session → Bool
has_id id s = s.id == id

abbrev pub is_unrevoked : Session → Bool
is_unrevoked s = is_null s.revoked_at

-- id = $1 AND revoked_at IS NULL
abbrev pub is_unrevoked_with : Text → Session → Bool
is_unrevoked_with id s = has_id id s && is_unrevoked s

-- expires_at IS NULL OR expires_at > now()
abbrev unexpired_at : ℕ → Option ℕ → Bool
unexpired_at now none = true
unexpired_at now (some t) = ltb now t

abbrev pub is_unexpired : ℕ → Session → Bool
is_unexpired now s = unexpired_at now s.expires_at

-- revoked_at IS NULL AND (expires_at IS NULL OR expires_at > now())
abbrev pub is_live : ℕ → Session → Bool
is_live now s = is_unrevoked s && is_unexpired now s

abbrev pub new_session : Text → Text → Text → Option ℕ → ℕ → Session
new_session id user_id auth_method expires_at now = record {
  id = id;
  user_id = user_id;
  auth_method = auth_method;
  created_at = timestamptz now;
  last_seen_at = timestamptz now;
  expires_at = timestamptz_or_null expires_at;
  revoked_at = none;
}

-- The primary key is `id`, and `user_id` references `users`.
unfoldable pub insert_session : Text → Text → Text → Option ℕ → Query Unit
unfolding any
insert_session id user_id auth_method expires_at now d =
    checked_insert (any (has_id id) d.sessions) (any (λ u. u.user.id == user_id) d.users) tt d
      (record d { sessions = d.sessions ++ new_session id user_id auth_method expires_at now ∷ [] })

unfoldable pub select_session : Text → Query Session
unfolding find
select_session id now d = (or_not_found (find (λ s. has_id id s && is_live now s) d.sessions), d)

abbrev is_stale : Text → ℕ → Session → Bool
is_stale id now s = has_id id s && ltb (s.last_seen_at + minute) now

unfoldable pub update_last_seen : Text → Query Unit
unfolding update_where
update_last_seen id now d = (
  ok tt,
  record d {
    sessions = update_where (is_stale id now) (λ s. record s { last_seen_at = now }) d.sessions;
  },
)

abbrev pub revoke_at : ℕ → Session → Session
revoke_at now s = record s { revoked_at = some now }

unfoldable pub update_revoked : Text → Query Unit
unfolding update_where
update_revoked id now d =
    (ok tt, record d { sessions = update_where (is_unrevoked_with id) (revoke_at now) d.sessions })

abbrev pub is_active_of : Text → Session → Bool
is_active_of user_id s = s.user_id == user_id && is_unrevoked s

unfoldable pub update_revoked_all : Text → Query ℕ
unfolding update_where count_where
update_revoked_all user_id now d = (
  ok (count_where (is_active_of user_id) d.sessions),
  record d { sessions = update_where (is_active_of user_id) (revoke_at now) d.sessions },
)

unfoldable pub create_session : Text → Text → Text → Option ℕ → Stored Unit
create_session id user_id auth_method expires_at =
    statement (insert_session id user_id auth_method expires_at)

unfoldable pub get_session : Text → Stored Session
get_session id = statement (select_session id)

unfoldable pub touch_session : Text → Stored Unit
touch_session id = statement (update_last_seen id)

unfoldable pub revoke_session : Text → Stored Unit
revoke_session id = statement (update_revoked id)

unfoldable pub revoke_all_sessions_for_user : Text → Stored ℕ
revoke_all_sessions_for_user user_id = statement (update_revoked_all user_id)
