-- ===== src/Store/Keys.antt =====
-- The unique keys of migrations/ under the calls of internal/store/store.go.
use go_tunnels.Shared.{Bool, ◌&&◌, ◌==◌, text_eq}
use go_tunnels.Store.Schema.{Db, RoleRow, PrefRow}
use go_tunnels.Store.Rows.{IsKey, IsKeyBy}
use go_tunnels.Store.History.Stable.{Stable}

abbrev pub same_role : RoleRow → RoleRow → Bool
same_role x y = x.user_id == y.user_id && x.role == y.role

abbrev pub same_pref : PrefRow → PrefRow → Bool
same_pref x y = x.user_id == y.user_id && x.key == y.key

-- The primary and unique keys of migrations/, but for the numbers that PostgreSQL generates: no two users share an id or
-- a lower-case name, no two rows of any other table share its key.
pub record HasKeys (d : Db) : Type 0 where
  pub user_ids : IsKey (λ u. u.user.id) d.users
  pub usernames : IsKey (λ u. u.username_lower) d.users
  pub passwords : IsKey (λ r. r.user_id) d.password_credentials
  pub credentials : IsKey (λ r. r.credential_id) d.webauthn_credentials
  pub flows : IsKey (λ f. f.id) d.webauthn_flows
  pub secrets : IsKey (λ r. r.user_id) d.totp_secrets
  pub sessions : IsKey (λ s. s.id) d.sessions
  pub roles : IsKeyBy same_role d.user_roles
  pub stats : IsKey (λ r. r.user_id) d.captcha_stats
  pub prefs : IsKeyBy same_pref d.user_prefs
