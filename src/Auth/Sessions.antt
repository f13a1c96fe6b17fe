-- ===== src/Auth/Sessions.antt =====
-- Sessions and cookies of internal/auth/handlers.go: RequireAuth, issueSession, Logout, LogoutAll,
-- Me, Activity.
use Prim.Native.String.{String}
use go_tunnels.Shared.{
  ℕ, suc, ◌+◌, ◌*◌, ◌/◌, ◌^◌, Bool, false, [], Option, none, some, Text, codes, ℤ, pos,
  if◌then◌else◌, drop, length, ◌==◌, text_eq, pure, stop, catch, ◌>>=◌, ◌>>◌,
}
use go_tunnels.Text.{trim_space, has_prefix}
use go_tunnels.Store.{
  Stored, Platform, StoreError, not_found, User, Detail, no_detail, revoked_count,
}
use go_tunnels.Store.Sessions.{
  get_session, touch_session, create_session, revoke_session, revoke_all_sessions_for_user,
}
use go_tunnels.Store.Users.{get_user_by_id, user_roles, count_webauthn_credentials}
use go_tunnels.Store.Totp.{get_totp_secret}
use go_tunnels.Httpx.Reply.{
  UserResponse, Cookie, Response, Handler, write_json, write_error, server_error, or_server_error,
  session_body, activity_body, user_body, status_word, revoked_body,
}
use go_tunnels.Activity.{Request, record_event}
use go_tunnels.Store.Audit.{list_activity_for_user}
use go_tunnels.Auth.Codes.{hash_session_token, new_session_token, time_now}
pub mod Kept

-- Settings, with the recorder's pepper.
pub record Settings : Type 0 where
  pub session_ttl : ℤ
  pub flow_ttl : ℕ
  pub totp_key : Text
  pub cookie_name : Text
  pub cookie_secure : Bool
  pub pepper : Text

-- A store call whose missing row the handler inspects; any other error is a server error.
abbrev pub missing : {A : Type 0} → StoreError → Handler (Option A)
missing not_found = pure none
missing _ = stop server_error

unfoldable pub found : {A : Type 0} → Stored A → Handler (Option A)
found m = catch (do a ← m; pure (some a)) missing

-- A store call whose error is logged and dropped.
unfoldable pub attempt : Stored Unit → Handler Unit
attempt m = catch m (λ _. pure tt)

abbrev bearer : Text
bearer = codes "Bearer "

-- extractToken: the Bearer token, or else the cookie.
unfoldable pub extract_token : Request → Text
unfolding trim_space has_prefix
extract_token r =
    if has_prefix r.authorization bearer
    then trim_space (drop (length bearer) r.authorization)
    else elim r.cookie [ none ↦ [] | some value ↦ value ]

-- authLookupFailed: 401 for a missing row, 503 for any other failure.
unfoldable pub auth_lookup_failed : String → StoreError → Response
auth_lookup_failed message not_found = write_error 401 message
auth_lookup_failed message _ = write_error 503 "session check temporarily unavailable"

abbrev pub unauthenticated : Response
unauthenticated = write_error 401 "authentication required"

abbrev day : ℕ
day = 24 * 3600 * 10 ^ 9

-- persistentSessionCookieTTL
abbrev persistent_session_cookie_ttl : ℕ
persistent_session_cookie_ttl = 365 * day

-- computeSessionExpiry: the database's expiry, the cookie's, and its Max-Age in seconds.
unfoldable pub compute_session_expiry : ℕ → ℤ → Option ℕ × ℕ × ℕ
compute_session_expiry now (pos (suc n)) = (some (now + suc n), now + suc n, suc n / 10 ^ 9)
compute_session_expiry now _ =
    (none, now + persistent_session_cookie_ttl, persistent_session_cookie_ttl / 10 ^ 9)

-- totpEnabled
abbrev not_enabled : StoreError → Stored Bool
not_enabled not_found = pure false
not_enabled e = stop e

unfoldable pub totp_enabled : Text → Stored Bool
totp_enabled user_id =
    catch (do (_, confirmed) ← get_totp_secret user_id; pure confirmed) not_enabled

unfoldable pub user_response : User → Stored UserResponse
user_response u = do
  roles ← user_roles u.id
  totp ← totp_enabled u.id
  passkeys ← count_webauthn_credentials u.id
  pure (record {
    id = u.id;
    username = u.username;
    display_name = u.display_name;
    roles = roles;
    totp_enabled = totp;
    passkeys = passkeys;
  })

-- The profile when the lookups fail.
abbrev bare_profile : User → UserResponse
bare_profile u = record {
  id = u.id;
  username = u.username;
  display_name = u.display_name;
  roles = [];
  totp_enabled = false;
  passkeys = 0;
}

-- The lookups of RequireAuth for a session id.
unfoldable pub authenticate : Text → Handler (User × Text)
authenticate id = do
  sess ← catch (get_session id) (λ e. stop (auth_lookup_failed "invalid or expired session" e))
  user ←
      catch (get_user_by_id sess.user_id)
        (λ e. stop (auth_lookup_failed "session user not found" e))
  attempt (touch_session id)
  pure (user, id)

module _ (platform : Platform) (h : Settings) where
  -- record: a failure is logged only.
  unfoldable pub record_activity :
      Request → Option Text → Text → Text → Text → Text → Detail → Handler Unit
  record_activity r user_id username event method outcome detail = attempt (
      record_event platform h.pepper r (record {
        user_id = user_id;
        username = username;
        event_type = event;
        auth_method = method;
        outcome = outcome;
        detail = detail;
      }))

  -- RequireAuth: the user and the session id that it puts into the context of the next handler.
  unfoldable pub require_auth : Request → Handler (User × Text)
  unfolding authenticate
  require_auth r =
      let token = extract_token r in
      if token == [] then stop unauthenticated else authenticate (hash_session_token platform token)

  -- sessionCookie
  abbrev session_cookie : Text → ℕ → ℕ → Cookie
  session_cookie token expires max_age = record {
    name = h.cookie_name;
    value = token;
    expires = expires;
    max_age = some max_age;
    secure = h.cookie_secure;
  }

  -- expiredCookie
  abbrev expired_cookie : Cookie
  expired_cookie = record {
    name = h.cookie_name;
    value = [];
    expires = 0;
    max_age = none;
    secure = h.cookie_secure;
  }

  -- issueSession, after the method that was used.
  unfoldable pub issue_session : User → Text → Handler Response
  issue_session user method = do
    (token, id) ← new_session_token platform server_error
    now ← time_now
    let (db_expiry, cookie_expiry, max_age) = compute_session_expiry now h.session_ttl
    or_server_error (create_session id user.id method db_expiry)
    profile ← catch (user_response user) (λ _. pure (bare_profile user))
    pure (record (write_json 200 (session_body token db_expiry profile)) {
      cookie = some (session_cookie token cookie_expiry max_age);
    })

  -- Logout of an authenticated request.
  unfoldable pub logout : Request → User × Text → Handler Response
  logout r (user, id) = do
    or_server_error (revoke_session id)
    record_activity r (some user.id) user.username (codes "logout") [] (codes "success") no_detail
    pure (record (write_json 200 (status_word "logged_out")) { cookie = some expired_cookie })

  unfoldable pub logout_all : Request → User × Text → Handler Response
  logout_all r (user, _) = do
    n ← or_server_error (revoke_all_sessions_for_user user.id)
    record_activity r (some user.id) user.username (codes "logout_all") [] (codes "success")
        (revoked_count n)
    pure (record (write_json 200 (revoked_body n)) { cookie = some expired_cookie })

  unfoldable pub me : User × Text → Handler Response
  me (user, _) = do
    profile ← or_server_error (user_response user)
    pure (write_json 200 (user_body profile))

-- Activity
unfoldable pub activity : User × Text → Handler Response
activity (user, _) = do
  events ← or_server_error (list_activity_for_user user.id 200)
  pure (write_json 200 (activity_body events))
