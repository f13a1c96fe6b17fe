-- ===== src/Auth/Login.antt =====
-- Sign-up and log-in with a password of internal/auth/handlers.go, and the second factor's
-- handlers.
use go_tunnels.Shared.{
  Bool, true, false, [], Option, none, some, Text, codes, ℤ, ltb, if◌then◌else◌, length, ◌==◌,
  nat_eq, text_eq, Result, ok, err, pure, stop, catch, ◌>>=◌, ◌>>◌,
}
use Prim.Native.String.{String}
use go_tunnels.Text.{trim_space}
use go_tunnels.Store.{
  Stored, Platform, StoreError, unavailable, not_found, unique_violation, User, no_detail, reason,
}
use go_tunnels.Store.Users.{
  username_exists, create_user_with_password, get_user_by_username, get_password_hash,
}
use go_tunnels.Store.Totp.{get_totp_secret, mark_totp_step_used, use_recovery_code}
use go_tunnels.Httpx.Reply.{
  Response, Handler, write_error, server_error, or_server_error, DecodeProblem, decode_json,
}
use go_tunnels.Activity.{Request}
use go_tunnels.Auth.Identity.{normalize_identity, validate_password, max_password_bytes}
use go_tunnels.Auth.Password.{HashError, hash_password, verify_password, argon_salt_len}
use go_tunnels.Auth.Codes.{
  random_bytes, time_now, match_totp_step, decrypt_secret, hash_recovery_code,
}
use go_tunnels.Auth.Sessions.{Settings, found, record_activity, issue_session, totp_enabled}

pub record SignupRequest : Type 0 where
  pub username : Text
  pub password : Text
  pub display_name : Text

pub record LoginRequest : Type 0 where
  pub username : Text
  pub password : Text
  pub totp : Text

abbrev password_method : Text
password_method = codes "password"

abbrev totp_method : Text
totp_method = codes "password+totp"

abbrev login_event : Text
login_event = codes "login"

abbrev success : Text
success = codes "success"

abbrev failure : Text
failure = codes "failure"

abbrev pub invalid_credentials : Response
invalid_credentials = write_error 401 "invalid credentials"

-- store.IsUniqueViolation decides between a conflict and a server error.
abbrev name_taken : StoreError → Response
name_taken unique_violation = write_error 409 "username already taken"
name_taken _ = server_error

-- A result of pure code.
abbrev hash_or_server_error : Result HashError Text → Handler Text
hash_or_server_error (ok hash) = pure hash
hash_or_server_error (err e) = stop server_error

-- Verified, without an error.
abbrev pub is_verified : Result HashError Bool → Bool
is_verified (ok matches) = matches
is_verified (err e) = false

abbrev no_secret : StoreError → Stored (Option (Text × Bool))
no_secret not_found = pure none
no_secret e = stop e

-- GetTOTPSecret, with no row for ErrNotFound.
unfoldable pub read_secret : Text → Stored (Option (Text × Bool))
read_secret user_id = catch (do secret ← get_totp_secret user_id; pure (some secret)) no_secret

module _ (platform : Platform) (h : Settings) where
  -- HashPassword draws its salt only for a password that is not empty; that one is refused before.
  hash_new_password : Text → Handler Text
  hash_new_password password = do
    salt ← random_bytes argon_salt_len server_error
    hash_or_server_error (hash_password platform password (some salt))

  unfoldable pub signup : Request → Result DecodeProblem SignupRequest → Handler Response
  unfolding hash_new_password
  signup r body = do
    req ← decode_json body
    (username, display_name) ← identity (normalize_identity req.username req.display_name)
    acceptable (validate_password req.password)
    exists ← or_server_error (username_exists platform username)
    if exists then stop (write_error 409 "username already taken") else do
      hash ← hash_new_password req.password
      user ←
          catch (create_user_with_password platform username display_name hash)
            (λ e. stop (name_taken e))
      record_activity platform h r (some user.id) user.username (codes "signup") password_method
          success no_detail
      issue_session platform h user password_method
    where
      identity : Result String (Text × Text) → Handler (Text × Text)
      identity (ok names) = pure names
      identity (err problem) = stop (write_error 400 problem)

      acceptable : Option String → Handler Unit
      acceptable none = pure tt
      acceptable (some problem) = stop (write_error 400 problem)

  -- The end of verifySecondFactor: for the step that the code matches, or as a recovery code.
  unfoldable pub check_step : Text → Text → Option ℤ → Stored Bool
  check_step user_id code (some step) = mark_totp_step_used user_id step
  check_step user_id code none = use_recovery_code user_id (hash_recovery_code platform code)

  unfoldable pub check_opened : Text → Text → Option Text → Stored Bool
  unfolding check_step
  check_opened user_id code none = stop unavailable
  check_opened user_id code (some secret) = do
    now ← time_now
    check_step user_id code (match_totp_step platform code secret now)

  -- The secret that GetTOTPSecret found.
  unfoldable pub check_code : Text → Text → Option (Text × Bool) → Stored Bool
  unfolding check_opened
  check_code user_id code none = pure false
  check_code user_id code (some (sealed, false)) = pure false
  check_code user_id code (some (sealed, true)) =
      check_opened user_id code (decrypt_secret platform h.totp_key sealed)

  -- verifySecondFactor
  unfoldable pub verify_second_factor : Text → Text → Stored Bool
  unfolding check_code
  verify_second_factor user_id raw =
      let code = trim_space raw in
      if code == [] then pure false else do row ← read_secret user_id; check_code user_id code row

  -- A log-in that succeeded.
  unfoldable pub admit : Request → User → Text → Handler Response
  admit r user method = do
    record_activity platform h r (some user.id) user.username login_event method success no_detail
    issue_session platform h user method

  -- The rest of Login where a second factor is enabled.
  unfoldable pub login_second_factor : Request → User → Text → Handler Response
  unfolding admit
  login_second_factor r user code = do
    passed ← or_server_error (verify_second_factor user.id code)
    if passed then admit r user totp_method else do
      record_activity platform h r (some user.id) user.username login_event totp_method failure
          (reason (codes "totp"))
      stop (write_error 401 "second factor required or invalid")

  -- The rest of Login for a user whose password is verified.
  unfoldable pub login_verified : Request → User → Text → Handler Response
  login_verified r user code = do
    enabled ← or_server_error (totp_enabled user.id)
    if enabled then login_second_factor r user code else admit r user password_method

  -- Login refused: the audit event and the response.
  unfoldable pub login_refused : Request → Option Text → Text → Text → Handler Response
  login_refused r user_id username why = do
    record_activity platform h r user_id username login_event password_method failure (reason why)
    stop invalid_credentials

  -- The rest of Login for the user with the name, and for the user's hash.
  unfoldable pub login_hashed : Request → LoginRequest → User → Option Text → Handler Response
  unfolding login_verified login_refused
  login_hashed r req user none = login_refused r (some user.id) user.username (codes "no_password")
  login_hashed r req user (some hash) =
      if is_verified (verify_password platform hash req.password)
      then login_verified r user req.totp
      else login_refused r (some user.id) user.username (codes "bad_password")

  unfoldable pub login_user : Request → LoginRequest → Option User → Handler Response
  unfolding login_hashed login_refused
  login_user r req none = login_refused r none req.username (codes "unknown_user")
  login_user r req (some user) = do
    hash ← found (get_password_hash user.id)
    login_hashed r req user hash

  unfoldable pub login_request : Request → LoginRequest → Handler Response
  unfolding login_user
  login_request r req =
      if ltb max_password_bytes (length req.password) then stop invalid_credentials else do
        user ← found (get_user_by_username platform (trim_space req.username))
        login_user r req user

  unfoldable pub login : Request → Result DecodeProblem LoginRequest → Handler Response
  unfolding login_request
  login r body = do req ← decode_json body; login_request r req
