-- ===== src/Auth/Totp.antt =====
-- The handlers of the second factor in internal/auth/handlers.go: TOTPEnroll, TOTPConfirm,
-- TOTPDisable, each after RequireAuth.
use go_tunnels.Shared.{
  not, Option, none, some, Text, codes, if◌then◌else◌, Result, pure, stop, ◌>>=◌, ◌>>◌,
}
use go_tunnels.Store.{Platform, User, no_detail}
use go_tunnels.Store.Totp.{get_totp_secret, start_totp_enrollment, confirm_totp, delete_totp}
use go_tunnels.Httpx.Reply.{
  Response, Handler, write_json, write_error, server_error, or_server_error, DecodeProblem,
  decode_json, status_word, enrolment_body,
}
use go_tunnels.Activity.{Request}
use go_tunnels.Auth.Codes.{
  time_now, match_totp_step, encrypt_secret, decrypt_secret, generate_recovery_codes,
}
use go_tunnels.Auth.Sessions.{Settings, found, record_activity, totp_enabled}
use go_tunnels.Auth.Login.{verify_second_factor}

-- A step that may fail without a result is a server error.
abbrev some_or_server_error : {A : Type 0} → Option A → Handler A
some_or_server_error none = stop server_error
some_or_server_error (some a) = pure a

abbrev some_or_refuse : {A : Type 0} → Response → Option A → Handler A
some_or_refuse refusal none = stop refusal
some_or_refuse refusal (some a) = pure a

abbrev totp_method : Text
totp_method = codes "totp"

abbrev success : Text
success = codes "success"

module _ (platform : Platform) (h : Settings) (r : Request) where
  -- `generated` is what the TOTP library's Generate returned: the secret and its URL.
  unfoldable pub totp_enroll : Option (Text × Text) → User × Text → Handler Response
  totp_enroll generated (user, _) = do
    (secret, url) ← some_or_server_error generated
    sealed ← encrypt_secret platform h.totp_key secret server_error
    (recovery, hashes) ← generate_recovery_codes platform 10 server_error
    started ← or_server_error (start_totp_enrollment user.id sealed hashes)
    if not started
        then stop (write_error 409 "two-factor authentication is already enabled; disable it first")
        else do
          record_activity platform h r (some user.id) user.username (codes "totp_enroll")
              totp_method success no_detail
          pure (write_json 200 (enrolment_body secret url recovery))

  unfoldable pub totp_confirm : Result DecodeProblem Text → User × Text → Handler Response
  totp_confirm body (user, _) = do
    code ← decode_json body
    row ← found (get_totp_secret user.id)
    (sealed, confirmed) ← some_or_refuse (write_error 400 "no pending TOTP enrollment") row
    if confirmed then stop (write_error 409 "two-factor authentication is already enabled") else do
      secret ← some_or_server_error (decrypt_secret platform h.totp_key sealed)
      now ← time_now
      step ←
          some_or_refuse (write_error 400 "invalid code") (match_totp_step platform code secret now)
      done ← or_server_error (confirm_totp user.id step)
      if not done then stop (write_error 409 "no pending TOTP enrollment") else do
        record_activity platform h r (some user.id) user.username (codes "totp_confirm") totp_method
            success no_detail
        pure (write_json 200 (status_word "totp_enabled"))

  -- TOTPDisable after the second factor is verified.
  unfoldable pub disable_passed : User → Handler Response
  disable_passed user = do
    or_server_error (delete_totp user.id)
    record_activity platform h r (some user.id) user.username (codes "totp_disable") totp_method
        success no_detail
    pure (write_json 200 (status_word "totp_disabled"))

  -- TOTPDisable where the second factor is enabled.
  unfoldable pub disable_enabled : Text → User → Handler Response
  unfolding disable_passed
  disable_enabled code user = do
    passed ← or_server_error (verify_second_factor platform h user.id code)
    if passed then disable_passed user else do
      record_activity platform h r (some user.id) user.username (codes "totp_disable") totp_method
          (codes "failure") no_detail
      stop (write_error 400 "invalid code")

  unfoldable pub totp_disable : Result DecodeProblem Text → User × Text → Handler Response
  unfolding disable_enabled
  totp_disable body (user, _) = do
    code ← decode_json body
    enabled ← or_server_error (totp_enabled user.id)
    if enabled
        then disable_enabled code user
        else stop (write_error 400 "two-factor authentication is not enabled")
