-- ===== src/Auth/Passkeys.antt =====
-- The passkey handlers of internal/auth/handlers.go: registration, log-in and passkey-first sign-up.
use go_tunnels.Shared.{
  List, [], ◌∷◌, Option, none, some, Text, codes, Result, ok, err, if◌then◌else◌, ◌==◌, text_eq,
  not, pure, stop, catch, ◌>>=◌, ◌>>◌,
}
use Prim.Native.String.{String}
use go_tunnels.Text.{trim_space}
use go_tunnels.Store.{
  Platform, StoreError, unique_violation, RelyingParty, User, Credential, no_detail, library_error,
  reason, Detail,
}
use go_tunnels.Store.Users.{
  get_user_by_username, get_user_by_id, username_exists, create_user_with_passkey,
  update_webauthn_credential, add_webauthn_credential,
}
use go_tunnels.Httpx.Reply.{
  Response, Handler, write_json, write_error, server_error, or_server_error, DecodeProblem,
  decode_json, flow_body, status_word,
}
use go_tunnels.Activity.{Request}
use go_tunnels.Auth.Identity.{normalize_identity}
use go_tunnels.Auth.Codes.{time_now}
use go_tunnels.Auth.Sessions.{Settings, found, attempt, record_activity, issue_session}
use go_tunnels.Auth.Login.{invalid_credentials}
use go_tunnels.Auth.Passkey.{SessionData, SignupFlowData, Webauthn, RpProvider, for_origin}
use go_tunnels.Auth.Ceremony.{
  LiveFlow, flow_register, flow_login, flow_signup, limited, library_bytes, invalid_flow,
  origin_refused, save_ceremony, consume_ceremony, build_wa_user,
}

pub record PasskeySignupBeginRequest : Type 0 where
  pub username : Text
  pub display_name : Text

abbrev passkey : Text
passkey = codes "passkey"

abbrev register_event : Text
register_event = codes "passkey_register"

abbrev login_event : Text
login_event = codes "login"

abbrev signup_event : Text
signup_event = codes "signup"

abbrev success : Text
success = codes "success"

abbrev failure : Text
failure = codes "failure"

-- A library call whose error is a server error.
abbrev or_500 : {A : Type 0} → Result Text A → Handler A
or_500 (ok a) = pure a
or_500 (err e) = stop server_error

-- The account that a sign-up asks for.
abbrev pub candidate_of : SignupFlowData → User
candidate_of s = record {
  id = s.user_id;
  username = s.username;
  display_name = s.display_name;
  created_at = 0;
}

module _ (platform : Platform) (lib : Webauthn) (p : RpProvider) (h : Settings) where
  -- A failure that is recorded before it is answered.
  unfoldable pub refuse :
      {A : Type 0} → Request → Option Text → Text → Text → Detail → Response → Handler A
  refuse r user_id username event detail answer = do
    record_activity platform h r user_id username event passkey failure detail
    stop answer

  -- ForRequest
  unfoldable pub for_request : Request → Option Text → Text → Text → Handler (RelyingParty × Text)
  unfolding for_origin refuse
  for_request r user_id username event =
      catch (for_origin platform lib p r.origin)
        (λ e. refuse r user_id username event (library_error e) origin_refused)

  unfoldable pub save_flow_of :
      Option Text → Text → Text → Option SignupFlowData → SessionData → Handler Response
  unfolding save_ceremony
  save_flow_of user_id kind origin signup sd = do
    id ← or_server_error (save_ceremony platform lib h user_id kind origin signup sd)
    pure (write_json 200 (flow_body id))

  -- PasskeyRegisterBegin of an authenticated request.
  unfoldable pub passkey_register_begin : Request → User × Text → Handler Response
  unfolding for_request save_flow_of library_bytes build_wa_user
  passkey_register_begin r (user, _) = do
    (wa, origin) ← for_request r (some user.id) user.username register_event
    wa_user ← or_server_error (build_wa_user platform lib user)
    challenge ← library_bytes 32
    sd ← or_500 (lib.begin_registration wa wa_user wa_user.credentials challenge)
    save_flow_of (some user.id) flow_register origin none sd

  -- AddWebAuthnCredential refused: a conflict, or a server error.
  abbrev credential_taken : StoreError → Response
  credential_taken unique_violation = write_error 409 "this passkey is already registered"
  credential_taken _ = server_error

  -- What FinishRegistration returned to PasskeyRegisterFinish.
  unfoldable pub register_verified : Request → User → Result Text Credential → Handler Response
  unfolding refuse
  register_verified r user (err e) =
      refuse r (some user.id) user.username register_event (library_error e)
        (write_error 400 "passkey registration failed")
  register_verified r user (ok cred) = do
    catch (add_webauthn_credential platform user.id cred) (λ e. stop (credential_taken e))
    record_activity platform h r (some user.id) user.username register_event passkey success
        no_detail
    pure (write_json 200 (status_word "registered"))

  -- PasskeyRegisterFinish; the body is read by the library.
  unfoldable pub passkey_register_finish : Request → Text → User × Text → Handler Response
  unfolding register_verified consume_ceremony build_wa_user
  passkey_register_finish r body (user, _) = do
    flow ← consume_ceremony platform lib p r flow_register
    if not (flow.user_id == user.id) then stop invalid_flow else do
      wa_user ← or_server_error (build_wa_user platform lib user)
      now ← time_now
      register_verified r user
          (lib.finish_registration flow.wa wa_user flow.session (limited body) now)

  -- The rest of PasskeyLoginBegin for the user with the name.
  unfoldable pub login_begin_user : RelyingParty × Text → Option User → Handler Response
  unfolding save_flow_of library_bytes build_wa_user
  login_begin_user (wa, origin) none = stop invalid_credentials
  login_begin_user (wa, origin) (some user) = do
    wa_user ← or_server_error (build_wa_user platform lib user)
    challenge ← has_credentials wa_user.credentials
    sd ← or_500 (lib.begin_login wa wa_user challenge)
    save_flow_of (some user.id) flow_login origin none sd
    where
      has_credentials : List Credential → Handler (Option Text)
      has_credentials [] = stop (write_error 400 "no passkeys registered for this account")
      has_credentials (_ ∷ _) = library_bytes 32

  -- PasskeyLoginBegin
  unfoldable pub passkey_login_begin : Request → Result DecodeProblem Text → Handler Response
  unfolding for_request login_begin_user
  passkey_login_begin r body = do
    username ← decode_json body
    bound ← for_request r none username login_event
    user ← found (get_user_by_username platform (trim_space username))
    login_begin_user bound user

  -- What FinishLogin returned to PasskeyLoginFinish.
  unfoldable pub login_asserted : Request → User → Result Text Credential → Handler Response
  unfolding refuse
  login_asserted r user (err e) =
      refuse r (some user.id) user.username login_event (library_error e) invalid_credentials
  login_asserted r user (ok cred) = do
    attempt (update_webauthn_credential platform user.id cred)
    record_activity platform h r (some user.id) user.username login_event passkey success no_detail
    issue_session platform h user passkey

  -- The rest of PasskeyLoginFinish for the flow's user.
  unfoldable pub login_finish_user : Request → Text → LiveFlow → Option User → Handler Response
  unfolding login_asserted build_wa_user
  login_finish_user r body flow none = stop invalid_credentials
  login_finish_user r body flow (some user) = do
    wa_user ← or_server_error (build_wa_user platform lib user)
    now ← time_now
    login_asserted r user (lib.finish_login flow.wa wa_user flow.session (limited body) now)

  -- PasskeyLoginFinish
  unfoldable pub passkey_login_finish : Request → Text → Handler Response
  unfolding login_finish_user consume_ceremony
  passkey_login_finish r body = do
    flow ← consume_ceremony platform lib p r flow_login
    if flow.user_id == []
        then stop invalid_flow
        else do user ← found (get_user_by_id flow.user_id); login_finish_user r body flow user

  -- PasskeySignupBegin
  unfoldable pub passkey_signup_begin :
      Request → Result DecodeProblem PasskeySignupBeginRequest → Handler Response
  unfolding for_request save_flow_of library_bytes
  passkey_signup_begin r body = do
    req ← decode_json body
    (username, display_name) ← identity (normalize_identity req.username req.display_name)
    exists ← or_server_error (username_exists platform username)
    if exists then stop (write_error 409 "username already taken") else do
      (wa, origin) ← for_request r none username signup_event
      id_bytes ← library_bytes 16
      challenge ← library_bytes 32
      begun wa origin
          (record {
            user_id = lib.new_v4 id_bytes;
            username = username;
            display_name = display_name;
          })
          challenge
    where
      identity : Result String (Text × Text) → Handler (Text × Text)
      identity (ok names) = pure names
      identity (err problem) = stop (write_error 400 problem)

      begun : RelyingParty → Text → SignupFlowData → Option Text → Handler Response
      begun wa origin s challenge = do
        sd ← or_500 (
            lib.begin_registration wa (record { user = candidate_of s; credentials = [] }) []
              challenge)
        save_flow_of none flow_signup origin (some s) sd

  -- CreateUserWithPasskey refused: a conflict is recorded.
  unfoldable pub signup_refused : {A : Type 0} → Request → Text → StoreError → Handler A
  unfolding refuse
  signup_refused r username unique_violation =
      refuse r none username signup_event (reason (codes "conflict"))
        (write_error 409 "username already taken")
  signup_refused r username _ = stop server_error

  -- What FinishRegistration returned to PasskeySignupFinish.
  unfoldable pub signup_verified :
      Request → SignupFlowData → Result Text Credential → Handler Response
  unfolding refuse signup_refused
  signup_verified r s (err e) =
      refuse r none s.username signup_event (library_error e)
        (write_error 400 "passkey signup failed")
  signup_verified r s (ok cred) = do
    user ←
        catch (create_user_with_passkey platform s.user_id s.username s.display_name cred)
          (λ e. signup_refused r s.username e)
    record_activity platform h r (some user.id) user.username signup_event passkey success no_detail
    issue_session platform h user passkey

  -- The rest of PasskeySignupFinish for the account in the flow.
  unfoldable pub signup_finish_flow :
      Request → Text → LiveFlow → Option SignupFlowData → Handler Response
  unfolding signup_verified
  signup_finish_flow r body flow none = stop invalid_flow
  signup_finish_flow r body flow (some s) = do
    now ← time_now
    signup_verified r s (
        lib.finish_registration flow.wa (record { user = candidate_of s; credentials = [] })
          flow.session (limited body) now)

  -- PasskeySignupFinish
  unfoldable pub passkey_signup_finish : Request → Text → Handler Response
  unfolding signup_finish_flow consume_ceremony
  passkey_signup_finish r body = do
    flow ← consume_ceremony platform lib p r flow_signup
    signup_finish_flow r body flow flow.signup
