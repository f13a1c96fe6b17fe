-- ===== src/Tests/Auths.antt =====
-- The theorems about internal/auth at a small database.
use go_tunnels.Shared.{
  ◌≡◌, ◌≢◌, refl, [], ◌∷◌, none, ok, err, codes, ◌⊎◌, any, text_beq, pure, stop, catch, ◌>>=◌,
  Result,
}
use go_tunnels.Tests.Data.{
  a_world, a_platform, alice, bob, with_token, alice_world, a_request, some_settings, token_session,
}
use go_tunnels.Text.{trim_space, has_prefix, hex_encode}
use go_tunnels.Store.{find, update_where}
use go_tunnels.Store.Statement.{statement, run_statement, apply_query}
use go_tunnels.Store.Sessions.{get_session, select_session, touch_session, update_last_seen}
use go_tunnels.Store.Users.{get_user_by_id, select_user_by_id}
use go_tunnels.Auth.Codes.{hash_session_token}
use go_tunnels.Auth.Sessions.{
  require_auth, authenticate, attempt, extract_token, auth_lookup_failed,
}
use go_tunnels.Store.{User}
use go_tunnels.Store.History.{run, creates_session}
use go_tunnels.Httpx.Reply.{Response, or_server_error}
use go_tunnels.Auth.Sessions.{logout, record_activity}
use go_tunnels.Store.Sessions.{revoke_session, update_revoked}
use go_tunnels.Store.Audit.{insert_activity, insert_activity_row}
use go_tunnels.Store.Statement.{checked_insert}
use go_tunnels.Store.Totp.{
  mark_totp_step_used, update_last_used_step, get_totp_secret, select_totp_secret,
}
use go_tunnels.Store.Table.{count_where}
use go_tunnels.Activity.{record_event}
use go_tunnels.Auth.Codes.{decrypt_secret, match_totp_step, first_match, time_now}
use go_tunnels.Auth.Login.{
  LoginRequest, verify_second_factor, check_code, check_opened, check_step, read_secret,
}
use go_tunnels.Auth.SecondFactor.{IsSecondFactor, verify_second_factor-IsSecondFactor}
use go_tunnels.Auth.Logout.{logged_out_forever}
use go_tunnels.Auth.Grant.{IsGranted, login_grant}
use go_tunnels.Auth.Login.{
  login, login_request, login_user, login_hashed, login_verified, login_second_factor, admit,
}
use go_tunnels.Auth.Password.{verify_password, decode_phc, split, base64_decode}
use go_tunnels.Httpx.Reply.{DecodeProblem, decode_json}
use go_tunnels.Auth.Sessions.{
  found, totp_enabled, issue_session, compute_session_expiry, user_response,
}
use go_tunnels.Auth.Codes.{new_session_token, random_bytes}
use go_tunnels.Text.{to_lower, ascii_lower, base64_raw_url}
use go_tunnels.Store.Sessions.{create_session, insert_session}
use go_tunnels.Store.Table.{select_where}
use go_tunnels.Store.Users.{
  get_user_by_username, select_user_by_username_lower, normalize_username, get_password_hash,
  select_password_hash, user_roles, select_roles, count_webauthn_credentials,
  select_credential_count,
}
use go_tunnels.Auth.Gate.{IsAdmitted, IsUnknown, require_auth-IsAdmitted, unauthorised_is_definite}

require_auth-IsAdmitted_example :
    (extract_token a_request ≢ [])
    × IsAdmitted
        (hash_session_token a_platform (extract_token a_request))
        with_token
        (record {
          id = alice;
          username = codes "Alice";
          display_name = codes "Alice";
          created_at = 5;
        })
        token_session.id
unfolding require_auth authenticate attempt extract_token hash_session_token trim_space has_prefix
    hex_encode get_session select_session get_user_by_id select_user_by_id touch_session
    update_last_seen find statement run_statement apply_query text_beq pure stop catch ◌>>=◌
require_auth-IsAdmitted_example =
    require_auth-IsAdmitted a_platform some_settings a_request with_token refl

unauthorised_is_definite_example :
    (extract_token a_request ≡ [])
    ⊎ IsUnknown
        (hash_session_token a_platform (extract_token a_request))
        a_world
        (require_auth a_platform some_settings a_request a_world).1
unfolding require_auth authenticate attempt extract_token hash_session_token trim_space has_prefix
    hex_encode get_session select_session get_user_by_id select_user_by_id touch_session
    update_last_seen find statement run_statement apply_query text_beq pure stop catch ◌>>=◌
    auth_lookup_failed
unauthorised_is_definite_example =
    unauthorised_is_definite a_platform some_settings a_request a_world refl refl

abbrev alice_user : User
alice_user = record {
  id = alice;
  username = codes "Alice";
  display_name = codes "Alice";
  created_at = 5;
}

logged_out_forever_example :
    let later =
      run a_platform
        (creates_session token_session.id bob (codes "passkey") none ∷ [])
        (logout a_platform some_settings a_request
          (alice_user, token_session.id)
          (require_auth a_platform some_settings a_request with_token).1).1 in
    (refusal : Response) × ((require_auth a_platform some_settings
        (record a_request { user_agent = [] })
        later).0
      ≡ err refusal)
    × ((refusal.status ≡ 401) ⊎ (refusal.status ≡ 503))
unfolding require_auth authenticate attempt extract_token hash_session_token trim_space has_prefix
    hex_encode get_session select_session get_user_by_id select_user_by_id touch_session
    update_last_seen find update_where statement run_statement apply_query text_beq pure stop catch
    ◌>>=◌ logout or_server_error revoke_session update_revoked record_activity record_event
    insert_activity insert_activity_row checked_insert any
logged_out_forever_example =
    logged_out_forever a_platform some_settings a_request (record a_request { user_agent = [] })
      (creates_session token_session.id bob (codes "passkey") none ∷ []) with_token refl refl refl

abbrev alice_login : LoginRequest
alice_login = record {
  username = codes " ALICE ";
  password = codes "password1";
  totp = codes "123456";
}

abbrev sent_login : Result DecodeProblem LoginRequest
sent_login = ok alice_login

verify_second_factor-IsSecondFactor_example :
    (trim_space (codes " 123456 ") ≢ [])
    × IsSecondFactor a_platform some_settings alice (trim_space (codes " 123456 ")) alice_world
unfolding verify_second_factor check_code check_opened check_step read_secret decrypt_secret
    match_totp_step first_match time_now mark_totp_step_used update_last_used_step get_totp_secret
    select_totp_secret trim_space find count_where statement run_statement apply_query text_beq pure
    stop catch ◌>>=◌
verify_second_factor-IsSecondFactor_example =
    verify_second_factor-IsSecondFactor a_platform some_settings alice (codes " 123456 ")
      alice_world refl

login_grant_example :
    (req : LoginRequest) × (sent_login ≡ ok req)
    × IsGranted a_platform some_settings req alice_world
unfolding login login_request login_user login_hashed login_verified login_second_factor admit
    verify_password decode_phc split base64_decode decode_json found or_server_error attempt
    totp_enabled verify_second_factor check_code check_opened check_step read_secret decrypt_secret
    match_totp_step first_match time_now mark_totp_step_used update_last_used_step get_totp_secret
    select_totp_secret get_user_by_username select_user_by_username_lower normalize_username
    to_lower ascii_lower get_password_hash select_password_hash trim_space find count_where
    update_where statement run_statement apply_query text_beq any pure stop catch ◌>>=◌
    record_activity record_event insert_activity insert_activity_row checked_insert issue_session
    new_session_token random_bytes hash_session_token base64_raw_url hex_encode
    compute_session_expiry create_session insert_session user_response user_roles select_roles
    select_where count_webauthn_credentials select_credential_count
login_grant_example = login_grant a_platform some_settings a_request sent_login alice_world refl
