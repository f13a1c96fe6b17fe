-- ===== src/Tests/Passkeys.antt =====
-- The theorems about passkeys at a small database.
use go_tunnels.Shared.{
  ◌≡◌, ◌≤◌, refl, ◌∷◌, [], none, some, ok, codes, map, length, List, Text, any, text_beq, pure,
  stop, catch, ◌>>=◌, arith, false, Option,
}
use go_tunnels.Tests.Data.{
  a_world, a_platform, a_request, some_settings, alice, bob, ceremony, two_users,
}
use go_tunnels.Text.{trim_space, to_lower, ascii_lower, hex_encode, base64_raw_url}
use go_tunnels.Store.{
  World, RelyingParty, User, find, delete_where, select_where, count_where, update_where,
  Credential,
}
use go_tunnels.Store.Statement.{statement, run_statement, apply_query, checked_insert, in_tx}
use go_tunnels.Store.Keys.{HasKeys}
use go_tunnels.Store.Flows.{consume_flow, delete_returning_flow}
use go_tunnels.Store.Sessions.{create_session, insert_session}
use go_tunnels.Store.Audit.{insert_activity, insert_activity_row}
use go_tunnels.Store.Totp.{get_totp_secret, select_totp_secret}
use go_tunnels.Store.Users.{
  get_user_by_id, select_user_by_id, get_webauthn_credentials, select_credentials, unmarshal_all,
  update_webauthn_credential, update_credential, user_roles, select_roles,
  count_webauthn_credentials, select_credential_count, create_user_with_passkey, insert_user,
  insert_user_row, insert_user_role, insert_webauthn_credential, insert_credential,
  normalize_username,
}
use go_tunnels.Store.History.{run, consumes_flow, saves_flow}
use go_tunnels.Httpx.Reply.{or_server_error}
use go_tunnels.Httpx.Origins.{normal_origin}
use go_tunnels.Activity.{Request, record_event}
use go_tunnels.Auth.Codes.{time_now, new_session_token, random_bytes, hash_session_token}
use go_tunnels.Auth.Sessions.{
  found, attempt, record_activity, issue_session, compute_session_expiry, user_response,
  totp_enabled,
}
use go_tunnels.Auth.Passkey.{Webauthn, RpProvider, for_origin}
use go_tunnels.Auth.Passkey.Cache.{IsCoherent, resolve, for_origins, for_origins-cache}
use go_tunnels.Auth.Ceremony.{
  consume_ceremony, revive_taken, revive, bind_origin, decode_flow_envelope, build_wa_user,
}
use go_tunnels.Auth.Passkeys.{
  passkey_login_finish, login_finish_user, login_asserted, passkey_signup_finish,
  signup_finish_flow, signup_verified, passkey_register_finish,
}
use go_tunnels.Auth.Asserted.{IsAsserted, passkey_login_finish-IsAsserted}
use go_tunnels.Auth.SignedUp.{IsSignedUp, passkey_signup_finish-IsSignedUp}
use go_tunnels.Auth.FinishedOnce.{IsRefused, finished_once}

abbrev carol_key : Credential
carol_key = record {
  id = codes "c-1";
  public_key = codes "key";
  attestation_type = codes "none";
  aaguid = [];
  sign_count = 1;
  clone_warning = false;
  transports = [];
}

-- A library that accepts every response, and writes a session as it stands.
abbrev pub a_library : Webauthn
a_library = record {
  config_problem = λ wa. none;
  begin_registration = λ wa u excluded challenge. ok (codes "data");
  finish_registration = λ wa u sd body now. ok carol_key;
  begin_login = λ wa u challenge. ok (codes "data");
  finish_login = λ wa u sd body now. ok carol_key;
  marshal_envelope = λ env. env.session;
  unmarshal_envelope = λ blob. some (record {
    origin = [];
    signup =
        some (record {
          user_id = codes "u-3";
          username = codes "carol";
          display_name = codes "Carol";
        });
    session = some blob;
  });
  new_v4 = λ bytes. codes "u-3";
}

abbrev local_party : RelyingParty
local_party = record {
  rp_id = codes "localhost";
  display_name = codes "GoTunnels";
  origins = codes "http://localhost:8080" ∷ [];
}

abbrev pub a_provider : RpProvider
a_provider = record {
  display_name = codes "GoTunnels";
  static = local_party;
  static_default = codes "http://localhost:8080";
  static_origins = codes "http://localhost:8080" ∷ [];
  patterns = codes "https://*.trycloudflare.com" ∷ [];
}

abbrev flow_request : Request
flow_request = record a_request { flow = codes "f-1" }

-- A flow of the kind, for Alice or for nobody.
abbrev flow_world : Text → Option Text → World
flow_world kind user_id = record a_world {
  db = record two_users {
    webauthn_flows = record ceremony { kind = kind; user_id = user_id } ∷ [];
  };
}

abbrev login_world : World
login_world = flow_world (codes "login") (some alice)

abbrev signup_world : World
signup_world = flow_world (codes "signup") none

nothing-IsCoherent : IsCoherent a_platform a_library a_provider []
nothing-IsCoherent = record { built = tt; bounded = omega arith }

login_world-HasKeys : HasKeys login_world.db
unfolding any text_beq
login_world-HasKeys = record {
  user_ids = (refl, (refl, tt));
  usernames = (refl, (refl, tt));
  passwords = (refl, tt);
  credentials = tt;
  flows = (refl, tt);
  secrets = (refl, (refl, tt));
  sessions = (refl, tt);
  roles = (refl, tt);
  stats = tt;
  prefs = tt;
}

abbrev bob_user : User
bob_user = record { id = bob; username = codes "bob"; display_name = codes "bob"; created_at = 5 }

abbrev some_origins : List Text
some_origins =
    codes "https://a-b.trycloudflare.com"
    ∷ codes "https://evil.example"
    ∷ codes "https://a-b.trycloudflare.com"
    ∷ []

for_origins-cache_example :
    ((for_origins a_platform a_library a_provider some_origins a_world).0
      ≡ map (resolve a_platform a_library a_provider) some_origins)
    × (length (for_origins a_platform a_library a_provider some_origins a_world).1.by_origin ≤ 256)
for_origins-cache_example =
    for_origins-cache a_platform a_library a_provider some_origins a_world refl

passkey_login_finish-IsAsserted_example :
    IsAsserted a_platform a_library a_provider some_settings flow_request
      (codes "assertion")
      login_world
unfolding passkey_login_finish login_finish_user login_asserted consume_ceremony revive_taken revive
    bind_origin decode_flow_envelope build_wa_user found attempt record_activity record_event
    issue_session compute_session_expiry user_response totp_enabled for_origin normal_origin
    trim_space to_lower consume_flow delete_returning_flow create_session insert_session
    insert_activity insert_activity_row get_totp_secret select_totp_secret get_user_by_id
    select_user_by_id get_webauthn_credentials select_credentials unmarshal_all
    update_webauthn_credential update_credential user_roles select_roles count_webauthn_credentials
    select_credential_count or_server_error time_now new_session_token random_bytes
    hash_session_token hex_encode base64_raw_url find delete_where select_where count_where
    update_where statement run_statement apply_query checked_insert any text_beq pure stop catch
    ◌>>=◌
passkey_login_finish-IsAsserted_example =
    passkey_login_finish-IsAsserted a_platform a_library a_provider some_settings flow_request
      (codes "assertion") login_world nothing-IsCoherent refl

passkey_signup_finish-IsSignedUp_example :
    IsSignedUp a_platform a_library a_provider some_settings flow_request
      (codes "attestation")
      signup_world
unfolding passkey_signup_finish signup_finish_flow signup_verified consume_ceremony revive_taken
    revive bind_origin decode_flow_envelope found attempt record_activity record_event issue_session
    compute_session_expiry user_response totp_enabled for_origin normal_origin trim_space to_lower
    ascii_lower consume_flow delete_returning_flow create_session insert_session insert_activity
    insert_activity_row get_totp_secret select_totp_secret create_user_with_passkey insert_user
    insert_user_row insert_user_role insert_webauthn_credential insert_credential normalize_username
    in_tx user_roles select_roles count_webauthn_credentials select_credential_count or_server_error
    time_now new_session_token random_bytes hash_session_token hex_encode base64_raw_url find
    delete_where select_where count_where update_where statement run_statement apply_query
    checked_insert any text_beq pure stop catch ◌>>=◌
passkey_signup_finish-IsSignedUp_example =
    passkey_signup_finish-IsSignedUp a_platform a_library a_provider some_settings flow_request
      (codes "attestation") signup_world nothing-IsCoherent refl

finished_once_example :
    let later =
      run a_platform
        (consumes_flow (codes "f-1") (codes "signup")
          ∷ saves_flow (record ceremony { id = codes "f-2" })
          ∷ [])
        (passkey_login_finish a_platform a_library a_provider some_settings flow_request
          (codes "assertion")
          login_world).1 in
    IsRefused
      (passkey_login_finish a_platform a_library a_provider some_settings flow_request
        (codes "assertion")
        later).0
    × IsRefused
        (passkey_register_finish a_platform a_library a_provider some_settings flow_request
          (codes "assertion")
          (bob_user, codes "s-9")
          later).0
    × IsRefused
        (passkey_signup_finish a_platform a_library a_provider some_settings flow_request
          (codes "assertion")
          later).0
unfolding passkey_login_finish login_finish_user login_asserted consume_ceremony revive_taken revive
    bind_origin decode_flow_envelope build_wa_user found attempt record_activity record_event
    issue_session compute_session_expiry user_response totp_enabled for_origin normal_origin
    trim_space to_lower consume_flow delete_returning_flow create_session insert_session
    insert_activity insert_activity_row get_totp_secret select_totp_secret get_user_by_id
    select_user_by_id get_webauthn_credentials select_credentials unmarshal_all
    update_webauthn_credential update_credential user_roles select_roles count_webauthn_credentials
    select_credential_count or_server_error time_now new_session_token random_bytes
    hash_session_token hex_encode base64_raw_url find delete_where select_where count_where
    update_where statement run_statement apply_query checked_insert any text_beq pure stop catch
    ◌>>=◌
finished_once_example =
    finished_once a_platform a_library a_provider some_settings flow_request flow_request
      (codes "assertion") (codes "assertion") (bob_user, codes "s-9")
      (consumes_flow (codes "f-1") (codes "signup")
        ∷ saves_flow (record ceremony { id = codes "f-2" })
        ∷ [])
      login_world login_world-HasKeys nothing-IsCoherent refl refl (tt, (refl, tt))
