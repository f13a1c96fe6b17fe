-- ===== src/Tests/Data.antt =====
-- A small database, and an environment in which every statement succeeds.
use go_tunnels.Shared.{◌*◌, ◌^◌, true, false, [], ◌∷◌, ◌++◌, none, some, Text, codes, pos, ℕ}
use go_tunnels.Text.{hex_encode}
use go_tunnels.Activity.{Request}
use go_tunnels.Auth.Sessions.{Settings}
use go_tunnels.Store.{World, Platform, Db, UserRow, Flow, TotpRow, Session, CaptchaStats, NoteRow}

abbrev pub alice : Text
alice = codes "u-1"

abbrev pub bob : Text
bob = codes "u-2"

abbrev user_named : Text → Text → Text → UserRow
user_named id name lower = record {
  user = record { id = id; username = name; display_name = name; created_at = 5 };
  username_lower = lower;
}

abbrev pub laptop : Text
laptop = codes "s-1"

abbrev pub laptop_session : Session
laptop_session = record {
  id = laptop;
  user_id = alice;
  auth_method = codes "password";
  created_at = 10;
  last_seen_at = 10;
  expires_at = none;
  revoked_at = none;
}

abbrev pub ceremony : Flow
ceremony = record {
  id = codes "f-1";
  user_id = some alice;
  kind = codes "register";
  session_data = codes "data";
  expires_at = 500;
}

abbrev pub alice_secret : TotpRow
alice_secret = record {
  user_id = alice;
  secret_encrypted = codes "sealed";
  confirmed = true;
  created_at = 20;
  confirmed_at = some 30;
  last_used_step = some (pos 1);
}

abbrev pub bob_secret : TotpRow
bob_secret = record {
  user_id = bob;
  secret_encrypted = codes "sealed too";
  confirmed = false;
  created_at = 20;
  confirmed_at = none;
  last_used_step = none;
}

abbrev pub two_users : Db
two_users = record {
  users =
      user_named alice (codes "Alice") (codes "alice")
      ∷ user_named bob (codes "bob") (codes "bob")
      ∷ [];
  user_roles = record { user_id = alice; role = codes "user" } ∷ [];
  password_credentials =
      record {
        user_id = alice;
        password_hash = codes "$argon2id$v=19$m=65536,t=1,p=4$c2FsdA$cGFzc3dvcmQx";
      }
      ∷ [];
  webauthn_credentials = [];
  webauthn_flows = ceremony ∷ [];
  totp_secrets = alice_secret ∷ bob_secret ∷ [];
  totp_recovery_codes = record { user_id = alice; code_hash = codes "h-1"; used_at = none } ∷ [];
  sessions = laptop_session ∷ [];
  activity_log = [];
  next_activity_id = 1;
  notes = [];
  next_note_id = 1;
  captcha_stats = [];
  user_prefs = [];
  csp_reports = [];
  next_csp_report_id = 1;
  health_check_log = [];
  next_health_check_id = 1;
  random_uuid = λ n. codes "uuid" ++ n ∷ [];
  uuids_drawn = 0;
}

abbrev pub a_world : World
a_world = record {
  db = two_users;
  clock = 100;
  outages = record { elapsed = 3; fails = false; landed = false } ∷ [];
  entropy = λ k n. some (k ∷ n ∷ []);
  reads = 0;
  by_origin = [];
}

abbrev pub a_platform : Platform
a_platform = record {
  lower_rune = λ p. p;
  sha256 = λ t. 7 ∷ t;
  argon2_id_key = λ password salt p n. password;
  totp_code = λ secret step. some (codes "123456");
  gcm_seal = λ key nonce plain. plain;
  gcm_open = λ key nonce sealed. some sealed;
  marshal_credential = λ cred. some cred.id;
  unmarshal_credential = λ blob. none;
  marshal_detail = λ d. some (codes "{}");
  quote = λ t. t;
  jsonb_accepts = λ t. true;
}

-- Alice's session at this instant is the one whose id is the hash of the token "t".
abbrev pub token_session : Session
token_session = record laptop_session { id = hex_encode (7 ∷ codes "t") }

abbrev pub with_token : World
with_token = record a_world { db = record two_users { sessions = token_session ∷ [] } }

abbrev pub a_request : Request
a_request = record {
  authorization = codes "Bearer t";
  cookie = none;
  user_agent = codes "browser";
  cf_connecting_ip = codes "192.0.2.1";
  x_forwarded_for = [];
  remote_addr = [];
  remote_host = none;
  origin = [];
  flow = [];
}

abbrev pub some_settings : Settings
some_settings = record {
  session_ttl = pos 0;
  flow_ttl = 600;
  totp_key = codes "key";
  cookie_name = codes "gotunnels_session";
  cookie_secure = true;
  pepper = codes "pepper";
}

-- Alice's sealed secret is long enough for a nonce, and the clock stands at step 4.
abbrev pub alice_world : World
alice_world = record a_world {
  db = record two_users {
    totp_secrets = record alice_secret { secret_encrypted = codes "0123456789absecret" } ∷ [];
  };
  clock = 120 * 10 ^ 9;
}

abbrev note_by : ℕ → Text → NoteRow
note_by id user_id = record { id = id; user_id = user_id; body = codes "hello"; created_at = 40 }

abbrev pub alice_stats : CaptchaStats
alice_stats = record {
  user_id = alice;
  best_streak = 7;
  current_streak = 2;
  total_solves = 10;
  manual_solves = 4;
  auto_solves = 6;
  updated_at = 50;
}

-- Three notes, and a row of statistics.
abbrev pub with_posts : Db
with_posts = record two_users {
  notes = note_by 1 alice ∷ note_by 2 bob ∷ note_by 3 alice ∷ [];
  next_note_id = 4;
  captcha_stats = alice_stats ∷ [];
}

abbrev pub posts_world : World
posts_world = record a_world { db = with_posts }
