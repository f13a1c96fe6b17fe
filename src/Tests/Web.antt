-- ===== src/Tests/Web.antt =====
-- The theorems about the middleware, the configuration, the reports and the housekeeping, at small
-- inputs.
use mathlib.Core.Path.{subst}
use go_tunnels.Text.Search.{some_inj}
use go_tunnels.Shared.{
  ℕ, ◌+◌, ◌-◌, ◌*◌, ◌/◌, ◌^◌, ◌≡◌, ◌↔◌, refl, ◌∷◌, [], ◌++◌, none, some, ok, codes, List, Text, ℤ,
  pos, negsuc, ltb, leb, arith, true, false, length, any, pure, ◌>>=◌, All, text_beq, ◌≤ℤ◌,
  if◌then◌else◌, ◌<◌,
}
use go_tunnels.Tests.Data.{a_world, a_platform, a_request}
use go_tunnels.Text.{trim_space, index_of, has_prefix, to_lower, ascii_lower}
use go_tunnels.Store.{World}
use go_tunnels.Activity.{hash_ip, client_ip}
use go_tunnels.Httpx.Reply.{no_content}
use go_tunnels.Httpx.Origins.{match_origin_pattern}
use go_tunnels.Httpx.Origins.Match.{IsMatch, match_origin_pattern_iff}
use go_tunnels.Httpx.RateLimiter.{Float64, new_rate_limiter, allow, take_token}
use go_tunnels.Httpx.RateLimiter.Sweeping.{IsMonotone, Ascends, decisions, allow-take_token}
use go_tunnels.Httpx.RequestId.{valid_request_id, request_id}
use go_tunnels.Httpx.RequestId.Safe.{IsSafe, request_id-IsSafe}
use go_tunnels.Config.Environment.{Environment}
use go_tunnels.Config.Settings.{Host, Settings, Config}
use go_tunnels.Config.Load.{
  load, validate, complete, resolve_secrets, resolve_secret, resolve_telemetry, env_str,
}
use go_tunnels.Config.Valid.{IsValid, validate_iff}
use go_tunnels.Config.Loaded.{HasSecrets, load-IsValid}
use go_tunnels.Config.Environment.{str, int, int32, bool, dur, parsed, raw}
use go_tunnels.Config.Parts.{split_list, fields_after, trimmed}
use go_tunnels.Config.Settings.{read_settings, default_instance_id, default_csp_policy}
use go_tunnels.Config.Parts.{endpoint_from_dsn}
use go_tunnels.Config.Dsn.{path, endpoint_from_dsn-parts}
use go_tunnels.Maintenance.{JanitorConfig}
use go_tunnels.Csp.{ReportJson, Violation, serve_http}
use go_tunnels.Csp.Bounded.{IsAdded, serve_http-IsAdded}

match_origin_pattern_iff_example :
    (match_origin_pattern
        (λ p. p)
        (codes "https://*.trycloudflare.com")
        (codes "HTTPS://a-b.trycloudflare.com")
      ≡ true)
    ↔ IsMatch (λ p. p) (codes "https://*.trycloudflare.com") (codes "HTTPS://a-b.trycloudflare.com")
match_origin_pattern_iff_example =
    match_origin_pattern_iff (λ p. p) (codes "https://*.trycloudflare.com")
      (codes "HTTPS://a-b.trycloudflare.com")

-- Whole tokens and whole seconds.
abbrev pub whole : Float64 ℕ
whole = record {
  add = λ a b. a + b;
  sub = λ a b. a - b;
  mul = λ a b. a * b;
  one = 1;
  below = λ a b. ltb a b;
  at_most = λ a b. leb a b;
  seconds = λ d. elim d [ pos n ↦ n / 10 ^ 9 | negsuc n ↦ 0 ];
}

whole_seconds :
    (m n : ℤ)
    → m ≤ℤ n
    → leb
        (elim m [ pos a ↦ a / 10 ^ 9 | negsuc a ↦ 0 ])
        (elim n [ pos a ↦ a / 10 ^ 9 | negsuc a ↦ 0 ])
      ≡ true
whole_seconds (pos a) (pos b) h = ground arith
whole_seconds (pos a) (negsuc b) h = absurd (omega (arith, h))
whole_seconds (negsuc a) (pos b) h = ground arith
whole_seconds (negsuc a) (negsuc b) h = refl

whole-IsMonotone : IsMonotone whole 2
whole-IsMonotone = record {
  not_below = λ a b h. ground arith;
  weaken = λ a b h. ground arith;
  reflexive = λ a. ground arith;
  transitive = λ a b c h k. ground arith;
  antisymmetric = λ a b one h k. ground arith;
  add_mono = λ c a b h. ground arith;
  rate_mono = λ a b h. ground arith;
  seconds_mono = whole_seconds;
}

-- A key, the same key a second later, and another after the interval of the sweep.
abbrev attempts : List (Text × ℕ)
attempts =
    (codes "a", 10 ^ 12)
    ∷ (codes "a", 10 ^ 12 + 10 ^ 9)
    ∷ (codes "b", 2 * 10 ^ 12)
    ∷ (codes "a", 2 * 10 ^ 12)
    ∷ []

attempts-Ascends : Ascends 0 attempts
unfolding Ascends
attempts-Ascends = (omega arith, (omega arith, (omega arith, (omega arith, tt))))

allow-take_token_example :
    let (capacity, rl) = new_rate_limiter whole 3 in
    decisions (allow whole 2 capacity) rl attempts
    ≡ decisions (take_token whole 2 capacity) rl attempts
allow-take_token_example = allow-take_token whole 2 3 attempts whole-IsMonotone attempts-Ascends

abbrev sixteen_bytes : Text
sixteen_bytes = codes "0123456789abcdef"

abbrev random_world : World
random_world = record a_world { entropy = λ k n. some sixteen_bytes }

sixteen :
    (bytes : Text)
    → some sixteen_bytes ≡ some bytes
    → (length bytes ≡ 16) × All (λ b. b < 256) bytes
sixteen bytes e = subst (λ t. (length t ≡ 16) × All (λ b. b < 256) t) (some_inj e) (refl, small)
  where
    small : All (λ b. b < 256) sixteen_bytes
    small = ground arith

request_id-IsSafe_example :
    (id : Text) × ((request_id {E = Unit {0}} (codes "x y") random_world).0 ≡ ok id)
    × IsSafe id
    × (valid_request_id (codes "x y") ≡ true → id ≡ codes "x y")
request_id-IsSafe_example =
    request_id-IsSafe (codes "x y") random_world (λ bytes e. sixteen bytes e)

endpoint_from_dsn-parts_example :
    endpoint_from_dsn (
      codes "https"
      ++ (codes "://" ++ (codes "t@k" ++ b'@' ∷ (codes "api.uptrace.dev:4317" ++ codes "/1"))))
    ≡ (
      codes "https" ++ (codes "://" ++ codes "api.uptrace.dev:4317"),
      text_beq (codes "https") (codes "http"),
    )
unfolding any
endpoint_from_dsn-parts_example =
    endpoint_from_dsn-parts (codes "https") (codes "t@k") (codes "api.uptrace.dev:4317")
      (codes "/1") refl refl refl (path (codes "1")) refl

-- Two variables that a production server needs, and its secrets.
abbrev an_environment : Environment
an_environment = record {
  lookup_env = λ key.
      if text_beq key (codes "DATABASE_URL")
      then some (codes "postgres://db")
      else if text_beq key (codes "GOTUNNELS_IP_HASH_PEPPER")
      then some (codes "pepper")
      else if text_beq key (codes "GOTUNNELS_TOTP_ENCRYPTION_KEY")
      then some (codes "key")
      else none;
  parse_duration = λ t. none;
}

abbrev a_host : Host
a_host = record {
  hostname = some (codes "box");
  instance_bytes = [];
  pepper_bytes = [];
  key_bytes = [];
}

abbrev production : Settings
production = record {
  instance_id = codes "box";
  service_name = codes "gotunnels-api";
  version = codes "dev";
  http_addr = codes ":8080";
  shutdown_timeout = pos (15 * 10 ^ 9);
  database_url = codes "postgres://db";
  db_max_conns = pos 20;
  db_min_conns = pos 2;
  db_connect_timeout = pos (30 * 10 ^ 9);
  session_cookie_name = codes "gotunnels_session";
  session_ttl = pos 0;
  cors_allowed_origins = codes "*" ∷ [];
  rp_id = codes "localhost";
  rp_display_name = codes "GoTunnels";
  rp_origins = codes "http://localhost:8080" ∷ [];
  rp_origin_patterns = codes "https://*.trycloudflare.com" ∷ [];
  signup_ip_interval = pos (300 * 10 ^ 9);
  signup_ip_burst = pos 1;
  signup_global_interval = pos (60 * 10 ^ 9);
  signup_global_burst = pos 1;
  auth_attempt_interval = pos (6 * 10 ^ 9);
  auth_attempt_burst = pos 10;
  maintenance_interval = pos (3600 * 10 ^ 9);
  health_log_retention = pos (168 * 3600 * 10 ^ 9);
  csp_report_retention = pos (720 * 3600 * 10 ^ 9);
  host_name = [];
  csp_mode = codes "report-only";
  csp_policy = default_csp_policy;
  dev = false;
}

abbrev loaded : Config
loaded = record {
  settings = production;
  ip_hash_pepper = codes "pepper";
  totp_aes_key = 7 ∷ codes "key";
  telemetry = record {
    enabled = false;
    endpoint_url = [];
    headers = [];
    insecure = false;
    compression = codes "gzip";
    metrics_temporality = codes "delta";
    metrics_histogram = codes "base2_exponential_bucket_histogram";
  };
}

validate_iff_example : (validate production ≡ none) ↔ IsValid production
validate_iff_example = validate_iff production

load-IsValid_example :
    (read_settings an_environment a_host [] ≡ (ok loaded.settings, []))
    × IsValid loaded.settings
    × (loaded.settings.dev ≡ false → HasSecrets a_platform an_environment a_host loaded)
unfolding load complete read_settings resolve_secrets resolve_secret resolve_telemetry validate
    env_str default_instance_id split_list fields_after trimmed str int int32 bool dur parsed raw
    trim_space to_lower ascii_lower index_of has_prefix any text_beq pure ◌>>=◌
load-IsValid_example = load-IsValid a_platform an_environment a_host {c = loaded} refl

-- An expired ceremony at a database whose second statement fails.
abbrev pass_world : World
pass_world = record a_world {
  clock = 10 ^ 18;
  outages =
      record { elapsed = 3; fails = false; landed = false }
      ∷ record { elapsed = 9; fails = true; landed = false }
      ∷ [];
}

abbrev retentions : JanitorConfig
retentions = record { health_log_retention = pos (10 ^ 15); csp_report_retention = pos 0 }

abbrev a_violation : Violation
a_violation = record {
  document_uri = codes "https://x.example/";
  referrer = [];
  blocked_uri = codes "inline";
  violated_directive = codes "script-src";
  effective_directive = codes "script-src";
  original_policy = [];
  disposition = codes "report";
  source_file = [];
  sample = [];
  line_number = pos 3;
  column_number = pos 1;
  status_code = pos 200;
}

abbrev pub report_json : ReportJson
report_json = record {
  probe = λ t. some (some a_violation);
  items = λ t. some (t ∷ t ∷ []);
  reporting_item = λ t. some (record {
    kind = codes "csp-violation";
    url = codes "https://x.example/";
    body = a_violation;
  });
  custom_report = λ t. none;
}

serve_http-IsAdded_example :
    ((serve_http a_platform report_json
        (codes "pepper")
        a_request
        (codes "application/reports+json")
        (some (codes "[{},{}]"))
        a_world).0
      ≡ ok no_content)
    × IsAdded
        (hash_ip a_platform (codes "pepper") (client_ip a_request))
        20
        a_world
        (serve_http a_platform report_json
          (codes "pepper")
          a_request
          (codes "application/reports+json")
          (some (codes "[{},{}]"))
          a_world).1
serve_http-IsAdded_example =
    serve_http-IsAdded a_platform report_json (codes "pepper") a_request
      (codes "application/reports+json") (some (codes "[{},{}]")) a_world
