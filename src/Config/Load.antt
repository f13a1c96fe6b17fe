-- ===== src/Config/Load.antt =====
-- Load of internal/config/config.go: the secrets, the telemetry and the checks.
use Prim.Native.String.{String}
use go_tunnels.Shared.{
  Bool, true, false, not, ◌&&◌, ◌||◌, List, [], ◌∷◌, Option, none, some, Text, codes, ℤ, pos, ltb_ℤ,
  if◌then◌else◌, Result, ok, err, any, length, ◌==◌, text_eq, nat_eq,
}
use go_tunnels.Text.{to_lower, has_prefix}
use go_tunnels.Store.{Platform}
use go_tunnels.Config.Environment.{Environment, Problem, str}
use go_tunnels.Config.Parts.{parse_headers, endpoint_from_dsn}
use go_tunnels.Config.Settings.{TelemetryConfig, Settings, Config, Host, read_settings}

pub data LoadError : Type 0 where
  problems : List Problem → LoadError
  missing_secret : String → LoadError
  invalid : String → LoadError
  -- with the mode that is set
  invalid_csp_mode : Text → LoadError

-- os.Getenv
abbrev pub getenv : Environment → Text → Text
getenv e key = elim (e.lookup_env key) [ none ↦ [] | some v ↦ v ]

-- A secret that is set, or made up for development.
unfoldable pub resolve_secret : Bool → Text → Text → String → Result LoadError Text
resolve_secret dev set random message =
    if set == [] then (if dev then ok random else err (missing_secret message)) else ok set

-- envStr: the problems of a reader of its own are dropped.
unfoldable pub env_str : Environment → Text → Text → Text
unfolding str
env_str e key default = elim (str e key default []).0 [ ok v ↦ v | err _ ↦ default ]

-- The telemetry before an endpoint is known.
abbrev base_telemetry : Platform → Environment → TelemetryConfig
base_telemetry platform e = record {
  enabled = false;
  endpoint_url = [];
  headers = [];
  insecure = false;
  compression =
      to_lower platform.lower_rune
        (env_str e (codes "OTEL_EXPORTER_OTLP_COMPRESSION") (codes "gzip"));
  metrics_temporality =
      to_lower platform.lower_rune
        (env_str e (codes "OTEL_EXPORTER_OTLP_METRICS_TEMPORALITY_PREFERENCE") (codes "delta"));
  metrics_histogram = to_lower platform.lower_rune (
      env_str e (codes "OTEL_EXPORTER_OTLP_METRICS_DEFAULT_HISTOGRAM_AGGREGATION")
        (codes "base2_exponential_bucket_histogram"));
}

-- resolveTelemetry
unfoldable pub resolve_telemetry : Platform → Environment → TelemetryConfig
unfolding env_str to_lower has_prefix endpoint_from_dsn parse_headers
resolve_telemetry platform e =
    let dsn = getenv e (codes "UPTRACE_DSN") in
    let endpoint = getenv e (codes "OTEL_EXPORTER_OTLP_ENDPOINT") in
    let tc = base_telemetry platform e in
    if not (dsn == [])
    then record tc {
      enabled = true;
      endpoint_url = (endpoint_from_dsn dsn).0;
      insecure = (endpoint_from_dsn dsn).1;
      headers = (codes "uptrace-dsn", dsn) ∷ [];
    }
    else if not (endpoint == [])
    then record tc {
      enabled = true;
      endpoint_url = endpoint;
      insecure = has_prefix endpoint (codes "http://");
      headers = parse_headers (getenv e (codes "OTEL_EXPORTER_OTLP_HEADERS"));
    }
    else tc

abbrev pub is_negative : ℤ → Bool
is_negative n = ltb_ℤ n (pos 0)

abbrev pub is_positive : ℤ → Bool
is_positive n = ltb_ℤ (pos 0) n

-- Validate
unfoldable pub validate : Settings → Option LoadError
validate c =
    if c.database_url == []
    then some (invalid "config: DATABASE_URL is required")
    else if c.http_addr == []
    then some (invalid "config: GOTUNNELS_HTTP_ADDR is required")
    else if is_negative c.session_ttl
    then some (
        invalid
          "config: GOTUNNELS_SESSION_TTL must not be negative (0 disables expiry — sessions live until logout)")
    else if not (c.csp_mode == codes "report-only" || c.csp_mode == codes "enforce")
    then some (invalid_csp_mode c.csp_mode)
    else if length c.rp_origins == 0
    then some (invalid "config: GOTUNNELS_RP_ORIGINS must contain at least one origin")
    else if is_negative c.signup_ip_interval || is_negative c.signup_global_interval
    then some (invalid "config: signup rate-limit intervals must not be negative")
    else if is_positive c.signup_ip_interval && ltb_ℤ c.signup_ip_burst (pos 1)
    then some
        (invalid "config: GOTUNNELS_SIGNUP_IP_BURST must be >= 1 when the IP limiter is enabled")
    else if is_positive c.signup_global_interval && ltb_ℤ c.signup_global_burst (pos 1)
    then some (
        invalid
          "config: GOTUNNELS_SIGNUP_GLOBAL_BURST must be >= 1 when the global limiter is enabled")
    else if is_negative c.auth_attempt_interval
    then some (invalid "config: GOTUNNELS_AUTH_ATTEMPT_INTERVAL must not be negative")
    else if is_positive c.auth_attempt_interval && ltb_ℤ c.auth_attempt_burst (pos 1)
    then some (
        invalid
          "config: GOTUNNELS_AUTH_ATTEMPT_BURST must be >= 1 when the auth limiter is enabled")
    else if ltb_ℤ c.db_max_conns (pos 1)
    then some (invalid "config: GOTUNNELS_DB_MAX_CONNS must be >= 1")
    else if is_negative c.db_min_conns || ltb_ℤ c.db_max_conns c.db_min_conns
    then some
        (invalid "config: GOTUNNELS_DB_MIN_CONNS must be between 0 and GOTUNNELS_DB_MAX_CONNS")
    else if not (is_positive c.maintenance_interval)
    then some (invalid "config: GOTUNNELS_MAINTENANCE_INTERVAL must be positive")
    else if is_negative c.health_log_retention || is_negative c.csp_report_retention
    then some (invalid "config: retention periods must not be negative (0 keeps rows forever)")
    else none

-- CORSAllowsAny
unfoldable pub cors_allows_any : Settings → Bool
unfolding any
cors_allows_any c = any (λ o. o == codes "*") c.cors_allowed_origins

module _ (platform : Platform) (e : Environment) (host : Host) where
  -- The key of a secret text.
  abbrev pub derived_key : Result LoadError Text → Result LoadError Text
  derived_key (ok raw) = ok (platform.sha256 raw)
  derived_key (err x) = err x

  -- resolveSecrets: the pepper and the key.
  unfoldable pub resolve_secrets : Settings → Result LoadError (Text × Text)
  unfolding resolve_secret
  resolve_secrets c =
      elim (resolve_secret c.dev (getenv e (codes "GOTUNNELS_IP_HASH_PEPPER")) host.pepper_bytes
        "config: GOTUNNELS_IP_HASH_PEPPER is required (set GOTUNNELS_DEV=1 to auto-generate for local dev)") [
          | err x ↦ err x
          | ok pepper ↦
              elim (derived_key (
                resolve_secret c.dev (getenv e (codes "GOTUNNELS_TOTP_ENCRYPTION_KEY"))
                  host.key_bytes
                  "config: GOTUNNELS_TOTP_ENCRYPTION_KEY is required (set GOTUNNELS_DEV=1 to auto-generate for local dev)")) [
                    | err x ↦ err x
                    | ok key ↦ ok (pepper, key)
                  ]
        ]

  -- Load after the settings are read without a problem.
  unfoldable pub complete : Settings → Result LoadError Config
  unfolding resolve_secrets resolve_telemetry validate
  complete c = elim (resolve_secrets c) [
    | err x ↦ err x
    | ok (pepper, key) ↦ elim (validate c) [
      | some x ↦ err x
      | none ↦ ok (record {
        settings = c;
        ip_hash_pepper = pepper;
        totp_aes_key = key;
        telemetry = resolve_telemetry platform e;
      })
    ]
  ]

  -- The settings that were read, with the problems.
  abbrev pub finished : Result Unit Settings × List Problem → Result LoadError Config
  finished (ok c, []) = complete c
  finished (ok c, p ∷ ps) = err (problems (p ∷ ps))
  finished (err _, ps) = err (problems ps)

  unfoldable pub load : Result LoadError Config
  unfolding complete read_settings
  load = finished (read_settings e host [])
