-- ===== src/Config/Settings.antt =====
-- The settings of internal/config/config.go, before its checks.
use go_tunnels.Shared.{
  ℕ, ◌*◌, ◌^◌, Bool, List, [], ◌++◌, Option, none, some, Text, codes, ℤ, pos, if◌then◌else◌, ◌==◌,
  text_eq, pure, ◌>>=◌,
}
use go_tunnels.Text.{hex_encode}
use go_tunnels.Config.Environment.{Environment, Reader, str, int, int32, bool, dur}
use go_tunnels.Config.Parts.{split_list}

-- TelemetryConfig
pub record TelemetryConfig : Type 0 where
  pub enabled : Bool
  pub endpoint_url : Text
  pub headers : List (Text × Text)
  pub insecure : Bool
  pub compression : Text
  pub metrics_temporality : Text
  pub metrics_histogram : Text

-- What Load reads into a Config; durations are nanoseconds.
pub record Settings : Type 0 where
  pub instance_id : Text
  pub service_name : Text
  pub version : Text
  pub http_addr : Text
  pub shutdown_timeout : ℤ
  pub database_url : Text
  pub db_max_conns : ℤ
  pub db_min_conns : ℤ
  pub db_connect_timeout : ℤ
  pub session_cookie_name : Text
  pub session_ttl : ℤ
  pub cors_allowed_origins : List Text
  pub rp_id : Text
  pub rp_display_name : Text
  pub rp_origins : List Text
  pub rp_origin_patterns : List Text
  pub signup_ip_interval : ℤ
  pub signup_ip_burst : ℤ
  pub signup_global_interval : ℤ
  pub signup_global_burst : ℤ
  pub auth_attempt_interval : ℤ
  pub auth_attempt_burst : ℤ
  pub maintenance_interval : ℤ
  pub health_log_retention : ℤ
  pub csp_report_retention : ℤ
  pub host_name : Text
  pub csp_mode : Text
  pub csp_policy : Text
  pub dev : Bool

-- Config: the settings, the secrets, and the telemetry.
pub record Config : Type 0 where
  pub settings : Settings
  pub ip_hash_pepper : Text
  pub totp_aes_key : Text
  pub telemetry : TelemetryConfig

-- os.Hostname, and the bytes that crypto/rand gives for the instance id and the secrets.
pub record Host : Type 0 where
  pub hostname : Option Text
  pub instance_bytes : Text
  pub pepper_bytes : Text
  pub key_bytes : Text

abbrev second : ℕ
second = 10 ^ 9

abbrev minute : ℕ
minute = 60 * second

abbrev hour : ℕ
hour = 60 * minute

-- DefaultCSPPolicy
abbrev pub default_csp_policy : Text
default_csp_policy =
    codes "default-src 'self'; script-src 'self'; style-src 'self'; img-src 'self'; "
    ++ codes "font-src 'self'; connect-src 'self' https:; media-src 'self'; object-src 'none'; "
    ++ codes "frame-src 'none'; frame-ancestors 'none'; base-uri 'self'; form-action 'self'"

local_id : Host → Text
unfolding hex_encode
local_id host = codes "local-" ++ hex_encode host.instance_bytes

-- defaultInstanceID
unfoldable pub default_instance_id : Host → Text
unfolding local_id
default_instance_id host = elim host.hostname [
  | none ↦ local_id host
  | some h ↦ if h == [] then local_id host else h
]

-- The literal of Load, in its order of evaluation.
unfoldable pub read_settings : Environment → Host → Reader Settings
unfolding default_instance_id split_list str int int32 bool dur
read_settings e host = do
  instance_id ← str e (codes "GOTUNNELS_INSTANCE_ID") (default_instance_id host)
  service ← str e (codes "GOTUNNELS_SERVICE_NAME") (codes "gotunnels-api")
  service_name ← str e (codes "OTEL_SERVICE_NAME") service
  version ← str e (codes "GOTUNNELS_VERSION") (codes "dev")
  http_addr ← str e (codes "GOTUNNELS_HTTP_ADDR") (codes ":8080")
  shutdown_timeout ← dur e (codes "GOTUNNELS_SHUTDOWN_TIMEOUT") (pos (15 * second))
  database_url ← str e (codes "DATABASE_URL") []
  db_max_conns ← int32 e (codes "GOTUNNELS_DB_MAX_CONNS") (pos 20)
  db_min_conns ← int32 e (codes "GOTUNNELS_DB_MIN_CONNS") (pos 2)
  db_connect_timeout ← dur e (codes "GOTUNNELS_DB_CONNECT_TIMEOUT") (pos (30 * second))
  session_cookie_name ← str e (codes "GOTUNNELS_SESSION_COOKIE_NAME") (codes "gotunnels_session")
  session_ttl ← dur e (codes "GOTUNNELS_SESSION_TTL") (pos 0)
  cors_allowed_origins_text ← str e (codes "GOTUNNELS_CORS_ALLOWED_ORIGINS") (codes "*")
  rp_id ← str e (codes "GOTUNNELS_RP_ID") (codes "localhost")
  rp_display_name ← str e (codes "GOTUNNELS_RP_DISPLAY_NAME") (codes "GoTunnels")
  rp_origins_text ← str e (codes "GOTUNNELS_RP_ORIGINS") (codes "http://localhost:8080")
  rp_origin_patterns_text ←
      str e (codes "GOTUNNELS_RP_ORIGIN_PATTERNS") (codes "https://*.trycloudflare.com")
  signup_ip_interval ← dur e (codes "GOTUNNELS_SIGNUP_IP_INTERVAL") (pos (5 * minute))
  signup_ip_burst ← int e (codes "GOTUNNELS_SIGNUP_IP_BURST") (pos 1)
  signup_global_interval ← dur e (codes "GOTUNNELS_SIGNUP_GLOBAL_INTERVAL") (pos minute)
  signup_global_burst ← int e (codes "GOTUNNELS_SIGNUP_GLOBAL_BURST") (pos 1)
  auth_attempt_interval ← dur e (codes "GOTUNNELS_AUTH_ATTEMPT_INTERVAL") (pos (6 * second))
  auth_attempt_burst ← int e (codes "GOTUNNELS_AUTH_ATTEMPT_BURST") (pos 10)
  maintenance_interval ← dur e (codes "GOTUNNELS_MAINTENANCE_INTERVAL") (pos hour)
  health_log_retention ← dur e (codes "GOTUNNELS_HEALTH_LOG_RETENTION") (pos (7 * 24 * hour))
  csp_report_retention ← dur e (codes "GOTUNNELS_CSP_REPORT_RETENTION") (pos (30 * 24 * hour))
  host_name ← str e (codes "GOTUNNELS_HOST_NAME") []
  csp_mode ← str e (codes "GOTUNNELS_CSP_MODE") (codes "report-only")
  csp_policy ← str e (codes "GOTUNNELS_CSP_POLICY") default_csp_policy
  dev ← bool e (codes "GOTUNNELS_DEV") Bool.false
  pure (record {
    instance_id = instance_id;
    service_name = service_name;
    version = version;
    http_addr = http_addr;
    shutdown_timeout = shutdown_timeout;
    database_url = database_url;
    db_max_conns = db_max_conns;
    db_min_conns = db_min_conns;
    db_connect_timeout = db_connect_timeout;
    session_cookie_name = session_cookie_name;
    session_ttl = session_ttl;
    cors_allowed_origins = split_list cors_allowed_origins_text;
    rp_id = rp_id;
    rp_display_name = rp_display_name;
    rp_origins = split_list rp_origins_text;
    rp_origin_patterns = split_list rp_origin_patterns_text;
    signup_ip_interval = signup_ip_interval;
    signup_ip_burst = signup_ip_burst;
    signup_global_interval = signup_global_interval;
    signup_global_burst = signup_global_burst;
    auth_attempt_interval = auth_attempt_interval;
    auth_attempt_burst = auth_attempt_burst;
    maintenance_interval = maintenance_interval;
    health_log_retention = health_log_retention;
    csp_report_retention = csp_report_retention;
    host_name = host_name;
    csp_mode = csp_mode;
    csp_policy = csp_policy;
    dev = dev;
  })
