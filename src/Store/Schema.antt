-- ===== src/Store/Schema.antt =====
-- The tables of migrations/ that the store's statements read and write, with their columns, and
-- the Go structs of internal/store/store.go.
use go_tunnels.Shared.{ℕ, Bool, List, Option, Text, ℤ}

-- `ErrNotFound`, the constraint violations, and every other failure of a statement.
pub data StoreError : Type 0 where
  not_found unique_violation foreign_key_violation check_violation unavailable : StoreError

pub record User : Type 0 where
  pub id : Text
  pub username : Text
  pub display_name : Text
  pub created_at : ℕ

pub record UserRow : Type 0 where
  pub user : User
  pub open user use *
  pub username_lower : Text

pub record RoleRow : Type 0 where
  pub user_id : Text
  pub role : Text

pub record PasswordRow : Type 0 where
  pub user_id : Text
  pub password_hash : Text

-- The fields of `webauthn.Credential` that the program reads.
pub record Credential : Type 0 where
  pub id : Text
  pub public_key : Text
  pub attestation_type : Text
  pub aaguid : Text
  pub sign_count : ℕ
  pub clone_warning : Bool
  pub transports : List Text

pub record CredentialRow : Type 0 where
  pub user_id : Text
  pub credential_id : Text
  pub public_key : Text
  pub attestation_type : Text
  pub aaguid : Text
  pub transports : List Text
  pub sign_count : ℕ
  pub clone_warning : Bool
  pub credential : Text
  pub last_used_at : Option ℕ

pub record Flow : Type 0 where
  pub id : Text
  pub user_id : Option Text
  pub kind : Text
  pub session_data : Text
  pub expires_at : ℕ

pub record TotpRow : Type 0 where
  pub user_id : Text
  pub secret_encrypted : Text
  pub confirmed : Bool
  pub created_at : ℕ
  pub confirmed_at : Option ℕ
  pub last_used_step : Option ℤ

pub record RecoveryRow : Type 0 where
  pub user_id : Text
  pub code_hash : Text
  pub used_at : Option ℕ

pub record Session : Type 0 where
  pub id : Text
  pub user_id : Text
  pub auth_method : Text
  pub created_at : ℕ
  pub last_seen_at : ℕ
  pub expires_at : Option ℕ
  pub revoked_at : Option ℕ

-- The detail maps that the handlers record: none, a `reason`, the library's `error`, or the number
-- of `sessions_revoked`.
pub data Detail : Type 0 where
  no_detail : Detail
  reason library_error : Text → Detail
  revoked_count : ℕ → Detail

pub record ActivityInput : Type 0 where
  pub user_id : Option Text
  pub username : Text
  pub event_type : Text
  pub auth_method : Text
  pub outcome : Text
  pub ip_hash : Text
  pub user_agent : Text
  pub detail : Detail

pub record ActivityRow : Type 0 where
  pub id : ℕ
  pub user_id : Option Text
  pub username : Text
  pub event_type : Text
  pub auth_method : Text
  pub outcome : Text
  pub ip_hash : Text
  pub user_agent : Text
  pub detail : Text
  pub created_at : ℕ

pub record NoteRow : Type 0 where
  pub id : ℕ
  pub user_id : Text
  pub body : Text
  pub created_at : ℕ

-- A note with its author's names.
pub record Note : Type 0 where
  pub id : ℕ
  pub user_id : Text
  pub username : Text
  pub display_name : Text
  pub body : Text
  pub created_at : ℕ

pub record CaptchaStats : Type 0 where
  pub user_id : Text
  pub best_streak : ℕ
  pub current_streak : ℕ
  pub total_solves : ℕ
  pub manual_solves : ℕ
  pub auto_solves : ℕ
  pub updated_at : ℕ

pub record PrefRow : Type 0 where
  pub user_id : Text
  pub key : Text
  pub value : Text
  pub updated_at : ℕ

-- CSPReportInput
pub record CspReportInput : Type 0 where
  pub document_uri : Text
  pub referrer : Text
  pub blocked_uri : Text
  pub violated_directive : Text
  pub effective_directive : Text
  pub original_policy : Text
  pub disposition : Text
  pub source_file : Text
  pub line_number : ℤ
  pub column_number : ℤ
  pub status_code : ℤ
  pub script_sample : Text
  pub ip_hash : Text
  pub user_agent : Text
  pub raw : Text

-- A row of `csp_reports`.
pub record StoredReport : Type 0 where
  pub id : ℕ
  pub report : CspReportInput
  pub created_at : ℕ

-- CSPReportRow: what the public feed shows.
pub record CspReportRow : Type 0 where
  pub id : ℕ
  pub created_at : ℕ
  pub document_uri : Text
  pub blocked_uri : Text
  pub violated_directive : Text
  pub effective_directive : Text
  pub disposition : Text
  pub source_file : Text
  pub line_number : ℤ
  pub column_number : ℤ
  pub script_sample : Text

-- A row of `health_check_log`; the latency is in microseconds.
pub record HealthCheck : Type 0 where
  pub id : ℕ
  pub check_name : Text
  pub status : Text
  pub latency : ℕ
  pub detail : Text
  pub created_at : ℕ

-- The tables. `random_uuid` holds the values that `gen_random_uuid()` returns, one after another.
pub record Db : Type 0 where
  pub users : List UserRow
  pub user_roles : List RoleRow
  pub password_credentials : List PasswordRow
  pub webauthn_credentials : List CredentialRow
  pub webauthn_flows : List Flow
  pub totp_secrets : List TotpRow
  pub totp_recovery_codes : List RecoveryRow
  pub sessions : List Session
  pub activity_log : List ActivityRow
  pub next_activity_id : ℕ
  pub notes : List NoteRow
  pub next_note_id : ℕ
  pub captcha_stats : List CaptchaStats
  pub user_prefs : List PrefRow
  pub csp_reports : List StoredReport
  pub next_csp_report_id : ℕ
  pub health_check_log : List HealthCheck
  pub next_health_check_id : ℕ
  pub random_uuid : ℕ → Text
  pub uuids_drawn : ℕ
