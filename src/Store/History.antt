-- ===== src/Store/History.antt =====
-- Histories of calls of internal/store/store.go: what any number of concurrent requests does to
-- the tables is one sequence of calls, as each is one statement or one transaction.
pub mod Stable
pub mod Posts
use go_tunnels.Shared.{ℕ, List, [], ◌∷◌, Option, Text, ℤ}
use go_tunnels.Store.Schema.{Db, Flow, Credential, ActivityInput, CspReportInput}
use go_tunnels.Store.Captcha.{CaptchaSyncInput, sync_captcha_stats, delete_captcha_stats}
use go_tunnels.Store.Prefs.{set_user_pref}
use go_tunnels.Store.Notes.{create_note, delete_note}
use go_tunnels.Store.Reports.{
  insert_csp_report, insert_health_check, prune_csp_reports, prune_health_checks,
}
use go_tunnels.Store.Outside.{Platform}
use go_tunnels.Store.Statement.{World}
use go_tunnels.Store.Sessions.{
  create_session, touch_session, revoke_session, revoke_all_sessions_for_user,
}
use go_tunnels.Store.Flows.{save_flow, consume_flow, delete_expired_flows}
use go_tunnels.Store.Audit.{insert_activity}
use go_tunnels.Store.Totp.{
  start_totp_enrollment, confirm_totp, mark_totp_step_used, delete_totp, use_recovery_code,
}
use go_tunnels.Store.Users.{
  create_user_with_password, create_user_with_passkey, insert_webauthn_credential,
  update_webauthn_credential,
}

-- The calls that write to the other tables: statistics, preferences, notes, reports, and health checks.
pub data Post : Type 0 where
  syncs_stats : Text → CaptchaSyncInput → Post
  deletes_stats : Text → Post
  sets_pref : Text → Text → Text → Post
  creates_note : Text → Text → Post
  deletes_note : ℕ → Text → Post
  inserts_report : CspReportInput → Post
  inserts_check : Text → Text → ℕ → Text → Post
  prunes_reports prunes_checks : ℕ → Post

-- The calls of the store that write.
pub data Call : Type 0 where
  creates_session : Text → Text → Text → Option ℕ → Call
  touches_session revokes_session revokes_all : Text → Call
  saves_flow : Flow → Call
  consumes_flow : Text → Text → Call
  deletes_expired_flows : Call
  starts_totp : Text → Text → List Text → Call
  confirms_totp marks_step : Text → ℤ → Call
  deletes_totp : Text → Call
  uses_recovery_code : Text → Text → Call
  creates_password_user : Text → Text → Text → Call
  creates_passkey_user : Text → Text → Text → Credential → Call
  adds_credential updates_credential : Text → Credential → Call
  inserts_activity : ActivityInput → Call
  posts : Post → Call

-- The calls of a history all pass a test.
abbrev pub Only : (Call → Type 0) → List Call → Type 0
Only Allowed [] = Unit
Only Allowed (c ∷ cs) = Allowed c × Only Allowed cs

pub Only-all : (cs : List Call) → Only (λ _. Unit) cs
Only-all [] = tt
Only-all (c ∷ cs) = (tt, Only-all cs)

module _ (platform : Platform) where
  unfoldable pub perform_post : Post → World → World
  perform_post (syncs_stats user_id e) w = (sync_captcha_stats user_id e w).1
  perform_post (deletes_stats user_id) w = (delete_captcha_stats user_id w).1
  perform_post (sets_pref user_id key value) w = (set_user_pref user_id key value w).1
  perform_post (creates_note user_id body) w = (create_note user_id body w).1
  perform_post (deletes_note id user_id) w = (delete_note id user_id w).1
  perform_post (inserts_report input) w = (insert_csp_report platform input w).1
  perform_post (inserts_check name status latency detail) w =
      (insert_health_check name status latency detail w).1
  perform_post (prunes_reports before) w = (prune_csp_reports before w).1
  perform_post (prunes_checks before) w = (prune_health_checks before w).1

  unfoldable pub perform : Call → World → World
  unfolding perform_post
  perform (creates_session id user_id method expires_at) w =
      (create_session id user_id method expires_at w).1
  perform (touches_session id) w = (touch_session id w).1
  perform (revokes_session id) w = (revoke_session id w).1
  perform (revokes_all user_id) w = (revoke_all_sessions_for_user user_id w).1
  perform (saves_flow f) w = (save_flow f w).1
  perform (consumes_flow id kind) w = (consume_flow id kind w).1
  perform deletes_expired_flows w = (delete_expired_flows w).1
  perform (starts_totp user_id encrypted hashes) w =
      (start_totp_enrollment user_id encrypted hashes w).1
  perform (confirms_totp user_id step) w = (confirm_totp user_id step w).1
  perform (marks_step user_id step) w = (mark_totp_step_used user_id step w).1
  perform (deletes_totp user_id) w = (delete_totp user_id w).1
  perform (uses_recovery_code user_id hash) w = (use_recovery_code user_id hash w).1
  perform (creates_password_user name display hash) w =
      (create_user_with_password platform name display hash w).1
  perform (creates_passkey_user id name display cred) w =
      (create_user_with_passkey platform id name display cred w).1
  perform (adds_credential user_id cred) w = (insert_webauthn_credential platform user_id cred w).1
  perform (updates_credential user_id cred) w =
      (update_webauthn_credential platform user_id cred w).1
  perform (inserts_activity e) w = (insert_activity platform e w).1
  perform (posts p) w = perform_post p w

  unfoldable pub run : List Call → World → World
  run [] w = w
  run (c ∷ cs) w = run cs (perform c w)

  pub run-keeps :
      (P : Db → Type 0) (Allowed : Call → Type 0)
      → ((c : Call) (w : World) → Allowed c → P w.db → P (perform c w).db)
      → (cs : List Call) (w : World) → Only Allowed cs
      → P w.db
      → P (run cs w).db
  unfolding run
  run-keeps P Allowed keep [] w ok h = h
  run-keeps P Allowed keep (c ∷ cs) w ok h =
      run-keeps P Allowed keep cs (perform c w) ok.1 (keep c w ok.0 h)
