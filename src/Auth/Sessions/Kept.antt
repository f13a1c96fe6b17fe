-- ===== src/Auth/Sessions/Kept.antt =====
-- What issueSession, buildWAUser and the recorder of internal/auth/handlers.go leave of the tables.
use go_tunnels.Shared.{
  ℕ, List, [], ◌∷◌, Option, Text, Keeps, Keeps-bind, Keeps-pure, Keeps-stop, Keeps-catch,
  Option-cases, inl, inr,
}
use go_tunnels.Store.{
  Platform, Db, StoreError, not_found, unavailable, unique_violation, foreign_key_violation,
  check_violation, User, Detail, ActivityInput, Credential,
}
use go_tunnels.Store.Statement.{statement-Keeps}
use go_tunnels.Store.Sessions.{create_session}
use go_tunnels.Store.Users.{
  user_roles, select_roles, count_webauthn_credentials, select_credential_count,
  get_webauthn_credentials, select_credentials, unmarshal_all, update_webauthn_credential,
}
use go_tunnels.Store.Totp.{get_totp_secret, select_totp_secret}
use go_tunnels.Store.Audit.{insert_activity}
use go_tunnels.Store.History.{inserts_activity, creates_session, updates_credential, perform}
use go_tunnels.Store.History.Stable.{Stable, perform-keeps}
use go_tunnels.Httpx.Reply.{or_server_error}
use go_tunnels.Activity.{Request, record_event}
use go_tunnels.Auth.Codes.{new_session_token, random_bytes, time_now}
use go_tunnels.Auth.Sessions.{
  Settings, attempt, record_activity, issue_session, user_response, totp_enabled, not_enabled,
}

module _ (platform : Platform) (h : Settings) (P : Db → Type 0) where
  insert_activity-Keeps :
      (e : ActivityInput)
      → Stable P (inserts_activity e)
      → Keeps (λ w. P w.db) (insert_activity platform e)
  unfolding perform
  insert_activity-Keeps e k = record { at = λ w. perform-keeps platform P (inserts_activity e) w k }

  pub record_activity-Keeps :
      (r : Request) (user_id : Option Text) (username event method outcome : Text) (what : Detail)
      → ((e : ActivityInput) → Stable P (inserts_activity e))
      → Keeps
          (λ w. P w.db)
          (record_activity platform h r user_id username event method outcome what)
  unfolding record_activity attempt record_event
  record_activity-Keeps r user_id username event method outcome what k =
      Keeps-catch _ _ (insert_activity-Keeps _ (k _)) (λ _. Keeps-pure tt)

  random_bytes-Keeps : {E : Type 0} (n : ℕ) (e : E) → Keeps (λ w. P w.db) (random_bytes n e)
  unfolding random_bytes
  random_bytes-Keeps n e = record { at = λ w k. k }

  pub time_now-Keeps : {E : Type 0} → Keeps (λ w. P w.db) (time_now {E = E})
  unfolding time_now
  time_now-Keeps = record { at = λ w k. k }

  new_session_token-Keeps :
      {E : Type 0} (e : E) → Keeps (λ w. P w.db) (new_session_token platform e)
  unfolding new_session_token
  new_session_token-Keeps e = Keeps-bind _ _ (random_bytes-Keeps 32 e) (λ bytes. Keeps-pure _)

  not_enabled-Keeps : (e : StoreError) → Keeps (λ w. P w.db) (not_enabled e)
  not_enabled-Keeps not_found = Keeps-pure _
  not_enabled-Keeps unavailable = Keeps-stop _
  not_enabled-Keeps unique_violation = Keeps-stop _
  not_enabled-Keeps foreign_key_violation = Keeps-stop _
  not_enabled-Keeps check_violation = Keeps-stop _

  totp_enabled-Keeps : (user_id : Text) → Keeps (λ w. P w.db) (totp_enabled user_id)
  unfolding totp_enabled get_totp_secret select_totp_secret
  totp_enabled-Keeps user_id =
      Keeps-catch _ _
        (Keeps-bind _ _ (statement-Keeps {P = P} _ (λ now d k. k)) (λ (_, confirmed). Keeps-pure _))
        not_enabled-Keeps

  user_response-Keeps : (user : User) → Keeps (λ w. P w.db) (user_response user)
  unfolding user_response user_roles select_roles count_webauthn_credentials select_credential_count
  user_response-Keeps user = Keeps-bind _ _ (statement-Keeps {P = P} _ (λ now d k. k)) (λ roles.
      Keeps-bind _ _ (totp_enabled-Keeps user.id)
        (λ totp. Keeps-bind _ _ (statement-Keeps {P = P} _ (λ now d k. k)) (λ n. Keeps-pure _)))

  create_session-Keeps :
      (id user_id method : Text) (exp : Option ℕ)
      → Stable P (creates_session id user_id method exp)
      → Keeps (λ w. P w.db) (create_session id user_id method exp)
  unfolding perform
  create_session-Keeps id user_id method exp k = record {
    at = λ w. perform-keeps platform P (creates_session id user_id method exp) w k;
  }

  pub issue_session-Keeps :
      (user : User) (method : Text)
      → ((id : Text) (exp : Option ℕ) → Stable P (creates_session id user.id method exp))
      → Keeps (λ w. P w.db) (issue_session platform h user method)
  unfolding issue_session or_server_error
  issue_session-Keeps user method k = Keeps-bind _ _ (new_session_token-Keeps _) (λ (token, id).
      Keeps-bind _ _ time_now-Keeps (λ now.
        Keeps-bind _ _
          (Keeps-catch _ _ (create_session-Keeps id user.id method _ (k id _)) (λ _. Keeps-stop _))
          (λ _.
            Keeps-bind _ _ (Keeps-catch _ _ (user_response-Keeps user) (λ _. Keeps-pure _))
              (λ profile. Keeps-pure _))))

  unmarshal_all-Keeps : (blobs : List Text) → Keeps (λ w. P w.db) (unmarshal_all platform blobs)
  unfolding unmarshal_all
  unmarshal_all-Keeps [] = Keeps-pure []
  unmarshal_all-Keeps (blob ∷ rest) = elim (Option-cases (platform.unmarshal_credential blob)) [
    | inl none_of ↦ rw (none_of, unmarshal_all) (Keeps-stop _)
    | inr (cred, some_of) ↦
        rw (some_of, unmarshal_all)
          (Keeps-bind _ _ (unmarshal_all-Keeps rest) (λ creds. Keeps-pure _))
  ]

  pub get_webauthn_credentials-Keeps :
      (user_id : Text) → Keeps (λ w. P w.db) (get_webauthn_credentials platform user_id)
  unfolding get_webauthn_credentials select_credentials
  get_webauthn_credentials-Keeps user_id =
      Keeps-bind _ _ (statement-Keeps {P = P} _ (λ now d k. k)) unmarshal_all-Keeps

  pub update_webauthn_credential-Keeps :
      (user_id : Text) (cred : Credential)
      → Stable P (updates_credential user_id cred)
      → Keeps (λ w. P w.db) (update_webauthn_credential platform user_id cred)
  unfolding perform
  update_webauthn_credential-Keeps user_id cred k = record {
    at = λ w. perform-keeps platform P (updates_credential user_id cred) w k;
  }
