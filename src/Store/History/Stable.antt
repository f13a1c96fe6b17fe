-- ===== src/Store/History/Stable.antt =====
-- From the statements of a call to the call: what every statement keeps, the call keeps.
use go_tunnels.Shared.{
  true, false, List, [], ◌∷◌, Option, none, some, Text, Keeps, Keeps-bind, Keeps-pure, Keeps-stop,
  Keeps-if, ◌==◌, nat_eq, Option-cases, inl, inr,
}
use go_tunnels.Store.Schema.{Db, Credential}
use go_tunnels.Store.Outside.{Platform}
use go_tunnels.Store.Statement.{World, QueryKeeps, statement-Keeps, in_tx-Keeps}
use go_tunnels.Store.Sessions
use go_tunnels.Store.Sessions.{
  create_session, touch_session, revoke_session, revoke_all_sessions_for_user,
}
use go_tunnels.Store.Flows
use go_tunnels.Store.Flows.{save_flow, consume_flow, delete_expired_flows}
use go_tunnels.Store.Totp
use go_tunnels.Store.Totp.{
  insert_recovery_codes, start_totp_enrollment, confirm_totp, mark_totp_step_used, delete_totp,
  use_recovery_code,
}
use go_tunnels.Store.Users
use go_tunnels.Store.Audit
use go_tunnels.Store.Audit.{insert_activity}
use go_tunnels.Store.Users.{
  insert_user, insert_webauthn_credential, create_user_with_password, create_user_with_passkey,
  update_webauthn_credential,
}
use go_tunnels.Store.History.Posts.{StablePost, perform_post-keeps}
use go_tunnels.Store.History.{
  Call, creates_session, touches_session, revokes_session, revokes_all, saves_flow, consumes_flow,
  deletes_expired_flows, starts_totp, confirms_totp, marks_step, deletes_totp, uses_recovery_code,
  creates_password_user, creates_passkey_user, adds_credential, updates_credential, perform,
  ActivityInput, inserts_activity, posts,
}

abbrev KeepsUserRows : (Db → Type 0) → Type 0
KeepsUserRows P =
    ((id : Option Text) (name lower display : Text)
      → QueryKeeps P (Users.insert_user_row id name lower display))
    × ((user_id role : Text) → QueryKeeps P (Users.insert_user_role user_id role))

-- Every statement that the call makes keeps `P`.
abbrev pub Stable : (Db → Type 0) → Call → Type 0
Stable P (creates_session id user_id method exp) =
    QueryKeeps P (Sessions.insert_session id user_id method exp)
Stable P (touches_session id) = QueryKeeps P (Sessions.update_last_seen id)
Stable P (revokes_session id) = QueryKeeps P (Sessions.update_revoked id)
Stable P (revokes_all user_id) = QueryKeeps P (Sessions.update_revoked_all user_id)
Stable P (saves_flow f) = QueryKeeps P (Flows.insert_flow f)
Stable P (consumes_flow id kind) = QueryKeeps P (Flows.delete_returning_flow id kind)
Stable P deletes_expired_flows = QueryKeeps P Flows.delete_expired
Stable P (starts_totp user_id encrypted hashes) =
    QueryKeeps P (Totp.upsert_pending user_id encrypted)
    × QueryKeeps P (Totp.delete_recovery_codes user_id)
    × ((hash : Text) → QueryKeeps P (Totp.insert_recovery_code user_id hash))
Stable P (confirms_totp user_id step) = QueryKeeps P (Totp.update_confirmed user_id step)
Stable P (marks_step user_id step) = QueryKeeps P (Totp.update_last_used_step user_id step)
Stable P (deletes_totp user_id) =
    QueryKeeps P (Totp.delete_recovery_codes user_id)
    × QueryKeeps P (Totp.delete_totp_secret user_id)
Stable P (uses_recovery_code user_id hash) = QueryKeeps P (Totp.update_used_code user_id hash)
Stable P (creates_password_user name display hash) =
    KeepsUserRows P × ((user_id : Text) → QueryKeeps P (Users.insert_password user_id hash))
Stable P (creates_passkey_user id name display cred) =
    KeepsUserRows P
    × ((user_id blob : Text) → QueryKeeps P (Users.insert_credential user_id cred blob))
Stable P (adds_credential user_id cred) =
    (blob : Text) → QueryKeeps P (Users.insert_credential user_id cred blob)
Stable P (updates_credential user_id cred) =
    (blob : Text) → QueryKeeps P (Users.update_credential user_id cred blob)
Stable P (posts p) = StablePost P p
Stable P (inserts_activity e) = (blob : Text) → QueryKeeps P (Audit.insert_activity_row e blob)

module _ (platform : Platform) (P : Db → Type 0) where
  abbrev KeepsP : {A : Type 0} → (World → A × World) → Type 0
  KeepsP m = (w : World) → P w.db → P (m w).1.db

  insert_recovery_codes-Keeps :
      (user_id : Text) (hashes : List Text)
      → ((hash : Text) → QueryKeeps P (Totp.insert_recovery_code user_id hash))
      → Keeps (λ w. P w.db) (insert_recovery_codes user_id hashes)
  unfolding insert_recovery_codes
  insert_recovery_codes-Keeps user_id [] k = Keeps-pure tt
  insert_recovery_codes-Keeps user_id (h ∷ hs) k =
      Keeps-bind _ _ (statement-Keeps {P = P} _ (k h))
        (λ _. insert_recovery_codes-Keeps user_id hs k)

  start-Keeps :
      (user_id encrypted : Text) (hashes : List Text)
      → Stable P (starts_totp user_id encrypted hashes)
      → Keeps (λ w. P w.db) (start_totp_enrollment user_id encrypted hashes)
  unfolding start_totp_enrollment
  start-Keeps user_id encrypted hashes k = in_tx-Keeps P _ (
      Keeps-bind _ _ (statement-Keeps {P = P} _ k.0) (λ n.
        Keeps-if (n == 0) _ _ (Keeps-pure false) (
          Keeps-bind _ _ (statement-Keeps {P = P} _ k.1) (λ _.
            Keeps-bind _ _ (insert_recovery_codes-Keeps user_id hashes k.2)
              (λ _. Keeps-pure true)))))

  insert_user-Keeps :
      (id : Option Text) (name display : Text)
      → KeepsUserRows P
      → Keeps (λ w. P w.db) (insert_user platform id name display)
  unfolding insert_user
  insert_user-Keeps id name display k =
      Keeps-bind _ _ (statement-Keeps {P = P} _ (k.0 id name _ _))
        (λ user. Keeps-bind _ _ (statement-Keeps {P = P} _ (k.1 user.id _)) (λ _. Keeps-pure user))

  insert_webauthn_credential-Keeps :
      (user_id : Text) (cred : Credential)
      → ((blob : Text) → QueryKeeps P (Users.insert_credential user_id cred blob))
      → Keeps (λ w. P w.db) (insert_webauthn_credential platform user_id cred)
  unfolding insert_webauthn_credential
  insert_webauthn_credential-Keeps user_id cred k =
      elim (Option-cases (platform.marshal_credential cred)) [
        | inl e ↦ rw (e, insert_webauthn_credential) (Keeps-stop _)
        | inr (blob, e) ↦ rw (e, insert_webauthn_credential) (statement-Keeps {P = P} _ (k blob))
      ]

  update_webauthn_credential-Keeps :
      (user_id : Text) (cred : Credential)
      → ((blob : Text) → QueryKeeps P (Users.update_credential user_id cred blob))
      → Keeps (λ w. P w.db) (update_webauthn_credential platform user_id cred)
  unfolding update_webauthn_credential
  update_webauthn_credential-Keeps user_id cred k =
      elim (Option-cases (platform.marshal_credential cred)) [
        | inl e ↦ rw (e, update_webauthn_credential) (Keeps-stop _)
        | inr (blob, e) ↦ rw (e, update_webauthn_credential) (statement-Keeps {P = P} _ (k blob))
      ]

  insert_activity-Keeps :
      (e : ActivityInput)
      → ((blob : Text) → QueryKeeps P (Audit.insert_activity_row e blob))
      → Keeps (λ w. P w.db) (insert_activity platform e)
  unfolding insert_activity
  insert_activity-Keeps e k = elim (Option-cases (platform.marshal_detail e.detail)) [
    | inl none_of ↦ rw (none_of, insert_activity) (Keeps-stop _)
    | inr (blob, some_of) ↦ rw (some_of, insert_activity) (statement-Keeps {P = P} _ (k blob))
  ]

  pub perform-keeps : (c : Call) (w : World) → Stable P c → P w.db → P (perform platform c w).db
  unfolding perform create_session touch_session revoke_session revoke_all_sessions_for_user
      save_flow consume_flow delete_expired_flows confirm_totp mark_totp_step_used delete_totp
      use_recovery_code create_user_with_password create_user_with_passkey
  perform-keeps (creates_session id user_id method exp) w k = (statement-Keeps {P = P} _ k).at w
  perform-keeps (touches_session id) w k = (statement-Keeps {P = P} _ k).at w
  perform-keeps (revokes_session id) w k = (statement-Keeps {P = P} _ k).at w
  perform-keeps (revokes_all user_id) w k = (statement-Keeps {P = P} _ k).at w
  perform-keeps (saves_flow f) w k = (statement-Keeps {P = P} _ k).at w
  perform-keeps (consumes_flow id kind) w k = (statement-Keeps {P = P} _ k).at w
  perform-keeps deletes_expired_flows w k = (statement-Keeps {P = P} _ k).at w
  perform-keeps (starts_totp user_id encrypted hashes) w k =
      (start-Keeps user_id encrypted hashes k).at w
  perform-keeps (confirms_totp user_id step) w k = (statement-Keeps {P = P} _ k).at w
  perform-keeps (marks_step user_id step) w k = (statement-Keeps {P = P} _ k).at w
  perform-keeps (deletes_totp user_id) w k =
      (in_tx-Keeps P _
          (Keeps-bind _ _ (statement-Keeps {P = P} _ k.0) (λ _. statement-Keeps {P = P} _ k.1))).at
        w
  perform-keeps (uses_recovery_code user_id hash) w k = (statement-Keeps {P = P} _ k).at w
  perform-keeps (creates_password_user name display hash) w k =
      (in_tx-Keeps P _ (
          Keeps-bind _ _ (insert_user-Keeps none name display k.0) (λ user.
            Keeps-bind _ _ (statement-Keeps {P = P} _ (k.1 user.id)) (λ _. Keeps-pure user)))).at
        w
  perform-keeps (creates_passkey_user id name display cred) w k =
      (in_tx-Keeps P _ (
          Keeps-bind _ _ (insert_user-Keeps (some id) name display k.0) (λ user.
            Keeps-bind _ _ (insert_webauthn_credential-Keeps user.id cred (k.1 user.id))
              (λ _. Keeps-pure user)))).at
        w
  perform-keeps (adds_credential user_id cred) w k =
      (insert_webauthn_credential-Keeps user_id cred k).at w
  perform-keeps (updates_credential user_id cred) w k =
      (update_webauthn_credential-Keeps user_id cred k).at w
  perform-keeps (posts p) w k = perform_post-keeps platform P p w k
  perform-keeps (inserts_activity e) w k = (insert_activity-Keeps e k).at w
