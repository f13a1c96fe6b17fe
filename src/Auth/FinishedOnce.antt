-- ===== src/Auth/FinishedOnce.antt =====
-- The finish handlers of internal/auth/handlers.go use a ceremony once.
use go_tunnels.Shared.{
  ◌≡◌, refl, ◌⊎◌, inl, inr, [], List, Option, none, some, Text, ok, err, Result, Bool-cases,
  text_beq, text_eq, pure, stop, catch, ◌>>=◌, >>=-ok, >>=-after, Keeps, Keeps-bind, Keeps-pure,
  Keeps-stop, Keeps-catch, Keeps-if,
}
use go_tunnels.Store.{
  World, Platform, User, Credential, not_found, unavailable, StoreError, unique_violation,
  foreign_key_violation, check_violation,
}
use go_tunnels.Store.Statement.{statement-Keeps}
use go_tunnels.Store.Flows.{delete_returning_flow}
use go_tunnels.Store.Keys.{HasKeys}
use go_tunnels.Store.Users.{get_user_by_id, select_user_by_id}
use go_tunnels.Store.Ceremonies.{
  IsAbsent, IsNotSave, IsAbsent-Stable, delete_returning_flow-IsAbsent, consume-IsAbsent,
}
use go_tunnels.Store.History.{
  Call, Only, run, run-keeps, inserts_activity, creates_session, updates_credential,
}
use go_tunnels.Store.History.Stable.{perform-keeps}
use go_tunnels.Httpx.Reply.{Response, or_server_error, server_error}
use go_tunnels.Activity.{Request}
use go_tunnels.Auth.Sessions.{Settings, found, missing, attempt}
use go_tunnels.Auth.Sessions.Kept.{
  record_activity-Keeps, time_now-Keeps, issue_session-Keeps, get_webauthn_credentials-Keeps,
  update_webauthn_credential-Keeps,
}
use go_tunnels.Auth.Passkey.{Webauthn, RpProvider}
use go_tunnels.Auth.Passkey.Cache.{IsCoherent}
use go_tunnels.Auth.Ceremony.{
  LiveFlow, flow_login, consume_ceremony, build_wa_user, flow_register, revive_taken, flow_signup,
  invalid_flow,
}
use go_tunnels.Auth.Ceremony.Taken.{IsTaken, consume_ceremony-IsTaken}
use go_tunnels.Auth.Passkeys.{
  refuse, login_asserted, login_finish_user, passkey_login_finish, passkey_register_finish,
  passkey_signup_finish,
}

-- The handler answers 400 or 500.
abbrev pub IsRefused : Result Response Response → Type 0
IsRefused o =
    (refusal : Response) × (o ≡ err refusal) × ((refusal.status ≡ 400) ⊎ (refusal.status ≡ 500))

module _ (platform : Platform) (lib : Webauthn) (p : RpProvider) (h : Settings) where
  missing-Keeps :
      {A : Type 0} (id : Text) (e : StoreError) → Keeps (λ w. IsAbsent id w.db) (missing {A = A} e)
  missing-Keeps id not_found = Keeps-pure _
  missing-Keeps id unavailable = Keeps-stop _
  missing-Keeps id unique_violation = Keeps-stop _
  missing-Keeps id foreign_key_violation = Keeps-stop _
  missing-Keeps id check_violation = Keeps-stop _

  build-Keeps :
      (id : Text) (user : User)
      → Keeps (λ w. IsAbsent id w.db) (or_server_error (build_wa_user platform lib user))
  unfolding or_server_error build_wa_user
  build-Keeps id user =
      Keeps-catch _ _
        (Keeps-bind _ _ (get_webauthn_credentials-Keeps platform h (IsAbsent id) user.id)
          (λ creds. Keeps-pure _))
        (λ _. Keeps-stop _)

  asserted-Keeps :
      (id : Text) (r : Request) (user : User) (o : Result Text Credential)
      → Keeps (λ w. IsAbsent id w.db) (login_asserted platform lib p h r user o)
  unfolding login_asserted refuse attempt
  asserted-Keeps id r user (err e) =
      Keeps-bind _ _
        (record_activity-Keeps platform h (IsAbsent id) r _ _ _ _ _ _
          (λ x. IsAbsent-Stable id (inserts_activity x) tt))
        (λ _. Keeps-stop _)
  asserted-Keeps id r user (ok cred) =
      Keeps-bind _ _
        (Keeps-catch _ _
          (update_webauthn_credential-Keeps platform h (IsAbsent id) user.id cred
            (IsAbsent-Stable id (updates_credential user.id cred) tt))
          (λ _. Keeps-pure tt))
        (λ _.
          Keeps-bind _ _
            (record_activity-Keeps platform h (IsAbsent id) r _ _ _ _ _ _
              (λ x. IsAbsent-Stable id (inserts_activity x) tt))
            (λ _.
              issue_session-Keeps platform h (IsAbsent id) user _
                (λ s exp. IsAbsent-Stable id (creates_session s user.id _ exp) tt)))

  finish_user-Keeps :
      (id : Text) (r : Request) (body : Text) (flow : LiveFlow) (o : Option User)
      → Keeps (λ w. IsAbsent id w.db) (login_finish_user platform lib p h r body flow o)
  unfolding login_finish_user
  finish_user-Keeps id r body flow none = Keeps-stop _
  finish_user-Keeps id r body flow (some user) = Keeps-bind _ _ (build-Keeps id user) (λ wa_user.
      Keeps-bind _ _ (time_now-Keeps platform h (IsAbsent id)) (λ now. asserted-Keeps id r user _))

  found-Keeps : (id user_id : Text) → Keeps (λ w. IsAbsent id w.db) (found (get_user_by_id user_id))
  unfolding found get_user_by_id select_user_by_id
  found-Keeps id user_id =
      Keeps-catch _ _
        (Keeps-bind _ _ (statement-Keeps {P = IsAbsent id} _ (λ now d k. k)) (λ u. Keeps-pure _))
        (missing-Keeps id)

  taken-IsAbsent :
      (id kind : Text) (w v : World) {flow : LiveFlow}
      → HasKeys w.db
      → IsTaken platform lib p id kind w v flow
      → IsAbsent id v.db
  unfolding delete_returning_flow
  taken-IsAbsent id kind w v keys taken = rw taken.deleted (
      delete_returning_flow-IsAbsent id kind taken.now w.db {f = taken.row} keys
        (rw taken.stored refl))

  -- A successful log-in has deleted its flow.
  login-IsAbsent :
      (r : Request) (body : Text) (w : World) {answer : Response}
      → HasKeys w.db
      → IsCoherent platform lib p w.by_origin
      → (passkey_login_finish platform lib p h r body w).0 ≡ ok answer
      → IsAbsent r.flow (passkey_login_finish platform lib p h r body w).1.db
  unfolding passkey_login_finish
  login-IsAbsent r body w keys coherent done =
      let (flow, e, _) = >>=-ok (consume_ceremony platform lib p r flow_login) _ w done in
      let taken = consume_ceremony-IsTaken platform lib p r flow_login w coherent e in
      >>=-after {P = λ v. IsAbsent r.flow v.db} (consume_ceremony platform lib p r flow_login) _ w e
        (taken-IsAbsent r.flow flow_login w _ keys taken)
        (Keeps-if (text_beq flow.user_id []) _ _ (Keeps-stop _)
          (Keeps-bind _ _ (found-Keeps r.flow flow.user_id) (finish_user-Keeps r.flow r body flow)))

  consume-IsRefused :
      (r : Request) (kind : Text) (w : World)
      → IsAbsent r.flow w.db
      → (refusal : Response) × ((consume_ceremony platform lib p r kind w).0 ≡ err refusal)
        × ((refusal.status ≡ 400) ⊎ (refusal.status ≡ 500))
  unfolding consume_ceremony revive_taken found catch pure stop ◌>>=◌
  consume-IsRefused r kind w absent = elim (Bool-cases (text_beq r.flow [])) [
    | inl blank ↦ (invalid_flow, rw blank refl, inl refl)
    | inr given ↦ elim (consume-IsAbsent r.flow kind w absent) [
      | inl gone ↦ (invalid_flow, rw (given, gone) refl, inl refl)
      | inr down ↦ (server_error, rw (given, down) refl, inr refl)
    ]
  ]

  passkey_login_finish-IsRefused :
      (r : Request) (body : Text) (w : World)
      → IsAbsent r.flow w.db
      → IsRefused (passkey_login_finish platform lib p h r body w).0
  unfolding passkey_login_finish ◌>>=◌
  passkey_login_finish-IsRefused r body w absent =
      let (refusal, e, status) = consume-IsRefused r flow_login w absent in
      (refusal, rw e refl, status)

  passkey_register_finish-IsRefused :
      (r : Request) (body : Text) (session : User × Text) (w : World)
      → IsAbsent r.flow w.db
      → IsRefused (passkey_register_finish platform lib p h r body session w).0
  unfolding passkey_register_finish ◌>>=◌
  passkey_register_finish-IsRefused r body session w absent =
      let (refusal, e, status) = consume-IsRefused r flow_register w absent in
      (refusal, rw e refl, status)

  passkey_signup_finish-IsRefused :
      (r : Request) (body : Text) (w : World)
      → IsAbsent r.flow w.db
      → IsRefused (passkey_signup_finish platform lib p h r body w).0
  unfolding passkey_signup_finish ◌>>=◌
  passkey_signup_finish-IsRefused r body w absent =
      let (refusal, e, status) = consume-IsRefused r flow_signup w absent in
      (refusal, rw e refl, status)

  -- After a passkey log-in that succeeded, where the tables' keys are unique and the cache of relying parties is coherent,
  -- no history of calls without a SaveFlow under the same id lets the flow be finished again: a
  -- request with the same flow is answered with status 400 or 500 by PasskeyLoginFinish, by
  -- PasskeyRegisterFinish of any session, and by PasskeySignupFinish.
  pub finished_once :
      (r again : Request) (body other : Text) (session : User × Text) (cs : List Call) (w : World)
      {answer : Response}
      → HasKeys w.db
      → IsCoherent platform lib p w.by_origin
      → (passkey_login_finish platform lib p h r body w).0 ≡ ok answer
      → again.flow ≡ r.flow
      → Only (IsNotSave r.flow) cs
      → let later = run platform cs (passkey_login_finish platform lib p h r body w).1 in
        IsRefused (passkey_login_finish platform lib p h again other later).0
        × IsRefused (passkey_register_finish platform lib p h again other session later).0
        × IsRefused (passkey_signup_finish platform lib p h again other later).0
  finished_once r again body other session cs w keys coherent done same only =
      let later = run platform cs (passkey_login_finish platform lib p h r body w).1 in
      let gone : IsAbsent r.flow later.db =
        run-keeps platform (IsAbsent r.flow) (IsNotSave r.flow)
          (λ c v other_id.
            perform-keeps platform (IsAbsent r.flow) c v (IsAbsent-Stable r.flow c other_id))
          cs _ only (login-IsAbsent r body w keys coherent done) in
      let absent : IsAbsent again.flow later.db = rw same gone in
      (
        passkey_login_finish-IsRefused again other later absent,
        passkey_register_finish-IsRefused again other session later absent,
        passkey_signup_finish-IsRefused again other later absent,
      )
