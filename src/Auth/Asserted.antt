-- ===== src/Auth/Asserted.antt =====
-- PasskeyLoginFinish of internal/auth/handlers.go: what a success has
-- checked.
use go_tunnels.Shared.{
  ℕ, ◌≡◌, refl, sym, ap, ◌∙◌, inl, inr, false, [], Option, none, some, Text, List, arith, ok, err,
  Result, Bool-cases, Option-cases, ◌==◌, text_eq, text_beq, pure, stop, >>=-ok, catch-stop-ok,
  ok_inj, text_beq_iff,
}
use go_tunnels.Store.{World, Platform, User, Credential, Detail, find, find_sound}
use go_tunnels.Store.Schema.{UserRow}
use go_tunnels.Store.Statement.{statement-ok}
use go_tunnels.Store.Users.{get_user_by_id, select_user_by_id, get_webauthn_credentials}
use go_tunnels.Httpx.Reply.{Response, or_server_error, server_error}
use go_tunnels.Activity.{Request}
use go_tunnels.Auth.Codes.{time_now}
use go_tunnels.Auth.Sessions.{Settings, found}
use go_tunnels.Auth.Grant.{found-some}
use go_tunnels.Auth.Passkey.{Webauthn, RpProvider, WebauthnUser}
use go_tunnels.Auth.Passkey.Cache.{IsCoherent}
use go_tunnels.Auth.Ceremony.{
  LiveFlow, flow_login, limited, consume_ceremony, build_wa_user, flow_user,
}
use go_tunnels.Auth.Ceremony.Taken.{IsTaken, consume_ceremony-IsTaken}
use go_tunnels.Auth.Passkeys.{refuse, login_asserted, login_finish_user, passkey_login_finish}

module _ (platform : Platform) (lib : Webauthn) (p : RpProvider) (h : Settings) (r : Request)
    (body : Text) where
  pub refuse-never :
      {A : Type 0} (user_id : Option Text) (name event : Text) (why : Detail) (e : Response)
      (w : World) {a : A}
      → (refuse platform lib p h {A = A} r user_id name event why e w).0 ≡ ok a
      → ⊥
  unfolding refuse stop
  refuse-never user_id name event why e w done =
      let (_, _, refused) = >>=-ok _ _ w done in ground arith

  -- The assertion that the library accepted for a user, on the flow's relying party and session.
  pub record IsVerified (flow : LiveFlow) (user : User) (w : World) : Type 0 where
    pub credentials : List Credential
    pub at : ℕ
    pub credential : Credential
    pub loaded : (get_webauthn_credentials platform user.id w).0 ≡ ok credentials
    pub accepted :
        lib.finish_login flow.wa
          (record { user = user; credentials = credentials })
          flow.session
          (limited body)
          at
        ≡ ok credential

  login_asserted-ok :
      (user : User) (o : Result Text Credential) (w : World) {answer : Response}
      → (login_asserted platform lib p h r user o w).0 ≡ ok answer
      → (cred : Credential) × (o ≡ ok cred)
  unfolding login_asserted
  login_asserted-ok user (ok cred) w done = (cred, refl)
  login_asserted-ok user (err e) w done = absurd (refuse-never _ _ _ _ _ w done)

  build-ok :
      (user : User) (w : World) {wa_user : WebauthnUser}
      → (or_server_error (build_wa_user platform lib user) w).0 ≡ ok wa_user
      → (creds : List Credential) × ((get_webauthn_credentials platform user.id w).0 ≡ ok creds)
        × (wa_user ≡ record { user = user; credentials = creds })
  unfolding or_server_error build_wa_user pure
  build-ok user w e =
      let (built, _) = catch-stop-ok (build_wa_user platform lib user) (λ _. server_error) w e in
      let (creds, loaded, rest) = >>=-ok (get_webauthn_credentials platform user.id) _ w built in
      (creds, loaded, sym (ok_inj rest))

  login_finish_user-ok :
      (flow : LiveFlow) (o : Option User) (w : World) {answer : Response}
      → (login_finish_user platform lib p h r body flow o w).0 ≡ ok answer
      → (user : User) × (o ≡ some user) × IsVerified flow user w
  unfolding login_finish_user stop
  login_finish_user-ok flow none w done = absurd (ground arith)
  login_finish_user-ok flow (some user) w done =
      let (wa_user, e, rest) =
        >>=-ok (or_server_error (build_wa_user platform lib user)) _ w done in
      let (creds, loaded, same) = build-ok user w e in
      let (now, _, asserted) = >>=-ok time_now _ _ rest in
      let (cred, accepted) = login_asserted-ok user _ _ asserted in
      (
        user,
        refl,
        record {
          credentials = creds;
          at = now;
          credential = cred;
          loaded = loaded;
          accepted =
              ap (λ u. lib.finish_login flow.wa u flow.session (limited body) now) (sym same)
              ∙ accepted;
        },
      )

  get_user_by_id-ok :
      (id : Text) (w : World) {u : User}
      → (get_user_by_id id w).0 ≡ ok u
      → ((row : UserRow) × (find (λ x. x.user.id == id) w.db.users ≡ some row) × (row.user ≡ u))
        × ((get_user_by_id id w).1.db ≡ w.db)
  unfolding get_user_by_id select_user_by_id
  get_user_by_id-ok id w {u} done =
      let (now, le, _, e, d) = statement-ok (select_user_by_id id) w done in
      elim (Option-cases (find (λ x. x.user.id == id) w.db.users)) [
        | inl none_of ↦ absurd (ground arith)
        | inr (t, some_of) ↦ ((t, some_of, ground arith), d)
      ]

  -- A flow whose user is not "" names that user.
  named : {id : Text} (o : Option Text) → id ≡ flow_user o → text_beq id [] ≡ false → o ≡ some id
  unfolding text_beq
  named none same somebody = absurd (ground (arith, rw same at somebody))
  named (some x) same somebody = ap some (sym same)

  -- What a passkey log-in that succeeded has checked.
  pub record IsAsserted (w : World) : Type 0 where
    pub flow : LiveFlow
    pub consumed : World
    pub loaded_at : World
    pub row : UserRow
    pub taken : IsTaken platform lib p r.flow flow_login w consumed flow
    pub owner : taken.row.user_id ≡ some row.user.id
    pub stored : find (λ x. x.user.id == flow.user_id) w.db.users ≡ some row
    pub unchanged : loaded_at.db ≡ consumed.db
    pub verified : IsVerified flow row.user loaded_at

  -- A passkey log-in that succeeds, with a coherent cache of relying parties: the request's flow was stored for a
  -- log-in, has not expired, and is deleted; it names the user; and the library accepted the
  -- assertion for that user's stored credentials, with the relying party of the origin that the
  -- flow began with.
  pub passkey_login_finish-IsAsserted :
      (w : World) {answer : Response}
      → IsCoherent platform lib p w.by_origin
      → (passkey_login_finish platform lib p h r body w).0 ≡ ok answer
      → IsAsserted w
  unfolding passkey_login_finish stop
  passkey_login_finish-IsAsserted w coherent done =
      let (flow, e, rest) = >>=-ok (consume_ceremony platform lib p r flow_login) _ w done in
      let taken = consume_ceremony-IsTaken platform lib p r flow_login w coherent e in
      elim (Bool-cases (text_beq flow.user_id [])) [
        | inl nobody ↦ absurd (ground arith)
        | inr somebody ↦
            let (o, e2, rest2) =
              >>=-ok (found (get_user_by_id flow.user_id)) _ _ (rw somebody at rest) in
            let (user, some_user, verified) = login_finish_user-ok flow o _ rest2 in
            let (got, s) = found-some (get_user_by_id flow.user_id) _ (e2 ∙ ap ok some_user) in
            let ((row, stored, same_user), same_db) = get_user_by_id-ok flow.user_id _ got in
            let users = ap (λ d. d.users) taken.deleted in
            record {
              flow = flow;
              consumed = (consume_ceremony platform lib p r flow_login w).1;
              loaded_at =
                  (found (get_user_by_id flow.user_id)
                    (consume_ceremony platform lib p r flow_login w).1).1;
              row = row;
              taken = taken;
              owner =
                  named taken.row.user_id taken.same_user somebody
                  ∙ ap some
                      (sym ((text_beq_iff row.user.id flow.user_id).0 (find_sound _ _ stored)));
              stored = rw users at stored;
              unchanged = ap (λ v. v.db) s ∙ same_db;
              verified = rw same_user verified;
            }
      ]
