-- ===== src/Auth/SignedUp.antt =====
-- PasskeySignupFinish of internal/auth/handlers.go: what a success has checked.
use go_tunnels.Shared.{
  ℕ, ◌≡◌, refl, sym, ap, ◌∙◌, inl, inr, [], Option, none, some, Text, arith, ok, err, Result,
  Result-cases, text_eq, stop, catch, >>=-ok, catch-err,
}
use go_tunnels.Store.{
  World, Platform, StoreError, unique_violation, unavailable, not_found, foreign_key_violation,
  check_violation, User, Credential,
}
use go_tunnels.Store.Users.{create_user_with_passkey}
use go_tunnels.Httpx.Reply.{Response}
use go_tunnels.Activity.{Request}
use go_tunnels.Auth.Codes.{time_now}
use go_tunnels.Auth.Sessions.{Settings}
use go_tunnels.Auth.Passkey.{Webauthn, RpProvider, SignupFlowData}
use go_tunnels.Auth.Passkey.Cache.{IsCoherent}
use go_tunnels.Auth.Ceremony.{LiveFlow, flow_signup, limited, consume_ceremony}
use go_tunnels.Auth.Ceremony.Taken.{IsTaken, consume_ceremony-IsTaken}
use go_tunnels.Auth.Passkeys.{
  candidate_of, signup_verified, signup_finish_flow, passkey_signup_finish, signup_refused,
}
use go_tunnels.Auth.Asserted.{refuse-never}

module _ (platform : Platform) (lib : Webauthn) (p : RpProvider) (h : Settings) (r : Request)
    (body : Text) where
  -- The account that a sign-up created, for the credential that the library accepted.
  pub record IsEnrolled (flow : LiveFlow) (s : SignupFlowData) (w : World) : Type 0 where
    pub user : User
    pub at : ℕ
    pub credential : Credential
    pub accepted :
        lib.finish_registration flow.wa
          (record { user = candidate_of s; credentials = [] })
          flow.session
          (limited body)
          at
        ≡ ok credential
    pub created :
        (create_user_with_passkey platform s.user_id s.username s.display_name credential w).0
        ≡ ok user

  signup_refused-never :
      (name : Text) (e : StoreError) (w : World) {u : User}
      → (signup_refused platform lib p h r name e w).0 ≡ ok u
      → ⊥
  unfolding signup_refused stop
  signup_refused-never name unique_violation w done =
      refuse-never platform lib p h r body _ _ _ _ _ w done
  signup_refused-never name unavailable w done = ground arith
  signup_refused-never name not_found w done = ground arith
  signup_refused-never name foreign_key_violation w done = ground arith
  signup_refused-never name check_violation w done = ground arith

  signup_verified-ok :
      (s : SignupFlowData) (o : Result Text Credential) (w : World) {answer : Response}
      → (signup_verified platform lib p h r s o w).0 ≡ ok answer
      → (cred : Credential) × (o ≡ ok cred)
        × (user : User) × ((create_user_with_passkey platform s.user_id s.username s.display_name
              cred w).0
            ≡ ok user)
  unfolding signup_verified
  signup_verified-ok s (err e) w done =
      absurd (refuse-never platform lib p h r body _ _ _ _ _ w done)
  signup_verified-ok s (ok cred) w done =
      let create = create_user_with_passkey platform s.user_id s.username s.display_name cred in
      let refused = λ (e : StoreError). signup_refused platform lib p h {A = User} r s.username e in
      let (user, e, _) = >>=-ok (catch create refused) _ w done in
      elim (Result-cases (create w).0) [
        | inl (u, made) ↦ (cred, refl, u, made)
        | inr (x, failed) ↦ absurd (
            signup_refused-never s.username x _
              (ap (λ q. q.0) (sym (catch-err create refused w failed)) ∙ e))
      ]

  signup_finish_flow-ok :
      (flow : LiveFlow) (o : Option SignupFlowData) (w : World) {answer : Response}
      → (signup_finish_flow platform lib p h r body flow o w).0 ≡ ok answer
      → (s : SignupFlowData) × (o ≡ some s) × IsEnrolled flow s w
  unfolding signup_finish_flow stop time_now
  signup_finish_flow-ok flow none w done = absurd (ground arith)
  signup_finish_flow-ok flow (some s) w done =
      let (now, e, rest) = >>=-ok time_now _ w done in
      let (cred, accepted, user, created) = signup_verified-ok s _ _ rest in
      (
        s,
        refl,
        record { user = user; at = now; credential = cred; accepted = accepted; created = created },
      )

  -- What a passkey-first sign-up that succeeded has checked.
  pub record IsSignedUp (w : World) : Type 0 where
    pub flow : LiveFlow
    pub account : SignupFlowData
    pub consumed : World
    pub taken : IsTaken platform lib p r.flow flow_signup w consumed flow
    pub named_account : taken.envelope.signup ≡ some account
    pub enrolled : IsEnrolled flow account consumed

  -- A passkey-first sign-up that succeeds, with a coherent cache of relying parties: the request's flow was stored for a
  -- sign-up, has not expired, and is deleted; its envelope names the account; the library accepted a
  -- credential for that account, with the relying party of the origin that the flow began with; and
  -- CreateUserWithPasskey, run on the tables after that, created the account with this credential.
  pub passkey_signup_finish-IsSignedUp :
      (w : World) {answer : Response}
      → IsCoherent platform lib p w.by_origin
      → (passkey_signup_finish platform lib p h r body w).0 ≡ ok answer
      → IsSignedUp w
  unfolding passkey_signup_finish
  passkey_signup_finish-IsSignedUp w coherent done =
      let (flow, e, rest) = >>=-ok (consume_ceremony platform lib p r flow_signup) _ w done in
      let taken = consume_ceremony-IsTaken platform lib p r flow_signup w coherent e in
      let (s, some_account, enrolled) = signup_finish_flow-ok flow flow.signup _ rest in
      record {
        flow = flow;
        account = s;
        consumed = (consume_ceremony platform lib p r flow_signup w).1;
        taken = taken;
        named_account = sym taken.same_signup ∙ some_account;
        enrolled = enrolled;
      }
