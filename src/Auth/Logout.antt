-- ===== src/Auth/Logout.antt =====
-- Logout of internal/auth/handlers.go ends a session for good.
use go_tunnels.Shared.{
  ℕ, ◌≡◌, refl, sym, ap, ◌⊎◌, inl, inr, true, ◌&&◌, List, [], Option, some, Text, arith, ok, err,
  any, Bool-cases, nat_eq, text_eq, text_beq, stop, catch-err, >>=-ok, >>=-err, catch-stop-ok,
  Keeps, Keeps-bind, Keeps-pure, Keeps-stop, Keeps-catch, >>=-after,
}
use go_tunnels.Store.{
  World, Platform, StoreError, not_found, unavailable, User, Session, Db, find_sound, ActivityInput,
  Detail,
}
use go_tunnels.Store.Statement.{statement-Keeps}
use go_tunnels.Store.Rows.{find-any, any-update_true}
use go_tunnels.Store.Sessions.{
  has_id, is_live, get_session, revoke_session, touch_session, select_session, update_last_seen,
}
use go_tunnels.Store.Users.{get_user_by_id, select_user_by_id}
use go_tunnels.Store.Audit.{insert_activity}
use go_tunnels.Store.History.{Call, inserts_activity, perform, run}
use go_tunnels.Store.History.Stable.{perform-keeps}
use go_tunnels.Store.Revocation.{
  IsRevoked, IsRevoked-Stable, revoke-IsRevoked, run-IsRevoked, get-IsRevoked,
}
use go_tunnels.Httpx.Reply.{Response, or_server_error, server_error}
use go_tunnels.Activity.{Request, record_event}
use go_tunnels.Auth.Codes.{hash_session_token}
use go_tunnels.Auth.Sessions.{
  Settings, extract_token, require_auth, authenticate, auth_lookup_failed, attempt, logout,
  record_activity, unauthenticated,
}
use go_tunnels.Auth.Gate.{require_auth-IsAdmitted, live_session}

-- A session with the id is stored.
abbrev IsKnown : Text → Db → Type 0
IsKnown id d = any (has_id id) d.sessions ≡ true

authenticate-IsKnown : (id : Text) → Keeps (λ w. IsKnown id w.db) (authenticate id)
unfolding authenticate attempt get_session get_user_by_id touch_session select_session
    select_user_by_id update_last_seen
authenticate-IsKnown id =
    Keeps-bind _ _
      (Keeps-catch _ _ (statement-Keeps {P = IsKnown id} _ (λ now d h. h)) (λ e. Keeps-stop _))
      (λ s.
        Keeps-bind _ _
          (Keeps-catch _ _ (statement-Keeps {P = IsKnown id} _ (λ now d h. h)) (λ e. Keeps-stop _))
          (λ user.
            Keeps-bind _ _
              (Keeps-catch _ _
                (statement-Keeps {P = IsKnown id} _
                  (λ now d h. any-update_true _ _ _ d.sessions (λ t k _. k) h))
                (λ e. Keeps-pure tt))
              (λ _. Keeps-pure (user, id))))

live-IsKnown :
    (id : Text) (now : ℕ) (d : Db) {s : Session} → live_session id now d ≡ some s → IsKnown id d
live-IsKnown id now d {s} h =
    find-any (λ t. has_id id t && is_live now t) (has_id id) d.sessions {x = s} h
      (ground (arith, find_sound (λ t. has_id id t && is_live now t) d.sessions {x = s} h))

authenticate-refused :
    (id : Text) (w : World) {e : StoreError}
    → (get_session id w).0 ≡ err e
    → (authenticate id w).0 ≡ err (auth_lookup_failed "invalid or expired session" e)
unfolding authenticate stop
authenticate-refused id w failed =
    let answered =
      catch-err (get_session id) (λ x. stop (auth_lookup_failed "invalid or expired session" x)) w
        failed in
    ap (λ p. p.0) (>>=-err _ _ w (ap (λ p. p.0) answered))

-- No session with the id is good any more, so nobody is let in with its token.
authenticate-IsRevoked :
    (id : Text) (w : World)
    → IsRevoked id w.db
    → (refusal : Response) × ((authenticate id w).0 ≡ err refusal)
      × ((refusal.status ≡ 401) ⊎ (refusal.status ≡ 503))
unfolding auth_lookup_failed
authenticate-IsRevoked id w h = elim (get-IsRevoked id w h) [
  | inl gone ↦ (
    auth_lookup_failed "invalid or expired session" not_found,
    authenticate-refused id w gone,
    inl refl,
  )
  | inr down ↦ (
    auth_lookup_failed "invalid or expired session" unavailable,
    authenticate-refused id w down,
    inr refl,
  )
]

module _ (platform : Platform) (h : Settings) where
  insert_activity-IsRevoked :
      (id : Text) (e : ActivityInput) → Keeps (λ w. IsRevoked id w.db) (insert_activity platform e)
  unfolding perform
  insert_activity-IsRevoked id e = record {
    at = λ w.
        perform-keeps platform (IsRevoked id) (inserts_activity e) w
          (IsRevoked-Stable id (inserts_activity e));
  }

  record_activity-IsRevoked :
      (id : Text) (r : Request) (user_id : Option Text) (username event method outcome : Text)
      (what : Detail)
      → Keeps
          (λ w. IsRevoked id w.db)
          (record_activity platform h r user_id username event method outcome what)
  unfolding record_activity attempt record_event
  record_activity-IsRevoked id r user_id username event method outcome what =
      Keeps-catch _ _ (insert_activity-IsRevoked id _) (λ _. Keeps-pure tt)

  logout-IsRevoked :
      (r : Request) (user : User) (id : Text) (w : World) {answer : Response}
      → IsKnown id w.db
      → (logout platform h r (user, id) w).0 ≡ ok answer
      → IsRevoked id (logout platform h r (user, id) w).1.db
  unfolding logout or_server_error
  logout-IsRevoked r user id w known done =
      let (_, e1, _) = >>=-ok _ _ w done in
      let (revoked, s1) = catch-stop-ok (revoke_session id) (λ _. server_error) w e1 in
      >>=-after _ _ w e1 (rw s1 (revoke-IsRevoked id w known revoked))
        (Keeps-bind _ _ (record_activity-IsRevoked id r _ _ _ _ _ _) (λ _. Keeps-pure _))

  require_auth-IsKnown :
      (id : Text) (r : Request) (w : World) {user : User} {id' : Text}
      → (require_auth platform h r w).0 ≡ ok (user, id')
      → IsKnown (hash_session_token platform (extract_token r)) w.db
      → IsKnown (hash_session_token platform (extract_token r)) (require_auth platform h r w).1.db
  unfolding require_auth stop
  require_auth-IsKnown id r w entered known = elim (Bool-cases (text_beq (extract_token r) [])) [
    | inl blank ↦ absurd (ground arith)
    | inr token ↦
        rw token ((authenticate-IsKnown (hash_session_token platform (extract_token r))).at w known)
  ]

  require_auth-IsRevoked :
      (r : Request) (w : World)
      → IsRevoked (hash_session_token platform (extract_token r)) w.db
      → (refusal : Response) × ((require_auth platform h r w).0 ≡ err refusal)
        × ((refusal.status ≡ 401) ⊎ (refusal.status ≡ 503))
  unfolding require_auth stop
  require_auth-IsRevoked r w k = elim (Bool-cases (text_beq (extract_token r) [])) [
    | inl blank ↦ (unauthenticated, rw blank, inl refl)
    | inr token ↦
        let (refusal, e, status) =
          authenticate-IsRevoked (hash_session_token platform (extract_token r)) w k in
        (refusal, rw token e, status)
  ]

  -- Once a request has passed RequireAuth and Logout, run next, has answered it with success, no history of
  -- calls of the store makes its token good again: RequireAuth then refuses every request with the
  -- token, with status 401 or 503.
  pub logged_out_forever :
      (r again : Request) (cs : List Call) (w : World) {user : User} {id : Text} {answer : Response}
      → extract_token again ≡ extract_token r
      → (require_auth platform h r w).0 ≡ ok (user, id)
      → (logout platform h r (user, id) (require_auth platform h r w).1).0 ≡ ok answer
      → let later =
          run platform cs (logout platform h r (user, id) (require_auth platform h r w).1).1 in
        (refusal : Response) × ((require_auth platform h again later).0 ≡ err refusal)
        × ((refusal.status ≡ 401) ⊎ (refusal.status ≡ 503))
  logged_out_forever r again cs w {user} {id} same_token entered done =
      let (_, admitted) = require_auth-IsAdmitted platform h r w entered in
      let known : IsKnown id (require_auth platform h r w).1.db = rw admitted.same_id (
        require_auth-IsKnown id r w entered
          (live-IsKnown _ admitted.now w.db {s = admitted.session} admitted.live)) in
      let revoked = run-IsRevoked platform id cs _ (logout-IsRevoked r user id _ known done) in
      require_auth-IsRevoked again _ (rw (same_token, sym admitted.same_id) revoked)
