-- ===== src/Auth/Gate.antt =====
-- RequireAuth of internal/auth/handlers.go: whom it lets in, and what its refusals mean.
use Prim.Native.String.{String}
use mathlib.Core.Path.{subst}
use go_tunnels.Shared.{
  ℕ, ◌≤◌, ◌≡◌, refl, sym, ap, ◌∙◌, ◌⊎◌, inl, inr, ◌&&◌, [], Option, none, some, Text, arith, ok,
  err, Option-cases, Bool-cases, ◌==◌, nat_eq, text_eq, text_beq, pure, stop, catch, ◌>>=◌, ◌>>◌,
  >>=-ok, >>=-stopped, catch-stop-ok, catch-stop-err, text_beq_iff, ◌≢◌, Result-cases, >>=-err,
  >>=-eq,
}
use go_tunnels.Store.{World, Platform, StoreError, not_found, unavailable, User, Session, Db, find}
use go_tunnels.Store.Schema.{UserRow, unique_violation, foreign_key_violation, check_violation}
use go_tunnels.Store.Statement.{
  statement-ok, statement-cases, statement-when, statement-clock, statement, Stored,
}
use go_tunnels.Store.Sessions.{has_id, is_live, get_session, select_session, touch_session}
use go_tunnels.Store.Users.{get_user_by_id, select_user_by_id}
use go_tunnels.Httpx.Reply.{Response, Handler}
use go_tunnels.Activity.{Request}
use go_tunnels.Auth.Codes.{hash_session_token}
use go_tunnels.Auth.Sessions.{
  Settings, extract_token, require_auth, authenticate, auth_lookup_failed, attempt,
}

-- The session with the id that is good at an instant.
abbrev pub live_session : Text → ℕ → Db → Option Session
live_session id now d = find (λ s. has_id id s && is_live now s) d.sessions

-- The row of a user.
abbrev pub user_with : Text → Db → Option UserRow
user_with id d = find (λ u. u.user.id == id) d.users

-- GetSession finds a session: it was good at an instant of the call.
get_session-ok :
    (id : Text) (w : World) {s : Session}
    → (get_session id w).0 ≡ ok s
    → ((now : ℕ) × (w.clock ≤ now) × (live_session id now w.db ≡ some s))
      × ((get_session id w).1.db ≡ w.db)
unfolding get_session select_session
get_session-ok id w {s} h =
    let (now, le, _, e, d) = statement-ok (select_session id) w h in
    elim (Option-cases (live_session id now w.db)) [
      | inl none_of ↦ absurd (ground arith)
      | inr (t, some_of) ↦ ((now, le, ground arith), d)
    ]

-- ErrNotFound: at the instant of the answer no session was good.
get_session-not_found :
    (id : Text) (w : World)
    → (get_session id w).0 ≡ err not_found
    → live_session id (get_session id w).1.clock w.db ≡ none
unfolding get_session select_session
get_session-not_found id w h =
    let at = (statement (select_session id) w).1.clock in
    elim (statement-when (select_session id) w) [
      | inl (down, _) ↦ absurd (ground arith)
      | inr (e, _) ↦ elim (Option-cases (live_session id at w.db)) [
        | inl none_of ↦ none_of
        | inr (t, some_of) ↦ absurd (ground arith)
      ]
    ]

-- A session that is found was good at the instant of the answer.
get_session-live :
    (id : Text) (w : World) {s : Session}
    → (get_session id w).0 ≡ ok s
    → live_session id (get_session id w).1.clock w.db ≡ some s
unfolding get_session select_session
get_session-live id w {s} h =
    let (now, _, same, e, _) = statement-ok (select_session id) w h in
    elim (Option-cases (live_session id now w.db)) [
      | inl none_of ↦ absurd (ground arith)
      | inr (t, some_of) ↦ subst (λ at. live_session id at w.db ≡ some s) same (ground arith)
    ]

get_session-clock : (id : Text) (w : World) → w.clock ≤ (get_session id w).1.clock
unfolding get_session
get_session-clock id w = statement-clock (select_session id) w

get_user_by_id-clock : (id : Text) (w : World) → w.clock ≤ (get_user_by_id id w).1.clock
unfolding get_user_by_id
get_user_by_id-clock id w = statement-clock (select_user_by_id id) w

get_user_by_id-ok :
    (id : Text) (w : World) {u : User}
    → (get_user_by_id id w).0 ≡ ok u
    → (row : UserRow) × (user_with id w.db ≡ some row) × (row.user ≡ u)
unfolding get_user_by_id select_user_by_id
get_user_by_id-ok id w {u} h =
    let (now, le, _, e, d) = statement-ok (select_user_by_id id) w h in
    elim (Option-cases (user_with id w.db)) [
      | inl none_of ↦ absurd (ground arith)
      | inr (t, some_of) ↦ (t, some_of, ground arith)
    ]

get_user_by_id-not_found :
    (id : Text) (w : World) → (get_user_by_id id w).0 ≡ err not_found → user_with id w.db ≡ none
unfolding get_user_by_id select_user_by_id
get_user_by_id-not_found id w h = elim (statement-cases (select_user_by_id id) w) [
  | inl (down, _) ↦ absurd (ground arith)
  | inr (now, le, e, _) ↦ elim (Option-cases (user_with id w.db)) [
    | inl none_of ↦ none_of
    | inr (t, some_of) ↦ absurd (ground arith)
  ]
]

-- A status of 401 stands for a missing row alone.
lookup_failed_401 :
    (message : String) (e : StoreError)
    → (auth_lookup_failed message e).status ≡ 401
    → e ≡ not_found
unfolding auth_lookup_failed
lookup_failed_401 message not_found h = refl
lookup_failed_401 message unique_violation h = absurd (ground arith)
lookup_failed_401 message foreign_key_violation h = absurd (ground arith)
lookup_failed_401 message check_violation h = absurd (ground arith)
lookup_failed_401 message unavailable h = absurd (ground arith)

-- What lets a request in: the id of its token is the id of a session that is good at an instant of
-- the call, and the user is that session's.
pub record IsAdmitted (token_id : Text) (w : World) (user : User) (id : Text) : Type 0 where
  pub session : Session
  pub now : ℕ
  pub row : UserRow
  pub later : w.clock ≤ now
  pub same_id : id ≡ token_id
  pub live : live_session token_id now w.db ≡ some session
  pub owner : user_with session.user_id w.db ≡ some row
  pub same_user : row.user ≡ user

-- Nobody may be let in for the token's id. The database has answered, and the answer is true of its tables at the instant
-- of the answer, which lies between the clocks before and after the call: there is no session that is good then; or
-- there is one, and its user is missing.
pub data IsUnknown (token_id : Text) (w v : World) : Type 0 where
  no_session :
      (get_session token_id w).0 ≡ err not_found
      → w.clock ≤ (get_session token_id w).1.clock
      → (get_session token_id w).1.clock ≤ v.clock
      → live_session token_id (get_session token_id w).1.clock w.db ≡ none
      → IsUnknown token_id w v
  no_user :
      (s : Session)
      → (get_session token_id w).0 ≡ ok s
      → w.clock ≤ (get_session token_id w).1.clock
      → (get_session token_id w).1.clock ≤ v.clock
      → live_session token_id (get_session token_id w).1.clock w.db ≡ some s
      → (get_user_by_id s.user_id (get_session token_id w).1).0 ≡ err not_found
      → user_with s.user_id w.db ≡ none
      → IsUnknown token_id w v

authenticate-ok :
    (id : Text) (w : World) {user : User} {id' : Text}
    → (authenticate id w).0 ≡ ok (user, id')
    → IsAdmitted id w user id'
unfolding authenticate pure
authenticate-ok id w {user} {id'} h =
    let (sess, e1, h1) = >>=-ok _ _ w h in
    let (got, s1) =
      catch-stop-ok (get_session id) (auth_lookup_failed "invalid or expired session") w e1 in
    let ((now, le, live), same) = get_session-ok id w got in
    let (u, e2, h2) = >>=-ok _ _ _ h1 in
    let (got2, s2) =
      catch-stop-ok (get_user_by_id sess.user_id) (auth_lookup_failed "session user not found") _
        e2 in
    let (row, owner, same_user) = get_user_by_id-ok sess.user_id _ got2 in
    let (_, _, h3) = >>=-ok _ _ _ h2 in
    record {
      session = sess;
      now = now;
      row = row;
      later = le;
      same_id = ground arith;
      live = live;
      owner = ap (user_with sess.user_id) (sym same ∙ sym (ap (λ p. p.1.db) s1)) ∙ owner;
      same_user = ground arith;
    }

-- The rest of the lookups never refuses.
touch_pure-ok :
    (id : Text) (user : User) (w : World) {r : Response}
    → (let rest : Handler (User × Text) = (do attempt (touch_session id); pure (user, id)) in
        (rest w).0 ≡ err r)
    → ⊥
unfolding attempt pure catch ◌>>=◌
touch_pure-ok id user w h = elim (Result-cases (touch_session id w).0) [
  | inl (a, e) ↦ ground arith
  | inr (x, e) ↦ ground arith
]

-- What a lookup that ends in a 401 was answered.
refused-not_found :
    {A : Type 0} (m : Stored A) (message : String) (w : World) {r : Response}
    → (catch m (λ e. stop (auth_lookup_failed message e)) w).0 ≡ err r
    → r.status ≡ 401
    → ((m w).0 ≡ err not_found)
      × (catch m (λ e. stop (auth_lookup_failed message e)) w ≡ (err r, (m w).1))
unfolding catch stop
refused-not_found m message w {r} h status =
    let (x, failed, same) = catch-stop-err m (auth_lookup_failed message) w h in
    let missing = lookup_failed_401 message x (rw same at status) in
    (failed ∙ ap err missing, rw failed (ap (λ q. (err q, (m w).1)) (sym same)))

-- The lookups of `authenticate`.
abbrev lookup_session : Text → Handler Session
lookup_session id =
    catch (get_session id) (λ e. stop (auth_lookup_failed "invalid or expired session" e))

abbrev lookup_user : Text → Handler User
lookup_user user_id =
    catch (get_user_by_id user_id) (λ e. stop (auth_lookup_failed "session user not found" e))

abbrev after_session : Text → Session → Handler (User × Text)
after_session id sess = do
  user ← lookup_user sess.user_id
  attempt (touch_session id)
  pure (user, id)

authenticate-401 :
    (id : Text) (w : World) {r : Response}
    → (authenticate id w).0 ≡ err r
    → r.status ≡ 401
    → IsUnknown id w (authenticate id w).1
unfolding authenticate
authenticate-401 id w {r} h status =
    let later : w.clock ≤ (get_session id w).1.clock = get_session-clock id w in
    elim (>>=-stopped (lookup_session id) (after_session id) w h) [
      | inl e1 ↦
          let (gone, ended) =
            refused-not_found (get_session id) "invalid or expired session" w e1 status in
          let last : authenticate id w ≡ (err r, (get_session id w).1) =
            >>=-err (lookup_session id) (after_session id) w e1 ∙ ap (λ q. (err r, q.1)) ended in
          no_session gone later
            (subst (λ q. (get_session id w).1.clock ≤ q.1.clock) (sym last) (omega arith))
            (get_session-not_found id w gone)
      | inr (sess, e1, h1) ↦
          let (got, s1) =
            catch-stop-ok (get_session id) (auth_lookup_failed "invalid or expired session") w e1 in
          let (_, same) = get_session-ok id w got in
          let w1 = (lookup_session id w).1 in
          let here : w1 ≡ (get_session id w).1 = ap (λ q. q.1) s1 in
          elim (>>=-stopped (lookup_user sess.user_id) _ w1 h1) [
            | inl e2 ↦
                let (missing, ended) =
                  refused-not_found (get_user_by_id sess.user_id) "session user not found" w1 e2
                    status in
                let last : authenticate id w ≡ (err r, (get_user_by_id sess.user_id w1).1) =
                  >>=-eq (lookup_session id) (after_session id) w e1
                  ∙ >>=-err (lookup_user sess.user_id) _ w1 e2
                  ∙ ap (λ q. (err r, q.1)) ended in
                let second : w1.clock ≤ (get_user_by_id sess.user_id w1).1.clock =
                  get_user_by_id-clock sess.user_id w1 in
                no_user sess got later
                  (subst (λ q. (get_session id w).1.clock ≤ q.1.clock) (sym last)
                    (subst (λ v. v.clock ≤ (get_user_by_id sess.user_id w1).1.clock) here second))
                  (get_session-live id w got)
                  (subst (λ v. (get_user_by_id sess.user_id v).0 ≡ err not_found) here missing)
                  (ap (user_with sess.user_id) (sym same ∙ sym (ap (λ v. v.db) here))
                    ∙ get_user_by_id-not_found sess.user_id w1 missing)
            | inr (user, e2, h2) ↦ absurd (touch_pure-ok id user _ h2)
          ]
    ]

module _ (platform : Platform) (h : Settings) (r : Request) (w : World) where
  -- A request that RequireAuth lets in carries a token, whose hash is the id of a session that is
  -- neither revoked nor expired at an instant of the call; the user handed on is that session's user,
  -- and the session id handed on is that id.
  pub require_auth-IsAdmitted :
      {user : User} {id : Text}
      → (require_auth platform h r w).0 ≡ ok (user, id)
      → (extract_token r ≢ [])
        × IsAdmitted (hash_session_token platform (extract_token r)) w user id
  unfolding require_auth stop
  require_auth-IsAdmitted e = elim (Bool-cases (text_beq (extract_token r) [])) [
    | inl blank ↦ absurd (ground arith)
    | inr token ↦ (
      λ same. ground (arith, text_beq_iff (extract_token r) []),
      authenticate-ok (hash_session_token platform (extract_token r)) w (rw token at e),
    )
  ]

  -- RequireAuth answers 401 only if the request has no token, or the database, asked for the token's hash, answered
  -- that it holds no session that is good at an instant of the call, or that it holds one whose user is missing; and
  -- these answers are true of the tables.
  pub unauthorised_is_definite :
      {refusal : Response}
      → (require_auth platform h r w).0 ≡ err refusal
      → refusal.status ≡ 401
      → (extract_token r ≡ [])
        ⊎ IsUnknown
            (hash_session_token platform (extract_token r))
            w
            (require_auth platform h r w).1
  unfolding require_auth stop
  unauthorised_is_definite e status = elim (Bool-cases (text_beq (extract_token r) [])) [
    | inl blank ↦ inl ((text_beq_iff (extract_token r) []).0 blank)
    | inr token ↦
        rw (token, require_auth)
          (inr (
            authenticate-401 (hash_session_token platform (extract_token r)) w (rw token at e)
              status))
  ]
