-- ===== src/Auth/Grant.antt =====
-- Login of internal/auth/handlers.go: what a successful log-in has checked.
use go_tunnels.Shared.{
  ◌≡◌, refl, sym, ap, ◌∙◌, ◌⊎◌, inl, inr, Bool, true, false, Option, none, some, Text, arith,
  Result, ok, err, ltb, length, Bool-cases, Option-cases, Result-cases, ◌==◌, nat_eq, text_eq, pure,
  stop, catch, ◌>>=◌, >>=-ok, catch-stop-ok,
}
use go_tunnels.Text.{trim_space}
use go_tunnels.Store.{
  World, Platform, Stored, Db, StoreError, not_found, unavailable, unique_violation,
  foreign_key_violation, check_violation, User, find,
}
use go_tunnels.Store.Schema.{UserRow, PasswordRow, TotpRow}
use go_tunnels.Store.Statement.{statement-ok, statement-cases}
use go_tunnels.Store.Totp.{is_of, get_totp_secret, select_totp_secret}
use go_tunnels.Store.Users.{
  normalize_username, get_user_by_username, select_user_by_username_lower, get_password_hash,
  select_password_hash,
}
use go_tunnels.Httpx.Reply.{Response, DecodeProblem, decode_json, or_server_error, server_error}
use go_tunnels.Activity.{Request}
use go_tunnels.Auth.Identity.{max_password_bytes}
use go_tunnels.Auth.Password.{verify_password}
use go_tunnels.Auth.Sessions.{Settings, found, totp_enabled}
use go_tunnels.Auth.Login.{
  LoginRequest, login, login_request, login_user, login_hashed, login_verified, login_second_factor,
  login_refused, verify_second_factor,
}

-- A found row is what the call returned.
pub found-some :
    {A : Type 0} (m : Stored A) (w : World) {a : A}
    → (found m w).0 ≡ ok (some a)
    → ((m w).0 ≡ ok a) × ((found m w).1 ≡ (m w).1)
unfolding found catch pure ◌>>=◌ stop
found-some m w {a} h = elim (Result-cases (m w).0) [
  | inl (b, e) ↦ (ground arith, ground arith)
  | inr (not_found, e) ↦ absurd (ground arith)
  | inr (unique_violation, e) ↦ absurd (ground arith)
  | inr (foreign_key_violation, e) ↦ absurd (ground arith)
  | inr (check_violation, e) ↦ absurd (ground arith)
  | inr (unavailable, e) ↦ absurd (ground arith)
]

-- What is found does not change what the call did.
pub found-world : {A : Type 0} (m : Stored A) (w : World) → (found m w).1 ≡ (m w).1
unfolding found catch pure ◌>>=◌ stop
found-world m w = elim (Result-cases (m w).0) [
  | inl (b, e) ↦ rw e refl
  | inr (not_found, e) ↦ rw e refl
  | inr (unique_violation, e) ↦ rw e refl
  | inr (foreign_key_violation, e) ↦ rw e refl
  | inr (check_violation, e) ↦ rw e refl
  | inr (unavailable, e) ↦ rw e refl
]

-- The tables are as they were, and hold the row.
get_user_by_username-ok :
    (platform : Platform) (username : Text) (w : World) {u : User}
    → (get_user_by_username platform username w).0 ≡ ok u
    → ((row : UserRow) × (find
            (λ r. r.username_lower == normalize_username platform username)
            w.db.users
          ≡ some row)
        × (row.user ≡ u))
      × ((get_user_by_username platform username w).1.db ≡ w.db)
unfolding get_user_by_username select_user_by_username_lower
get_user_by_username-ok platform username w {u} h =
    let lower = normalize_username platform username in
    let (now, le, _, e, d) = statement-ok (select_user_by_username_lower lower) w h in
    elim (Option-cases (find (λ r. r.username_lower == lower) w.db.users)) [
      | inl none_of ↦ absurd (ground arith)
      | inr (t, some_of) ↦ ((t, some_of, ground arith), d)
    ]

get_password_hash-ok :
    (id : Text) (w : World) {hash : Text}
    → (get_password_hash id w).0 ≡ ok hash
    → ((row : PasswordRow) × (find (λ r. r.user_id == id) w.db.password_credentials ≡ some row)
        × (row.password_hash ≡ hash))
      × ((get_password_hash id w).1.db ≡ w.db)
unfolding get_password_hash select_password_hash
get_password_hash-ok id w {hash} h =
    let (now, le, _, e, d) = statement-ok (select_password_hash id) w h in
    elim (Option-cases (find (λ r. r.user_id == id) w.db.password_credentials)) [
      | inl none_of ↦ absurd (ground arith)
      | inr (t, some_of) ↦ ((t, some_of, ground arith), d)
    ]

-- The user has no confirmed second factor.
pub data IsOff (user_id : Text) (d : Db) : Type 0 where
  never_enrolled : find (is_of user_id) d.totp_secrets ≡ none → IsOff user_id d
  unconfirmed :
      (row : TotpRow)
      → find (is_of user_id) d.totp_secrets ≡ some row
      → row.confirmed ≡ false
      → IsOff user_id d

pub get_totp_secret-cases :
    (id : Text) (w : World) {r : Result StoreError (Text × Bool)}
    → (get_totp_secret id w).0 ≡ r
    → ((get_totp_secret id w).1.db ≡ w.db)
      × ((r ≡ err unavailable)
          ⊎ ((r ≡ err not_found) × (find (is_of id) w.db.totp_secrets ≡ none))
          ⊎ ((row : TotpRow) × (find (is_of id) w.db.totp_secrets ≡ some row)
              × (r ≡ ok (row.secret_encrypted, row.confirmed))))
unfolding get_totp_secret select_totp_secret
get_totp_secret-cases id w {r} h = elim (statement-cases (select_totp_secret id) w) [
  | inl (down, same) ↦ (same, inl (sym h ∙ down))
  | inr (now, le, e, same) ↦ elim (Option-cases (find (is_of id) w.db.totp_secrets)) [
    | inl none_of ↦ (same, inr (inl (ground arith, none_of)))
    | inr (t, some_of) ↦ (same, inr (inr (t, some_of, ground arith)))
  ]
]

totp_enabled-ok :
    (id : Text) (w : World) {b : Bool}
    → (totp_enabled id w).0 ≡ ok b
    → ((totp_enabled id w).1.db ≡ w.db) × (b ≡ false → IsOff id w.db)
unfolding totp_enabled catch pure stop ◌>>=◌
totp_enabled-ok id w {b} h =
    let (same, cases) = get_totp_secret-cases id w refl in
    elim cases [
      | inl down ↦ absurd (ground arith)
      | inr (inl (missing, none_of)) ↦ (rw missing same, λ off. never_enrolled none_of)
      | inr (inr (row, some_of, e)) ↦ (rw e same, λ off. unconfirmed row some_of (ground arith))
    ]

-- What a successful log-in has checked, in the tables that it started from.
pub record IsGranted (platform : Platform) (h : Settings) (req : LoginRequest) (w : World)
    : Type 0 where
  pub user : UserRow
  pub credential : PasswordRow
  -- the request's name, trimmed and in lower case, is the user's
  pub named :
      find
        (λ u. u.username_lower == normalize_username platform (trim_space req.username))
        w.db.users
      ≡ some user
  pub owned : find (λ p. p.user_id == user.user.id) w.db.password_credentials ≡ some credential
  pub verified : verify_password platform credential.password_hash req.password ≡ ok true
  pub factor :
      IsOff user.user.id w.db
      ⊎ ((v : World) × (v.db ≡ w.db)
          × ((verify_second_factor platform h user.user.id req.totp v).0 ≡ ok true))

module _ (platform : Platform) (h : Settings) (r : Request) where
  second_factor-ok :
      (user : User) (code : Text) (w : World) {answer : Response}
      → (login_second_factor platform h r user code w).0 ≡ ok answer
      → (verify_second_factor platform h user.id code w).0 ≡ ok true
  unfolding login_second_factor or_server_error stop
  second_factor-ok user code w done =
      let (passed, e, rest) = >>=-ok _ _ w done in
      let (checked, _) =
        catch-stop-ok (verify_second_factor platform h user.id code) (λ _. server_error) w e in
      elim (Bool-cases passed) [
        | inl on ↦ checked ∙ ap ok on
        | inr out ↦ let (_, _, refused) = >>=-ok _ _ _ (rw out at rest) in absurd (ground arith)
      ]

  login_verified-ok :
      (user : User) (code : Text) (w : World) {answer : Response}
      → (login_verified platform h r user code w).0 ≡ ok answer
      → IsOff user.id w.db
        ⊎ ((v : World) × (v.db ≡ w.db)
            × ((verify_second_factor platform h user.id code v).0 ≡ ok true))
  unfolding login_verified or_server_error
  login_verified-ok user code w done =
      let (enabled, e, rest) = >>=-ok _ _ w done in
      let (checked, s) = catch-stop-ok (totp_enabled user.id) (λ _. server_error) w e in
      let (same, off) = totp_enabled-ok user.id w checked in
      elim (Bool-cases enabled) [
        | inl on ↦ inr (_, ap (λ p. p.1.db) s ∙ same, second_factor-ok user code _ (rw on at rest))
        | inr out ↦ inl (off out)
      ]

  refused-never :
      (user_id : Option Text) (name why : Text) (w : World) {answer : Response}
      → (login_refused platform h r user_id name why w).0 ≡ ok answer
      → ⊥
  unfolding login_refused stop
  refused-never user_id name why w done = let (_, _, refused) = >>=-ok _ _ w done in ground arith

  login_hashed-ok :
      (req : LoginRequest) (user : User) (found_hash : Option Text) (w : World) {answer : Response}
      → (login_hashed platform h r req user found_hash w).0 ≡ ok answer
      → (hash : Text) × (found_hash ≡ some hash)
        × (verify_password platform hash req.password ≡ ok true)
        × (IsOff user.id w.db
            ⊎ ((v : World) × (v.db ≡ w.db)
                × ((verify_second_factor platform h user.id req.totp v).0 ≡ ok true)))
  unfolding login_hashed
  login_hashed-ok req user none w done = absurd (refused-never _ _ _ w done)
  login_hashed-ok req user (some hash) w done =
      elim (Result-cases (verify_password platform hash req.password)) [
        | inl (b, e) ↦ elim (Bool-cases b) [
          | inl on ↦
              (hash, refl, e ∙ ap ok on, login_verified-ok user req.totp w (rw (e, on) at done))
          | inr out ↦ absurd (refused-never _ _ _ w (rw (e, out) at done))
        ]
        | inr (x, e) ↦ absurd (refused-never _ _ _ w (rw e at done))
      ]

  login_user-ok :
      (req : LoginRequest) (user : Option User) (w : World) {answer : Response}
      → (login_user platform h r req user w).0 ≡ ok answer
      → (u : User) × (user ≡ some u)
        × (row : PasswordRow) × (find (λ p. p.user_id == u.id) w.db.password_credentials ≡ some row)
        × (verify_password platform row.password_hash req.password ≡ ok true)
        × (IsOff u.id w.db
            ⊎ ((v : World) × (v.db ≡ w.db)
                × ((verify_second_factor platform h u.id req.totp v).0 ≡ ok true)))
  unfolding login_user
  login_user-ok req none w done = absurd (refused-never _ _ _ w done)
  login_user-ok req (some user) w done =
      let (o, e, rest) = >>=-ok (found (get_password_hash user.id)) _ w done in
      let (hash, some_hash, verified, factor) = login_hashed-ok req user o _ rest in
      let (got, s) = found-some (get_password_hash user.id) w (e ∙ ap ok some_hash) in
      let ((row, owned, same_hash), same) = get_password_hash-ok user.id w got in
      let same_db = ap (λ v. v.db) s ∙ same in
      (user, refl, row, owned, rw same_hash verified, rw same_db at factor)

  login_request-ok :
      (req : LoginRequest) (w : World) {answer : Response}
      → (login_request platform h r req w).0 ≡ ok answer
      → IsGranted platform h req w
  unfolding login_request stop
  login_request-ok req w done = elim (Bool-cases (ltb max_password_bytes (length req.password))) [
    | inl long ↦ absurd (ground arith)
    | inr short ↦
        let name = trim_space req.username in
        let (o, e, rest) =
          >>=-ok (found (get_user_by_username platform name)) _ w (rw short at done) in
        let (u, some_user, row, owned, verified, factor) = login_user-ok req o _ rest in
        let (got, s) = found-some (get_user_by_username platform name) w (e ∙ ap ok some_user) in
        let ((user, named, same_user), same) = get_user_by_username-ok platform name w got in
        let same_db = ap (λ v. v.db) s ∙ same in
        record {
          user = user;
          credential = row;
          named = named;
          owned = rw same_user (rw same_db at owned);
          verified = verified;
          factor = rw same_user (rw same_db at factor);
        }
  ]

  pub decode_json-ok :
      {A : Type 0} (body : Result DecodeProblem A) (w : World) {a : A}
      → (decode_json body w).0 ≡ ok a
      → (body ≡ ok a) × ((decode_json body w).1 ≡ w)
  unfolding decode_json pure stop
  decode_json-ok (ok a) w e = (ground arith, refl)
  decode_json-ok (err p) w e = absurd (ground arith)

  -- A log-in that succeeds, in the tables that it starts from: the request's name is a user's, the
  -- user has a password hash that VerifyPassword accepts for the request's password, and either the
  -- user has no confirmed second factor, or verifySecondFactor accepted the request's code for the
  -- user.
  pub login_grant :
      (body : Result DecodeProblem LoginRequest) (w : World) {answer : Response}
      → (login platform h r body w).0 ≡ ok answer
      → (req : LoginRequest) × (body ≡ ok req) × IsGranted platform h req w
  unfolding login
  login_grant body w done =
      let (req, e, rest) = >>=-ok (decode_json body) _ w done in
      let (sent, s) = decode_json-ok body w e in (req, sent, rw s at (login_request-ok req _ rest))
