-- ===== src/Server/Guarded.antt =====
-- The guards of internal/server/server.go.
use go_tunnels.Shared.{
  ◌≡◌, refl, ◌⊎◌, inl, inr, false, Option, some, Text, Result, err, Exec, ◌>>=◌,
}
use go_tunnels.Store.{Platform, User, StoreError}
use go_tunnels.Httpx.Reply.{Response, DecodeProblem, write_error}
use go_tunnels.Httpx.RateLimiter.{Float64, allow, limit_with}
use go_tunnels.Activity.{Request}
use go_tunnels.Auth.Sessions.{Settings, require_auth}
use go_tunnels.Auth.Login.{SignupRequest, LoginRequest}
use go_tunnels.Auth.Passkeys.{PasskeySignupBeginRequest}
use go_tunnels.Auth.Passkey.{Webauthn, RpProvider}
use go_tunnels.Csp.{ReportJson}
use go_tunnels.Health.{Info}
use go_tunnels.Server.{
  Endpoint, healthz, readyz, api_info, post_signup, post_login, post_login_begin, post_login_finish,
  post_signup_begin, post_signup_finish, post_csp_reports, get_csp_reports, post_logout,
  post_logout_all, get_me, get_activity, post_register_begin, post_register_finish,
  post_totp_enroll, post_totp_confirm, post_totp_disable, get_captcha_stats, post_captcha_reset,
  get_captcha_leaderboard, post_captcha_sync, get_prefs, put_prefs, get_notes, get_notes_authors,
  post_notes, delete_notes, Limit, Limits, Served, in_world, guard, guard_if, signup_guard,
  hashed_ip_key, authed, serve,
}

-- The routes that need no session: the probes, signing up, logging in, and the CSP reports.
pub data IsOpen : Endpoint → Type 0 where
  probe : IsOpen healthz
  readiness : IsOpen readyz
  information : IsOpen api_info
  signing_up : (body : Result DecodeProblem SignupRequest) → IsOpen (post_signup body)
  logging_in : (body : Result DecodeProblem LoginRequest) → IsOpen (post_login body)
  passkey_begin : (body : Result DecodeProblem Text) → IsOpen (post_login_begin body)
  passkey_finish : (body : Text) → IsOpen (post_login_finish body)
  signup_begin :
      (body : Result DecodeProblem PasskeySignupBeginRequest) → IsOpen (post_signup_begin body)
  signup_finish : (body : Text) → IsOpen (post_signup_finish body)
  reporting :
      (content_type : Text) (body : Option Text) → IsOpen (post_csp_reports content_type body)
  reports : (limit : Text) → IsOpen (get_csp_reports limit)

-- The routes that create an account.
pub data CreatesAccount : Endpoint → Type 0 where
  with_password : (body : Result DecodeProblem SignupRequest) → CreatesAccount (post_signup body)
  with_passkey : (body : Text) → CreatesAccount (post_signup_finish body)

module _ {F : Type 0} (ops : Float64 F) (platform : Platform) (lib : Webauthn) (p : RpProvider)
    (h : Settings) (limits : Limits F) (parse_uuid : Text → Option Text) (json : ReportJson)
    (info : Info) (error_text : StoreError → Text) where
  -- A route behind RequireAuth answers what RequireAuth answers, and nothing else happens.
  authed-refused :
      (r : Request) (next : User × Text → Exec (Served F) Response Response) (s : Served F)
      {refusal : Response}
      → (require_auth platform h r s.world).0 ≡ err refusal
      → authed ops platform lib p h limits parse_uuid json info error_text r next s
        ≡ (err refusal, record s { world = (require_auth platform h r s.world).1 })
  unfolding authed in_world ◌>>=◌
  authed-refused r next s e = rw e refl

  -- Every route is open, or answers a request that RequireAuth refuses with exactly that refusal: its handler is not
  -- run, and no limiter is charged.
  pub serve-IsOpen :
      (r : Request) (e : Endpoint) (s : Served F) {refusal : Response}
      → (require_auth platform h r s.world).0 ≡ err refusal
      → IsOpen e
        ⊎ (serve ops platform lib p h limits parse_uuid json info error_text r e s
            ≡ (err refusal, record s { world = (require_auth platform h r s.world).1 }))
  unfolding serve
  serve-IsOpen r healthz s k = inl probe
  serve-IsOpen r readyz s k = inl readiness
  serve-IsOpen r api_info s k = inl information
  serve-IsOpen r (post_signup body) s k = inl (signing_up body)
  serve-IsOpen r (post_login body) s k = inl (logging_in body)
  serve-IsOpen r (post_login_begin body) s k = inl (passkey_begin body)
  serve-IsOpen r (post_login_finish body) s k = inl (passkey_finish body)
  serve-IsOpen r (post_signup_begin body) s k = inl (signup_begin body)
  serve-IsOpen r (post_signup_finish body) s k = inl (signup_finish body)
  serve-IsOpen r (post_csp_reports content_type body) s k = inl (reporting content_type body)
  serve-IsOpen r (get_csp_reports limit) s k = inl (reports limit)
  serve-IsOpen r post_logout s k = inr (authed-refused r _ s k)
  serve-IsOpen r post_logout_all s k = inr (authed-refused r _ s k)
  serve-IsOpen r get_me s k = inr (authed-refused r _ s k)
  serve-IsOpen r get_activity s k = inr (authed-refused r _ s k)
  serve-IsOpen r post_register_begin s k = inr (authed-refused r _ s k)
  serve-IsOpen r (post_register_finish body) s k = inr (authed-refused r _ s k)
  serve-IsOpen r (post_totp_enroll generated) s k = inr (authed-refused r _ s k)
  serve-IsOpen r (post_totp_confirm body) s k = inr (authed-refused r _ s k)
  serve-IsOpen r (post_totp_disable body) s k = inr (authed-refused r _ s k)
  serve-IsOpen r get_captcha_stats s k = inr (authed-refused r _ s k)
  serve-IsOpen r post_captcha_reset s k = inr (authed-refused r _ s k)
  serve-IsOpen r get_captcha_leaderboard s k = inr (authed-refused r _ s k)
  serve-IsOpen r (post_captcha_sync body) s k = inr (authed-refused r _ s k)
  serve-IsOpen r (get_prefs key) s k = inr (authed-refused r _ s k)
  serve-IsOpen r (put_prefs key body) s k = inr (authed-refused r _ s k)
  serve-IsOpen r (get_notes before limit authors) s k = inr (authed-refused r _ s k)
  serve-IsOpen r get_notes_authors s k = inr (authed-refused r _ s k)
  serve-IsOpen r (post_notes body) s k = inr (authed-refused r _ s k)
  serve-IsOpen r (delete_notes id) s k = inr (authed-refused r _ s k)

  -- Where new accounts are limited by address and the bucket of the request's address is empty, a request that would
  -- create an account is answered with 429, and only that bucket's limiter changes: no table, no read of random bytes,
  -- and no token of the site-wide limit.
  pub signup_guarded :
      (r : Request) (s : Served F) {e : Endpoint} {limit : Limit F}
      → CreatesAccount e
      → limits.signup_ip_limit ≡ some limit
      → (allow ops limit.rate limit.capacity s.limiters.signup_ip
          (hashed_ip_key ops platform lib p h limits parse_uuid json info error_text r)
          s.world.clock).0
        ≡ false
      → serve ops platform lib p h limits parse_uuid json info error_text r e s ≡ (
        err (
            write_error 429
              "too many signups from your network — please try again in a few minutes"),
        record s {
          limiters = record s.limiters {
            signup_ip =
                (allow ops limit.rate limit.capacity s.limiters.signup_ip
                  (hashed_ip_key ops platform lib p h limits parse_uuid json info error_text r)
                  s.world.clock).1;
          };
        },
      )
  unfolding serve signup_guard guard_if guard limit_with ◌>>=◌
  signup_guarded r s (with_password body) l k = rw (l, k) refl
  signup_guarded r s (with_passkey body) l k = rw (l, k) refl
