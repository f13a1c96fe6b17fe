-- ===== src/Server.antt =====
-- internal/server/server.go: the routes, their guards, and the global middleware.
pub mod Guarded
use Prim.Native.String.{String}
use go_tunnels.Shared.{
  ℕ, Bool, true, false, List, [], ◌∷◌, ◌++◌, Option, none, some, Text, codes, Result, ok, err, Exec,
  if◌then◌else◌, pure, stop, ◌>>=◌, ◌>>◌,
}
use go_tunnels.Store.{World, Platform, User}
use go_tunnels.Httpx.Reply.{Response, Handler, DecodeProblem, write_error}
use go_tunnels.Httpx.Origins.{Header, cors}
use go_tunnels.Httpx.RequestId.{request_id, security_headers}
use go_tunnels.Httpx.RateLimiter.{Float64, RateLimiter, limit_with}
use go_tunnels.Activity.{Request, hash_ip, client_ip}
use go_tunnels.Auth.Sessions.{Settings, require_auth, logout, logout_all, me, activity}
use go_tunnels.Auth.Login.{SignupRequest, LoginRequest, signup, login}
use go_tunnels.Auth.Totp.{totp_enroll, totp_confirm, totp_disable}
use go_tunnels.Auth.Passkey.{Webauthn, RpProvider}
use go_tunnels.Auth.Passkeys.{
  PasskeySignupBeginRequest, passkey_register_begin, passkey_register_finish, passkey_login_begin,
  passkey_login_finish, passkey_signup_begin, passkey_signup_finish,
}
use go_tunnels.Notes
use go_tunnels.Captcha
use go_tunnels.Captcha.{SyncRequest}
use go_tunnels.Prefs.{get_pref, set_pref}
use go_tunnels.Csp.{ReportJson, serve_http, recent}
use go_tunnels.Health.{Info, live, ready, info_handler}
use go_tunnels.Store.{StoreError}

-- The routes, with what their handlers take from the request: bodies, path values, queries.
pub data Endpoint : Type 0 where
  healthz readyz api_info : Endpoint
  post_signup : Result DecodeProblem SignupRequest → Endpoint
  post_login : Result DecodeProblem LoginRequest → Endpoint
  post_login_begin : Result DecodeProblem Text → Endpoint
  post_login_finish : Text → Endpoint
  post_signup_begin : Result DecodeProblem PasskeySignupBeginRequest → Endpoint
  post_signup_finish : Text → Endpoint
  -- the content type and the body
  post_csp_reports : Text → Option Text → Endpoint
  get_csp_reports : Text → Endpoint
  post_logout post_logout_all get_me get_activity post_register_begin : Endpoint
  post_register_finish : Text → Endpoint
  -- what the TOTP library generated
  post_totp_enroll : Option (Text × Text) → Endpoint
  post_totp_confirm post_totp_disable : Result DecodeProblem Text → Endpoint
  get_captcha_stats post_captcha_reset get_captcha_leaderboard : Endpoint
  post_captcha_sync : Result DecodeProblem SyncRequest → Endpoint
  get_prefs : Text → Endpoint
  put_prefs : Text → Result DecodeProblem Text → Endpoint
  get_notes : Text → Text → Text → Endpoint
  get_notes_authors : Endpoint
  post_notes : Result DecodeProblem Text → Endpoint
  delete_notes : Text → Endpoint

-- A limiter's rate and capacity.
pub record Limit (F : Type 0) : Type 0 where
  pub rate : F
  pub capacity : F

-- The limits of Deps; some may be nil.
pub record Limits (F : Type 0) : Type 0 where
  pub csp_limit : Limit F
  pub notes_limit : Limit F
  pub signup_ip_limit : Option (Limit F)
  pub signup_global_limit : Option (Limit F)
  pub auth_limit : Option (Limit F)

-- The buckets of the limiters.
pub record Limiters (F : Type 0) : Type 0 where
  pub csp : RateLimiter F
  pub notes : RateLimiter F
  pub signup_ip : RateLimiter F
  pub signup_global : RateLimiter F
  pub auth : RateLimiter F

pub data Which : Type 0 where
  by_csp by_notes by_signup_ip by_signup_global by_auth : Which

-- What the server keeps.
pub record Served (F : Type 0) : Type 0 where
  pub world : World
  pub limiters : Limiters F

module _ {F : Type 0} where
  abbrev pub limiter_of : Which → Limiters F → RateLimiter F
  limiter_of by_csp l = l.csp
  limiter_of by_notes l = l.notes
  limiter_of by_signup_ip l = l.signup_ip
  limiter_of by_signup_global l = l.signup_global
  limiter_of by_auth l = l.auth

  abbrev pub with_limiter : Which → RateLimiter F → Limiters F → Limiters F
  with_limiter by_csp rl l = record l { csp = rl }
  with_limiter by_notes rl l = record l { notes = rl }
  with_limiter by_signup_ip rl l = record l { signup_ip = rl }
  with_limiter by_signup_global rl l = record l { signup_global = rl }
  with_limiter by_auth rl l = record l { auth = rl }

  -- A handler of the tables.
  unfoldable pub in_world : {A : Type 0} → Handler A → Exec (Served F) Response A
  in_world m s = let (r, w) = m s.world in (r, record s { world = w })

-- userRateKey inside RequireAuth
abbrev pub user_rate_key : User → Text
user_rate_key user = codes "user:" ++ user.id

module _ {F : Type 0} (ops : Float64 F) (platform : Platform) (lib : Webauthn) (p : RpProvider)
    (h : Settings) (limits : Limits F) (parse_uuid : Text → Option Text) (json : ReportJson)
    (info : Info) (error_text : StoreError → Text) where
  -- LimitWith and LimitByIP: the request goes on, or is answered with 429.
  unfoldable pub guard : Which → Limit F → Text → String → Exec (Served F) Response Unit
  unfolding limit_with
  guard which limit key message s =
      let (answer, rl) =
        limit_with ops limit.rate limit.capacity message (limiter_of which s.limiters) key
          s.world.clock tt in
      (answer, record s { limiters = with_limiter which rl s.limiters })

  -- A limiter that may be nil.
  unfoldable pub guard_if : Which → Option (Limit F) → Text → String → Exec (Served F) Response Unit
  unfolding guard
  guard_if which none key message = pure tt
  guard_if which (some limit) key message = guard which limit key message

  -- hashedIPKey
  abbrev pub hashed_ip_key : Request → Text
  hashed_ip_key r = hash_ip platform h.pepper (client_ip r)

  -- signupGuard: the address first, then the whole site.
  unfoldable pub signup_guard : Request → Exec (Served F) Response Unit
  unfolding guard_if
  signup_guard r = do
    guard_if by_signup_ip limits.signup_ip_limit (hashed_ip_key r)
        "too many signups from your network — please try again in a few minutes"
    guard_if by_signup_global limits.signup_global_limit (codes "global")
        "signups are briefly rate limited site-wide — please try again in a minute"

  -- authGuard
  unfoldable pub auth_guard : Text → Exec (Served F) Response Unit
  unfolding guard_if
  auth_guard key =
      guard_if by_auth limits.auth_limit key
        "too many sign-in attempts — please wait a moment and try again"

  -- RequireAuth before the rest of a route.
  unfoldable pub authed :
      Request
      → (User × Text → Exec (Served F) Response Response)
      → Exec (Served F) Response Response
  unfolding in_world
  authed r next = do who ← in_world (require_auth platform h r); next who

  -- The mux of New.
  unfoldable pub serve : Request → Endpoint → Exec (Served F) Response Response
  unfolding signup_guard auth_guard authed in_world guard
  serve r healthz = pure (live info)
  serve r readyz = in_world (ready error_text)
  serve r api_info = pure (info_handler info)
  serve r (post_signup body) = do signup_guard r; in_world (signup platform h r body)
  serve r (post_login body) = do auth_guard (hashed_ip_key r); in_world (login platform h r body)
  serve r (post_login_begin body) = do
    auth_guard (hashed_ip_key r)
    in_world (passkey_login_begin platform lib p h r body)
  serve r (post_login_finish body) = do
    auth_guard (hashed_ip_key r)
    in_world (passkey_login_finish platform lib p h r body)
  serve r (post_signup_begin body) = in_world (passkey_signup_begin platform lib p h r body)
  serve r (post_signup_finish body) = do
    signup_guard r
    in_world (passkey_signup_finish platform lib p h r body)
  serve r (post_csp_reports content_type body) = do
    guard by_csp limits.csp_limit (hashed_ip_key r) "rate limit exceeded"
    in_world (serve_http platform json h.pepper r content_type body)
  serve r (get_csp_reports limit) = do
    guard by_csp limits.csp_limit (hashed_ip_key r) "rate limit exceeded"
    in_world (recent limit)
  serve r post_logout = authed r (λ who. in_world (logout platform h r who))
  serve r post_logout_all = authed r (λ who. in_world (logout_all platform h r who))
  serve r get_me = authed r (λ who. in_world (me platform h who))
  serve r get_activity = authed r (λ who. in_world (activity who))
  serve r post_register_begin =
      authed r (λ who. in_world (passkey_register_begin platform lib p h r who))
  serve r (post_register_finish body) =
      authed r (λ who. in_world (passkey_register_finish platform lib p h r body who))
  serve r (post_totp_enroll generated) =
      authed r (λ who. in_world (totp_enroll platform h r generated who))
  serve r (post_totp_confirm body) =
      authed r
        (λ who. do auth_guard (user_rate_key who.0); in_world (totp_confirm platform h r body who))
  serve r (post_totp_disable body) =
      authed r
        (λ who. do auth_guard (user_rate_key who.0); in_world (totp_disable platform h r body who))
  serve r get_captcha_stats = authed r (λ who. in_world (Captcha.stats who))
  serve r post_captcha_reset = authed r (λ who. in_world (Captcha.reset who))
  serve r get_captcha_leaderboard = authed r (λ who. in_world (Captcha.leaderboard who))
  serve r (post_captcha_sync body) = authed r (λ who. in_world (Captcha.sync body who))
  serve r (get_prefs key) = authed r (λ who. in_world (get_pref key who))
  serve r (put_prefs key body) = authed r (λ who. in_world (set_pref key body who))
  serve r (get_notes before limit authors) =
      authed r (λ who. in_world (Notes.list parse_uuid before limit authors who))
  serve r get_notes_authors = authed r (λ who. in_world (Notes.authors who))
  serve r (post_notes body) = authed r (λ who. do
    guard by_notes limits.notes_limit (user_rate_key who.0) "rate limit exceeded"
    in_world (Notes.create body who))
  serve r (delete_notes id) = authed r (λ who. in_world (Notes.delete id who))

  -- The handler of New: the global middleware around the mux. The headers, and the answer; `none` is
  -- the 204 of a preflight. `inbound` is X-Request-Id.
  unfoldable pub handle :
      (ℕ → ℕ)
      → List Text
      → Bool
      → Text
      → Text
      → Request
      → Endpoint
      → Served F
      → List Header × Option (Result Response Response) × Served F
  unfolding request_id cors serve
  handle lower_rune allowed allow_any method inbound r e s =
      let (id, w) = request_id {E = Unit {0}} inbound s.world in
      let s' = record s { world = w } in
      let (headers, next) = cors lower_rune allowed allow_any method r.origin tt in
      let (answer, served) = serve r e s' in
      let sent = id_header id ++ security_headers ++ headers in
      elim next [ none ↦ (sent, none, s') | some _ ↦ (sent, some answer, served) ]
    where
      id_header : Result Unit Text → List Header
      id_header (ok id) = (codes "X-Request-Id", id) ∷ []
      id_header (err _) = []
