-- ===== src/Tests/Routes.antt =====
-- The theorems about the routes, at a server with one bucket per limiter.
use go_tunnels.Shared.{ℕ, ◌≡◌, refl, ◌⊎◌, [], none, some, Text, codes, err, false, text_beq, ◌>>=◌}
use go_tunnels.Text.{trim_space, has_prefix}
use go_tunnels.Store.{StoreError}
use go_tunnels.Health.{Info}
use go_tunnels.Activity.{Request}
use go_tunnels.Httpx.Reply.{write_error, invalid_json}
use go_tunnels.Httpx.RateLimiter.{RateLimiter, allow}
use go_tunnels.Auth.Sessions.{require_auth, extract_token, unauthenticated}
use go_tunnels.Tests.Data.{a_world, a_platform, a_request, some_settings}
use go_tunnels.Tests.Passkeys.{a_library, a_provider}
use go_tunnels.Tests.Web.{whole, report_json}
use go_tunnels.Server.{Limit, Limits, Served, serve, hashed_ip_key, get_me, post_signup}
use go_tunnels.Server.Guarded.{IsOpen, with_password, serve-IsOpen, signup_guarded}

abbrev one_a_second : Limit ℕ
one_a_second = record { rate = 1; capacity = 1 }

-- No limit of log-ins, as with an interval of zero.
abbrev some_limits : Limits ℕ
some_limits = record {
  csp_limit = one_a_second;
  notes_limit = one_a_second;
  signup_ip_limit = some one_a_second;
  signup_global_limit = some one_a_second;
  auth_limit = none;
}

-- The bucket of every address is empty.
abbrev spent : RateLimiter ℕ
spent = record { buckets = λ key. some (record { tokens = 0; last = 100 }); last_sweep = 100 }

abbrev a_server : Served ℕ
a_server = record {
  world = a_world;
  limiters = record {
    csp = spent;
    notes = spent;
    signup_ip = spent;
    signup_global = spent;
    auth = spent;
  };
}

abbrev an_info : Info
an_info = record {
  service = codes "gotunnels-api";
  instance_id = codes "box";
  version = codes "dev";
  csp_mode = codes "off";
  csp_policy = [];
  telemetry_on = false;
}

abbrev no_text : StoreError → Text
no_text e = []

-- No token at all.
abbrev anonymous : Request
anonymous = record a_request { authorization = [] }

serve-IsOpen_example :
    IsOpen get_me
    ⊎ (serve whole a_platform a_library a_provider some_settings some_limits
          (λ t. some t)
          report_json
          an_info
          no_text
          anonymous
          get_me
          a_server
        ≡ (err unauthenticated, a_server))
unfolding require_auth extract_token trim_space has_prefix text_beq ◌>>=◌
serve-IsOpen_example =
    serve-IsOpen whole a_platform a_library a_provider some_settings some_limits (λ t. some t)
      report_json an_info no_text anonymous get_me a_server refl

signup_guarded_example :
    serve whole a_platform a_library a_provider some_settings some_limits
      (λ t. some t)
      report_json
      an_info
      no_text
      anonymous
      (post_signup (err invalid_json))
      a_server
    ≡ (
      err (
          write_error 429 "too many signups from your network — please try again in a few minutes"),
      record a_server {
        limiters = record a_server.limiters {
          signup_ip =
              (allow whole 1 1 spent
                (hashed_ip_key whole a_platform a_library a_provider some_settings some_limits
                  (λ t. some t)
                  report_json
                  an_info
                  no_text
                  anonymous)
                100).1;
        };
      },
    )
unfolding allow
signup_guarded_example =
    signup_guarded whole a_platform a_library a_provider some_settings some_limits (λ t. some t)
      report_json an_info no_text anonymous a_server (with_password (err invalid_json)) refl refl
