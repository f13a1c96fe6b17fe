-- ===== src/Health.antt =====
-- internal/health/health.go: the probes and the info endpoint.
use go_tunnels.Shared.{
  ℕ, ◌-◌, ◌/◌, Bool, [], Option, none, some, Text, codes, pure, catch, ◌>>=◌, ◌>>◌,
}
use go_tunnels.Store.{StoreError}
use go_tunnels.Store.Reports.{ping, insert_health_check}
use go_tunnels.Httpx.Reply.{Response, Handler, write_json, alive_body, probe_body, info_body}
use go_tunnels.Auth.Codes.{time_now}
use go_tunnels.Auth.Sessions.{attempt}

pub record Info : Type 0 where
  pub service : Text
  pub instance_id : Text
  pub version : Text
  pub csp_mode : Text
  pub csp_policy : Text
  pub telemetry_on : Bool

unfoldable pub live : Info → Response
live info = write_json 200 (alive_body info.service info.instance_id)

-- The answer, for the error of the ping.
abbrev verdict : Option Text → Text
verdict none = codes "ok"
verdict (some e) = codes "fail"

abbrev verdict_code : Option Text → ℕ
verdict_code none = 200
verdict_code (some e) = 503

abbrev verdict_detail : Option Text → Text
verdict_detail none = []
verdict_detail (some e) = e

-- Ready; `error_text` is the text of the ping's error. The latency is in microseconds.
unfoldable pub ready : (StoreError → Text) → Handler Response
ready error_text = do
  start ← time_now
  failed ← catch (do ping; pure none) (λ e. pure (some (error_text e)))
  end ← time_now
  let latency = (end - start) / 1000
  attempt (insert_health_check (codes "database") (verdict failed) latency (verdict_detail failed))
  pure (write_json (verdict_code failed) (probe_body (verdict failed) latency))

-- InfoHandler
unfoldable pub info_handler : Info → Response
info_handler info = write_json 200 (
    info_body info.service info.instance_id info.version info.csp_mode info.csp_policy
      info.telemetry_on)
