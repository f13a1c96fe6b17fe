-- ===== src/Captcha.antt =====
-- internal/captcha/captcha.go: the handlers of the CAPTCHA statistics, after RequireAuth.
pub mod Counts
pub mod Board
use go_tunnels.Shared.{
  ℕ, ◌*◌, ◌^◌, Bool, Option, none, some, Text, ℤ, pos, negsuc, ltb, if◌then◌else◌, Result, ok, err,
  pure, stop, ◌>>=◌, ◌>>◌,
}
use go_tunnels.Store.{World, User, CaptchaStats}
use go_tunnels.Store.Captcha.{
  CaptchaSyncInput, sync_captcha_stats, get_captcha_stats, delete_captcha_stats,
}
use go_tunnels.Store.Summaries.{captcha_leaderboard, captcha_rank}
use go_tunnels.Httpx.Reply.{
  board_body, Response, Handler, DecodeProblem, decode_json, or_server_error, write_json,
  stats_body, status_word,
}
use go_tunnels.Auth.Sessions.{found}

abbrev pub max_delta_per_sync : ℕ
max_delta_per_sync = 100000

abbrev pub max_streak : ℕ
max_streak = 1000000000

-- The client's numbers are 64-bit integers.
pub record SyncRequest : Type 0 where
  pub manual_delta : ℤ
  pub auto_delta : ℤ
  pub current_streak : ℤ
  pub best_streak : ℤ

-- clamp(v, 0, hi)
unfoldable pub clamp : ℤ → ℕ → ℕ
clamp (pos n) hi = if ltb hi n then hi else n
clamp (negsuc n) hi = 0

abbrev max_of : ℕ → ℕ → ℕ
max_of a b = if ltb a b then b else a

unfoldable pub clamp_sync : SyncRequest → CaptchaSyncInput
unfolding clamp
clamp_sync e = record {
  manual_delta = clamp e.manual_delta max_delta_per_sync;
  auto_delta = clamp e.auto_delta max_delta_per_sync;
  current_streak = clamp e.current_streak max_streak;
  best_streak = max_of (clamp e.best_streak max_streak) (clamp e.current_streak max_streak);
}

-- The record of a user who has never synced; its time is Go's zero time.
abbrev zero_stats : Text → CaptchaStats
zero_stats user_id = record {
  user_id = user_id;
  best_streak = 0;
  current_streak = 0;
  total_solves = 0;
  manual_solves = 0;
  auto_solves = 0;
  updated_at = 0;
}

abbrev stats_or_zero : Text → Option CaptchaStats → CaptchaStats
stats_or_zero user_id none = zero_stats user_id
stats_or_zero user_id (some stats) = stats

unfoldable pub stats : User × Text → Handler Response
stats (user, _) = do
  row ← found (get_captcha_stats user.id)
  pure (write_json 200 (stats_body (stats_or_zero user.id row)))

unfoldable pub sync : Result DecodeProblem SyncRequest → User × Text → Handler Response
unfolding clamp_sync
sync body (user, _) = do
  req ← decode_json body
  row ← or_server_error (sync_captcha_stats user.id (clamp_sync req))
  pure (write_json 200 (stats_body row))

unfoldable pub reset : User × Text → Handler Response
reset (user, _) = do
  or_server_error (delete_captcha_stats user.id)
  pure (write_json 200 (status_word "reset"))

abbrev leaderboard_size : ℕ
leaderboard_size = 10

-- Leaderboard: the top players, and the caller's own row, if there is one.
unfoldable pub leaderboard : User × Text → Handler Response
leaderboard (user, _) = do
  rows ← or_server_error (captcha_leaderboard leaderboard_size)
  mine ← found (captcha_rank user.id)
  pure (write_json 200 (board_body rows mine))
