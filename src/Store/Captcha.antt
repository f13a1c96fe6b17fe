-- ===== src/Store/Captcha.antt =====
-- The CAPTCHA statistics of internal/store/store.go (SyncCaptchaStats, GetCaptchaStats,
-- DeleteCaptchaStats).
use go_tunnels.Shared.{
  ℕ, ◌+◌, ◌^◌, Bool, [], ◌∷◌, ◌++◌, none, some, ok, err, Text, ltb, if◌then◌else◌, ◌==◌, text_eq,
  any, Result, false,
}
use go_tunnels.Store.Schema.{Db, CaptchaStats, unavailable, StoreError}
use go_tunnels.Store.Table.{find, update_where, delete_where}
use go_tunnels.Store.Statement.{Query, Stored, statement, checked_insert, or_not_found}

-- CaptchaSyncInput, with the numbers that clampSync lets through, which are not negative.
pub record CaptchaSyncInput : Type 0 where
  pub manual_delta : ℕ
  pub auto_delta : ℕ
  pub current_streak : ℕ
  pub best_streak : ℕ

abbrev pub stats_of : Text → CaptchaStats → Bool
stats_of user_id r = r.user_id == user_id

abbrev greatest : ℕ → ℕ → ℕ
greatest a b = if ltb a b then b else a

abbrev pub first_stats : Text → CaptchaSyncInput → ℕ → CaptchaStats
first_stats user_id e now = record {
  user_id = user_id;
  best_streak = e.best_streak;
  current_streak = e.current_streak;
  total_solves = e.manual_delta + e.auto_delta;
  manual_solves = e.manual_delta;
  auto_solves = e.auto_delta;
  updated_at = now;
}

-- ON CONFLICT (user_id) DO UPDATE SET …
unfoldable pub merged_stats : CaptchaSyncInput → ℕ → CaptchaStats → CaptchaStats
merged_stats e now r = record {
  user_id = r.user_id;
  best_streak = greatest r.best_streak e.best_streak;
  current_streak = e.current_streak;
  total_solves = r.total_solves + e.manual_delta + e.auto_delta;
  manual_solves = r.manual_solves + e.manual_delta;
  auto_solves = r.auto_solves + e.auto_delta;
  updated_at = now;
}

-- The row that a sync merges with; a sum that is no bigint is an error.
abbrev merge_stats :
    Text → CaptchaSyncInput → ℕ → Db → CaptchaStats → Result StoreError CaptchaStats × Db
merge_stats user_id e now d r =
    if ltb (merged_stats e now r).total_solves (2 ^ 63)
    then (
      ok (merged_stats e now r),
      record d {
        captcha_stats = update_where (stats_of user_id) (merged_stats e now) d.captcha_stats;
      },
    )
    else (err unavailable, d)

abbrev insert_stats : Text → CaptchaSyncInput → ℕ → Db → Result StoreError CaptchaStats × Db
insert_stats user_id e now d =
    checked_insert false (any (λ u. u.user.id == user_id) d.users) (first_stats user_id e now) d
      (record d { captcha_stats = d.captcha_stats ++ first_stats user_id e now ∷ [] })

unfoldable pub upsert_captcha_stats : Text → CaptchaSyncInput → Query CaptchaStats
unfolding find update_where any merged_stats
upsert_captcha_stats user_id e now d = elim (find (stats_of user_id) d.captcha_stats) [
  | none ↦ insert_stats user_id e now d
  | some r ↦ merge_stats user_id e now d r
]

unfoldable pub sync_captcha_stats : Text → CaptchaSyncInput → Stored CaptchaStats
sync_captcha_stats user_id e = statement (upsert_captcha_stats user_id e)

unfoldable pub select_captcha_stats : Text → Query CaptchaStats
unfolding find
select_captcha_stats user_id now d = (or_not_found (find (stats_of user_id) d.captcha_stats), d)

unfoldable pub get_captcha_stats : Text → Stored CaptchaStats
get_captcha_stats user_id = statement (select_captcha_stats user_id)

unfoldable pub delete_stats_rows : Text → Query Unit
unfolding delete_where
delete_stats_rows user_id now d =
    (ok tt, record d { captcha_stats = delete_where (stats_of user_id) d.captcha_stats })

unfoldable pub delete_captcha_stats : Text → Stored Unit
delete_captcha_stats user_id = statement (delete_stats_rows user_id)
