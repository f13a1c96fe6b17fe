-- ===== src/Maintenance.antt =====
-- internal/maintenance/maintenance.go: one housekeeping pass.
pub mod Janitor
use go_tunnels.Shared.{
  ℕ, zero, suc, ◌-◌, List, [], ◌∷◌, ◌++◌, ℤ, pos, negsuc, Result, ok, err, pure, catch, ◌>>=◌, Exec,
  Option, none, some,
}
use go_tunnels.Store.{World, Stored, StoreError}
use go_tunnels.Auth.Codes.{time_now}

-- The interface that the janitor needs of the store.
pub record Pruner : Type 0 where
  pub delete_expired_flows : Stored ℕ
  pub prune_health_checks : ℕ → Stored ℕ
  pub prune_csp_reports : ℕ → Stored ℕ

-- Config, without the interval of the ticker; durations are nanoseconds.
pub record JanitorConfig : Type 0 where
  pub health_log_retention : ℤ
  pub csp_report_retention : ℤ

-- A step that cannot fail; the errors are collected.
abbrev pub Pass : Type 0 → Type 0
Pass A = Exec World Unit A

-- One step of the pass: its error, if any.
unfoldable pub step : Stored ℕ → Pass (List StoreError)
step m = catch (do n ← m; pure []) (λ e. pure (e ∷ []))

-- A step for a retention, which 0 turns off. `now.Add(-d)` is never before the epoch of the instants.
unfoldable pub retained : ℤ → ℕ → (ℕ → Stored ℕ) → Pass (List StoreError)
unfolding step
retained (pos (suc d)) now prune = step (prune (now - suc d))
retained (pos zero) now prune = pure []
retained (negsuc d) now prune = pure []

-- RunOnce: every step runs, and the errors come back together.
unfoldable pub run_once : Pruner → JanitorConfig → Pass (List StoreError)
unfolding step retained time_now
run_once store cfg = do
  now ← time_now
  flows ← step store.delete_expired_flows
  health ← retained cfg.health_log_retention now store.prune_health_checks
  reports ← retained cfg.csp_report_retention now store.prune_csp_reports
  pure (flows ++ health ++ reports)
