-- ===== src/Maintenance/Janitor.antt =====
-- RunOnce of internal/maintenance/maintenance.go over the store's tables.
use go_tunnels.Shared.{
  ℕ, zero, suc, ◌-◌, ◌≤◌, ◌≡◌, ◌⊎◌, Bool, List, [], ◌∷◌, ◌++◌, ℤ, pos, negsuc, ltb, leb,
}
use go_tunnels.Store.{World, Db, StoreError, unavailable, delete_where}
use go_tunnels.Store.Statement.{timestamptz}
use go_tunnels.Store.Flows.{delete_expired_flows}
use go_tunnels.Store.Reports.{prune_health_checks, prune_csp_reports}
use go_tunnels.Maintenance.{Pruner, JanitorConfig}

-- The store as the janitor's interface.
abbrev pub store_pruner : Pruner
store_pruner = record {
  delete_expired_flows = delete_expired_flows;
  prune_health_checks = prune_health_checks;
  prune_csp_reports = prune_csp_reports;
}

-- A step did what it is for, or it reports that the database is unavailable and changed nothing.
pub data Outcome {R : Type 0} (stale : R → Bool) (before after : List R) (errors : List StoreError)
    : Type 0 where
  done : errors ≡ [] → after ≡ delete_where stale before → Outcome stale before after errors
  failed : errors ≡ unavailable ∷ [] → after ≡ before → Outcome stale before after errors

-- A step that a retention of 0, or less, turns off.
abbrev pub RetainedOutcome :
    {R : Type 0} → ℤ → ℕ → (ℕ → R → Bool) → List R → List R → List StoreError → Type 0
RetainedOutcome (pos (suc d)) now older before after errors =
    Outcome (older (now - suc d)) before after errors
RetainedOutcome (pos zero) now older before after errors = (errors ≡ []) × (after ≡ before)
RetainedOutcome (negsuc d) now older before after errors = (errors ≡ []) × (after ≡ before)

-- The outcomes of the three steps of a pass.
pub record IsPassed (cfg : JanitorConfig) (w v : World) (errors : List StoreError) : Type 0 where
  pub flow_errors : List StoreError
  pub health_errors : List StoreError
  pub report_errors : List StoreError
  pub collected : errors ≡ flow_errors ++ health_errors ++ report_errors
  pub now : ℕ
  pub not_before : w.clock ≤ now
  pub not_after : now ≤ v.clock
  pub flows :
      Outcome (λ f. leb f.expires_at now) w.db.webauthn_flows v.db.webauthn_flows flow_errors
  pub health :
      RetainedOutcome cfg.health_log_retention w.clock
        (λ before r. ltb r.created_at (timestamptz before))
        w.db.health_check_log
        v.db.health_check_log
        health_errors
  pub reports :
      RetainedOutcome cfg.csp_report_retention w.clock
        (λ before r. ltb r.created_at (timestamptz before))
        w.db.csp_reports
        v.db.csp_reports
        report_errors

-- What a step does to the tables.
StepTo : (ℕ → Db → Db) → World → World → List StoreError → Type 0
StepTo change w v errors =
    ((errors ≡ unavailable ∷ []) × (v.db ≡ w.db)) ⊎ ((errors ≡ []) × (v.db ≡ change v.clock w.db))
