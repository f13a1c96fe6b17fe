-- ===== src/Store/Reports.antt =====
-- CSP reports and health checks of internal/store/store.go.
use go_tunnels.Shared.{
  ℕ, suc, ◌^◌, Bool, ◌&&◌, List, [], ◌∷◌, ◌++◌, map, ok, err, Text, codes, ℤ, pos, negsuc, ltb,
  if◌then◌else◌, take, all, any, ◌==◌, nat_eq, text_eq, ◌||◌,
}
use go_tunnels.Text.{valid_string}
use go_tunnels.Store.Schema.{CspReportInput, StoredReport, CspReportRow, unavailable}
use go_tunnels.Store.Outside.{Platform}
use go_tunnels.Store.Table.{delete_where, count_where, order_by}
use go_tunnels.Store.Statement.{is_text, timestamptz, Query, Stored, statement}

-- The type integer of PostgreSQL.
abbrev is_integer : ℤ → Bool
is_integer (pos n) = ltb n (2 ^ 31)
is_integer (negsuc n) = ltb n (2 ^ 31)

-- The columns accept the report.
unfoldable pub is_storable : Platform → CspReportInput → Bool
unfolding valid_string all any
is_storable platform input =
    all is_text (
      input.document_uri ∷ input.referrer ∷ input.blocked_uri ∷ input.violated_directive
      ∷ input.effective_directive ∷ input.original_policy ∷ input.disposition ∷ input.source_file
      ∷ input.script_sample ∷ input.ip_hash ∷ input.user_agent ∷ [])
    && is_integer input.line_number
    && is_integer input.column_number
    && is_integer input.status_code
    && platform.jsonb_accepts input.raw

-- An empty payload is "{}".
abbrev pub with_raw : CspReportInput → CspReportInput
with_raw input = if input.raw == [] then record input { raw = codes "{}" } else input

unfoldable pub insert_report : Platform → CspReportInput → Query Unit
unfolding is_storable
insert_report platform input now d =
    if is_storable platform input
    then (
      ok tt,
      record d {
        csp_reports =
            d.csp_reports
            ++ record { id = d.next_csp_report_id; report = input; created_at = now } ∷ [];
        next_csp_report_id = suc d.next_csp_report_id;
      },
    )
    else (err unavailable, d)

-- InsertCSPReport
unfoldable pub insert_csp_report : Platform → CspReportInput → Stored Unit
insert_csp_report platform input = statement (insert_report platform (with_raw input))

unfoldable pub delete_reports : ℕ → Query ℕ
unfolding delete_where count_where
delete_reports before now d = (
  ok (count_where (λ r. ltb r.created_at before) d.csp_reports),
  record d { csp_reports = delete_where (λ r. ltb r.created_at before) d.csp_reports },
)

unfoldable pub prune_csp_reports : ℕ → Stored ℕ
prune_csp_reports before = statement (delete_reports (timestamptz before))

-- The columns of the public feed.
abbrev public_row : StoredReport → CspReportRow
public_row r = record {
  id = r.id;
  created_at = r.created_at;
  document_uri = r.report.document_uri;
  blocked_uri = r.report.blocked_uri;
  violated_directive = r.report.violated_directive;
  effective_directive = r.report.effective_directive;
  disposition = r.report.disposition;
  source_file = r.report.source_file;
  line_number = r.report.line_number;
  column_number = r.report.column_number;
  script_sample = r.report.script_sample;
}

-- limit <= 0 || limit > 200
abbrev feed_limit : ℕ → ℕ
feed_limit limit = if limit == 0 || ltb 200 limit then 50 else limit

-- ORDER BY id DESC
unfoldable pub select_recent : ℕ → Query (List CspReportRow)
unfolding order_by
select_recent limit now d =
    (ok (map public_row (take limit (order_by (λ r s. ltb s.id r.id) d.csp_reports))), d)

unfoldable pub list_recent_csp_reports : ℕ → Stored (List CspReportRow)
list_recent_csp_reports limit = statement (select_recent (feed_limit limit))

unfoldable pub insert_check : Text → Text → ℕ → Text → Query Unit
unfolding valid_string any
insert_check name status latency detail now d =
    if is_text name && is_text status && is_text detail
    then (
      ok tt,
      record d {
        health_check_log =
            d.health_check_log
            ++ record {
              id = d.next_health_check_id;
              check_name = name;
              status = status;
              latency = latency;
              detail = detail;
              created_at = now;
            }
              ∷ [];
        next_health_check_id = suc d.next_health_check_id;
      },
    )
    else (err unavailable, d)

unfoldable pub insert_health_check : Text → Text → ℕ → Text → Stored Unit
insert_health_check name status latency detail = statement (insert_check name status latency detail)

unfoldable pub delete_checks : ℕ → Query ℕ
unfolding delete_where count_where
delete_checks before now d = (
  ok (count_where (λ r. ltb r.created_at before) d.health_check_log),
  record d { health_check_log = delete_where (λ r. ltb r.created_at before) d.health_check_log },
)

unfoldable pub prune_health_checks : ℕ → Stored ℕ
prune_health_checks before = statement (delete_checks (timestamptz before))

-- Ping
unfoldable pub ping : Stored Unit
ping = statement (λ now d. (ok tt, d))
