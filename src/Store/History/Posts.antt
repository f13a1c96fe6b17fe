-- ===== src/Store/History/Posts.antt =====
-- The calls of internal/store/store.go that write to statistics, preferences, notes, reports and health checks.
use go_tunnels.Shared.{
  ◌&&◌, ℕ, List, Text, ◌^◌, ltb, Bool-cases, Option-cases, inl, inr, any, ◌==◌, text_eq,
}
use go_tunnels.Store.Schema.{
  Db, CaptchaStats, PrefRow, NoteRow, StoredReport, HealthCheck, CspReportInput,
}
use go_tunnels.Store.Outside.{Platform}
use go_tunnels.Store.Table.{find}
use go_tunnels.Store.Statement.{
  timestamptz, is_text, World, QueryKeeps, statement-Keeps, checked_insert-keeps, timestamptz,
}
use go_tunnels.Store.Captcha.{
  CaptchaSyncInput, upsert_captcha_stats, delete_stats_rows, merged_stats, stats_of,
  sync_captcha_stats, delete_captcha_stats,
}
use go_tunnels.Store.Prefs.{is_pref, pref_fits, upsert_pref, write_pref, set_user_pref}
use go_tunnels.Store.Notes.{body_fits, insert_note, delete_own_note, create_note, delete_note}
use go_tunnels.Store.Reports.{
  is_storable, insert_report, insert_check, delete_reports, delete_checks, with_raw,
  insert_csp_report, insert_health_check, prune_csp_reports, prune_health_checks,
}
use go_tunnels.Store.History.{
  Post, syncs_stats, deletes_stats, sets_pref, creates_note, deletes_note, inserts_report,
  inserts_check, prunes_reports, prunes_checks, perform_post,
}

-- A predicate that does not look at these tables.
pub record Ignores (P : Db → Type 0) : Type 0 where
  pub at :
      (d : Db) (stats : List CaptchaStats) (prefs : List PrefRow) (notes : List NoteRow)
      (reports : List StoredReport) (checks : List HealthCheck) (note report check : ℕ)
      → P d
      → P (record d {
        captcha_stats = stats;
        user_prefs = prefs;
        notes = notes;
        csp_reports = reports;
        health_check_log = checks;
        next_note_id = note;
        next_csp_report_id = report;
        next_health_check_id = check;
      })

-- Every statement of the call keeps `P`.
abbrev pub StablePost : (Db → Type 0) → Post → Type 0
StablePost P (syncs_stats user_id e) = QueryKeeps P (upsert_captcha_stats user_id e)
StablePost P (deletes_stats user_id) = QueryKeeps P (delete_stats_rows user_id)
StablePost P (sets_pref user_id key value) = QueryKeeps P (upsert_pref user_id key value)
StablePost P (creates_note user_id body) = QueryKeeps P (insert_note user_id body)
StablePost P (deletes_note id user_id) = QueryKeeps P (delete_own_note id user_id)
StablePost P (inserts_report input) =
    (platform : Platform) → QueryKeeps P (insert_report platform (with_raw input))
StablePost P (inserts_check name status latency detail) =
    QueryKeeps P (insert_check name status latency detail)
StablePost P (prunes_reports before) = QueryKeeps P (delete_reports (timestamptz before))
StablePost P (prunes_checks before) = QueryKeeps P (delete_checks (timestamptz before))

module _ (platform : Platform) (P : Db → Type 0) where
  pub perform_post-keeps :
      (p : Post) (w : World) → StablePost P p → P w.db → P (perform_post platform p w).db
  unfolding perform_post sync_captcha_stats delete_captcha_stats set_user_pref create_note
      delete_note insert_csp_report insert_health_check prune_csp_reports prune_health_checks
  perform_post-keeps (syncs_stats user_id e) w k = (statement-Keeps {P = P} _ k).at w
  perform_post-keeps (deletes_stats user_id) w k = (statement-Keeps {P = P} _ k).at w
  perform_post-keeps (sets_pref user_id key value) w k = (statement-Keeps {P = P} _ k).at w
  perform_post-keeps (creates_note user_id body) w k = (statement-Keeps {P = P} _ k).at w
  perform_post-keeps (deletes_note id user_id) w k = (statement-Keeps {P = P} _ k).at w
  perform_post-keeps (inserts_report input) w k = (statement-Keeps {P = P} _ (k platform)).at w
  perform_post-keeps (inserts_check name status latency detail) w k =
      (statement-Keeps {P = P} _ k).at w
  perform_post-keeps (prunes_reports before) w k = (statement-Keeps {P = P} _ k).at w
  perform_post-keeps (prunes_checks before) w k = (statement-Keeps {P = P} _ k).at w

-- A call that writes to these tables keeps what does not look at them.
module _ (P : Db → Type 0) (ignores : Ignores P) where
  stats-Ignores :
      (user_id : Text) (e : CaptchaSyncInput) → QueryKeeps P (upsert_captcha_stats user_id e)
  unfolding upsert_captcha_stats
  stats-Ignores user_id e now d h = elim (Option-cases (find (stats_of user_id) d.captcha_stats)) [
    | inl fresh ↦
        rw (fresh, upsert_captcha_stats)
          (checked_insert-keeps P _ _ _ _ _ h (λ _ _.
            ignores.at d _ d.user_prefs d.notes d.csp_reports d.health_check_log d.next_note_id
              d.next_csp_report_id d.next_health_check_id h))
    | inr (r, known) ↦ elim (Bool-cases (ltb (merged_stats e now r).total_solves (2 ^ 63))) [
      | inl fits ↦
          rw (known, fits, upsert_captcha_stats)
            (ignores.at d _ d.user_prefs d.notes d.csp_reports d.health_check_log d.next_note_id
              d.next_csp_report_id d.next_health_check_id h)
      | inr wide ↦ rw (known, wide, upsert_captcha_stats) h
    ]
  ]

  prefs-Ignores : (user_id key value : Text) → QueryKeeps P (upsert_pref user_id key value)
  unfolding upsert_pref write_pref
  prefs-Ignores user_id key value now d h = elim (Bool-cases (is_text key && is_text value)) [
    | inr broken ↦ rw (broken, upsert_pref) h
    | inl text ↦ elim (Bool-cases (pref_fits key value)) [
      | inr large ↦ rw (text, large, upsert_pref) h
      | inl fits ↦ elim (Bool-cases (any (is_pref user_id key) d.user_prefs)) [
        | inl known ↦
            rw (text, fits, known, upsert_pref, write_pref)
              (ignores.at d d.captcha_stats _ d.notes d.csp_reports d.health_check_log
                d.next_note_id d.next_csp_report_id d.next_health_check_id h)
        | inr fresh ↦
            rw (text, fits, fresh, upsert_pref, write_pref)
              (checked_insert-keeps P _ _ _ _ _ h (λ _ _.
                ignores.at d d.captcha_stats _ d.notes d.csp_reports d.health_check_log
                  d.next_note_id d.next_csp_report_id d.next_health_check_id h))
      ]
    ]
  ]

  insert_note-Ignores : (user_id body : Text) → QueryKeeps P (insert_note user_id body)
  unfolding insert_note
  insert_note-Ignores user_id body now d h = elim (Bool-cases (body_fits body)) [
    | inr large ↦ rw (large, insert_note) h
    | inl fits ↦ elim (Option-cases (find (λ u. u.user.id == user_id) d.users)) [
      | inl gone ↦ rw (fits, gone, insert_note) h
      | inr (u, known) ↦
          rw (fits, known, insert_note)
            (ignores.at d d.captcha_stats d.user_prefs _ d.csp_reports d.health_check_log _
              d.next_csp_report_id d.next_health_check_id h)
    ]
  ]

  insert_report-Ignores :
      (input : CspReportInput) (platform : Platform) → QueryKeeps P (insert_report platform input)
  unfolding insert_report
  insert_report-Ignores input platform now d h = elim (Bool-cases (is_storable platform input)) [
    | inr broken ↦ rw (broken, insert_report) h
    | inl text ↦
        rw (text, insert_report)
          (ignores.at d d.captcha_stats d.user_prefs d.notes _ d.health_check_log d.next_note_id _
            d.next_health_check_id h)
  ]

  insert_check-Ignores :
      (name status : Text) (latency : ℕ) (detail : Text)
      → QueryKeeps P (insert_check name status latency detail)
  unfolding insert_check
  insert_check-Ignores name status latency detail now d h =
      elim (Bool-cases (is_text name && is_text status && is_text detail)) [
        | inr broken ↦ rw (broken, insert_check) h
        | inl text ↦
            rw (text, insert_check)
              (ignores.at d d.captcha_stats d.user_prefs d.notes d.csp_reports _ d.next_note_id
                d.next_csp_report_id _ h)
      ]

  pub Ignores-StablePost : (p : Post) → StablePost P p
  unfolding delete_stats_rows delete_own_note delete_reports delete_checks
  Ignores-StablePost (syncs_stats user_id e) = stats-Ignores user_id e
  Ignores-StablePost (deletes_stats user_id) = λ now d h.
      ignores.at d _ d.user_prefs d.notes d.csp_reports d.health_check_log d.next_note_id
        d.next_csp_report_id d.next_health_check_id h
  Ignores-StablePost (sets_pref user_id key value) = prefs-Ignores user_id key value
  Ignores-StablePost (creates_note user_id body) = insert_note-Ignores user_id body
  Ignores-StablePost (deletes_note id user_id) = λ now d h.
      ignores.at d d.captcha_stats d.user_prefs _ d.csp_reports d.health_check_log d.next_note_id
        d.next_csp_report_id d.next_health_check_id h
  Ignores-StablePost (inserts_report input) = insert_report-Ignores (with_raw input)
  Ignores-StablePost (inserts_check name status latency detail) =
      insert_check-Ignores name status latency detail
  Ignores-StablePost (prunes_reports before) = λ now d h.
      ignores.at d d.captcha_stats d.user_prefs d.notes _ d.health_check_log d.next_note_id
        d.next_csp_report_id d.next_health_check_id h
  Ignores-StablePost (prunes_checks before) = λ now d h.
      ignores.at d d.captcha_stats d.user_prefs d.notes d.csp_reports _ d.next_note_id
        d.next_csp_report_id d.next_health_check_id h
