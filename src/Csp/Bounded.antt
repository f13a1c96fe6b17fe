-- ===== src/Csp/Bounded.antt =====
-- ServeHTTP of internal/csp/csp.go: what a request can store.
use mathlib.Core.List.{append_assoc, append-nil}
use go_tunnels.Shared.{
  ℕ, suc, ◌+◌, ◌≤◌, ◌≡◌, refl, sym, ap, ◌∙◌, inl, inr, List, [], ◌∷◌, ◌++◌, Option, none, some,
  Text, Result, ok, err, length, take, length-append, length-take, All, All-append, arith,
  Bool-cases, Result-cases, pure, catch, >>=-eq,
}
use go_tunnels.Store.{World, Platform, Stored, CspReportInput, StoredReport}
use go_tunnels.Store.Statement.{statement-cases}
use go_tunnels.Store.Reports.{insert_csp_report, insert_report, is_storable, with_raw}
use go_tunnels.Httpx.Reply.{no_content}
use go_tunnels.Activity.{Request, hash_ip, client_ip}
use go_tunnels.Auth.Sessions.{attempt}
use go_tunnels.Csp.{
  ReportJson, max_reports_per_request, max_user_agent_len, truncate_runes, store_reports,
  accept_reports, serve_http, String,
}

-- The rows that a request added: at most so many, all filed under the hash of one address.
pub record IsAdded (ip : Text) (n : ℕ) (w v : World) : Type 0 where
  pub rows : List StoredReport
  pub appended : v.db.csp_reports ≡ w.db.csp_reports ++ rows
  pub bounded : length rows ≤ n
  pub filed : All (λ row. row.report.ip_hash ≡ ip) rows

attempt-ok : (m : Stored Unit) (w : World) → ((attempt m w).0 ≡ ok tt) × ((attempt m w).1 ≡ (m w).1)
unfolding attempt catch pure
attempt-ok m w = elim (Result-cases (m w).0) [
  | inl (tt, e) ↦ (rw e refl, rw e refl)
  | inr (x, e) ↦ (rw e refl, rw e refl)
]

IsAdded-none :
    (ip : Text) (n : ℕ) (w v : World) → v.db.csp_reports ≡ w.db.csp_reports → IsAdded ip n w v
IsAdded-none ip n w v same = record {
  rows = [];
  appended = same ∙ sym (append-nil w.db.csp_reports);
  bounded = omega arith;
  filed = tt;
}

IsAdded-both :
    (ip : Text) (m n : ℕ) (u v w : World)
    → IsAdded ip m u v
    → IsAdded ip n v w
    → IsAdded ip (m + n) u w
IsAdded-both ip m n u v w a b = record {
  rows = a.rows ++ b.rows;
  appended =
      b.appended ∙ ap (λ t. t ++ b.rows) a.appended ∙ append_assoc u.db.csp_reports a.rows b.rows;
  bounded = omega (arith, length-append a.rows b.rows, a.bounded, b.bounded);
  filed = All-append (λ row. row.report.ip_hash ≡ ip) a.rows b.rows a.filed b.filed;
}

with_raw-ip_hash : (r : CspReportInput) → (with_raw r).ip_hash ≡ r.ip_hash
with_raw-ip_hash r = ground arith

module _ (platform : Platform) where
  insert-IsAdded :
      (r : CspReportInput) (w : World) → IsAdded r.ip_hash 1 w (insert_csp_report platform r w).1
  unfolding insert_csp_report insert_report
  insert-IsAdded r w = elim (statement-cases (insert_report platform (with_raw r)) w) [
    | inl (down, same) ↦ IsAdded-none _ _ w _ (ap (λ d. d.csp_reports) same)
    | inr (now, le, e, same) ↦ elim (Bool-cases (is_storable platform (with_raw r))) [
      | inr refused ↦ IsAdded-none _ _ w _ (ap (λ d. d.csp_reports) same ∙ rw refused refl)
      | inl fine ↦ record {
        rows = record { id = w.db.next_csp_report_id; report = with_raw r; created_at = now } ∷ [];
        appended = ap (λ d. d.csp_reports) same ∙ rw fine refl;
        bounded = omega arith;
        filed = (with_raw-ip_hash r, tt);
      }
    ]
  ]

module _ (platform : Platform) (json : ReportJson) (pepper : Text) where
  store_reports-IsAdded :
      (ip ua : Text) (rs : List CspReportInput) (w : World)
      → ((store_reports platform json pepper ip ua rs w).0 ≡ ok tt)
        × IsAdded ip (length rs) w (store_reports platform json pepper ip ua rs w).1
  unfolding store_reports pure
  store_reports-IsAdded ip ua [] w = (refl, IsAdded-none ip 0 w w refl)
  store_reports-IsAdded ip ua (r ∷ rs) w =
      let one : Stored Unit =
        insert_csp_report platform (record r { ip_hash = ip; user_agent = ua }) in
      let (went, state) = attempt-ok one w in
      let (rest, added) = store_reports-IsAdded ip ua rs (attempt one w).1 in
      let first : IsAdded ip 1 w (attempt one w).1 =
        rw state (insert-IsAdded platform (record r { ip_hash = ip; user_agent = ua }) w) in
      let all_added : IsAdded ip (suc (length rs)) w
          (store_reports platform json pepper ip ua rs (attempt one w).1).1 =
        more (IsAdded-both ip 1 (length rs) w _ _ first added) in
      let next : store_reports platform json pepper ip ua (r ∷ rs) w
          ≡ store_reports platform json pepper ip ua rs (attempt one w).1 =
        >>=-eq (attempt one) _ w went in
      (ap (λ q. q.0) next ∙ rest, rw next all_added)
    where
      more : {v : World} → IsAdded ip (1 + length rs) w v → IsAdded ip (suc (length rs)) w v
      more a = record {
        rows = a.rows;
        appended = a.appended;
        bounded = omega (arith, a.bounded);
        filed = a.filed;
      }

  accept_reports-IsAdded :
      (r : Request) (o : Result String (List CspReportInput)) (w : World)
      → ((accept_reports platform json pepper r o w).0 ≡ ok no_content)
        × IsAdded
            (hash_ip platform pepper (client_ip r))
            20
            w
            (accept_reports platform json pepper r o w).1
  unfolding accept_reports pure
  accept_reports-IsAdded r (err problem) w = (refl, IsAdded-none _ 20 w w refl)
  accept_reports-IsAdded r (ok reports) w =
      let ip = hash_ip platform pepper (client_ip r) in
      let ua = truncate_runes r.user_agent max_user_agent_len in
      let (went, added) = store_reports-IsAdded ip ua (take max_reports_per_request reports) w in
      let state =
        >>=-eq (store_reports platform json pepper ip ua (take max_reports_per_request reports))
          (λ _. pure no_content) w went in
      (
        ap (λ q. q.0) state,
        rw state (record {
          rows = added.rows;
          appended = added.appended;
          bounded = omega (arith, added.bounded, length-take 20 reports);
          filed = added.filed;
        }),
      )

  -- A report request is always answered with 204, whatever its body and whatever the database does; it adds
  -- at most 20 rows to the reports, all filed under the hash of the client's address, and changes no
  -- other row of that table.
  pub serve_http-IsAdded :
      (r : Request) (content_type : Text) (body : Option Text) (w : World)
      → ((serve_http platform json pepper r content_type body w).0 ≡ ok no_content)
        × IsAdded
            (hash_ip platform pepper (client_ip r))
            20
            w
            (serve_http platform json pepper r content_type body w).1
  unfolding serve_http pure
  serve_http-IsAdded r content_type none w = (refl, IsAdded-none _ 20 w w refl)
  serve_http-IsAdded r content_type (some body) w = accept_reports-IsAdded r _ w
