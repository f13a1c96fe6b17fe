-- ===== src/Csp.antt =====
-- internal/csp/csp.go: the normalisation of CSP reports, and their handlers.
pub mod Bounded
use Prim.Native.String.{String}
use go_tunnels.Shared.{
  ℕ, zero, suc, ◌*◌, Bool, true, false, not, ◌&&◌, ◌||◌, List, [], ◌∷◌, ◌++◌, map, Option, none,
  some, Text, codes, ℤ, pos, Result, ok, err, ltb, leb, if◌then◌else◌, length, take, ◌==◌, nat_eq,
  text_eq, pure, stop, ◌>>=◌, ◌>>◌,
}
use mathlib.Core.List.{flat_map}
use go_tunnels.Text.{trim_space, to_lower, runes, encode_rune, parse_int}
use go_tunnels.Store.{Stored, Platform, CspReportInput, CspReportRow}
use go_tunnels.Store.Reports.{insert_csp_report, list_recent_csp_reports}
use go_tunnels.Httpx.Reply.{
  Response, Handler, write_json, write_error, or_server_error, no_content, reports_body,
}
use go_tunnels.Activity.{Request, hash_ip, client_ip}
use go_tunnels.Auth.Passkey.{until_byte}
use go_tunnels.Auth.Sessions.{attempt}

-- The members that the three shapes of a report share, under their own names in each.
pub record Violation : Type 0 where
  pub document_uri : Text
  pub referrer : Text
  pub blocked_uri : Text
  pub violated_directive : Text
  pub effective_directive : Text
  pub original_policy : Text
  pub disposition : Text
  pub source_file : Text
  pub sample : Text
  pub line_number : ℤ
  pub column_number : ℤ
  pub status_code : ℤ

-- reportingItem
pub record ReportingItem : Type 0 where
  pub kind : Text
  pub url : Text
  pub body : Violation

-- json.Unmarshal into the structs of the package; `none` is an error.
pub record ReportJson : Type 0 where
  -- the csp-report member of an object, if it has one
  pub probe : Text → Option (Option Violation)
  -- the raw items of an array
  pub items : Text → Option (List Text)
  pub reporting_item : Text → Option ReportingItem
  pub custom_report : Text → Option Violation

abbrev legacy_media_type : Text
legacy_media_type = codes "application/csp-report"

-- firstNonEmpty of two values
abbrev pub first_non_empty : Text → Text → Text
first_non_empty a b = if a == [] then b else a

-- The normalised report, with the document and the directive that it is filed under.
abbrev report_of : Violation → Text → Text → Text → CspReportInput
report_of v document directive raw = record {
  document_uri = document;
  referrer = v.referrer;
  blocked_uri = v.blocked_uri;
  violated_directive = directive;
  effective_directive = v.effective_directive;
  original_policy = v.original_policy;
  disposition = v.disposition;
  source_file = v.source_file;
  line_number = v.line_number;
  column_number = v.column_number;
  status_code = v.status_code;
  script_sample = v.sample;
  ip_hash = [];
  user_agent = [];
  raw = raw;
}

-- legacyReport.normalize
unfoldable pub normalize_legacy : Violation → Text → CspReportInput
normalize_legacy v raw = report_of v v.document_uri v.violated_directive raw

unfoldable pub media_type : Platform → Text → Text
unfolding until_byte trim_space to_lower
media_type platform ct = to_lower platform.lower_rune (trim_space (until_byte b';' ct))

module _ (json : ReportJson) where
  -- The violation of a custom body, unless nothing in it says what was violated.
  abbrev custom_of : Text → Violation → Option CspReportInput
  custom_of v c =
      if c.document_uri == []
        && c.violated_directive == []
        && c.effective_directive == []
        && c.blocked_uri == []
      then none
      else some (
          report_of c c.document_uri (first_non_empty c.violated_directive c.effective_directive) v)

  unfoldable pub parse_custom : Text → Option CspReportInput
  parse_custom v = elim (json.custom_report v) [ none ↦ none | some c ↦ custom_of v c ]

  unrecognised : Option CspReportInput → Result String (List CspReportInput)
  unrecognised none = err "csp: unrecognised report shape"
  unrecognised (some r) = ok (r ∷ [])

  unfoldable pub parse_object : Bool → Text → Result String (List CspReportInput)
  unfolding parse_custom normalize_legacy unrecognised
  parse_object declared_legacy v = elim (json.probe v) [
    | none ↦ err "csp: invalid JSON"
    | some (some legacy) ↦ ok (normalize_legacy legacy v ∷ [])
    | some none ↦
        if declared_legacy
        then err "csp: csp-report body has no csp-report member"
        else unrecognised (parse_custom v)
  ]

  abbrev is_csp : Text → Bool
  is_csp kind = kind == [] || kind == codes "csp-violation" || kind == codes "csp"

  abbrev reporting_of : Text → ReportingItem → CspReportInput
  reporting_of raw it =
      report_of it.body (first_non_empty it.body.document_uri it.url)
        (first_non_empty it.body.violated_directive it.body.effective_directive) raw

  -- The loop of parseReportingAPI.
  unfoldable pub reporting_reports : List Text → List CspReportInput
  reporting_reports [] = []
  reporting_reports (raw ∷ raws) =
      let rest = reporting_reports raws in
      elim (json.reporting_item raw) [
        | none ↦ rest
        | some it ↦ if is_csp it.kind then reporting_of raw it ∷ rest else rest
      ]

  abbrev some_reports : List CspReportInput → Result String (List CspReportInput)
  some_reports [] = err "csp: reporting-api payload contained no csp reports"
  some_reports (r ∷ rs) = ok (r ∷ rs)

  unfoldable pub parse_reporting_api : Text → Result String (List CspReportInput)
  unfolding reporting_reports
  parse_reporting_api v = elim (json.items v) [
    | none ↦ err "csp: invalid JSON"
    | some raws ↦ some_reports (reporting_reports raws)
  ]

  -- Normalize, for the trimmed body: the shape is told by the first byte.
  unfoldable pub normalize_value : Platform → Text → Text → Result String (List CspReportInput)
  unfolding parse_object parse_reporting_api media_type
  normalize_value platform content_type [] = err "csp: empty body"
  normalize_value platform content_type (c ∷ v) =
      if c == b'['
      then parse_reporting_api (c ∷ v)
      else if c == b'{'
      then parse_object (media_type platform content_type == legacy_media_type) (c ∷ v)
      else err "csp: unrecognised report shape"

  -- Normalize; bytes.TrimSpace trims the same characters as strings.TrimSpace.
  unfoldable pub normalize : Platform → Text → Text → Result String (List CspReportInput)
  unfolding normalize_value trim_space
  normalize platform content_type body = normalize_value platform content_type (trim_space body)

abbrev pub max_reports_per_request : ℕ
max_reports_per_request = 20

abbrev max_user_agent_len : ℕ
max_user_agent_len = 512

abbrev max_body : ℕ
max_body = 64 * 1024

abbrev ellipsis : Text
ellipsis = 0xe2 ∷ 0x80 ∷ 0xa6 ∷ []

unfoldable pub truncate_runes : Text → ℕ → Text
unfolding runes encode_rune
truncate_runes s zero = []
truncate_runes s (suc n) =
    if leb (length (runes s)) (suc n)
    then s
    else flat_map (λ r. encode_rune r.point) (take (suc n) (runes s)) ++ ellipsis

module _ (platform : Platform) (json : ReportJson) (pepper : Text) where
  -- The loop of ServeHTTP: a report that is not stored does not stop it.
  unfoldable pub store_reports : Text → Text → List CspReportInput → Handler Unit
  store_reports ip ua [] = pure tt
  store_reports ip ua (r ∷ rs) = do
    attempt (insert_csp_report platform (record r { ip_hash = ip; user_agent = ua }))
    store_reports ip ua rs

  -- ServeHTTP after the body was read and normalised.
  unfoldable pub accept_reports : Request → Result String (List CspReportInput) → Handler Response
  unfolding store_reports hash_ip client_ip truncate_runes
  accept_reports r (err problem) = pure no_content
  accept_reports r (ok reports) = do
    store_reports (hash_ip platform pepper (client_ip r))
        (truncate_runes r.user_agent max_user_agent_len) (take max_reports_per_request reports)
    pure no_content

  -- ServeHTTP; `body` is what could be read of the request.
  unfoldable pub serve_http : Request → Text → Option Text → Handler Response
  unfolding accept_reports normalize
  serve_http r content_type none = pure no_content
  serve_http r content_type (some body) =
      accept_reports r (normalize json platform content_type (take max_body body))

abbrev max_uri_len : ℕ
max_uri_len = 200

abbrev max_sample_len : ℕ
max_sample_len = 100

-- A row of the public feed, its free text truncated.
unfoldable pub shown : CspReportRow → CspReportRow
unfolding truncate_runes
shown row = record row {
  document_uri = truncate_runes row.document_uri max_uri_len;
  blocked_uri = truncate_runes row.blocked_uri max_uri_len;
  source_file = truncate_runes row.source_file max_uri_len;
  script_sample = truncate_runes row.script_sample max_sample_len;
}

abbrev recent_limit_of : Option ℤ → Handler ℕ
recent_limit_of (some (pos n)) =
    if ltb n 1 || ltb 200 n then stop (write_error 400 "invalid limit") else pure n
recent_limit_of _ = stop (write_error 400 "invalid limit")

-- Recent, for the query parameter limit.
unfoldable pub recent : Text → Handler Response
unfolding parse_int shown
recent limit = do
  n ← (if limit == [] then pure 50 else recent_limit_of (parse_int limit))
  rows ← or_server_error (list_recent_csp_reports n)
  pure (write_json 200 (reports_body (map shown rows)))
