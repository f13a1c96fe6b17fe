-- ===== src/Httpx/Reply.antt =====
-- The JSON helpers of internal/httpx/middleware.go: WriteJSON, WriteError, ServerError, DecodeJSON,
-- and what a handler answers.
use Prim.Native.String.{String}
use go_tunnels.Shared.{ℕ, Bool, List, Option, none, Text, Result, ok, err, Exec, stop, pure, catch}
use go_tunnels.Store.{World, Stored, CaptchaStats, Note, ActivityRow, CspReportRow}
use go_tunnels.Store.Summaries.{CaptchaLeaderboardRow, NoteAuthor}

pub record UserResponse : Type 0 where
  pub id : Text
  pub username : Text
  pub display_name : Text
  pub roles : List Text
  pub totp_enabled : Bool
  pub passkeys : ℕ

pub record Cookie : Type 0 where
  pub name : Text
  pub value : Text
  pub expires : ℕ
  -- MaxAge, where a deletion's -1 is `none`
  pub max_age : Option ℕ
  pub secure : Bool

-- The JSON bodies that the handlers write.
pub data Body : Type 0 where
  error_message : String → Body
  -- a status word
  status_word : String → Body
  -- sessionResponse: token, expiry, user
  session_body : Text → Option ℕ → UserResponse → Body
  user_body : UserResponse → Body
  -- status and sessions_revoked
  revoked_body : ℕ → Body
  -- flow_id; the options come from the WebAuthn library
  flow_body : Text → Body
  -- secret, otpauth_url and recovery_codes
  enrolment_body : Text → Text → List Text → Body
  stats_body : CaptchaStats → Body
  notes_body : List Note → Body
  note_body : Note → Body
  activity_body : List ActivityRow → Body
  authors_body : List NoteAuthor → Body
  board_body : List CaptchaLeaderboardRow → Option CaptchaLeaderboardRow → Body
  reports_body : List CspReportRow → Body
  -- a probe's verdict, of the service or of the database
  alive_body : Text → Text → Body
  probe_body : Text → ℕ → Body
  info_body : Text → Text → Text → Text → Text → Bool → Body
  empty_body : Body
  pref_body : Text → Text → Bool → Body

pub record Response : Type 0 where
  pub status : ℕ
  pub body : Body
  pub cookie : Option Cookie

-- A handler either goes on or has written its response.
abbrev pub Handler : Type 0 → Type 0
Handler A = Exec World Response A

-- WriteJSON
abbrev pub write_json : ℕ → Body → Response
write_json status body = record { status = status; body = body; cookie = none }

-- WriteHeader of 204
abbrev pub no_content : Response
no_content = write_json 204 empty_body

-- WriteError
abbrev pub write_error : ℕ → String → Response
write_error status message = write_json status (error_message message)

-- ServerError: a generic 500.
abbrev pub server_error : Response
server_error = write_error 500 "internal server error"

-- A store call whose every error is a server error.
unfoldable pub or_server_error : {A : Type 0} → Stored A → Handler A
unfolding stop catch
or_server_error m = catch m (λ _. stop server_error)

-- What json.UnmarshalRead under MaxBytesReader reports.
pub data DecodeProblem : Type 0 where
  too_large : DecodeProblem
  unknown_name : DecodeProblem
  invalid_value : DecodeProblem
  invalid_json : DecodeProblem

-- decodeProblem: status and message; a message names the member, which is not modelled.
unfoldable pub decode_problem : DecodeProblem → Response
decode_problem too_large = write_error 413 "request body too large"
decode_problem unknown_name = write_error 400 "unknown field"
decode_problem invalid_value = write_error 400 "invalid value"
decode_problem invalid_json = write_error 400 "invalid JSON body"

-- DecodeJSON: the value, or its problem's response.
unfoldable pub decode_json : {A : Type 0} → Result DecodeProblem A → Handler A
unfolding decode_problem stop pure
decode_json (ok a) = pure a
decode_json (err p) = stop (decode_problem p)
