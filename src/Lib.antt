-- ===== src/Lib.antt =====
-- A verification library for the Go backend of GoTunnels: its data-access layer, its authentication,
-- and the helpers that they stand on.
--
-- The parts, and the files that model them:
--   Shared    native numbers, lists, byte strings, integers, and Exec, the state monad of code that
--             returns early: what was written before an early return stays written
--   Text      what the program uses of Go's strings, unicode/utf8, encoding/hex and encoding/base64,
--             over strings as lists of bytes (Text/Check runs them on small inputs)
--   Store     internal/store/store.go. Store/Schema: the tables of migrations/ as lists of rows;
--             Store/Statement: a statement's way to the database; Store/Sessions, Flows, Totp, Users,
--             Audit: one function per SQL statement (insert_session, update_revoked, ...) and per Go
--             method (create_session for CreateSession, ...); Store/Outside: the parameters
--   Store/History   sequences of calls of the store; Store/Revocation, Keys, Ceremonies, Factors,
--             Recovery: the properties of such sequences; Store/Rollback: a transaction, however it ends;
--             Store/Ordered: what ORDER BY and LIMIT keep
--   Httpx     internal/httpx/middleware.go: Reply, the JSON replies and decoding problems; Origins, the
--             origin patterns and CORS; RequestId; RateLimiter, the token buckets
--   Activity  internal/activity/activity.go: the audit recorder
--   Auth      internal/auth: Identity, Password, Codes (totp.go and session.go), Sessions, Login and
--             Totp (handlers.go), Passkey (passkey.go: relying parties by origin), Ceremony and
--             Passkeys (handlers.go: flows, and the six passkey handlers); Auth/Gate, Logout, Grant,
--             SecondFactor, Asserted, SignedUp, FinishedOnce, Passkey/Cache: their properties
--   Notes, Captcha, Prefs   internal/notes/notes.go, internal/captcha/captcha.go and
--             internal/prefs/prefs.go, over Store/Notes, Store/Captcha and Store/Prefs: the handlers;
--             Notes/Body, Notes/Feed, Captcha/Counts, Captcha/Board, Prefs/Saved: their properties
--   Config    internal/config/config.go: Environment, the readers; Parts, lists, headers and DSNs;
--             Settings and Load; Valid, Loaded and Dsn: their properties
--   Csp       internal/csp/csp.go, over Store/Reports: normalisation, the report handler and the public
--             feed; Csp/Bounded: what a request can store
--   Maintenance, Health   internal/maintenance/maintenance.go and internal/health/health.go;
--             Maintenance/Janitor: one pass over the tables

--   Server    internal/server/server.go: the routes, their guards and the global middleware;
--             Server/Guarded: who gets past them. Store/Summaries: the leaderboard and the note authors
--   Database  internal/database/database.go: the migrations, over an opaque schema that SQL texts change and
--             a list that says which round trips are lost; Database/Steps: one migration;
--             Database/Migrated: what a run leaves;
--             Database/Again: a second run
--   Tests     a small database and the theorems at it
--
-- How they interact. A handler is a function from the World to a result and the World after it: `ok`
-- for the response of the handler's last line, `err` for one that an earlier line wrote. It calls the
-- store, whose calls are statements on the tables of the World, or transactions of such statements.
-- RequireAuth hands the user and the session id on to the next handler as a pair.
--
-- The environment. World.outages says for each statement how much time passes before it and whether
-- it fails (a lost connection, a timeout, a cancelled request). A statement that fails changes no
-- table, and a transaction with a statement that fails is rolled back; but a COMMIT that fails may have
-- taken effect before its answer was lost (Outage.landed), and so may one of a migration (Trip.landed).
-- After the list every statement succeeds. World.entropy says what each read of random bytes returns, and
-- may report an error. Times are in nanoseconds, unbounded, and so are 64-bit counters, save where a sum
-- that is no bigint makes a statement fail. What concurrent requests do to the tables is a sequence of
-- calls, since every call of the store is one statement or one transaction; a handler by itself runs
-- without others in between.
--
-- Instants in the database. timestamptz holds whole microseconds, and pgx cuts what Go hands to it: the
-- instants of a session, the expiry of a ceremony and the bound of a pruning are so cut. Any other now()
-- that a statement stores keeps the nanoseconds of the model's clock; comparing it with a cut instant gives
-- the same answer.
--
-- The tables. A table is the list of its rows, a WHERE clause a test on a row, RowsAffected the number
-- of rows that pass it. Primary and unique keys and foreign keys are tested by each INSERT. Users are
-- never deleted by the program, so that no cascade runs. A failed INSERT draws no id, and a rollback
-- takes back the ids drawn, which only the values of fresh ids depend on. ORDER BY role compares bytes, as
-- the collation C does.
--
-- Parameters. Platform holds Unicode's lower-case table, SHA-256, argon2id, the TOTP library's code
-- generation, AES-GCM, the JSON codec of credentials and event details, strconv.Quote and what jsonb
-- accepts. Webauthn holds the go-webauthn library and the codec of flow envelopes; a ceremony's session
-- is an opaque text. ReportJson holds the JSON decoding of CSP reports; Environment the variables and
-- time.ParseDuration; Float64 the operations of float64 on finite values. uuid.Parse is an argument of the
-- list handler of Notes. The theorems hold for every such value; only the one about sweeping has
-- hypotheses about one (IsMonotone: float64 is ordered and rounds monotonically), and the one about
-- request identifiers takes a read of 16 random bytes to give 16 bytes or to fail.
--
-- The cache of derived relying parties is a field of the World, and its mutex makes each use of it one
-- step. A rate limiter is a function from keys to buckets, with the instants of its calls as arguments.
--
-- All loops are structural recursion, on lists or on numbers; no fuel is used.
--
-- The server. Server/serve is the mux: an Endpoint is a registered pattern with what its handler takes from
-- the request (a decoded body or the problem of decoding it, a path value, a query parameter), since
-- net/http does the matching. Server/handle puts the global middleware around it.
--
-- Not modelled: the panic recovery and the OpenTelemetry wrapper of internal/httpx; the ticker of the
-- janitor; telemetry, opening the pool (Connect) and the start of the process in cmd/api/main.go (calls
-- of libraries and I/O); logging and metrics; the throw-away password check that equalises timing; the
-- frontend.
pub mod Shared
pub mod Text
pub mod Store
pub mod Httpx
pub mod Activity
pub mod Config
pub mod Csp
pub mod Maintenance
pub mod Health
pub mod Server
pub mod Database
pub mod Auth
pub mod Captcha
pub mod Notes
pub mod Prefs
mod Tests
