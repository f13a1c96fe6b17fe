-- ===== src/Database.antt =====
-- internal/database/database.go: the migrations, read from the embedded directory and applied at start.
pub mod Steps
pub mod Migrated
pub mod Again
use go_tunnels.Shared.{
  ℕ, ◌-◌, ◌<◌, Bool, true, false, ◌||◌, not, List, [], ◌∷◌, ◌++◌, Option, none, some, Text, codes,
  ℤ, pos, negsuc, Result, ok, err, Exec, if◌then◌else◌, any, ltb_ℤ, map, drop, length, text_beq,
  ◌==◌, text_eq, nat_eq, pure, stop, ◌>>=◌, ◌>>◌,
}
use go_tunnels.Text.{parse_int}
use go_tunnels.Store.Table.{order_by}

pub record Migration : Type 0 where
  pub version : ℤ
  pub name : Text
  pub sql : Text

-- An entry of the embedded directory: its content is what ReadFile returns.
pub record Entry : Type 0 where
  pub name : Text
  pub is_dir : Bool
  pub content : Option Text

-- The errors of the package.
pub data Problem : Type 0 where
  read_embedded : Problem
  not_numeric : Text → Problem
  invalid_version : Text → Problem
  duplicate_version : ℤ → Problem
  unreadable : Text → Problem
  not_acquired not_locked not_ensured not_read : Problem
  not_begun not_run not_recorded not_committed : ℤ → Problem

-- What precedes the first `_` or `.`, if there is one.
abbrev is_mark : ℕ → Bool
is_mark c = c == b'_' || c == b'.'

unfoldable pub before_mark : Text → Option Text
before_mark [] = none
before_mark (c ∷ s) =
    let rest = before_mark s in
    if is_mark c then some [] else elim rest [ none ↦ none | some t ↦ some (c ∷ t) ]

-- parseVersion
unfoldable pub parse_version : Text → Result Problem ℤ
unfolding before_mark
parse_version filename = elim (before_mark filename) [
  | none ↦ err (not_numeric filename)
  | some base ↦
      if base == []
      then err (not_numeric filename)
      else elim (parse_int base) [ none ↦ err (invalid_version filename) | some v ↦ ok v ]
]

abbrev pub has_suffix : Text → Text → Bool
has_suffix t suffix = text_beq (drop (length t - length suffix) t) suffix

abbrev pub equal_int : ℤ → ℤ → Bool
equal_int (pos m) (pos n) = m == n
equal_int (negsuc m) (negsuc n) = m == n
equal_int _ _ = false

abbrev pub is_version : ℤ → ℤ → Bool
is_version v u = equal_int u v

-- The loop of loadUpMigrations over the entries; `seen` are the versions so far.
unfoldable pub read_entries : List ℤ → List Entry → Result Problem (List Migration)
unfolding any
read_entries seen [] = ok []
read_entries seen (e ∷ es) =
    if e.is_dir || not (has_suffix e.name (codes ".up.sql"))
    then read_entries seen es
    else elim (parse_version e.name) [
      | err p ↦ err p
      | ok version ↦
          if any (is_version version) seen
          then err (duplicate_version version)
          else elim e.content [
            | none ↦ err (unreadable e.name)
            | some sql ↦ elim (read_entries (version ∷ seen) es) [
              | err p ↦ err p
              | ok ms ↦ ok (record { version = version; name = e.name; sql = sql } ∷ ms)
            ]
          ]
    ]

-- loadUpMigrations: the versions differ, so that every sort by them gives this order.
unfoldable pub load_up_migrations : Option (List Entry) → Result Problem (List Migration)
unfolding read_entries order_by
load_up_migrations none = err read_embedded
load_up_migrations (some entries) = elim (read_entries [] entries) [
  | err p ↦ err p
  | ok ms ↦ ok (order_by (λ m n. ltb_ℤ m.version n.version) ms)
]

-- A row of schema_migrations.
pub record Applied : Type 0 where
  pub version : ℤ
  pub name : Text

-- What becomes of a round trip to the database: it is answered; or the connection is lost, before the
-- request took effect, or after.
pub data Trip : Type 0 where
  answered lost landed : Trip

-- The database: the tables of the program, schema_migrations where it exists, whether this session
-- holds the advisory lock, and what becomes of the next round trips; after them every one is answered.
pub record Catalog (S : Type 0) : Type 0 where
  pub tables : S
  pub schema_migrations : Option (List Applied)
  pub locked : Bool
  pub trips : List Trip

-- What a SELECT sees; no row while there is no table.
abbrev pub rows_of : Option (List Applied) → List Applied
rows_of none = []
rows_of (some rows) = rows

abbrev pub row_of : Migration → Applied
row_of m = record { version = m.version; name = m.name }

module _ {S : Type 0} where
  abbrev pub outcome : Problem → List Trip → Catalog S → Result Problem Unit × Catalog S
  outcome p [] c = (ok tt, c)
  outcome p (answered ∷ rest) c = (ok tt, record c { trips = rest })
  outcome p (lost ∷ rest) c = (err p, record c { trips = rest })
  outcome p (landed ∷ rest) c = (err p, record c { trips = rest })

  -- A round trip that may be lost, with the error that this is reported as. What it did before it was lost
  -- goes with the connection, or is no more than an empty table: COMMIT is the exception.
  unfoldable pub reach : Problem → Exec (Catalog S) Problem Unit
  reach p c = outcome p c.trips c

  abbrev recorded_in : Migration → Option (List Applied) → Exec (Catalog S) Problem Unit
  recorded_in m none = stop (not_recorded m.version)
  recorded_in m (some rows) =
      if any (λ r. equal_int r.version m.version) rows then stop (not_recorded m.version) else λ c.
      (ok tt, record c { schema_migrations = some (rows ++ row_of m ∷ []) })

  -- INSERT INTO schema_migrations; the version is the primary key.
  unfoldable pub insert_applied : Migration → Exec (Catalog S) Problem Unit
  unfolding any stop
  insert_applied m c = recorded_in m c.schema_migrations c

  -- CREATE TABLE IF NOT EXISTS schema_migrations
  unfoldable pub ensure_table : Exec (Catalog S) Problem Unit
  ensure_table c = elim c.schema_migrations [
    | none ↦ (ok tt, record c { schema_migrations = some [] })
    | some rows ↦ (ok tt, c)
  ]

  -- The tables at `Begin`.
  abbrev pub restored : Catalog S → Catalog S → Catalog S
  restored c c' = record c' { tables = c.tables; schema_migrations = c.schema_migrations }

  -- COMMIT: one that is lost may have taken effect, and the caller cannot tell.
  abbrev pub commit : Problem → Catalog S → List Trip → Catalog S → Result Problem Unit × Catalog S
  commit p c [] c' = (ok tt, c')
  commit p c (answered ∷ rest) c' = (ok tt, record c' { trips = rest })
  commit p c (lost ∷ rest) c' = (err p, restored c (record c' { trips = rest }))
  commit p c (landed ∷ rest) c' = (err p, record c' { trips = rest })

  -- COMMIT, or the deferred rollback.
  unfoldable pub ended :
      Problem → Catalog S → Result Problem Unit × Catalog S → Result Problem Unit × Catalog S
  ended p c (ok _, c') = commit p c c'.trips c'
  ended p c (err q, c') = (err q, restored c c')

  -- The connection, and pg_advisory_lock.
  unfoldable pub connected : Exec (Catalog S) Problem Unit
  unfolding reach
  connected = do reach not_acquired; reach not_locked

  -- Migrate under the lock: the versions that are applied already.
  unfoldable pub prepare : Exec (Catalog S) Problem (List ℤ)
  unfolding reach ensure_table
  prepare = do
    reach not_ensured
    ensure_table
    reach not_read
    λ c. (ok (map (λ r. r.version) (rows_of c.schema_migrations)), c)

module _ {S : Type 0} (run_sql : Text → S → Option S) where
  -- A migration's statements.
  unfoldable pub run_migration : Migration → Exec (Catalog S) Problem Unit
  run_migration m c = elim (run_sql m.sql c.tables) [
    | none ↦ (err (not_run m.version), c)
    | some t ↦ (ok tt, record c { tables = t })
  ]

  -- applyMigration, up to its COMMIT.
  unfoldable pub transaction : Migration → Exec (Catalog S) Problem Unit
  unfolding reach run_migration insert_applied
  transaction m = do
    reach (not_begun m.version)
    reach (not_run m.version)
    run_migration m
    reach (not_recorded m.version)
    insert_applied m

  -- applyMigration
  unfoldable pub apply_migration : Migration → Exec (Catalog S) Problem Unit
  unfolding transaction ended
  apply_migration m c = ended (not_committed m.version) c (transaction m c)

  -- The loop of Migrate: the versions applied, and the error that ended it.
  unfoldable pub apply_pending :
      List ℤ → List Migration → Catalog S → (List ℤ × Option Problem) × Catalog S
  unfolding apply_migration any
  apply_pending done [] c = (([], none), c)
  apply_pending done (m ∷ ms) c = elim (any (is_version m.version) done) [
    | true ↦ apply_pending done ms c
    | false ↦ elim (apply_migration m c).0 [
      | err p ↦ (([], some p), (apply_migration m c).1)
      | ok _ ↦
          let (out, c') = apply_pending done ms (apply_migration m c).1 in
          ((m.version ∷ out.0, out.1), c')
    ]
  ]

  unfoldable pub migrate_locked : List Migration → Catalog S → (List ℤ × Option Problem) × Catalog S
  unfolding prepare apply_pending
  migrate_locked migs c = elim (prepare c).0 [
    | err p ↦ (([], some p), (prepare c).1)
    | ok done ↦ apply_pending done migs (prepare c).1
  ]

  -- Migrate. The lock goes with the unlock statement, or, if that is lost, with the connection.
  unfoldable pub migrate : Option (List Entry) → Catalog S → (List ℤ × Option Problem) × Catalog S
  unfolding load_up_migrations migrate_locked connected
  migrate entries c = elim (load_up_migrations entries) [
    | err p ↦ (([], some p), c)
    | ok migs ↦ elim (connected c).0 [
      | err p ↦ (([], some p), (connected c).1)
      | ok _ ↦
          let (out, c') = migrate_locked migs (record (connected c).1 { locked = true }) in
          (out, record c' { locked = false; trips = drop 1 c'.trips })
    ]
  ]
