-- ===== src/Database/Migrated.antt =====
-- Runs of the migrations of internal/database/database.go: what they leave, wherever they end.
use mathlib.Core.List.{append_assoc, append-nil}
use mathlib.Core.Path.{subst}
use go_tunnels.Shared.{
  ◌≡◌, refl, sym, ap, ◌∙◌, ◌⊎◌, inl, inr, true, false, not, ◌||◌, List, [], ◌∷◌, ◌++◌, map, Option,
  none, some, Text, codes, ℤ, ok, arith, Result-cases, Bool-cases, Option-cases, any, All, ok_inj,
}
use go_tunnels.Store.Ordered.{All-order}
use go_tunnels.Database.{
  Migration, Entry, Problem, Catalog, row_of, rows_of, is_version, apply_migration, parse_version,
  has_suffix, read_entries, apply_pending, prepare, connected, migrate_locked, migrate,
  load_up_migrations, not_committed,
}
use go_tunnels.Database.Steps.{
  Untouched, connected-Untouched, prepare-Untouched, apply_migration-cases,
}

-- A migration is one of the up-migration files: the version that the file's name begins with, the name, and the content.
pub data IsFile (e : Entry) (m : Migration) : Type 0 where
  up_file :
      e.is_dir ≡ false
      → has_suffix e.name (codes ".up.sql") ≡ true
      → m.name ≡ e.name
      → parse_version e.name ≡ ok m.version
      → e.content ≡ some m.sql
      → IsFile e m

abbrev pub IsFileOf : List Entry → Migration → Type 0
IsFileOf [] m = ⊥
IsFileOf (e ∷ es) m = IsFile e m ⊎ IsFileOf es m

-- The entries of the directory; none, where it cannot be read.
abbrev pub entries_of : Option (List Entry) → List Entry
entries_of none = []
entries_of (some es) = es

weaken_files :
    (e : Entry) (es : List Entry) (ms : List Migration)
    → All (IsFileOf es) ms
    → All (IsFileOf (e ∷ es)) ms
weaken_files e es [] h = tt
weaken_files e es (m ∷ ms) h = (inr h.0, weaken_files e es ms h.1)

read_entries-IsFileOf :
    (seen : List ℤ) (es : List Entry) {ms : List Migration}
    → read_entries seen es ≡ ok ms
    → All (IsFileOf es) ms
unfolding read_entries
read_entries-IsFileOf seen [] {ms} h = subst (All (IsFileOf [])) (ok_inj h) tt
read_entries-IsFileOf seen (e ∷ es) {ms} h =
    elim (Bool-cases (e.is_dir || not (has_suffix e.name (codes ".up.sql")))) [
      | inl other ↦
          weaken_files e es ms (read_entries-IsFileOf seen es (rw (other, read_entries) at h))
      | inr up ↦ elim (Result-cases (parse_version e.name)) [
        | inr (p, bad) ↦ let wrong = rw (up, bad, read_entries) at h in absurd (ground arith)
        | inl (v, named) ↦ elim (Bool-cases (any (is_version v) seen)) [
          | inl twice ↦
              let wrong = rw (up, named, twice, read_entries) at h in absurd (ground arith)
          | inr fresh ↦ elim (Option-cases e.content) [
            | inl gone ↦
                let wrong = rw (up, named, fresh, gone, read_entries) at h in absurd (ground arith)
            | inr (sql, given) ↦ elim (Result-cases (read_entries (v ∷ seen) es)) [
              | inr (p, bad) ↦
                  let wrong = rw (up, named, fresh, given, bad, read_entries) at h in
                  absurd (ground arith)
              | inl (later, rest) ↦
                  let all = ok_inj (rw (up, named, fresh, given, rest, read_entries) at h) in
                  subst (All (IsFileOf (e ∷ es))) all (
                    inl (up_file (ground arith) (ground arith) refl named given),
                    weaken_files e es later (read_entries-IsFileOf (v ∷ seen) es rest),
                  )
            ]
          ]
        ]
      ]
    ]

load_up_migrations-IsFileOf :
    (entries : Option (List Entry)) {ms : List Migration}
    → load_up_migrations entries ≡ ok ms
    → All (IsFileOf (entries_of entries)) ms
unfolding load_up_migrations
load_up_migrations-IsFileOf none h = absurd (ground arith)
load_up_migrations-IsFileOf (some es) h = elim (Result-cases (read_entries [] es)) [
  | inr (p, bad) ↦ let wrong = rw (bad, load_up_migrations) at h in absurd (ground arith)
  | inl (ms, read) ↦
      subst (All (IsFileOf es)) (ok_inj (rw (read, load_up_migrations) at h))
        (All-order (IsFileOf es) _ ms (read_entries-IsFileOf [] es read))
]

-- What a run reports of the migrations it applied: all; or all but the last, whose COMMIT was lost.
pub data Reports (ran : List Migration) (out : List ℤ × Option Problem) : Type 0 where
  every : out.0 ≡ map (λ m. m.version) ran → Reports ran out
  all_but_last :
      (before : List Migration) (last : Migration)
      → ran ≡ before ++ last ∷ []
      → out.0 ≡ map (λ m. m.version) before
      → out.1 ≡ some (not_committed last.version)
      → Reports ran out

cons-Reports :
    (m : Migration) (ran : List Migration) (vs : List ℤ) (p : Option Problem)
    → Reports ran (vs, p)
    → Reports (m ∷ ran) (m.version ∷ vs, p)
cons-Reports m ran vs p (every e) = every (ap (λ t. m.version ∷ t) e)
cons-Reports m ran vs p (all_but_last before last e f g) =
    all_but_last (m ∷ before) last (ap (λ t. m ∷ t) e) (ap (λ t. m.version ∷ t) f) g

module _ {S : Type 0} (run_sql : Text → S → Option S) where
  -- The statements of some migrations, one after another.
  unfoldable pub run_all : List Migration → S → Option S
  run_all [] t = some t
  run_all (m ∷ ms) t = elim (run_sql m.sql t) [ none ↦ none | some t' ↦ run_all ms t' ]

  -- The migrations `ran` lead from the one database to the other, and exactly they were recorded.
  pub record IsApplied (ran : List Migration) (c c' : Catalog S) : Type 0 where
    pub tables : run_all ran c.tables ≡ some c'.tables
    pub recorded : rows_of c'.schema_migrations ≡ rows_of c.schema_migrations ++ map row_of ran

  nothing-IsApplied :
      (c c' : Catalog S)
      → c'.tables ≡ c.tables
      → rows_of c'.schema_migrations ≡ rows_of c.schema_migrations
      → IsApplied [] c c'
  unfolding run_all
  nothing-IsApplied c c' t r = record {
    tables = ap some (sym t);
    recorded = r ∙ sym (append-nil (rows_of c.schema_migrations));
  }

  cons-IsApplied :
      (m : Migration) (ran : List Migration) (c c1 c' : Catalog S)
      → run_sql m.sql c.tables ≡ some c1.tables
      → rows_of c1.schema_migrations ≡ rows_of c.schema_migrations ++ row_of m ∷ []
      → IsApplied ran c1 c'
      → IsApplied (m ∷ ran) c c'
  unfolding run_all
  cons-IsApplied m ran c c1 c' t r k = record {
    tables = rw (t, run_all) k.tables;
    recorded =
        k.recorded
        ∙ ap (λ rows. rows ++ map row_of ran) r
        ∙ append_assoc (rows_of c.schema_migrations) (row_of m ∷ []) (map row_of ran);
  }

  pub apply_pending-IsApplied :
      (Q : Migration → Type 0) (done : List ℤ) (migs : List Migration) (c : Catalog S)
      → All Q migs
      → let r = apply_pending run_sql done migs c in
        (ran : List Migration) × All Q ran × Reports ran r.0 × IsApplied ran c r.1
  unfolding apply_pending
  apply_pending-IsApplied Q done [] c h = ([], tt, every refl, nothing-IsApplied c c refl refl)
  apply_pending-IsApplied Q done (m ∷ ms) c h =
      elim (Bool-cases (any (is_version m.version) done)) [
        | inl old ↦ rw (old, apply_pending) (apply_pending-IsApplied Q done ms c h.1)
        | inr fresh ↦ elim (apply_migration-cases run_sql m c) [
          | inl (p, failed, t, r) ↦
              rw (fresh, failed, apply_pending)
                ([], tt, every refl, nothing-IsApplied c _ t (ap rows_of r))
          | inr (inl whole, t, r) ↦
              let c1 = (apply_migration run_sql m c).1 in
              let (ran, kept, reports, applied) = apply_pending-IsApplied Q done ms c1 h.1 in
              rw (fresh, whole, apply_pending)
                (
                  m ∷ ran,
                  (h.0, kept),
                  cons-Reports m ran _ _ reports,
                  cons-IsApplied m ran c c1 _ t r applied,
                )
          | inr (inr unanswered, t, r) ↦
              let c1 = (apply_migration run_sql m c).1 in
              rw (fresh, unanswered, apply_pending)
                (
                  m ∷ [],
                  (h.0, tt),
                  all_but_last [] m refl refl refl,
                  cons-IsApplied m [] c c1 c1 t r (nothing-IsApplied c1 c1 refl refl),
                )
        ]
      ]

  from-Untouched :
      (ran : List Migration) (c x c' : Catalog S)
      → Untouched c x
      → IsApplied ran x c'
      → IsApplied ran c c'
  from-Untouched ran c x c' u k = record {
    tables = subst (λ t. run_all ran t ≡ some c'.tables) u.0 k.tables;
    recorded = k.recorded ∙ ap (λ rows. rows ++ map row_of ran) u.1;
  }

  migrate_locked-IsApplied :
      (Q : Migration → Type 0) (migs : List Migration) (c : Catalog S)
      → All Q migs
      → let r = migrate_locked run_sql migs c in
        (ran : List Migration) × All Q ran × Reports ran r.0 × IsApplied ran c r.1
  unfolding migrate_locked
  migrate_locked-IsApplied Q migs c h =
      let before = prepare-Untouched c in
      elim (Result-cases (prepare c).0) [
        | inl (done, read) ↦
            let (ran, kept, reports, applied) =
              apply_pending-IsApplied Q done migs (prepare c).1 h in
            rw (read, migrate_locked) (ran, kept, reports, from-Untouched ran c _ _ before applied)
        | inr (p, failed) ↦
            rw (failed, migrate_locked)
              ([], tt, every refl, nothing-IsApplied c _ before.0 before.1)
      ]

  -- Where this session does not hold the lock: whatever Migrate returns, with or without an error, there are migrations,
  -- each of them an up-migration file of the directory, whose statements, one after another, lead from the old tables to the
  -- new ones; exactly these were recorded, in this order; the versions that Migrate returns are theirs, save that the last
  -- is left out where its COMMIT was lost after it took effect, and then Migrate reports the error of that COMMIT; and the
  -- lock is not held.
  pub migrate-IsApplied :
      (entries : Option (List Entry)) (c : Catalog S)
      → c.locked ≡ false
      → let r = migrate run_sql entries c in
        (ran : List Migration) × All (IsFileOf (entries_of entries)) ran
        × Reports ran r.0
        × IsApplied ran c r.1
        × (r.1.locked ≡ false)
  unfolding migrate
  migrate-IsApplied entries c free = elim (Result-cases (load_up_migrations entries)) [
    | inr (p, broken) ↦
        rw (broken, migrate) ([], tt, every refl, nothing-IsApplied c c refl refl, free)
    | inl (migs, loaded) ↦
        let before = connected-Untouched c in
        let files = load_up_migrations-IsFileOf entries loaded in
        elim (Result-cases (connected c).0) [
          | inr (p, failed) ↦
              rw (loaded, failed, migrate)
                ([], tt, every refl, nothing-IsApplied c _ before.0 before.1, before.2 ∙ free)
          | inl (one, taken) ↦
              let held : Catalog S = record (connected c).1 { locked = true } in
              let (ran, kept, reports, applied) =
                migrate_locked-IsApplied (IsFileOf (entries_of entries)) migs held files in
              rw (loaded, taken, migrate)
                (
                  ran,
                  kept,
                  reports,
                  record {
                    tables =
                        subst
                          (λ t. run_all ran t ≡ some (migrate_locked run_sql migs held).1.tables)
                          before.0 applied.tables;
                    recorded = applied.recorded ∙ ap (λ rows. rows ++ map row_of ran) before.1;
                  },
                  refl,
                )
        ]
  ]
