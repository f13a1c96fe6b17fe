-- ===== src/Database/Again.antt =====
-- Running the migrations of internal/database/database.go again.
use mathlib.Core.Path.{subst}
use go_tunnels.Shared.{
  ◌≡◌, refl, sym, ap, ◌∙◌, inl, inr, true, ◌||◌, List, [], ◌∷◌, ◌++◌, map, Option, none, Text, ℤ,
  pos, negsuc, ok, ok_inj, arith, All, Result-cases, Bool-cases, any, >>=-ok,
}
use go_tunnels.Database.{
  Migration, Catalog, Applied, Entry, row_of, rows_of, is_version, reach, ensure_table,
  apply_migration, apply_pending, prepare, connected, migrate_locked, migrate, load_up_migrations,
  not_ensured, not_read, Problem,
}
use go_tunnels.Database.Steps.{reach-Keeps, ensure-Keeps, connected-Untouched, prepare-Untouched}
use go_tunnels.Database.Migrated.{Reports, every, all_but_last, apply_pending-IsApplied}

is_version_self : (v : ℤ) → is_version v v ≡ true
is_version_self (pos n) = ground arith
is_version_self (negsuc n) = ground arith

-- Whether a version is among those of two lists.
abbrev Covers : List ℤ → List ℤ → Migration → Type 0
Covers done vs m = (any (is_version m.version) done || any (is_version m.version) vs) ≡ true

weaken-Covers :
    (done vs : List ℤ) (v : ℤ) (ms : List Migration)
    → All (Covers done vs) ms
    → All (Covers done (v ∷ vs)) ms
unfolding any
weaken-Covers done vs v [] h = tt
weaken-Covers done vs v (m ∷ ms) h = (ground (arith, h.0), weaken-Covers done vs v ms h.1)

-- What the rows of the table give as versions, before and after more rows.
any-rows :
    (v : ℤ) (rows : List Applied) (ran : List Migration)
    → any (is_version v) (map (λ r. r.version) (rows ++ map row_of ran)) ≡ (
        any (is_version v) (map (λ r. r.version) rows)
        || any (is_version v) (map (λ m. m.version) ran))
unfolding any
any-rows v [] [] = refl
any-rows v [] (m ∷ ran) = ground (arith, any-rows v [] ran)
any-rows v (r ∷ rows) ran = ground (arith, any-rows v rows ran)

any_migrations : (migs : List Migration) → All (λ (m : Migration). Unit {0}) migs
any_migrations [] = tt
any_migrations (m ∷ migs) = (tt, any_migrations migs)

every_version :
    (ran : List Migration) (out : List ℤ × Option Problem)
    → Reports ran out
    → out.1 ≡ none
    → out.0 ≡ map (λ m. m.version) ran
every_version ran out (every e) h = e
every_version ran out (all_but_last before last e f g) h = absurd (ground arith)

module _ {S : Type 0} (run_sql : Text → S → Option S) where
  -- A run without an error covers every migration.
  apply_pending-Covers :
      (done : List ℤ) (migs : List Migration) (c : Catalog S)
      → (apply_pending run_sql done migs c).0.1 ≡ none
      → All (Covers done (apply_pending run_sql done migs c).0.0) migs
  unfolding apply_pending any
  apply_pending-Covers done [] c h = tt
  apply_pending-Covers done (m ∷ ms) c h = elim (Bool-cases (any (is_version m.version) done)) [
    | inl old ↦
        let skipped : apply_pending run_sql done (m ∷ ms) c ≡ apply_pending run_sql done ms c =
          rw (old, apply_pending) refl in
        let rest = apply_pending-Covers done ms c (rw (old, apply_pending) at h) in
        subst (λ out. All (Covers done out.0.0) (m ∷ ms)) (sym skipped) (ground (arith, old), rest)
    | inr fresh ↦ elim (Result-cases (apply_migration run_sql m c).0) [
      | inr (p, failed) ↦
          let wrong = rw (fresh, failed, apply_pending) at h in absurd (ground arith)
      | inl (one, whole) ↦
          let c1 = (apply_migration run_sql m c).1 in
          let rest = apply_pending-Covers done ms c1 (rw (fresh, whole, apply_pending) at h) in
          let own = is_version_self m.version in
          let out = apply_pending run_sql done ms c1 in
          let ran : apply_pending run_sql done (m ∷ ms) c
              ≡ ((m.version ∷ out.0.0, out.0.1), out.1) =
            rw (fresh, whole, apply_pending) refl in
          subst (λ o. All (Covers done o.0.0) (m ∷ ms)) (sym ran)
            (ground (arith, own), weaken-Covers done out.0.0 m.version ms rest)
    ]
  ]

  -- Where every version is done, nothing is applied.
  apply_pending_idle :
      (done : List ℤ) (migs : List Migration) (c : Catalog S)
      → All (λ m. any (is_version m.version) done ≡ true) migs
      → apply_pending run_sql done migs c ≡ (([], none), c)
  unfolding apply_pending
  apply_pending_idle done [] c h = refl
  apply_pending_idle done (m ∷ ms) c h = rw (h.0, apply_pending) (apply_pending_idle done ms c h.1)

  -- The versions that are read are those of the table.
  prepare-rows :
      (c : Catalog S) {done : List ℤ}
      → (prepare c).0 ≡ ok done
      → done ≡ map (λ r. r.version) (rows_of c.schema_migrations)
  unfolding prepare
  prepare-rows c h =
      let (_, _, k1) = >>=-ok (reach not_ensured) _ c h in
      let c1 = (reach not_ensured c).1 in
      let (_, _, k2) = >>=-ok ensure_table _ c1 k1 in
      let c2 = (ensure_table c1).1 in
      let (_, _, k3) = >>=-ok (reach not_read) _ c2 k2 in
      let u =
        (reach-Keeps c not_read).at c2
          ((ensure-Keeps c).at c1 ((reach-Keeps c not_ensured).at c (refl, refl, refl))) in
      sym (ok_inj k3) ∙ ap (λ rows. map (λ r. r.version) rows) u.1

  -- The migrations that a list of versions covers are done where the table has these versions.
  covered_done :
      (done vs later : List ℤ) (ms : List Migration)
      → ((v : ℤ) → any (is_version v) later ≡ (any (is_version v) done || any (is_version v) vs))
      → All (Covers done vs) ms
      → All (λ m. any (is_version m.version) later ≡ true) ms
  covered_done done vs later [] same h = tt
  covered_done done vs later (m ∷ ms) same h =
      (same m.version ∙ h.0, covered_done done vs later ms same h.1)

  -- A run under the lock without an error.
  migrate_locked-done :
      (migs : List Migration) (c : Catalog S)
      → (migrate_locked run_sql migs c).0.1 ≡ none
      → All
          (λ m.
            any
              (is_version m.version)
              (map (λ r. r.version) (rows_of (migrate_locked run_sql migs c).1.schema_migrations))
            ≡ true)
          migs
  unfolding migrate_locked
  migrate_locked-done migs c h = elim (Result-cases (prepare c).0) [
    | inr (p, failed) ↦ let wrong = rw (failed, migrate_locked) at h in absurd (ground arith)
    | inl (done, read) ↦
        let x = (prepare c).1 in
        let out = apply_pending run_sql done migs x in
        let ran_by : migrate_locked run_sql migs c ≡ out = rw (read, migrate_locked) refl in
        let (ran, _, reports, applied) =
          apply_pending-IsApplied run_sql (λ _. Unit) done migs x (any_migrations migs) in
        let versions = every_version ran out.0 reports (ap (λ o. o.0.1) (sym ran_by) ∙ h) in
        let covers = apply_pending-Covers done migs x (ap (λ o. o.0.1) (sym ran_by) ∙ h) in
        let known : done ≡ map (λ r. r.version) (rows_of x.schema_migrations) =
          prepare-rows c read
          ∙ ap (λ rows. map (λ r. r.version) rows) (sym (prepare-Untouched c).1) in
        subst
          (λ o.
            All
              (λ m.
                any (is_version m.version) (map (λ r. r.version) (rows_of o.1.schema_migrations))
                ≡ true)
              migs)
          (sym ran_by)
          (covered_done done out.0.0 _ migs
            (λ v.
              ap (λ rows. any (is_version v) (map (λ r. r.version) rows)) applied.recorded
              ∙ any-rows v (rows_of x.schema_migrations) ran
              ∙ ap (λ vs. any (is_version v) vs || any (is_version v) (map (λ m. m.version) ran))
                  (sym known)
              ∙ ap (λ vs. any (is_version v) done || any (is_version v) vs) (sym versions))
            covers)
  ]

  -- A run under the lock where every version is recorded.
  migrate_locked_idle :
      (migs : List Migration) (c : Catalog S)
      → All
          (λ m.
            any (is_version m.version) (map (λ r. r.version) (rows_of c.schema_migrations)) ≡ true)
          migs
      → ((migrate_locked run_sql migs c).0.0 ≡ [])
        × ((migrate_locked run_sql migs c).1.tables ≡ c.tables)
  unfolding migrate_locked
  migrate_locked_idle migs c h = elim (Result-cases (prepare c).0) [
    | inr (p, failed) ↦ rw (failed, migrate_locked) (refl, (prepare-Untouched c).0)
    | inl (done, read) ↦
        let idle : apply_pending run_sql done migs (prepare c).1 ≡ (([], none), (prepare c).1) =
          apply_pending_idle done migs (prepare c).1 (
            subst (λ vs. All (λ m. any (is_version m.version) vs ≡ true) migs)
              (sym (prepare-rows c read)) h) in
        let out : migrate_locked run_sql migs c ≡ (([], none), (prepare c).1) =
          rw (read, migrate_locked) idle in
        (ap (λ o. o.0.0) out, ap (λ o. o.1.tables) out ∙ (prepare-Untouched c).0)
  ]

  -- After a run of Migrate without an error, another run with the same files, at any later database whose
  -- schema_migrations holds the same rows, applies nothing and leaves the tables as they are, with or without errors.
  pub migrate_again :
      (entries : Option (List Entry)) (c c' : Catalog S)
      → (migrate run_sql entries c).0.1 ≡ none
      → rows_of c'.schema_migrations ≡ rows_of (migrate run_sql entries c).1.schema_migrations
      → ((migrate run_sql entries c').0.0 ≡ [])
        × ((migrate run_sql entries c').1.tables ≡ c'.tables)
  unfolding migrate
  migrate_again entries c c' h same = elim (Result-cases (load_up_migrations entries)) [
    | inr (p, broken) ↦ rw (broken, migrate) (refl, refl)
    | inl (migs, loaded) ↦ elim (Result-cases (connected c).0) [
      | inr (p, failed) ↦ let wrong = rw (loaded, failed, migrate) at h in absurd (ground arith)
      | inl (one, taken) ↦
          let held : Catalog S = record (connected c).1 { locked = true } in
          let rows = rw (loaded, taken, migrate) at same in
          let all_done = migrate_locked-done migs held (rw (loaded, taken, migrate) at h) in
          elim (Result-cases (connected c').0) [
            | inr (p, failed) ↦ rw (loaded, failed, migrate) (refl, (connected-Untouched c').0)
            | inl (two, again) ↦
                let held' : Catalog S = record (connected c').1 { locked = true } in
                let later : rows_of held'.schema_migrations
                    ≡ rows_of (migrate_locked run_sql migs held).1.schema_migrations =
                  (connected-Untouched c').1 ∙ rows in
                let idle = migrate_locked_idle migs held' (
                  subst
                    (λ rs.
                      All (λ m. any (is_version m.version) (map (λ r. r.version) rs) ≡ true) migs)
                    (sym later) all_done) in
                rw (loaded, again, migrate) (idle.0, idle.1 ∙ (connected-Untouched c').0)
          ]
    ]
  ]
