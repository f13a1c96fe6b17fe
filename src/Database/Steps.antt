-- ===== src/Database/Steps.antt =====
-- One migration of internal/database/database.go, and the calls before the first.
use go_tunnels.Shared.{
  ◌≡◌, refl, sym, ap, ◌∙◌, ◌⊎◌, inl, inr, List, [], ◌∷◌, ◌++◌, Option, some, Text, Result, ok, err,
  arith, Bool-cases, Option-cases, any, stop, >>=-ok, >>=-eq, Keeps, Keeps-bind,
}
use go_tunnels.Database.{
  Trip, answered, lost, landed, commit, Migration, Problem, Catalog, row_of, rows_of, reach, ended,
  run_migration, insert_applied, apply_migration, prepare, ensure_table, not_begun, not_run,
  not_recorded, not_committed, not_ensured, not_read, equal_int, outcome, transaction, connected,
  not_acquired, not_locked, Trip, commit,
}

module _ {S : Type 0} where
  reach-tables : (p : Problem) (c : Catalog S) → (reach p c).1.tables ≡ c.tables
  unfolding reach
  reach-tables p c = at c.trips
    where
      at : (fs : List Trip) → (outcome p fs c).1.tables ≡ c.tables
      at [] = refl
      at (answered ∷ rest) = refl
      at (lost ∷ rest) = refl
      at (landed ∷ rest) = refl

  reach-rows : (p : Problem) (c : Catalog S) → (reach p c).1.schema_migrations ≡ c.schema_migrations
  unfolding reach
  reach-rows p c = at c.trips
    where
      at : (fs : List Trip) → (outcome p fs c).1.schema_migrations ≡ c.schema_migrations
      at [] = refl
      at (answered ∷ rest) = refl
      at (lost ∷ rest) = refl
      at (landed ∷ rest) = refl

  insert-rows :
      (m : Migration) (c : Catalog S)
      → (insert_applied m c).0 ≡ ok tt
      → ((insert_applied m c).1.tables ≡ c.tables)
        × (rows_of (insert_applied m c).1.schema_migrations
            ≡ rows_of c.schema_migrations ++ row_of m ∷ [])
  unfolding insert_applied stop
  insert-rows m c h = elim (Option-cases c.schema_migrations) [
    | inl gone ↦ let failed = rw gone at h in absurd (ground arith)
    | inr (rows, known) ↦ elim (Bool-cases (any (λ r. equal_int r.version m.version) rows)) [
      | inl twice ↦ let failed = rw (known, twice) at h in absurd (ground arith)
      | inr fresh ↦ rw (known, fresh) (refl, refl)
    ]
  ]

  -- What is kept before the first migration.
  abbrev pub Untouched : Catalog S → Catalog S → Type 0
  Untouched c c' =
      (c'.tables ≡ c.tables)
      × (rows_of c'.schema_migrations ≡ rows_of c.schema_migrations)
      × (c'.locked ≡ c.locked)

  pub reach-Keeps : (c : Catalog S) (p : Problem) → Keeps (Untouched c) (reach p)
  unfolding reach
  reach-Keeps c p = record { at = λ x h. tried x x.trips h }
    where
      tried : (x : Catalog S) (fs : List Trip) → Untouched c x → Untouched c (outcome p fs x).1
      tried x [] h = h
      tried x (answered ∷ rest) h = h
      tried x (lost ∷ rest) h = h
      tried x (landed ∷ rest) h = h

  pub ensure-Keeps : (c : Catalog S) → Keeps (Untouched c) ensure_table
  unfolding ensure_table
  ensure-Keeps c = record {
    at = λ x h. elim (Option-cases x.schema_migrations) [
      | inl gone ↦ rw (gone, ensure_table) (h.0, rw gone at h.1, h.2)
      | inr (rows, known) ↦ rw (known, ensure_table) h
    ];
  }

  pub connected-Untouched : (c : Catalog S) → Untouched c (connected c).1
  unfolding connected
  connected-Untouched c =
      (Keeps-bind _ _ (reach-Keeps c not_acquired) (λ _. reach-Keeps c not_locked)).at c
        (refl, refl, refl)

  pub prepare-Untouched : (c : Catalog S) → Untouched c (prepare c).1
  unfolding prepare
  prepare-Untouched c =
      (Keeps-bind _ _ (reach-Keeps c not_ensured) (λ _.
          Keeps-bind _ _ (ensure-Keeps c)
            (λ _. Keeps-bind _ _ (reach-Keeps c not_read) (λ _. record { at = λ x h. h })))).at
        c (refl, refl, refl)

  -- How a migration can end: it is given up, and the tables are as they were; or it is committed, though the answer
  -- may be lost.
  commit-cases :
      (p : Problem) (c : Catalog S) (trips : List Trip) (c' : Catalog S)
      → let r = commit p c trips c' in
        ((q : Problem) × (r.0 ≡ err q)
          × (r.1.tables ≡ c.tables)
          × (r.1.schema_migrations ≡ c.schema_migrations))
        ⊎ (((r.0 ≡ ok tt) ⊎ (r.0 ≡ err p))
            × (r.1.tables ≡ c'.tables)
            × (r.1.schema_migrations ≡ c'.schema_migrations))
  commit-cases p c [] c' = inr (inl refl, refl, refl)
  commit-cases p c (answered ∷ rest) c' = inr (inl refl, refl, refl)
  commit-cases p c (lost ∷ rest) c' = inl (p, refl, refl, refl)
  commit-cases p c (landed ∷ rest) c' = inr (inr refl, refl, refl)

  ended-cases :
      (p : Problem) (c : Catalog S) (r : Result Problem Unit × Catalog S)
      → let out = ended p c r in
        ((q : Problem) × (out.0 ≡ err q)
          × (out.1.tables ≡ c.tables)
          × (out.1.schema_migrations ≡ c.schema_migrations))
        ⊎ ((r.0 ≡ ok tt)
            × ((out.0 ≡ ok tt) ⊎ (out.0 ≡ err p))
            × (out.1.tables ≡ r.1.tables)
            × (out.1.schema_migrations ≡ r.1.schema_migrations))
  unfolding ended
  ended-cases p c (ok _, c') = elim (commit-cases p c c'.trips c') [
    | inl given_up ↦ inl given_up
    | inr (answer, t, r) ↦ inr (refl, answer, t, r)
  ]
  ended-cases p c (err q, c') = inl (q, refl, refl, refl)

module _ {S : Type 0} (run_sql : Text → S → Option S) where
  run-tables :
      (m : Migration) (c : Catalog S)
      → (run_migration run_sql m c).0 ≡ ok tt
      → (run_sql m.sql c.tables ≡ some (run_migration run_sql m c).1.tables)
        × ((run_migration run_sql m c).1.schema_migrations ≡ c.schema_migrations)
  unfolding run_migration
  run-tables m c h = elim (Option-cases (run_sql m.sql c.tables)) [
    | inl failed ↦ let wrong = rw (failed, run_migration) at h in absurd (ground arith)
    | inr (t, done) ↦ rw (done, run_migration) (refl, refl)
  ]

  -- A migration is applied and recorded, or neither; where it is, the answer may be lost.
  pub apply_migration-cases :
      (m : Migration) (c : Catalog S)
      → let r = apply_migration run_sql m c in
        ((p : Problem) × (r.0 ≡ err p)
          × (r.1.tables ≡ c.tables)
          × (r.1.schema_migrations ≡ c.schema_migrations))
        ⊎ (((r.0 ≡ ok tt) ⊎ (r.0 ≡ err (not_committed m.version)))
            × (run_sql m.sql c.tables ≡ some r.1.tables)
            × (rows_of r.1.schema_migrations ≡ rows_of c.schema_migrations ++ row_of m ∷ []))
  unfolding apply_migration transaction
  apply_migration-cases m c =
      elim (ended-cases (not_committed m.version) c (transaction run_sql m c)) [
        | inl given_up ↦ inl given_up
        | inr (whole, answer, t6, r6) ↦
            let v = m.version in
            let (_, h1, k1) = >>=-ok (reach (not_begun v)) _ c whole in
            let c1 = (reach (not_begun v) c).1 in
            let (_, h2, k2) = >>=-ok (reach (not_run v)) _ c1 k1 in
            let c2 = (reach (not_run v) c1).1 in
            let (_, h3, k3) = >>=-ok (run_migration run_sql m) _ c2 k2 in
            let c3 = (run_migration run_sql m c2).1 in
            let (_, h4, h5) = >>=-ok (reach (not_recorded v)) _ c3 k3 in
            let c4 = (reach (not_recorded v) c3).1 in
            let t2 : c2.tables ≡ c.tables =
              reach-tables (not_run v) c1 ∙ reach-tables (not_begun v) c in
            let r2 : c2.schema_migrations ≡ c.schema_migrations =
              reach-rows (not_run v) c1 ∙ reach-rows (not_begun v) c in
            let (ran, r3) = run-tables m c2 h3 in
            let (t5, r5) = insert-rows m c4 h5 in
            let final : transaction run_sql m c ≡ insert_applied m c4 =
              >>=-eq (reach (not_begun v)) _ c h1
              ∙ >>=-eq (reach (not_run v)) _ c1 h2
              ∙ >>=-eq (run_migration run_sql m) _ c2 h3
              ∙ >>=-eq (reach (not_recorded v)) _ c3 h4 in
            let t4 : (transaction run_sql m c).1.tables ≡ c3.tables =
              ap (λ r. r.1.tables) final ∙ t5 ∙ reach-tables (not_recorded v) c3 in
            let r4 : c4.schema_migrations ≡ c.schema_migrations =
              reach-rows (not_recorded v) c3 ∙ r3 ∙ r2 in
            inr (
              answer,
              sym (ap (λ t. run_sql m.sql t) t2) ∙ ran ∙ ap some (sym (t6 ∙ t4)),
              ap rows_of r6
                  ∙ ap (λ r. rows_of r.1.schema_migrations) final
                  ∙ r5
                  ∙ ap (λ o. rows_of o ++ row_of m ∷ []) r4,
            )
      ]
