-- ===== src/Store/Idle.antt =====
-- Calls of the store that can only give one answer and change no table.
use mathlib.Core.Path.{subst}
use go_tunnels.Shared.{
  sym, ok_inj, Bool-cases, List, [], ◌∷◌, arith, ◌≡◌, refl, ap, ◌∙◌, ◌⊎◌, inl, inr, Result, ok, err,
  pure, ◌>>=◌, >>=-eq, >>=-err, ℕ,
}
use go_tunnels.Store.Schema.{Db, StoreError, unavailable}
use go_tunnels.Store.Statement.{
  World, Stored, Query, statement, statement-cases, in_tx, begun, ended, commit, Outage,
}

-- At tables `d` the call answers `a`, or that the database is unavailable, and leaves `d`.
pub record Idle {A : Type 0} (d : Db) (a : A) (m : Stored A) : Type 0 where
  pub at :
      (w : World) → w.db ≡ d → ((m w).1.db ≡ d) × (((m w).0 ≡ ok a) ⊎ ((m w).0 ≡ err unavailable))

module _ {A B : Type 0} {d : Db} {a : A} {b : B} (m : Stored A) (f : A → Stored B) (w : World) where
  bind-at :
      ((m w).1.db ≡ d) × (((m w).0 ≡ ok a) ⊎ ((m w).0 ≡ err unavailable))
      → Idle d b (f a)
      → (((m >>= f) w).1.db ≡ d) × ((((m >>= f) w).0 ≡ ok b) ⊎ (((m >>= f) w).0 ≡ err unavailable))
  bind-at (same, inl done) hf = rw (>>=-eq m f w done) (hf.at (m w).1 same)
  bind-at (same, inr down) hf = rw (>>=-err m f w down) (same, inr refl)

module _ (d : Db) where
  pub Idle-pure : {A : Type 0} (a : A) → Idle d a (pure a)
  unfolding pure
  Idle-pure a = record { at = λ w e. (e, inl refl) }

  pub Idle-statement :
      {A : Type 0} {a : A} (q : Query A)
      → ((now : ℕ) → q now d ≡ (ok a, d))
      → Idle d a (statement q)
  Idle-statement {a} q k = record {
    at = λ w e. elim (statement-cases q w) [
      | inl (down, same) ↦ (same ∙ e, inr down)
      | inr (now, _, r, s) ↦ (
        s ∙ ap (λ x. (q now x).1) e ∙ ap (λ p. p.1) (k now),
        inl (r ∙ ap (λ x. (q now x).0) e ∙ ap (λ p. p.0) (k now)),
      )
    ];
  }

  pub Idle-bind :
      {A B : Type 0} {a : A} {b : B} (m : Stored A) (f : A → Stored B)
      → Idle d a m
      → Idle d b (f a)
      → Idle d b (m >>= f)
  Idle-bind {a} {b} m f hm hf = record { at = λ w e. bind-at m f w (hm.at w e) hf }

module _ {A : Type 0} (d : Db) {a : A} where
  committed :
      (os : List Outage) (w : World)
      → w.db ≡ d
      → ((commit d a os w).1.db ≡ d)
        × (((commit d a os w).0 ≡ ok a) ⊎ ((commit d a os w).0 ≡ err unavailable))
  unfolding commit
  committed [] w same = (same, inl refl)
  committed (o ∷ rest) w same = elim (Bool-cases o.fails) [
    | inr up ↦ rw (up, commit) (same, inl refl)
    | inl down ↦ elim (Bool-cases o.landed) [
      | inl late ↦ rw (down, late, commit) (same, inr refl)
      | inr lost ↦ rw (down, lost, commit) (refl, inr refl)
    ]
  ]

  finished :
      (r : Result StoreError A × World)
      → (r.1.db ≡ d) × ((r.0 ≡ ok a) ⊎ (r.0 ≡ err unavailable))
      → ((ended d r).1.db ≡ d) × (((ended d r).0 ≡ ok a) ⊎ ((ended d r).0 ≡ err unavailable))
  unfolding ended
  finished (ok x, v) (same, inl answer) =
      subst
        (λ y.
          ((commit d y v.outages v).1.db ≡ d)
          × (((commit d y v.outages v).0 ≡ ok a) ⊎ ((commit d y v.outages v).0 ≡ err unavailable)))
        (sym (ok_inj answer)) (committed v.outages v same)
  finished (ok x, v) (same, inr wrong) = absurd (ground arith)
  finished (err x, v) (same, answer) = (refl, answer)

  -- A transaction with an idle body is idle.
  pub Idle-in_tx : (body : Stored A) → Idle d a body → Idle d a (in_tx body)
  unfolding in_tx begun
  Idle-in_tx body idle = record {
    at = λ w e.
        subst
          (λ t.
            ((ended t (begun body w)).1.db ≡ d)
            × (((ended t (begun body w)).0 ≡ ok a)
                ⊎ ((ended t (begun body w)).0 ≡ err unavailable)))
          (sym e)
          (finished (begun body w)
            ((Idle-bind d _ _ (Idle-statement d {a = tt} _ (λ _. refl)) idle).at w e));
  }
