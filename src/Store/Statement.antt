-- ===== src/Store/Statement.antt =====
-- How a statement of internal/store/store.go reaches the database: it may fail, and time passes.
use go_tunnels.Shared.{
  ok_inj, any, not, ◌&&◌, ◌==◌, nat_eq, ℕ, ◌+◌, ◌*◌, ◌/◌, ◌≤◌, ◌≡◌, refl, Bool, true, false, none,
  some, List, [], ◌∷◌, Option, arith, Text, Result, ok, err, Exec, if◌then◌else◌, Keeps, Keeps-bind,
  Bool-cases, ◌⊎◌, inl, inr, ◌>>◌,
}
use go_tunnels.Text.{valid_string}
use go_tunnels.Store.Schema.{
  Db, StoreError, unavailable, not_found, unique_violation, foreign_key_violation,
}
use go_tunnels.Store.Outside.{RelyingParty}

-- A statement at an instant: its result, and the tables after it. A statement that fails changes
-- no table.
abbrev pub Query : Type 0 → Type 0
Query A = ℕ → Db → Result StoreError A × Db

-- `mapErr`: no row is `ErrNotFound`.
abbrev pub or_not_found : {A : Type 0} → Option A → Result StoreError A
or_not_found none = err not_found
or_not_found (some a) = ok a

-- INSERT: a key may be taken, and a row that the new one references may be missing.
unfoldable pub checked_insert : {R : Type 0} → Bool → Bool → R → Db → Db → Result StoreError R × Db
checked_insert taken known r d e =
    if taken
    then (err unique_violation, d)
    else if known
    then (ok r, e)
    else (err foreign_key_violation, d)

-- An INSERT that is refused leaves the tables as they were.
pub checked_insert-keeps :
    {R : Type 0} (P : Db → Type 0) (taken known : Bool) (r : R) (d e : Db)
    → P d
    → (taken ≡ false → known ≡ true → P e)
    → P (checked_insert taken known r d e).1
unfolding checked_insert
checked_insert-keeps P true known r d e h k = h
checked_insert-keeps P false true r d e h k = k refl refl
checked_insert-keeps P false false r d e h k = h

-- An instant of Go in a column of type timestamptz: pgx cuts it to microseconds.
abbrev pub timestamptz : ℕ → ℕ
timestamptz t = t / 1000 * 1000

abbrev pub timestamptz_or_null : Option ℕ → Option ℕ
timestamptz_or_null none = none
timestamptz_or_null (some t) = some (timestamptz t)

-- An INSERT that succeeds.
pub checked_insert-ok :
    {R : Type 0} (taken known : Bool) (r x : R) (d e : Db)
    → (checked_insert taken known r d e).0 ≡ ok x
    → (taken ≡ false) × (r ≡ x) × ((checked_insert taken known r d e).1 ≡ e)
unfolding checked_insert
checked_insert-ok true known r x d e h = absurd (ground arith)
checked_insert-ok false true r x d e h = (refl, ok_inj h, refl)
checked_insert-ok false false r x d e h = absurd (ground arith)

-- What a column of type text holds: UTF-8 without a zero byte.
abbrev pub is_text : Text → Bool
is_text t = valid_string t && not (any (λ c. c == 0) t)

-- column IS NULL
abbrev pub is_null : {A : Type 0} → Option A → Bool
is_null none = true
is_null (some a) = false

-- What the environment does to the next statement: time passes, and it may fail. A COMMIT that fails
-- may have `landed`: its answer was lost after it took effect.
pub record Outage : Type 0 where
  pub elapsed : ℕ
  pub fails : Bool
  pub landed : Bool

-- `entropy k n` is what the k-th read of n random bytes returns; `none` is an error. `by_origin` is
-- the cache of derived relying parties.
pub record World : Type 0 where
  pub db : Db
  pub clock : ℕ
  pub outages : List Outage
  pub entropy : ℕ → ℕ → Option Text
  pub reads : ℕ
  pub by_origin : List (Text × RelyingParty)

abbrev pub Stored : Type 0 → Type 0
Stored A = Exec World StoreError A

-- The next statement runs at the clock, after what the environment does first.
abbrev delayed : Outage → World → World
delayed o w = record w { clock = w.clock + o.elapsed }

unfoldable pub apply_query : {A : Type 0} → Query A → Stored A
apply_query q w = let (r, d) = q w.clock w.db in (r, record w { db = d })

unfoldable pub run_statement : {A : Type 0} → Query A → List Outage → Stored A
unfolding apply_query
run_statement q [] w = apply_query q w
run_statement q (o ∷ rest) w =
    let w' = delayed o (record w { outages = rest }) in
    if o.fails then (err unavailable, w') else apply_query q w'

-- `s.pool.QueryRow`, `s.pool.Query`, `s.pool.Exec`.
unfoldable pub statement : {A : Type 0} → Query A → Stored A
unfolding run_statement
statement q w = run_statement q w.outages w

-- COMMIT, after a `Begin` at the tables `d`: whether one that fails took effect, the caller cannot tell.
unfoldable pub commit : {A : Type 0} → Db → A → List Outage → World → Result StoreError A × World
commit d a [] w = (ok a, w)
commit d a (o ∷ rest) w =
    let w' = delayed o (record w { outages = rest }) in
    if o.fails then (err unavailable, if o.landed then w' else record w' { db = d }) else (ok a, w')

-- The deferred rollback, or the COMMIT, after the body.
unfoldable pub ended : {A : Type 0} → Db → Result StoreError A × World → Result StoreError A × World
unfolding commit
ended d (ok a, w) = commit d a w.outages w
ended d (err e, w) = (err e, record w { db = d })

-- Between `Begin` and COMMIT.
unfoldable pub begun : {A : Type 0} → Stored A → Stored A
begun body = do statement (λ now d. (ok tt, d)); body

-- inTx
unfoldable pub in_tx : {A : Type 0} → Stored A → Stored A
unfolding ended begun
in_tx body w = ended w.db (begun body w)

-- A query keeps a property of the tables, whatever the instant and the result.
abbrev pub QueryKeeps : {A : Type 0} → (Db → Type 0) → Query A → Type 0
QueryKeeps P q = (now : ℕ) (d : Db) → P d → P (q now d).1

module _ {A : Type 0} (q : Query A) where
  run_statement-keeps :
      {P : Db → Type 0} (os : List Outage) (w : World)
      → QueryKeeps P q
      → P w.db
      → P (run_statement q os w).1.db
  unfolding run_statement
  run_statement-keeps [] w k h = k w.clock w.db h
  run_statement-keeps {P} (o ∷ rest) w k h = elim (Bool-cases o.fails) [
    | inl down ↦ rw (down, run_statement) h
    | inr up ↦ rw (up, run_statement) (k (w.clock + o.elapsed) w.db h)
  ]

  run_statement-ok :
      (os : List Outage) (w : World) {a : A}
      → (run_statement q os w).0 ≡ ok a
      → (now : ℕ) × (w.clock ≤ now)
        × (now ≡ (run_statement q os w).1.clock)
        × ((q now w.db).0 ≡ ok a)
        × ((run_statement q os w).1.db ≡ (q now w.db).1)
  unfolding run_statement
  run_statement-ok [] w h = (w.clock, omega arith, refl, h, refl)
  run_statement-ok (o ∷ rest) w h = elim (Bool-cases o.fails) [
    | inl down ↦ absurd (ground arith)
    | inr up ↦ (w.clock + o.elapsed, omega arith, ground arith, ground arith, ground arith)
  ]

module _ {A : Type 0} (q : Query A) where
  run_statement-cases :
      (os : List Outage) (w : World)
      → (((run_statement q os w).0 ≡ err unavailable) × ((run_statement q os w).1.db ≡ w.db))
        ⊎ ((now : ℕ) × (w.clock ≤ now)
            × ((run_statement q os w).0 ≡ (q now w.db).0)
            × ((run_statement q os w).1.db ≡ (q now w.db).1))
  unfolding run_statement
  run_statement-cases [] w = inr (w.clock, omega arith, refl, refl)
  run_statement-cases (o ∷ rest) w = elim (Bool-cases o.fails) [
    | inl down ↦ inl (rw down, rw down)
    | inr up ↦ inr (w.clock + o.elapsed, omega arith, rw up, rw up)
  ]

pub statement-Keeps :
    {A : Type 0} {P : Db → Type 0} (q : Query A)
    → QueryKeeps P q
    → Keeps (λ w. P w.db) (statement q)
unfolding statement
statement-Keeps q k = record { at = λ w h. run_statement-keeps q w.outages w k h }

-- A statement that succeeds ran its query once, at an instant that is not before the clock.
pub statement-ok :
    {A : Type 0} (q : Query A) (w : World) {a : A}
    → (statement q w).0 ≡ ok a
    → (now : ℕ) × (w.clock ≤ now)
      × (now ≡ (statement q w).1.clock)
      × ((q now w.db).0 ≡ ok a)
      × ((statement q w).1.db ≡ (q now w.db).1)
unfolding statement
statement-ok q w h = run_statement-ok q w.outages w h

module _ (P : Db → Type 0) where
  commit-keeps :
      {A : Type 0} (d : Db) (a : A) (os : List Outage) (w : World)
      → P d
      → P w.db
      → P (commit d a os w).1.db
  unfolding commit
  commit-keeps d a [] w h k = k
  commit-keeps d a (o ∷ rest) w h k = elim (Bool-cases o.fails) [
    | inr up ↦ rw (up, commit) k
    | inl down ↦ elim (Bool-cases o.landed) [
      | inl late ↦ rw (down, late, commit) k
      | inr lost ↦ rw (down, lost, commit) h
    ]
  ]

  ended-keeps :
      {A : Type 0} (d : Db) (r : Result StoreError A × World) → P d → P r.1.db → P (ended d r).1.db
  unfolding ended
  ended-keeps d (ok a, w) h k = commit-keeps d a w.outages w h k
  ended-keeps d (err e, w) h k = h

  nothing-Keeps : Keeps (λ w. P w.db) (statement (λ now d. (ok tt, d)))
  nothing-Keeps = statement-Keeps {P = P} (λ now d. (ok tt, d)) (λ now d p. p)

  -- A transaction keeps what its body keeps.
  pub in_tx-Keeps :
      {A : Type 0} (body : Stored A) → Keeps (λ w. P w.db) body → Keeps (λ w. P w.db) (in_tx body)
  unfolding in_tx begun
  in_tx-Keeps body k = record {
    at = λ w h. ended-keeps w.db _ h ((Keeps-bind _ _ nothing-Keeps (λ _. k)).at w h);
  }

-- A statement runs its query at an instant that is not before the clock, or it is unavailable and
-- changes no table.
pub statement-cases :
    {A : Type 0} (q : Query A) (w : World)
    → (((statement q w).0 ≡ err unavailable) × ((statement q w).1.db ≡ w.db))
      ⊎ ((now : ℕ) × (w.clock ≤ now)
          × ((statement q w).0 ≡ (q now w.db).0)
          × ((statement q w).1.db ≡ (q now w.db).1))
unfolding statement
statement-cases q w = run_statement-cases q w.outages w

-- A statement does not touch the cache of relying parties.
run_statement-by_origin :
    {A : Type 0} (q : Query A) (os : List Outage) (w : World)
    → (run_statement q os w).1.by_origin ≡ w.by_origin
unfolding run_statement
run_statement-by_origin q [] w = refl
run_statement-by_origin q (o ∷ rest) w = elim (Bool-cases o.fails) [
  | inl down ↦ rw (down, run_statement) refl
  | inr up ↦ rw (up, run_statement) refl
]

pub statement-by_origin :
    {A : Type 0} (q : Query A) (w : World) → (statement q w).1.by_origin ≡ w.by_origin
unfolding statement
statement-by_origin q w = run_statement-by_origin q w.outages w

-- Time does not run backwards.
run_statement-clock :
    {A : Type 0} (q : Query A) (os : List Outage) (w : World)
    → w.clock ≤ (run_statement q os w).1.clock
unfolding run_statement
run_statement-clock q [] w = omega arith
run_statement-clock q (o ∷ rest) w = elim (Bool-cases o.fails) [
  | inl down ↦ rw (down, run_statement) (omega arith)
  | inr up ↦ rw (up, run_statement) (omega arith)
]

pub statement-clock : {A : Type 0} (q : Query A) (w : World) → w.clock ≤ (statement q w).1.clock
unfolding statement
statement-clock q w = run_statement-clock q w.outages w

-- A statement that is answered ran its query at the instant at which it ends.
run_statement-when :
    {A : Type 0} (q : Query A) (os : List Outage) (w : World)
    → (((run_statement q os w).0 ≡ err unavailable) × ((run_statement q os w).1.db ≡ w.db))
      ⊎ (let now = (run_statement q os w).1.clock in
          ((run_statement q os w).0 ≡ (q now w.db).0)
          × ((run_statement q os w).1.db ≡ (q now w.db).1))
unfolding run_statement
run_statement-when q [] w = inr (refl, refl)
run_statement-when q (o ∷ rest) w = elim (Bool-cases o.fails) [
  | inl down ↦ inl (rw (down, run_statement) (refl, refl))
  | inr up ↦ inr (rw (up, run_statement) (refl, refl))
]

pub statement-when :
    {A : Type 0} (q : Query A) (w : World)
    → (((statement q w).0 ≡ err unavailable) × ((statement q w).1.db ≡ w.db))
      ⊎ (let now = (statement q w).1.clock in
          ((statement q w).0 ≡ (q now w.db).0) × ((statement q w).1.db ≡ (q now w.db).1))
unfolding statement
statement-when q w = run_statement-when q w.outages w
