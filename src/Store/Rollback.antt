-- ===== src/Store/Rollback.antt =====
-- Transactions of internal/store/store.go (inTx): what creating an account leaves, however it ends.
use mathlib.Core.Path.{subst}
use go_tunnels.Shared.{
  ℕ, ◌≡◌, refl, sym, ap, ◌∙◌, ◌⊎◌, inl, inr, Bool, false, List, [], ◌∷◌, ◌++◌, Result, ok, err,
  Text, arith, Option, none, some, any, if◌then◌else◌, Bool-cases, ok_inj, text_eq, pure, ◌>>=◌,
  ◌>>◌, >>=-ok, >>=-eq, ◌==◌, ◌||◌, ◌≤◌,
}
use go_tunnels.Store.Schema.{Db, StoreError, unavailable, User, UserRow}
use go_tunnels.Store.Rows.{any-or}
use go_tunnels.Store.Outside.{Platform}
use go_tunnels.Store.Statement.{
  World, Stored, Outage, statement, statement-ok, checked_insert-ok, commit, ended, begun, in_tx,
}
use go_tunnels.Store.Users.{
  coalesce_id, user_row, password_row, role_user, normalize_username, insert_user_row,
  insert_user_role, insert_user, insert_password, create_user_with_password,
}

-- How a transaction can end: rolled back with an error, or done, though the answer of the COMMIT may be lost.
abbrev Ends : {A : Type 0} → Db → A → Db → Result StoreError A × World → Type 0
Ends before a after r =
    ((e : StoreError) × (r.0 ≡ err e) × (r.1.db ≡ before))
    ⊎ (((r.0 ≡ ok a) ⊎ (r.0 ≡ err unavailable)) × (r.1.db ≡ after))

commit-Ends :
    {A : Type 0} (d : Db) (a : A) (os : List Outage) (w : World) → Ends d a w.db (commit d a os w)
unfolding commit
commit-Ends d a [] w = inr (inl refl, refl)
commit-Ends d a (o ∷ rest) w = elim (Bool-cases o.fails) [
  | inr up ↦ rw (up, commit) (inr (inl refl, refl))
  | inl down ↦ elim (Bool-cases o.landed) [
    | inl late ↦ rw (down, late, commit) (inr (inr refl, refl))
    | inr lost ↦ rw (down, lost, commit) (inl (unavailable, refl, refl))
  ]
]

-- A transaction fails and is rolled back, or its body has succeeded.
ended-cases :
    {A : Type 0} (d : Db) (r : Result StoreError A × World)
    → ((e : StoreError) × ((ended d r).0 ≡ err e) × ((ended d r).1.db ≡ d))
      ⊎ ((a : A) × (r.0 ≡ ok a) × Ends d a r.1.db (ended d r))
unfolding ended
ended-cases d (ok a, w) = inr (a, refl, commit-Ends d a w.outages w)
ended-cases d (err e, w) = inl (e, refl, refl)

-- After Begin the tables are as they were.
begun-ok :
    {A : Type 0} (body : Stored A) (w : World) {a : A}
    → (begun body w).0 ≡ ok a
    → (v : World) × (v.db ≡ w.db) × ((body v).0 ≡ ok a) × (begun body w ≡ body v)
unfolding begun
begun-ok body w h =
    let begin = statement (λ now d. (ok tt, d)) in
    let (one, started, rest) = >>=-ok begin _ w h in
    let (_, _, _, _, same) = statement-ok (λ now d. (ok tt, d)) w started in
    ((begin w).1, same, rest, >>=-eq begin _ w started)

-- The tables with one more row.
abbrev with_role : Text → Db → Db
with_role user_id d = record d {
  user_roles = d.user_roles ++ record { user_id = user_id; role = role_user } ∷ [];
}

abbrev with_password : Text → Text → Db → Db
with_password user_id hash d = record d {
  password_credentials = d.password_credentials ++ password_row user_id hash ∷ [];
}

role-ok :
    (user_id : Text) (w : World) {x : Unit}
    → (statement (insert_user_role user_id role_user) w).0 ≡ ok x
    → (statement (insert_user_role user_id role_user) w).1.db ≡ with_role user_id w.db
unfolding insert_user_role
role-ok user_id w h =
    let (now, _, _, e, d) = statement-ok (insert_user_role user_id role_user) w h in
    let (_, _, same) = checked_insert-ok _ _ _ _ _ _ e in d ∙ same

password-ok :
    (user_id hash : Text) (w : World) {x : Unit}
    → (statement (insert_password user_id hash) w).0 ≡ ok x
    → (statement (insert_password user_id hash) w).1.db ≡ with_password user_id hash w.db
unfolding insert_password
password-ok user_id hash w h =
    let (now, _, _, e, d) = statement-ok (insert_password user_id hash) w h in
    let (_, _, same) = checked_insert-ok _ _ _ _ _ _ e in d ∙ same

module _ (platform : Platform) where
  -- A new user with a name and a display name, at an instant.
  abbrev pub new_user : Option Text → Text → Text → ℕ → Db → UserRow
  new_user id name display now d =
      user_row (coalesce_id id d).0 name (normalize_username platform name)
        (if display == [] then name else display) now

  -- The tables with the user and the role of every user.
  abbrev pub with_user : Option Text → Text → Text → ℕ → Db → Db
  with_user id name display now d =
      let row = new_user id name display now d in
      let d' = (coalesce_id id d).1 in
      with_role row.user.id (record d' { users = d.users ++ row ∷ [] })

  any-either :
      (p q : UserRow → Bool) (xs : List UserRow)
      → any (λ u. p u || q u) xs ≡ false
      → any q xs ≡ false
  any-either p q xs h = ground (arith, any-or p q xs)

  insert_user_row-ok :
      (id : Option Text) (name lower display : Text) (now : ℕ) (d : Db) {u : User}
      → (insert_user_row id name lower display now d).0 ≡ ok u
      → let row = user_row (coalesce_id id d).0 name lower display now in
        (any (λ x. x.username_lower == lower) d.users ≡ false)
        × (row.user ≡ u)
        × ((insert_user_row id name lower display now d).1
            ≡ record (coalesce_id id d).1 { users = d.users ++ row ∷ [] })
  unfolding insert_user_row
  insert_user_row-ok none name lower display now d h =
      let (fresh, same, e) = checked_insert-ok _ _ _ _ _ _ h in
      (any-either _ (λ x. x.username_lower == lower) d.users fresh, same, e)
  insert_user_row-ok (some id) name lower display now d h =
      let (fresh, same, e) = checked_insert-ok _ _ _ _ _ _ h in
      (any-either _ (λ x. x.username_lower == lower) d.users fresh, same, e)

  -- What creating the user row and its role leaves.
  insert_user-ok :
      (id : Option Text) (name display : Text) (w : World) {u : User}
      → (insert_user platform id name display w).0 ≡ ok u
      → (now : ℕ) × (w.clock ≤ now)
        × (any (λ x. x.username_lower == normalize_username platform name) w.db.users ≡ false)
        × ((new_user id name display now w.db).user ≡ u)
        × ((insert_user platform id name display w).1.db ≡ with_user id name display now w.db)
  unfolding insert_user insert_user_role pure
  insert_user-ok id name display w {u} h =
      let lower = normalize_username platform name in
      let shown = if display == [] then name else display in
      let q = insert_user_row id name lower shown in
      let (v, inserted, rest) = >>=-ok (statement q) _ w h in
      let (now, le, _, e, d) = statement-ok q w inserted in
      let (fresh, same, row_in) = insert_user_row-ok id name lower shown now w.db e in
      let w1 = (statement q w).1 in
      let grant = λ (u : User). statement (insert_user_role u.id role_user) >> pure u in
      let (_, granted, last) = >>=-ok (statement (insert_user_role v.id role_user)) _ w1 rest in
      let created : insert_user platform id name display w ≡ grant v w1 =
        >>=-eq (statement q) grant w inserted in
      let done : grant v w1 ≡ (ok v, (statement (insert_user_role v.id role_user) w1).1) =
        >>=-eq (statement (insert_user_role v.id role_user)) (λ _. pure v) w1 granted in
      (
        now,
        le,
        fresh,
        same ∙ ok_inj last,
        ap (λ r. r.1.db) (created ∙ done)
            ∙ role-ok v.id w1 granted
            ∙ ap (with_role v.id) (d ∙ row_in)
            ∙ ap
                (λ (u : User). with_role u.id (record (coalesce_id id w.db).1 {
                  users = w.db.users ++ new_user id name display now w.db ∷ [];
                }))
                (sym same),
      )

  -- The account that the password form creates, and the tables with it.
  pub record IsRegistered (name display hash : Text) (before after : Db) (user : User)
      : Type 0 where
    pub now : ℕ
    pub free : any (λ u. u.username_lower == normalize_username platform name) before.users ≡ false
    pub is_user : (new_user none name display now before).user ≡ user
    pub added : after ≡ with_password user.id hash (with_user none name display now before)

  -- CreateUserWithPassword is all or nothing: it reports an error and every table is as it was; or the name was free, and
  -- the user, with the role and the password hash, and nothing else, was added. In the second case it returns
  -- the user, or reports that the database is unavailable, where the answer of the COMMIT was lost.
  pub create_user_with_password-IsRegistered :
      (name display hash : Text) (w : World)
      → let r = create_user_with_password platform name display hash w in
        ((e : StoreError) × (r.0 ≡ err e) × (r.1.db ≡ w.db))
        ⊎ ((user : User) × IsRegistered name display hash w.db r.1.db user
            × ((r.0 ≡ ok user) ⊎ (r.0 ≡ err unavailable)))
  unfolding create_user_with_password in_tx pure
  create_user_with_password-IsRegistered name display hash w =
      let body : Stored User = (do
        user ← insert_user platform none name display
        statement (insert_password user.id hash)
        pure user) in
      elim (ended-cases w.db (begun body w)) [
        | inl rolled_back ↦ inl rolled_back
        | inr (user, finished, inl rolled_back) ↦ inl rolled_back
        | inr (user, finished, inr (answer, landed)) ↦
            let (v, same, ran, started) = begun-ok body w finished in
            let store = λ (u : User). statement (insert_password u.id hash) >> pure u in
            let (u, created, rest) = >>=-ok (insert_user platform none name display) store v ran in
            let (now, _, free, is_user, added) = insert_user-ok none name display v created in
            let v1 = (insert_user platform none name display v).1 in
            let (_, stored, last) = >>=-ok (statement (insert_password u.id hash)) _ v1 rest in
            let here : begun body w ≡ (ok u, (statement (insert_password u.id hash) v1).1) =
              started
              ∙ >>=-eq (insert_user platform none name display) store v created
              ∙ >>=-eq (statement (insert_password u.id hash)) (λ _. pure u) v1 stored in
            let final =
              ap (λ r. r.1.db) here
              ∙ password-ok u.id hash v1 stored
              ∙ ap (with_password u.id hash) added in
            inr (
              user,
              record {
                now = now;
                free =
                    subst
                      (λ d.
                        any (λ x. x.username_lower == normalize_username platform name) d.users
                        ≡ false)
                      same free;
                is_user =
                    subst (λ d. (new_user none name display now d).user ≡ user) same
                      (is_user ∙ ok_inj last);
                added =
                    landed
                    ∙ final
                    ∙ ap
                        (λ (x : User).
                          with_password x.id hash (with_user none name display now v.db))
                        (ok_inj last)
                    ∙ ap (λ d. with_password user.id hash (with_user none name display now d)) same;
              },
              answer,
            )
      ]
