-- ===== src/Store/Table.antt =====
-- What the statements of internal/store/store.go do to a table: a table is the list of its rows,
-- and a WHERE clause is a test on a row.
use mathlib.Core.Path.{subst}
use go_tunnels.Shared.{
  Bool-cases, inl, inr, ℕ, suc, ◌≡◌, refl, Bool, true, false, List, [], ◌∷◌, Option, none, some,
  arith, All, if◌then◌else◌,
}

pub some_inj {ℓ} : {A : Type ℓ} {x y : A} → some x ≡ some y → x ≡ y
some_inj e = cc

module _ {ℓ} {A : Type ℓ} where
  -- SELECT of one row.
  unfoldable pub find : (A → Bool) → List A → Option A
  find p [] = none
  find p (x ∷ xs) = if p x then some x else find p xs

  -- UPDATE … SET … WHERE …
  unfoldable pub update_where : (A → Bool) → (A → A) → List A → List A
  update_where p f [] = []
  update_where p f (x ∷ xs) = (if p x then f x else x) ∷ update_where p f xs

  -- DELETE … WHERE …
  unfoldable pub delete_where : (A → Bool) → List A → List A
  delete_where p [] = []
  delete_where p (x ∷ xs) = let rest = delete_where p xs in if p x then rest else x ∷ rest

  -- SELECT … WHERE …
  unfoldable pub select_where : (A → Bool) → List A → List A
  select_where p [] = []
  select_where p (x ∷ xs) = let rest = select_where p xs in if p x then x ∷ rest else rest

  -- count(*), and the number of rows that a statement affects.
  unfoldable pub count_where : (A → Bool) → List A → ℕ
  count_where p [] = 0
  count_where p (x ∷ xs) = let rest = count_where p xs in if p x then suc rest else rest

  unfoldable pub insert_row : (A → A → Bool) → A → List A → List A
  insert_row before x [] = x ∷ []
  insert_row before x (y ∷ ys) =
      let rest = insert_row before x ys in if before x y then x ∷ y ∷ ys else y ∷ rest

  -- ORDER BY: `before x y` where `x` comes first.
  unfoldable pub order_by : (A → A → Bool) → List A → List A
  unfolding insert_row
  order_by before [] = []
  order_by before (x ∷ xs) = insert_row before x (order_by before xs)

  pub find_sound : (p : A → Bool) (xs : List A) {x : A} → find p xs ≡ some x → p x ≡ true
  unfolding find
  find_sound p [] h = ground arith
  find_sound p (y ∷ xs) {x} h = ground (arith, find_sound p xs {x = x})

  pub All-find {κ} :
      (P : A → Type κ) (p : A → Bool) (xs : List A) {x : A} → All P xs → find p xs ≡ some x → P x
  unfolding find
  All-find P p [] hs h = absurd (ground arith)
  All-find P p (y ∷ xs) {x} hs h = elim (Bool-cases (p y)) [
    | inl hit ↦ subst P (some_inj (rw hit at h)) hs.0
    | inr miss ↦ All-find P p xs hs.1 (rw miss at h)
  ]

  pub All-update {κ} :
      (P : A → Type κ) (p : A → Bool) (f : A → A) (xs : List A)
      → ((x : A) → p x ≡ true → P x → P (f x))
      → All P xs
      → All P (update_where p f xs)
  unfolding update_where
  All-update P p f [] step hs = tt
  All-update P p f (x ∷ xs) step hs = (changed (p x) refl hs.0, All-update P p f xs step hs.1)
    where
      changed : (b : Bool) → p x ≡ b → P x → P (if b then f x else x)
      changed true e hx = step x e hx
      changed false e hx = hx

  pub All-delete {κ} :
      (P : A → Type κ) (p : A → Bool) (xs : List A) → All P xs → All P (delete_where p xs)
  unfolding delete_where
  All-delete P p [] hs = tt
  All-delete P p (x ∷ xs) hs = ground (arith, All-delete P p xs)

  -- A search whose test the update does not change finds the updated row.
  pub find-update :
      (q p : A → Bool) (f : A → A) (xs : List A)
      → ((x : A) → q (f x) ≡ q x)
      → find q (update_where p f xs)
        ≡ (elim (find q xs) [ none ↦ none | some x ↦ some (if p x then f x else x) ])
  unfolding find update_where
  find-update q p f [] h = refl
  find-update q p f (x ∷ xs) h = ground (arith, h x, find-update q p f xs h)

  -- A search finds nothing once the rows that pass its test are deleted.
  pub find-delete :
      (q p : A → Bool) (xs : List A)
      → ((x : A) → q x ≡ true → p x ≡ true)
      → find q (delete_where p xs) ≡ none
  unfolding find delete_where
  find-delete q p [] h = refl
  find-delete q p (x ∷ xs) h = ground (arith, h x, find-delete q p xs h)

  -- After an update no row passes a test that the update makes false.
  pub count-update_self :
      (q p : A → Bool) (f : A → A) (xs : List A)
      → ((x : A) → q (if p x then f x else x) ≡ false)
      → count_where q (update_where p f xs) ≡ 0
  unfolding count_where update_where
  count-update_self q p f [] h = refl
  count-update_self q p f (x ∷ xs) h = ground (arith, h x, count-update_self q p f xs h)
