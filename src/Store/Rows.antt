-- ===== src/Store/Rows.antt =====
-- The laws of `any` and `find` over tables that statements have changed.
use mathlib.Core.Bool.{false≢true}
use mathlib.Core.Path.{subst}
use go_tunnels.Shared.{
  Text, sym, ap, ◌∙◌, ◌<◌, Bool-cases, inl, inr, text_beq, text_beq_iff, if◌then◌else◌, ◌≡◌, refl,
  Bool, true, false, ◌||◌, List, [], ◌∷◌, ◌++◌, none, some, arith, any,
}
use go_tunnels.Store.Table.{some_inj, find, update_where, delete_where, count_where}

module _ {ℓ} {A : Type ℓ} where
  pub any-append : (p : A → Bool) (xs ys : List A) → any p (xs ++ ys) ≡ (any p xs || any p ys)
  unfolding any
  any-append p [] ys = refl
  any-append p (x ∷ xs) ys = ground (arith, any-append p xs ys)

  pub any-or : (p q : A → Bool) (xs : List A) → any (λ x. p x || q x) xs ≡ (any p xs || any q xs)
  unfolding any
  any-or p q [] = refl
  any-or p q (x ∷ xs) = ground (arith, any-or p q xs)

  pub any-update_false :
      (p q : A → Bool) (f : A → A) (xs : List A)
      → ((x : A) → p x ≡ false → q x ≡ true → p (f x) ≡ false)
      → any p xs ≡ false
      → any p (update_where q f xs) ≡ false
  unfolding any update_where
  any-update_false p q f [] k h = refl
  any-update_false p q f (x ∷ xs) k h = ground (arith, k x, any-update_false p q f xs k)

  pub any-update_true :
      (p q : A → Bool) (f : A → A) (xs : List A)
      → ((x : A) → p x ≡ true → q x ≡ true → p (f x) ≡ true)
      → any p xs ≡ true
      → any p (update_where q f xs) ≡ true
  unfolding any update_where
  any-update_true p q f [] k h = h
  any-update_true p q f (x ∷ xs) k h = ground (arith, k x, any-update_true p q f xs k)

  pub any-delete_false :
      (p q : A → Bool) (xs : List A) → any p xs ≡ false → any p (delete_where q xs) ≡ false
  unfolding any delete_where
  any-delete_false p q [] h = h
  any-delete_false p q (x ∷ xs) h = ground (arith, any-delete_false p q xs)

  pub any-delete_true :
      (p q : A → Bool) (xs : List A)
      → ((x : A) → p x ≡ true → q x ≡ false)
      → any p xs ≡ true
      → any p (delete_where q xs) ≡ true
  unfolding any delete_where
  any-delete_true p q [] k h = h
  any-delete_true p q (x ∷ xs) k h = ground (arith, k x, any-delete_true p q xs k)

  -- Deleting by a test leaves no row that passes it.
  pub any-delete_self :
      (p q : A → Bool) (xs : List A)
      → ((x : A) → p x ≡ true → q x ≡ true)
      → any p (delete_where q xs) ≡ false
  unfolding any delete_where
  any-delete_self p q [] k = refl
  any-delete_self p q (x ∷ xs) k = ground (arith, k x, any-delete_self p q xs k)

  -- Updating by a test leaves no row that passes it, if the update falsifies the test.
  pub any-update_self :
      (p q : A → Bool) (f : A → A) (xs : List A)
      → ((x : A) → q x ≡ false → p x ≡ false)
      → ((x : A) → p (f x) ≡ false)
      → any p (update_where q f xs) ≡ false
  unfolding any update_where
  any-update_self p q f [] k g = refl
  any-update_self p q f (x ∷ xs) k g = ground (arith, k x, g x, any-update_self p q f xs k g)

  -- A stronger test finds nothing either.
  pub find-none :
      (p q : A → Bool) (xs : List A)
      → ((x : A) → p x ≡ true → q x ≡ true)
      → any q xs ≡ false
      → find p xs ≡ none
  unfolding any find
  find-none p q [] k h = refl
  find-none p q (x ∷ xs) k h = ground (arith, k x, find-none p q xs k)

  pub any-find : (p : A → Bool) (xs : List A) {x : A} → find p xs ≡ some x → any p xs ≡ true
  unfolding any find
  any-find p [] h = ground arith
  any-find p (y ∷ xs) {x} h = ground (arith, any-find p xs {x = x})

  pub count-zero :
      (p q : A → Bool) (xs : List A)
      → ((x : A) → p x ≡ true → q x ≡ true)
      → any q xs ≡ false
      → count_where p xs ≡ 0
  unfolding any count_where
  count-zero p q [] k h = refl
  count-zero p q (x ∷ xs) k h = ground (arith, k x, count-zero p q xs k)

  pub any_weaken :
      (p q : A → Bool) (xs : List A)
      → ((x : A) → p x ≡ true → q x ≡ true)
      → any p xs ≡ true
      → any q xs ≡ true
  unfolding any
  any_weaken p q [] k h = h
  any_weaken p q (x ∷ xs) k h = ground (arith, k x, any_weaken p q xs k)

module _ {ℓ} {A : Type ℓ} where
  -- A search passes over rows that fail a weaker test.
  pub find-append :
      (p q : A → Bool) (xs ys : List A)
      → ((x : A) → p x ≡ true → q x ≡ true)
      → any q xs ≡ false
      → find p (xs ++ ys) ≡ find p ys
  unfolding any find
  find-append p q [] ys k h = refl
  find-append p q (x ∷ xs) ys k h = ground (arith, k x, find-append p q xs ys k)

  -- A column is a key: no two rows agree on it.
  abbrev pub IsKey : (A → Text) → List A → Type 0
  IsKey key [] = Unit
  IsKey key (x ∷ xs) = (any (λ y. text_beq (key y) (key x)) xs ≡ false) × IsKey key xs

  pub IsKey-snoc :
      (key : A → Text) (xs : List A) (y : A)
      → any (λ x. text_beq (key x) (key y)) xs ≡ false
      → IsKey key xs
      → IsKey key (xs ++ y ∷ [])
  unfolding any
  IsKey-snoc key [] y h k = (refl, tt)
  IsKey-snoc key (x ∷ xs) y h k = (
    ground (
      arith,
      any-append (λ z. text_beq (key z) (key x)) xs (y ∷ []),
      text_beq_iff (key x) (key y),
      text_beq_iff (key y) (key x),
    ),
    IsKey-snoc key xs y (ground arith) k.1,
  )

  any-update_key :
      (key : A → Text) (k : Text) (q : A → Bool) (f : A → A) (xs : List A)
      → ((x : A) → q x ≡ true → key (f x) ≡ key x)
      → any (λ y. text_beq (key y) k) (update_where q f xs) ≡ any (λ y. text_beq (key y) k) xs
  unfolding any update_where
  any-update_key key k q f [] e = refl
  any-update_key key k q f (x ∷ xs) e = ground (arith, e x, any-update_key key k q f xs e)

  key-if :
      (key : A → Text) (q : A → Bool) (f : A → A) (x : A)
      → (q x ≡ true → key (f x) ≡ key x)
      → key (if q x then f x else x) ≡ key x
  key-if key q f x e = elim (Bool-cases (q x)) [ inl h ↦ rw h (e h) | inr h ↦ rw h ]

  pub IsKey-update :
      (key : A → Text) (q : A → Bool) (f : A → A) (xs : List A)
      → ((x : A) → q x ≡ true → key (f x) ≡ key x)
      → IsKey key xs
      → IsKey key (update_where q f xs)
  unfolding update_where
  IsKey-update key q f [] e k = tt
  IsKey-update key q f (x ∷ xs) e k = (
    rw (key-if key q f x (e x), any-update_key key (key x) q f xs e) k.0,
    IsKey-update key q f xs e k.1,
  )

  pub IsKey-delete :
      (key : A → Text) (q : A → Bool) (xs : List A) → IsKey key xs → IsKey key (delete_where q xs)
  unfolding delete_where
  IsKey-delete key q [] k = tt
  IsKey-delete key q (x ∷ xs) k =
      ground (arith, any-delete_false (λ y. text_beq (key y) (key x)) q xs, IsKey-delete key q xs)

-- Columns are a key together: no two rows agree on all of them, as a test says.
module _ {ℓ} {A : Type ℓ} (same : A → A → Bool) where
  abbrev pub IsKeyBy : List A → Type 0
  IsKeyBy [] = Unit
  IsKeyBy (x ∷ xs) = (any (λ y. same y x) xs ≡ false) × IsKeyBy xs

  pub IsKeyBy-snoc :
      ((x y : A) → same x y ≡ same y x)
      → (xs : List A) (y : A) → any (λ x. same x y) xs ≡ false
      → IsKeyBy xs
      → IsKeyBy (xs ++ y ∷ [])
  unfolding any
  IsKeyBy-snoc turn [] y h k = (refl, tt)
  IsKeyBy-snoc turn (x ∷ xs) y h k = (
    ground (arith, any-append (λ z. same z x) xs (y ∷ []), turn x y),
    IsKeyBy-snoc turn xs y (ground arith) k.1,
  )

  any-same :
      (q : A → Bool) (f : A → A) (x : A) (xs : List A)
      → ((x y : A) → (same (f x) y ≡ same x y) × (same x (f y) ≡ same x y))
      → any (λ y. same y (if q x then f x else x)) (update_where q f xs) ≡ any (λ y. same y x) xs
  unfolding any update_where
  any-same q f x [] e = refl
  any-same q f x (y ∷ xs) e =
      ground (arith, e y x, e x y, e y (f x), e (f y) (f x), any-same q f x xs e)

  pub IsKeyBy-update :
      (q : A → Bool) (f : A → A) (xs : List A)
      → ((x y : A) → (same (f x) y ≡ same x y) × (same x (f y) ≡ same x y))
      → IsKeyBy xs
      → IsKeyBy (update_where q f xs)
  unfolding update_where
  IsKeyBy-update q f [] e k = tt
  IsKeyBy-update q f (x ∷ xs) e k = (any-same q f x xs e ∙ k.0, IsKeyBy-update q f xs e k.1)

module _ {ℓ} {A : Type ℓ} where
  pub find-any :
      (p r : A → Bool) (xs : List A) {x : A} → find p xs ≡ some x → r x ≡ true → any r xs ≡ true
  unfolding any find
  find-any p r [] h g = ground arith
  find-any p r (y ∷ xs) {x} h g = elim (Bool-cases (p y)) [
    | inl hit ↦ let e : r y ≡ true = ap r (some_inj (rw hit at h)) ∙ g in ground arith
    | inr miss ↦ let e : any r xs ≡ true = find-any p r xs {x = x} (rw miss at h) g in ground arith
  ]

  -- Where a column is a key, deleting the row that a search finds leaves no row with its key.
  pub any-delete_key :
      (key : A → Text) (p : A → Bool) (xs : List A) {x : A}
      → IsKey key xs
      → find p xs ≡ some x
      → any (λ y. text_beq (key y) (key x)) (delete_where p xs) ≡ false
  unfolding any find delete_where
  any-delete_key key p [] k h = refl
  any-delete_key key p (y ∷ xs) {x} k h = elim (Bool-cases (p y)) [
    | inl hit ↦
        let e : y ≡ x = some_inj (rw hit at h) in
        rw hit (
          any-delete_false (λ z. text_beq (key z) (key x)) p xs
            (subst (λ z. any (λ w. text_beq (key w) (key z)) xs ≡ false) e k.0))
    | inr miss ↦
        let found : find p xs ≡ some x = rw miss at h in
        let rest = any-delete_key key p xs k.1 found in
        let other : text_beq (key y) (key x) ≡ false = distinct y xs found k.0 in
        rw (miss, other) rest
  ]
    where
      distinct :
          (y : A) (xs : List A)
          → find p xs ≡ some x
          → any (λ w. text_beq (key w) (key y)) xs ≡ false
          → text_beq (key y) (key x) ≡ false
      distinct y xs found none_left = elim (Bool-cases (text_beq (key y) (key x))) [
        | inl same ↦ absurd (
            false≢true (
              sym none_left
              ∙ find-any p (λ w. text_beq (key w) (key y)) xs found
                  ((text_beq_iff (key x) (key y)).1 (sym ((text_beq_iff (key y) (key x)).0 same)))))
        | inr other ↦ other
      ]

  pub update-none :
      (q : A → Bool) (f : A → A) (xs : List A) → any q xs ≡ false → update_where q f xs ≡ xs
  unfolding any update_where
  update-none q f [] h = refl
  update-none q f (x ∷ xs) h = ground (arith, update-none q f xs)

  pub count_pos : (p : A → Bool) (xs : List A) → any p xs ≡ true → 0 < count_where p xs
  unfolding any count_where
  count_pos p [] h = absurd (ground arith)
  count_pos p (x ∷ xs) h = ground (arith, count_pos p xs)

module _ {ℓ} {A : Type ℓ} where
  pub any-false :
      (p q : A → Bool) (xs : List A)
      → ((x : A) → p x ≡ true → q x ≡ true)
      → any q xs ≡ false
      → any p xs ≡ false
  unfolding any
  any-false p q [] k h = refl
  any-false p q (x ∷ xs) k h = ground (arith, k x, any-false p q xs k)

  pub any_of_count : (p : A → Bool) (xs : List A) → 0 < count_where p xs → any p xs ≡ true
  unfolding any count_where
  any_of_count p [] h = absurd (omega arith)
  any_of_count p (x ∷ xs) h = ground (arith, any_of_count p xs)

  -- Where a column is a key, an update that reaches the row with a key reaches all that is stored
  -- under it.
  pub any-update_key_row :
      (key : A → Text) (k : Text) (p q : A → Bool) (f : A → A) (xs : List A)
      → ((x : A) → p x ≡ true → text_beq (key x) k ≡ true)
      → ((x : A) → q x ≡ true → text_beq (key x) k ≡ true)
      → ((x : A) → p x ≡ true → q (f x) ≡ false)
      → IsKey key xs
      → any p xs ≡ true
      → any q (update_where p f xs) ≡ false
  unfolding any update_where
  any-update_key_row key k p q f [] pk qk c u h = refl
  any-update_key_row key k p q f (x ∷ xs) pk qk c u h = elim (Bool-cases (p x)) [
    | inl hit ↦
        let at_k : (y : A) → text_beq (key y) k ≡ true → text_beq (key y) (key x) ≡ true =
          λ y e. rw ((text_beq_iff (key x) k).0 (pk x hit)) e in
        let none_p : any p xs ≡ false = any-false p _ xs (λ y e. at_k y (pk y e)) u.0 in
        let none_q : any q xs ≡ false = any-false q _ xs (λ y e. at_k y (qk y e)) u.0 in
        rw (hit, c x hit, update-none p f xs none_p) none_q
    | inr miss ↦
        let later : any p xs ≡ true = rw miss at h in
        rw (miss, apart x xs later u.0) (any-update_key_row key k p q f xs pk qk c u.1 later)
  ]
    where
      apart :
          (x : A) (xs : List A)
          → any p xs ≡ true
          → any (λ y. text_beq (key y) (key x)) xs ≡ false
          → q x ≡ false
      apart x xs later free = elim (Bool-cases (q x)) [
        | inl hit ↦ absurd (
            false≢true (
              sym
                (any-false p _ xs (λ y e. rw ((text_beq_iff (key x) k).0 (qk x hit)) (pk y e)) free)
              ∙ later))
        | inr miss ↦ miss
      ]
