-- ===== src/Store/Ordered.antt =====
-- What ORDER BY, WHERE and LIMIT keep of a list of rows.
use go_tunnels.Shared.{
  ℕ, zero, suc, ◌≤◌, ◌≡◌, inl, inr, Bool, true, List, [], ◌∷◌, arith, length, take, All, Bool-cases,
}
use go_tunnels.Store.Table.{select_where, order_by, insert_row}

module _ {ℓ} {A : Type ℓ} where
  pub All-select : (p : A → Bool) (xs : List A) → All (λ x. p x ≡ true) (select_where p xs)
  unfolding select_where
  All-select p [] = tt
  All-select p (x ∷ xs) = ground (arith, All-select p xs)

  pub All-take {κ} : (P : A → Type κ) (n : ℕ) (xs : List A) → All P xs → All P (take n xs)
  All-take P zero xs h = tt
  All-take P (suc n) [] h = tt
  All-take P (suc n) (x ∷ xs) h = (h.0, All-take P n xs h.1)

  pub All-insert {κ} :
      (P : A → Type κ) (before : A → A → Bool) (x : A) (xs : List A)
      → P x
      → All P xs
      → All P (insert_row before x xs)
  unfolding insert_row
  All-insert P before x [] hx h = (hx, tt)
  All-insert P before x (y ∷ ys) hx h = elim (Bool-cases (before x y)) [
    | inl first ↦ rw (first, insert_row) (hx, h)
    | inr after ↦ rw (after, insert_row) (h.0, All-insert P before x ys hx h.1)
  ]

  pub All-order {κ} :
      (P : A → Type κ) (before : A → A → Bool) (xs : List A) → All P xs → All P (order_by before xs)
  unfolding order_by
  All-order P before [] h = tt
  All-order P before (x ∷ xs) h =
      All-insert P before x (order_by before xs) h.0 (All-order P before xs h.1)

pub length-take_le {ℓ} : {A : Type ℓ} (k : ℕ) (xs : List A) → length (take k xs) ≤ k
length-take_le zero xs = omega arith
length-take_le (suc k) [] = omega arith
length-take_le (suc k) (x ∷ xs) = let rest = length-take_le k xs in omega arith
