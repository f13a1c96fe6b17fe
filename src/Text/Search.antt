-- ===== src/Text/Search.antt =====
-- What HasPrefix, HasSuffix and Index decide.
use mathlib.Core.List.{reverse, reverse_aux, append-nil, append_assoc}
use go_tunnels.Shared.{
  ℕ, zero, suc, ◌+◌, ◌≤◌, ◌≡◌, refl, sym, ap, ◌∙◌, inl, inr, true, [], ◌∷◌, ◌++◌, some, Text, arith,
  length, take, drop, Bool-cases, Option-cases, nat_beq, nat_beq_iff, nat_eq,
}
use go_tunnels.Text.Space.{has_prefix, has_suffix, index_of}

pub prefix-rest : (s p : Text) → has_prefix s p ≡ true → (b : Text) × (s ≡ p ++ b)
unfolding has_prefix
prefix-rest s [] h = (s, refl)
prefix-rest [] (x ∷ p) h = absurd (ground arith)
prefix-rest (c ∷ s) (x ∷ p) h = elim (Bool-cases (nat_beq c x)) [
  | inr other ↦ absurd (ground (arith, rw other at h))
  | inl same ↦
      let (b, e) = prefix-rest s p (rw same at h) in
      let c_is : c ≡ x = (nat_beq_iff c x).0 same in (b, cc)
]

pub has_prefix-append : (p b : Text) → has_prefix (p ++ b) p ≡ true
unfolding has_prefix
has_prefix-append [] b = refl
has_prefix-append (x ∷ p) b = rw ((nat_beq_iff x x).1 refl) (has_prefix-append p b)

pub some_inj {ℓ} : {A : Type ℓ} {x y : A} → some x ≡ some y → x ≡ y
some_inj e = cc

-- The text before the first occurrence, the occurrence, and what follows.
pub index_of-parts :
    (p s : Text) {i : ℕ}
    → index_of p s ≡ some i
    → (a b : Text) × (s ≡ a ++ (p ++ b)) × (length a ≡ i)
unfolding index_of
index_of-parts p [] {i} h = elim (Bool-cases (has_prefix [] p)) [
  | inl here ↦ let (b, e) = prefix-rest [] p here in ([], b, e, some_inj (rw here at h))
  | inr none_of ↦ absurd (ground (arith, rw none_of at h))
]
index_of-parts p (c ∷ s) {i} h = elim (Bool-cases (has_prefix (c ∷ s) p)) [
  | inl here ↦ let (b, e) = prefix-rest (c ∷ s) p here in ([], b, e, some_inj (rw here at h))
  | inr later ↦ elim (Option-cases (index_of p s)) [
    | inl none_of ↦ absurd (ground (arith, rw (later, none_of) at h))
    | inr (j, some_of) ↦
        let (a, b, e, n) = index_of-parts p s some_of in
        let suc_j : suc j ≡ i = some_inj (rw (later, some_of) at h) in
        (c ∷ a, b, ap (λ t. c ∷ t) e, ap suc n ∙ suc_j)
  ]
]

index_of-head : (p s : Text) → has_prefix s p ≡ true → index_of p s ≡ some 0
unfolding index_of
index_of-head p [] h = rw h refl
index_of-head p (c ∷ s) h = rw h refl

-- Where the text occurs, the first occurrence is found, not after it.
pub index_of-least :
    (p a b : Text) → (i : ℕ) × (index_of p (a ++ (p ++ b)) ≡ some i) × (i ≤ length a)
unfolding index_of
index_of-least p [] b = (0, index_of-head p _ (has_prefix-append p b), omega arith)
index_of-least p (c ∷ a) b = elim (Bool-cases (has_prefix (c ∷ (a ++ (p ++ b))) p)) [
  | inl here ↦ (0, rw here refl, omega arith)
  | inr later ↦ let (i, e, le) = index_of-least p a b in (suc i, rw (later, e) refl, omega arith)
]

pub take-append : (a b : Text) → take (length a) (a ++ b) ≡ a
take-append [] b = refl
take-append (c ∷ a) b = ap (λ t. c ∷ t) (take-append a b)

drop-length : (p b : Text) → drop (length p) (p ++ b) ≡ b
drop-length [] b = refl
drop-length (x ∷ p) b = drop-length p b

pub drop-append : (n : ℕ) (a p b : Text) → n ≡ length a + length p → drop n (a ++ (p ++ b)) ≡ b
drop-append n [] p b e = let same : n ≡ length p = omega (arith, e) in rw same (drop-length p b)
drop-append zero (c ∷ a) p b e = absurd (omega (arith, e))
drop-append (suc n) (c ∷ a) p b e = drop-append n a p b (omega (arith, e))

-- Two parts of equal length.
pub append_cancel : (a b c d : Text) → a ++ b ≡ c ++ d → length a ≡ length c → (a ≡ c) × (b ≡ d)
append_cancel [] b [] d e n = (refl, e)
append_cancel [] b (y ∷ c) d e n = absurd (omega (arith, n))
append_cancel (x ∷ a) b [] d e n = absurd (omega (arith, n))
append_cancel (x ∷ a) b (y ∷ c) d e n = ground (arith, append_cancel a b c d)

reverse_aux-append :
    (xs ys zs : Text) → reverse_aux (xs ++ ys) zs ≡ reverse_aux ys (reverse_aux xs zs)
reverse_aux-append [] ys zs = refl
reverse_aux-append (x ∷ xs) ys zs = reverse_aux-append xs ys (x ∷ zs)

reverse_aux-split : (xs ys : Text) → reverse_aux xs ys ≡ reverse xs ++ ys
reverse_aux-split [] ys = refl
reverse_aux-split (x ∷ xs) ys =
    reverse_aux-split xs (x ∷ ys)
    ∙ sym (append_assoc (reverse xs) (x ∷ []) ys)
    ∙ ap (λ t. t ++ ys) (sym (reverse_aux-split xs (x ∷ [])))

reverse-append : (xs ys : Text) → reverse (xs ++ ys) ≡ reverse ys ++ reverse xs
reverse-append xs ys = reverse_aux-append xs ys [] ∙ reverse_aux-split ys (reverse xs)

reverse_aux_twice :
    (xs ys zs : Text) → reverse_aux (reverse_aux xs ys) zs ≡ reverse_aux ys (xs ++ zs)
reverse_aux_twice [] ys zs = refl
reverse_aux_twice (x ∷ xs) ys zs = reverse_aux_twice xs (x ∷ ys) zs

reverse-reverse : (xs : Text) → reverse (reverse xs) ≡ xs
reverse-reverse xs = reverse_aux_twice xs [] [] ∙ append-nil xs

pub suffix-rest : (s p : Text) → has_suffix s p ≡ true → (l : Text) × (s ≡ l ++ p)
unfolding has_suffix
suffix-rest s p h =
    let (b, e) = prefix-rest (reverse s) (reverse p) h in
    (
      reverse b,
      sym (reverse-reverse s)
          ∙ ap reverse e
          ∙ reverse-append (reverse p) b
          ∙ ap (λ t. reverse b ++ t) (reverse-reverse p),
    )

pub has_suffix-append : (l p : Text) → has_suffix (l ++ p) p ≡ true
unfolding has_suffix
has_suffix-append l p = rw (reverse-append l p) (has_prefix-append (reverse p) (reverse l))
