-- ===== src/Shared/Bytes.antt =====
-- Go strings as byte sequences, and one `==` for numbers and texts.
use Prim.Native.Char.{code}
use Prim.Native.String.{String}
use go_tunnels.Shared.Names.{
  ℕ, ◌≡◌, refl, ◌↔◌, Bool, true, false, ◌&&◌, List, [], ◌∷◌, arith, nat_beq, nat_beq_iff,
}

abbrev pub Text : Type 0
Text = List ℕ

-- The code points of a literal: its bytes, as every literal here is ASCII.
abbrev pub codes : String → Text
codes String.[] = []
codes (String.◌∷◌ c s) = code c ∷ codes s

unfoldable pub text_beq : Text → Text → Bool
text_beq [] [] = true
text_beq [] (y ∷ ys) = false
text_beq (x ∷ xs) [] = false
text_beq (x ∷ xs) (y ∷ ys) = nat_beq x y && text_beq xs ys

pub text_beq_iff : (s t : Text) → (text_beq s t ≡ true) ↔ (s ≡ t)
unfolding text_beq
text_beq_iff [] [] = (λ _. refl, λ _. refl)
text_beq_iff [] (y ∷ ys) = ground arith
text_beq_iff (x ∷ xs) [] = ground arith
text_beq_iff (x ∷ xs) (y ∷ ys) = ground (arith, text_beq_iff xs ys)

pub text_beq_self : (s : Text) → text_beq s s ≡ true
text_beq_self s = (text_beq_iff s s).1 refl

-- A type whose equality a Go comparison decides.
pub record Comparable {ℓ} (T : Type ℓ) : Type ℓ where
  pub equal : T → T → Bool
  pub equal_iff : (x y : T) → (equal x y ≡ true) ↔ (x ≡ y)

instance abbrev pub text_eq : Comparable Text
text_eq = record { equal = text_beq; equal_iff = text_beq_iff }

instance abbrev pub nat_eq : Comparable ℕ
nat_eq = record { equal = nat_beq; equal_iff = nat_beq_iff }

infix 50 ◌==◌
abbrev pub ◌==◌ {ℓ} : {T : Type ℓ} ⦃comparison : Comparable T⦄ → T → T → Bool
◌==◌ ⦃comparison⦄ = comparison.equal
