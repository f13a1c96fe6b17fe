-- ===== src/Shared/Control.antt =====
-- Results, and stateful code that returns early: what was written before an early return stays
-- written, so the state comes back beside the error too.
use go_tunnels.Shared.Names.{◌≡◌, refl, ◌⊎◌, inl, inr, Bool, true, false, if◌then◌else◌, arith}

pub data Result {ℓ} (E A : Type ℓ) : Type ℓ where
  ok : A → Result E A
  err : E → Result E A

abbrev pub Exec {ℓ} : Type ℓ → Type ℓ → Type ℓ → Type ℓ
Exec S E A = S → Result E A × S

module _ {ℓ} {S E A : Type ℓ} where
  unfoldable pub pure : A → Exec S E A
  pure a s = (ok a, s)

  -- An early return.
  unfoldable pub stop : E → Exec S E A
  stop e s = (err e, s)

module _ {ℓ} {S E A B : Type ℓ} where
  abbrev pub continue : Result E A → (A → Exec S E B) → Exec S E B
  continue (ok a) f s = f a s
  continue (err e) f s = (err e, s)

  infixl 10 ◌>>=◌ ◌>>◌
  -- Opening this opens `pure` and `stop` too.
  unfoldable pub ◌>>=◌ : Exec S E A → (A → Exec S E B) → Exec S E B
  unfolding pure stop
  ◌>>=◌ m f s = let (r, s') = m s in continue r f s'

  abbrev pub ◌>>◌ : Exec S E A → Exec S E B → Exec S E B
  m >> n = m >>= λ _. n

  -- What a sequence does, by the result of its first part.
  pub >>=-eq :
      (m : Exec S E A) (f : A → Exec S E B) (s : S) {a : A}
      → (m s).0 ≡ ok a
      → (m >>= f) s ≡ f a (m s).1
  unfolding ◌>>=◌
  >>=-eq m f s h = rw h

  pub >>=-ok :
      (m : Exec S E A) (f : A → Exec S E B) (s : S) {b : B}
      → ((m >>= f) s).0 ≡ ok b
      → (a : A) × ((m s).0 ≡ ok a) × ((f a (m s).1).0 ≡ ok b)
  unfolding ◌>>=◌
  >>=-ok m f s h = ground arith

  pub >>=-err :
      (m : Exec S E A) (f : A → Exec S E B) (s : S) {e : E}
      → (m s).0 ≡ err e
      → (m >>= f) s ≡ (err e, (m s).1)
  unfolding ◌>>=◌
  >>=-err m f s h = rw h

module _ {ℓ} {S E F A : Type ℓ} where
  abbrev handle : Result E A → (E → Exec S F A) → Exec S F A
  handle (ok a) k s = (ok a, s)
  handle (err e) k s = k e s

  -- A call whose error the caller inspects.
  unfoldable pub catch : Exec S E A → (E → Exec S F A) → Exec S F A
  catch m k s = let (r, s') = m s in handle r k s'

  pub catch-ok :
      (m : Exec S E A) (k : E → Exec S F A) (s : S) {a : A}
      → (m s).0 ≡ ok a
      → catch m k s ≡ (ok a, (m s).1)
  unfolding catch
  catch-ok m k s h = rw h

  pub catch-err :
      (m : Exec S E A) (k : E → Exec S F A) (s : S) {e : E}
      → (m s).0 ≡ err e
      → catch m k s ≡ k e (m s).1
  unfolding catch
  catch-err m k s h = rw h

pub Result-cases {ℓ} :
    {E A : Type ℓ} (r : Result E A) → ((a : A) × (r ≡ ok a)) ⊎ ((e : E) × (r ≡ err e))
Result-cases (ok a) = inl (a, refl)
Result-cases (err e) = inr (e, refl)

abbrev as_ok {ℓ} : {E A : Type ℓ} → A → Result E A
as_ok a = ok a

pub ok_inj {ℓ} : {E A : Type ℓ} {x y : A} → as_ok {E = E} x ≡ as_ok y → x ≡ y
ok_inj e = cc

-- A call whose error is answered with an early return.
module _ {ℓ} {S E F A : Type ℓ} (m : Exec S E A) (f : E → F) (s : S) where
  pub catch-stop-ok :
      {a : A}
      → (catch m (λ e. stop (f e)) s).0 ≡ ok a
      → ((m s).0 ≡ ok a) × (catch m (λ e. stop (f e)) s ≡ (ok a, (m s).1))
  unfolding catch stop
  catch-stop-ok {a} h = elim (Result-cases (m s).0) [
    | inl (b, e) ↦ (ground arith, ground arith)
    | inr (x, e) ↦ absurd (ground arith)
  ]

  pub catch-stop-err :
      {r : F} → (catch m (λ e. stop (f e)) s).0 ≡ err r → (x : E) × ((m s).0 ≡ err x) × (r ≡ f x)
  unfolding catch stop
  catch-stop-err h = elim (Result-cases (m s).0) [
    | inl (b, e) ↦ absurd (ground arith)
    | inr (x, e) ↦ (x, e, ground arith)
  ]

module _ {ℓ} {S E A B : Type ℓ} where
  -- An early return of a sequence is one of its first part or of the rest.
  pub >>=-stopped :
      (m : Exec S E A) (f : A → Exec S E B) (s : S) {e : E}
      → ((m >>= f) s).0 ≡ err e
      → ((m s).0 ≡ err e) ⊎ ((a : A) × ((m s).0 ≡ ok a) × ((f a (m s).1).0 ≡ err e))
  unfolding ◌>>=◌
  >>=-stopped m f s h = elim (Result-cases (m s).0) [
    | inl (a, e) ↦ inr (a, e, ground arith)
    | inr (x, e) ↦ inl (ground arith)
  ]

-- `m` keeps the invariant, whether it goes on or returns early.
pub record Keeps {ℓ} {S E A : Type ℓ} (P : S → Type ℓ) (m : Exec S E A) : Type ℓ where
  pub at : (s : S) → P s → P (m s).1

module _ {ℓ} {S E A : Type ℓ} {P : S → Type ℓ} where
  pub Keeps-pure : (a : A) → Keeps P (pure {E = E} a)
  unfolding pure
  Keeps-pure a = record { at = λ s h. h }

  pub Keeps-stop : (e : E) → Keeps P (stop {A = A} e)
  unfolding stop
  Keeps-stop e = record { at = λ s h. h }

  pub Keeps-if :
      (b : Bool) (m n : Exec S E A) → Keeps P m → Keeps P n → Keeps P (if b then m else n)
  Keeps-if true m n km kn = km
  Keeps-if false m n km kn = kn

module _ {ℓ} {S E A B : Type ℓ} {P : S → Type ℓ} where
  continue-keeps :
      (r : Result E A) (f : A → Exec S E B) (s : S)
      → P s
      → ((a : A) → Keeps P (f a))
      → P (continue r f s).1
  continue-keeps (ok a) f s h kf = (kf a).at s h
  continue-keeps (err e) f s h kf = h

  pub Keeps-bind :
      (m : Exec S E A) (f : A → Exec S E B)
      → Keeps P m
      → ((a : A) → Keeps P (f a))
      → Keeps P (m >>= f)
  unfolding ◌>>=◌
  Keeps-bind m f km kf = record { at = λ s h. continue-keeps (m s).0 f (m s).1 (km.at s h) kf }

module _ {ℓ} {S E A B : Type ℓ} {P : S → Type ℓ} where
  -- After a first part that went on, the rest keeps what it found.
  pub >>=-after :
      (m : Exec S E A) (f : A → Exec S E B) (s : S) {a : A}
      → (m s).0 ≡ ok a
      → P (m s).1
      → Keeps P (f a)
      → P ((m >>= f) s).1
  >>=-after m f s h p k = rw (>>=-eq m f s h) (k.at (m s).1 p)

module _ {ℓ} {S E F A : Type ℓ} {P : S → Type ℓ} where
  handle-keeps :
      (r : Result E A) (k : E → Exec S F A) (s : S)
      → P s
      → ((e : E) → Keeps P (k e))
      → P (handle r k s).1
  handle-keeps (ok a) k s h kk = h
  handle-keeps (err e) k s h kk = (kk e).at s h

  pub Keeps-catch :
      (m : Exec S E A) (k : E → Exec S F A)
      → Keeps P m
      → ((e : E) → Keeps P (k e))
      → Keeps P (catch m k)
  unfolding catch
  Keeps-catch m k km kk = record { at = λ s h. handle-keeps (m s).0 k (m s).1 (km.at s h) kk }

pub ruleset keeps_rules = (Keeps-pure, Keeps-stop, Keeps-bind, Keeps-catch, Keeps-if)
