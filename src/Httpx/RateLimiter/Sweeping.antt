-- ===== src/Httpx/RateLimiter/Sweeping.antt =====
-- The sweep of internal/httpx/middleware.go's rate limiter.
use go_tunnels.Shared.{
  ℕ, ◌≤◌, ◌≡◌, refl, sym, ap, ◌⊎◌, inl, inr, Bool, true, false, List, [], ◌∷◌, Option, none, some,
  Text, ℤ, ◌≤ℤ◌, text_eq, text_beq, arith, Bool-cases,
}
use go_tunnels.Httpx.RateLimiter.{
  Float64, Bucket, RateLimiter, duration, is_short, new_rate_limiter, earned, refill, kept, sweep,
  put, spend, take_token, allow,
}

-- What the limiter relies on of the order of float64 and of its rounding: the tests are those of one total order, and
-- addition and Duration.Seconds are monotone, as is multiplication by the rate.
pub record IsMonotone {F : Type 0} (ops : Float64 F) (rate : F) : Type 0 where
  pub not_below : (a b : F) → ops.below a b ≡ false → ops.at_most b a ≡ true
  pub weaken : (a b : F) → ops.below a b ≡ true → ops.at_most a b ≡ true
  pub reflexive : (a : F) → ops.at_most a a ≡ true
  pub transitive :
      (a b c : F) → ops.at_most a b ≡ true → ops.at_most b c ≡ true → ops.at_most a c ≡ true
  -- from 1 up, where there is no negative zero
  pub antisymmetric :
      (a b : F)
      → ops.at_most ops.one a ≡ true
      → ops.at_most a b ≡ true
      → ops.at_most b a ≡ true
      → a ≡ b
  pub add_mono :
      (c a b : F) → ops.at_most a b ≡ true → ops.at_most (ops.add c a) (ops.add c b) ≡ true
  pub rate_mono :
      (a b : F) → ops.at_most a b ≡ true → ops.at_most (ops.mul a rate) (ops.mul b rate) ≡ true
  pub seconds_mono : (m n : ℤ) → m ≤ℤ n → ops.at_most (ops.seconds m) (ops.seconds n) ≡ true

duration_mono : (now later last : ℕ) → now ≤ later → duration now last ≤ℤ duration later last
unfolding duration
duration_mono now later last h = ground arith

-- The decisions on a sequence of keys at instants.
pub decisions :
    {F : Type 0}
    → (RateLimiter F → Text → ℕ → Bool × RateLimiter F)
    → RateLimiter F
    → List (Text × ℕ)
    → List Bool
decisions step rl [] = []
decisions step rl ((key, now) ∷ events) =
    let (permitted, rl') = step rl key now in permitted ∷ decisions step rl' events

-- The instants do not go back.
unfoldable pub Ascends : ℕ → List (Text × ℕ) → Type 0
Ascends t [] = Unit
Ascends t ((key, now) ∷ events) = (t ≤ now) × Ascends now events

module _ {F : Type 0} (ops : Float64 F) (rate capacity : F) (laws : IsMonotone ops rate)
    (holds_one : ops.at_most ops.one capacity ≡ true) where
  -- A bucket that sweep deletes.
  abbrev IsFull : ℕ → Bucket F → Type 0
  IsFull now b = ops.at_most capacity (refill ops rate capacity b now) ≡ true

  full-earned :
      (b : Bucket F) (now : ℕ)
      → IsFull now b
      → ops.at_most capacity (earned ops rate capacity b now) ≡ true
  unfolding refill
  full-earned b now full = elim (Bool-cases (ops.below capacity (earned ops rate capacity b now))) [
    | inl over ↦ laws.weaken _ _ over
    | inr within ↦ rw (refill, within) at full
  ]

  earned-refill :
      (b : Bucket F) (now : ℕ)
      → ops.at_most capacity (earned ops rate capacity b now) ≡ true
      → refill ops rate capacity b now ≡ capacity
  unfolding refill
  earned-refill b now h = elim (Bool-cases (ops.below capacity (earned ops rate capacity b now))) [
    | inl over ↦ rw (refill, over) refl
    | inr within ↦
        rw (refill, within)
          (sym (laws.antisymmetric capacity _ holds_one h (laws.not_below _ _ within)))
  ]

  -- A full bucket stays full, and holds the capacity.
  full-refill :
      (b : Bucket F) (now later : ℕ)
      → now ≤ later
      → IsFull now b
      → refill ops rate capacity b later ≡ capacity
  full-refill b now later h full = earned-refill b later (
      laws.transitive _ _ _ (full-earned b now full) (
        laws.add_mono _ _ _
          (laws.rate_mono _ _ (laws.seconds_mono _ _ (duration_mono now later b.last h)))))

  -- What a key has with sweeping and without: the same, or nothing and a bucket that is full from
  -- now on.
  Alike : ℕ → Option (Bucket F) → Option (Bucket F) → Type 0
  Alike now s u =
      (s ≡ u)
      ⊎ ((s ≡ none)
          × (b : Bucket F) × (u ≡ some b)
          × ((later : ℕ) → now ≤ later → refill ops rate capacity b later ≡ capacity))

  Alike-later :
      (now later : ℕ) (s u : Option (Bucket F)) → now ≤ later → Alike now s u → Alike later s u
  unfolding Alike
  Alike-later now later s u h (inl e) = inl e
  Alike-later now later s u h (inr (gone, b, e, full)) =
      inr (gone, b, e, λ t k. full t (omega (arith, h, k)))

  Alike-kept :
      (now : ℕ) (s u : Option (Bucket F))
      → Alike now s u
      → Alike now (kept ops rate capacity now s) u
  unfolding Alike
  Alike-kept now none u h = h
  Alike-kept now (some c) u (inr (gone, b, e, full)) = absurd (ground arith)
  Alike-kept now (some c) u (inl e) =
      elim (Bool-cases (ops.at_most capacity (refill ops rate capacity c now))) [
        | inl full ↦ inr (rw full refl, c, sym e, λ t k. full-refill c now t k full)
        | inr room ↦ inl (rw room e)
      ]

  -- Both give the same decision, and the same bucket.
  Alike-spend :
      (now : ℕ) (s u : Option (Bucket F))
      → Alike now s u
      → spend ops rate capacity s now ≡ spend ops rate capacity u now
  unfolding Alike spend
  Alike-spend now s u (inl e) = ap (λ o. spend ops rate capacity o now) e
  Alike-spend now s u (inr (gone, b, e, full)) =
      rw (gone, e, full now (omega arith), holds_one) refl

  -- Every key is alike.
  AllAlike : ℕ → RateLimiter F → RateLimiter F → Type 0
  AllAlike now s u = (key : Text) → Alike now (s.buckets key) (u.buckets key)

  AllAlike-sweep :
      (now : ℕ) (s u : RateLimiter F)
      → AllAlike now s u
      → AllAlike now (sweep ops rate capacity now s) u
  unfolding AllAlike sweep
  AllAlike-sweep now s u h key = elim (Bool-cases (is_short (duration now s.last_sweep))) [
    | inl short ↦ rw (sweep, short) (h key)
    | inr due ↦ rw (sweep, due) (Alike-kept now _ _ (h key))
  ]

  put-AllAlike :
      (now : ℕ) (key : Text) (b : Bucket F) (s u : RateLimiter F)
      → AllAlike now s u
      → AllAlike now (put ops rate capacity key b s) (put ops rate capacity key b u)
  unfolding AllAlike Alike
  put-AllAlike now key b s u h k = elim (Bool-cases (text_beq k key)) [
    | inl here ↦ rw here (inl refl)
    | inr other ↦ rw other (h k)
  ]

  take-AllAlike :
      (now : ℕ) (key : Text) (s u : RateLimiter F)
      → AllAlike now s u
      → ((take_token ops rate capacity s key now).0 ≡ (take_token ops rate capacity u key now).0)
        × AllAlike now
            (take_token ops rate capacity s key now).1
            (take_token ops rate capacity u key now).1
  unfolding AllAlike take_token
  take-AllAlike now key s u h =
      let e = Alike-spend now (s.buckets key) (u.buckets key) (h key) in
      (
        ap (λ q. q.0) e,
        rw e (put-AllAlike now key (spend ops rate capacity (u.buckets key) now).1 s u h),
      )

  AllAlike-later : (t now : ℕ) (s u : RateLimiter F) → t ≤ now → AllAlike t s u → AllAlike now s u
  unfolding AllAlike
  AllAlike-later t now s u k h key = Alike-later t now _ _ k (h key)

  AllAlike-decisions :
      (t : ℕ) (s u : RateLimiter F) (events : List (Text × ℕ))
      → Ascends t events
      → AllAlike t s u
      → decisions (allow ops rate capacity) s events
        ≡ decisions (take_token ops rate capacity) u events
  unfolding decisions Ascends allow
  AllAlike-decisions t s u [] up h = refl
  AllAlike-decisions t s u ((key, now) ∷ events) up h =
      let (e, next) =
        take-AllAlike now key _ _ (AllAlike-sweep now s u (AllAlike-later t now s u up.0 h)) in
      rw (e, AllAlike-decisions now _ _ events up.1 next) refl

  AllAlike-self : (t : ℕ) (rl : RateLimiter F) → AllAlike t rl rl
  unfolding AllAlike Alike
  AllAlike-self t rl key = inl refl

-- Sweeping changes no decision: a limiter that NewRateLimiter built, with any burst, answers every
-- sequence of keys at instants that do not go back as it would if it never deleted a bucket. The
-- arithmetic of float64 is monotone.
pub allow-take_token :
    {F : Type 0} (ops : Float64 F) (rate burst : F) (events : List (Text × ℕ))
    → IsMonotone ops rate
    → Ascends 0 events
    → let (capacity, rl) = new_rate_limiter ops burst in
      decisions (allow ops rate capacity) rl events
      ≡ decisions (take_token ops rate capacity) rl events
unfolding new_rate_limiter
allow-take_token ops rate burst events laws up =
    let (capacity, rl) = new_rate_limiter ops burst in
    AllAlike-decisions ops rate capacity laws holds_one 0 rl rl events up
      (AllAlike-self ops rate capacity laws holds_one 0 rl)
  where
    holds_one : ops.at_most ops.one (new_rate_limiter ops burst).0 ≡ true
    holds_one = elim (Bool-cases (ops.below burst ops.one)) [
      | inl small ↦ rw (new_rate_limiter, small) (laws.reflexive ops.one)
      | inr enough ↦ rw (new_rate_limiter, enough) (laws.not_below _ _ enough)
    ]
