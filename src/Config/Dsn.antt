-- ===== src/Config/Dsn.antt =====
-- endpointFromDSN and splitList of internal/config/config.go on well-formed input.
use go_tunnels.Shared.{
  ℕ, suc, ◌+◌, ◌≡◌, refl, ap, inl, inr, Bool, false, ◌||◌, [], ◌∷◌, ◌++◌, none, some, Text, codes,
  drop, length, any, ◌==◌, nat_eq, text_eq, nat_beq, nat_beq_iff, arith, Bool-cases,
}
use go_tunnels.Text.{index_of, has_prefix}
use go_tunnels.Text.Search.{take-append, drop-append}
use go_tunnels.Auth.Passkey.{before_last}
use go_tunnels.Config.Parts.{endpoint_from_dsn, endpoint_of, until_path, after_userinfo}

-- A scheme without a colon ends at the separator.
index_of-scheme :
    (scheme rest : Text)
    → any (λ c. c == b':') scheme ≡ false
    → index_of (codes "://") (scheme ++ (codes "://" ++ rest)) ≡ some (length scheme)
unfolding index_of has_prefix any
index_of-scheme [] rest clean = refl
index_of-scheme (c ∷ s) rest clean = elim (Bool-cases (nat_beq c b':')) [
  | inl colon ↦ absurd (ground (arith, rw colon at clean))
  | inr other ↦ rw (other, index_of-scheme s rest (rw other at clean)) refl
]

before_last-none : (c : ℕ) (t : Text) → any (λ x. x == c) t ≡ false → before_last c t ≡ none
unfolding before_last any
before_last-none c [] clean = refl
before_last-none c (x ∷ t) clean = elim (Bool-cases (nat_beq x c)) [
  | inl same ↦ absurd (ground (arith, rw same at clean))
  | inr other ↦ rw (before_last-none c t (rw other at clean), other) refl
]

-- The last occurrence is the one that no other follows.
before_last-append :
    (c : ℕ) (u t : Text) → any (λ x. x == c) t ≡ false → before_last c (u ++ c ∷ t) ≡ some u
unfolding before_last
before_last-append c [] t clean = rw (before_last-none c t clean, (nat_beq_iff c c).1 refl) refl
before_last-append c (x ∷ u) t clean = rw (before_last-append c u t clean) refl

abbrev pub ends_host : ℕ → Bool
ends_host c = c == b'/' || c == b'?'

-- What follows the host: nothing, or a path or a query.
pub data IsTail : Text → Type 0 where
  nothing : IsTail []
  path : (t : Text) → IsTail (b'/' ∷ t)
  query : (t : Text) → IsTail (b'?' ∷ t)

until_path-tail : (tail : Text) → IsTail tail → until_path tail ≡ []
unfolding until_path
until_path-tail _ nothing = refl
until_path-tail _ (path t) = refl
until_path-tail _ (query t) = refl

until_path-append :
    (host tail : Text) → any ends_host host ≡ false → IsTail tail → until_path (host ++ tail) ≡ host
unfolding until_path any
until_path-append [] tail clean is_tail = until_path-tail tail is_tail
until_path-append (c ∷ host) tail clean is_tail = elim (Bool-cases (ends_host c)) [
  | inl ends ↦ absurd (ground (arith, rw ends at clean))
  | inr other ↦ rw other (ap (λ t. c ∷ t) (until_path-append host tail (rw other at clean) is_tail))
]

drop-suc : (u : Text) (c : ℕ) (t : Text) → drop (suc (length u)) (u ++ c ∷ t) ≡ t
drop-suc [] c t = refl
drop-suc (x ∷ u) c t = drop-suc u c t

any-append_false :
    (p : ℕ → Bool) (xs ys : Text) → any p xs ≡ false → any p ys ≡ false → any p (xs ++ ys) ≡ false
unfolding any
any-append_false p [] ys h k = k
any-append_false p (x ∷ xs) ys h k = ground (arith, any-append_false p xs ys)

after_userinfo-append :
    (token t : Text) → any (λ c. c == b'@') t ≡ false → after_userinfo (token ++ b'@' ∷ t) ≡ t
after_userinfo-append token t clean =
    rw (after_userinfo, before_last-append b'@' token t clean) (drop-suc token b'@' t)

-- A DSN gives the scheme and the host as the endpoint, and nothing of its token or its path, and counts as insecure where the scheme is
-- http: the scheme has no colon, the host no "/", "?" or "@", the rest begins with "/" or "?" if
-- there is any and has no "@". The token is any text.
pub endpoint_from_dsn-parts :
    (scheme token host tail : Text)
    → any (λ c. c == b':') scheme ≡ false
    → any ends_host host ≡ false
    → any (λ c. c == b'@') host ≡ false
    → IsTail tail
    → any (λ c. c == b'@') tail ≡ false
    → endpoint_from_dsn (scheme ++ (codes "://" ++ (token ++ b'@' ∷ (host ++ tail))))
      ≡ (scheme ++ (codes "://" ++ host), scheme == codes "http")
unfolding endpoint_from_dsn endpoint_of
endpoint_from_dsn-parts scheme token host tail colon ends at is_tail tail_at =
    let rest = token ++ b'@' ∷ (host ++ tail) in
    let last =
      after_userinfo-append token (host ++ tail)
        (any-append_false (λ c. c == b'@') host tail at tail_at) in
    rw
      (
        index_of-scheme scheme rest colon,
        endpoint_from_dsn,
        take-append scheme (codes "://" ++ rest),
        drop-append (length scheme + 3) scheme (codes "://") rest refl,
        last,
        until_path-append host tail ends is_tail,
      )
      refl
