-- ===== src/Httpx/Origins/Match.antt =====
-- MatchOriginPattern of internal/httpx/middleware.go, against a description of
-- origins and patterns by their parts.
use go_tunnels.Shared.{
  ℕ, ◌-◌, ◌≡◌, ◌≢◌, ◌↔◌, refl, ap, ◌∙◌, inl, inr, true, false, not, ◌||◌, [], ◌∷◌, ◌++◌, Text,
  codes, length, take, drop, any, nat_eq, text_eq, text_beq, text_beq_iff, arith, Bool-cases,
  Option-cases, length-append,
}
use go_tunnels.Text.{has_prefix, has_suffix}
use go_tunnels.Text.Search.{
  take-append, suffix-rest, has_suffix-append, prefix-rest, has_prefix-append,
}
use go_tunnels.Httpx.Origins.{
  SplitOrigin, is_not_label, split_origin, match_split, match_origin_pattern,
}
use go_tunnels.Httpx.Origins.Split.{
  IsOrigin, nonempty, empty-not, split_origin-IsOrigin, IsOrigin-split_origin,
}

-- A host fits a pattern's host: it is the same, where the pattern does not begin with "*.", or one
-- label, which is not empty and holds none of the bytes `.:/`, stands in place of the "*".
pub data Fits (pattern host : Text) : Type 0 where
  exact : has_prefix pattern (codes "*.") ≡ false → pattern ≡ host → Fits pattern host
  one_label :
      (label rest : Text)
      → pattern ≡ codes "*." ++ rest
      → host ≡ label ++ b'.' ∷ rest
      → label ≢ []
      → any is_not_label label ≡ false
      → Fits pattern host

take-label :
    (label suffix : Text)
    → take (length (label ++ suffix) - length suffix) (label ++ suffix) ≡ label
take-label label suffix =
    let n : length (label ++ suffix) - length suffix ≡ length label =
      omega (arith, length-append label suffix) in
    rw n (take-append label suffix)

Fits-match_split :
    (p o : SplitOrigin) → p.scheme ≡ o.scheme → Fits p.host o.host → match_split p o ≡ true
unfolding match_split
Fits-match_split p o same (exact plain e) =
    rw ((text_beq_iff p.scheme o.scheme).1 same, plain) ((text_beq_iff p.host o.host).1 e)
Fits-match_split p o same (one_label label rest pattern host given clean) =
    rw
      (
        (text_beq_iff p.scheme o.scheme).1 same,
        pattern,
        host,
        has_prefix-append (codes "*.") rest,
        has_suffix-append label (b'.' ∷ rest),
        take-label label (b'.' ∷ rest),
        nonempty label given,
        clean,
      )
      refl

label_tests :
    (label : Text)
    → not (text_beq label [] || any is_not_label label) ≡ true
    → (text_beq label [] ≡ false) × (any is_not_label label ≡ false)
label_tests label h = ground arith

match_split-Fits :
    (p o : SplitOrigin) → match_split p o ≡ true → (p.scheme ≡ o.scheme) × Fits p.host o.host
unfolding match_split
match_split-Fits p o h = elim (Bool-cases (text_beq p.scheme o.scheme)) [
  | inr other ↦ absurd (ground (arith, rw other at h))
  | inl same ↦ elim (Bool-cases (has_prefix p.host (codes "*."))) [
    | inr plain ↦ (
      (text_beq_iff p.scheme o.scheme).0 same,
      exact plain ((text_beq_iff p.host o.host).0 (rw (same, plain) at h)),
    )
    | inl starred ↦ elim (Bool-cases (has_suffix o.host (drop 1 p.host))) [
      | inr unlike ↦ absurd (ground (arith, rw (same, starred, unlike) at h))
      | inl ends ↦
          let (rest, pattern) = prefix-rest p.host (codes "*.") starred in
          let (label, host) = suffix-rest o.host (drop 1 p.host) ends in
          let host_is : o.host ≡ label ++ b'.' ∷ rest =
            host ∙ ap (λ t. label ++ drop 1 t) pattern in
          let fits : not (text_beq label [] || any is_not_label label) ≡ true =
            rw (same, starred, ends, host_is, pattern, take-label label (b'.' ∷ rest)) at h in
          let (given, clean) = label_tests label fits in
          (
            (text_beq_iff p.scheme o.scheme).0 same,
            one_label label rest pattern host_is (empty-not label given) clean,
          )
    ]
  ]
]

module _ (lower_rune : ℕ → ℕ) where
  -- A pattern and an origin of the same scheme, where the pattern's host admits the origin's host.
  pub record IsMatch (pattern origin : Text) : Type 0 where
    pub pattern_parts : SplitOrigin
    pub origin_parts : SplitOrigin
    pub is_pattern : IsOrigin lower_rune pattern pattern_parts
    pub is_origin : IsOrigin lower_rune origin origin_parts
    pub same_scheme : pattern_parts.scheme ≡ origin_parts.scheme
    pub fits : Fits pattern_parts.host origin_parts.host

  match_origin_pattern-IsMatch :
      (pattern origin : Text)
      → match_origin_pattern lower_rune pattern origin ≡ true
      → IsMatch pattern origin
  unfolding match_origin_pattern
  match_origin_pattern-IsMatch pattern origin h =
      elim (Option-cases (split_origin lower_rune pattern)) [
        | inl none_of ↦ absurd (ground (arith, rw (none_of, match_origin_pattern) at h))
        | inr (p, is_p) ↦ elim (Option-cases (split_origin lower_rune origin)) [
          | inl none_of ↦ absurd (ground (arith, rw (is_p, none_of, match_origin_pattern) at h))
          | inr (o, is_o) ↦
              let (same, fits) =
                match_split-Fits p o (rw (is_p, is_o, match_origin_pattern) at h) in
              record {
                pattern_parts = p;
                origin_parts = o;
                is_pattern = split_origin-IsOrigin lower_rune pattern is_p;
                is_origin = split_origin-IsOrigin lower_rune origin is_o;
                same_scheme = same;
                fits = fits;
              }
        ]
      ]

  -- MatchOriginPattern accepts exactly where the texts, trimmed and in lower case, are a pattern and
  -- an origin of the same scheme, and either the hosts are equal and the pattern's does not begin
  -- with "*.", or the origin's host is the pattern's with one label, which is not empty and holds
  -- none of the bytes `.:/`, in place of the "*". An origin's scheme ends at the first "://", and its host is
  -- not empty and holds none of the bytes `/?#@` and space; a port is part of the host.
  pub match_origin_pattern_iff :
      (pattern origin : Text)
      → (match_origin_pattern lower_rune pattern origin ≡ true) ↔ IsMatch pattern origin
  unfolding match_origin_pattern
  match_origin_pattern_iff pattern origin = (
    match_origin_pattern-IsMatch pattern origin,
    λ m.
        rw
          (
            IsOrigin-split_origin lower_rune pattern m.pattern_parts m.is_pattern,
            IsOrigin-split_origin lower_rune origin m.origin_parts m.is_origin,
            match_origin_pattern,
          )
          (Fits-match_split m.pattern_parts m.origin_parts m.same_scheme m.fits),
  )
