-- ===== src/Httpx/Origins/Split.antt =====
-- splitOrigin of internal/httpx/middleware.go, against a description of origins by their parts.
use go_tunnels.Shared.{
  ℕ, ◌+◌, ◌≤◌, ◌≡◌, ◌≢◌, refl, sym, ap, ◌∙◌, inl, inr, false, [], ◌∷◌, ◌++◌, some, Text, length,
  take, drop, any, nat_eq, text_eq, text_beq, text_beq_iff, text_beq_self, nat_beq, arith,
  Bool-cases, Option-cases,
}
use go_tunnels.Text.{index_of}
use go_tunnels.Text.Search.{index_of-parts, index_of-least, take-append, drop-append, some_inj}
use go_tunnels.Httpx.Origins.{
  SplitOrigin, is_not_host, separator, normal_origin, split_at, split_origin,
}

-- The text, trimmed and in lower case, is scheme "://" host: the first "://" counts, neither part is
-- empty, and the host holds none of the bytes `/?#@` and space.
pub record IsOrigin (lower_rune : ℕ → ℕ) (o : Text) (s : SplitOrigin) : Type 0 where
  pub parts : normal_origin lower_rune o ≡ s.scheme ++ (separator ++ s.host)
  pub first :
      (a b : Text) → normal_origin lower_rune o ≡ a ++ (separator ++ b) → length s.scheme ≤ length a
  pub has_scheme : s.scheme ≢ []
  pub has_host : s.host ≢ []
  pub clean : any is_not_host s.host ≡ false

pub nonempty : (t : Text) → t ≢ [] → text_beq t [] ≡ false
nonempty t h = elim (Bool-cases (text_beq t [])) [
  | inl e ↦ absurd (h ((text_beq_iff t []).0 e))
  | inr e ↦ e
]

pub empty-not : (t : Text) → text_beq t [] ≡ false → t ≢ []
empty-not t h e = absurd (ground (arith, rw (e, text_beq_self) at h))

module _ (lower_rune : ℕ → ℕ) where
  split_at-some :
      (o : Text) (i : ℕ) {s : SplitOrigin}
      → split_at o i ≡ some s
      → (i ≢ 0)
        × (drop (i + 3) o ≢ [])
        × (any is_not_host (drop (i + 3) o) ≡ false)
        × (record { scheme = take i o; host = drop (i + 3) o } ≡ s)
  unfolding split_at
  split_at-some o i {s} h = elim (Bool-cases (nat_beq i 0)) [
    | inl zero_i ↦ absurd (ground (arith, rw zero_i at h))
    | inr i_not ↦ elim (Bool-cases (text_beq (drop (i + 3) o) [])) [
      | inl blank ↦ absurd (ground (arith, rw (i_not, blank) at h))
      | inr given ↦ elim (Bool-cases (any is_not_host (drop (i + 3) o))) [
        | inl dirty ↦ absurd (ground (arith, rw (i_not, given, dirty) at h))
        | inr tidy ↦ (
          λ e. ground (arith, i_not, e),
          empty-not _ given,
          tidy,
          some_inj (rw (i_not, given, tidy) at h),
        )
      ]
    ]
  ]

  pub split_origin-IsOrigin :
      (o : Text) {s : SplitOrigin} → split_origin lower_rune o ≡ some s → IsOrigin lower_rune o s
  unfolding split_origin
  split_origin-IsOrigin o {s} h =
      let normal = normal_origin lower_rune o in
      elim (Option-cases (index_of separator normal)) [
        | inl none_of ↦ absurd (ground (arith, rw (none_of, split_origin) at h))
        | inr (i, at) ↦
            let (a, b, parts, n) = index_of-parts separator normal at in
            let (i_not, has_host, clean, is_s) =
              split_at-some normal i (rw (at, split_origin) at h) in
            let same_scheme : take i normal ≡ a =
              rw (parts, sym n) (take-append a (separator ++ b)) in
            let same_host : drop (i + 3) normal ≡ b =
              rw parts (drop-append (i + 3) a separator b (omega (arith, n))) in
            let scheme_a : s.scheme ≡ a = ap (λ t. t.scheme) (sym is_s) ∙ same_scheme in
            let host_b : s.host ≡ b = ap (λ t. t.host) (sym is_s) ∙ same_host in
            record {
              parts = rw (scheme_a, host_b) parts;
              first = λ c d e.
                  let (j, at_j, le) = index_of-least separator c d in
                  let same_i : i ≡ j = some_inj (sym at ∙ ap (index_of separator) e ∙ at_j) in
                  rw scheme_a (omega (arith, n, same_i, le));
              has_scheme = λ e. i_not (omega (arith, n, ap length (sym scheme_a ∙ e)));
              has_host = λ e. has_host (same_host ∙ sym host_b ∙ e);
              clean = ap (any is_not_host) (host_b ∙ sym same_host) ∙ clean;
            }
      ]

  pub IsOrigin-split_origin :
      (o : Text) (s : SplitOrigin) → IsOrigin lower_rune o s → split_origin lower_rune o ≡ some s
  unfolding split_origin split_at
  IsOrigin-split_origin o s h =
      let (i, at, le) = index_of-least separator s.scheme s.host in
      let (a, b, parts, n) = index_of-parts separator (s.scheme ++ (separator ++ s.host)) at in
      let ge = h.first a b (h.parts ∙ parts) in
      let i_is : i ≡ length s.scheme = omega (arith, le, ge, n) in
      let host = drop-append (length s.scheme + 3) s.scheme separator s.host refl in
      let no_scheme : nat_beq (length s.scheme) 0 ≡ false = positive s.scheme h.has_scheme in
      rw
        (
          h.parts,
          at,
          split_origin,
          i_is,
          h.parts,
          host,
          take-append,
          no_scheme,
          nonempty s.host h.has_host,
          h.clean,
        )
        refl
    where
      positive : (t : Text) → t ≢ [] → nat_beq (length t) 0 ≡ false
      positive [] k = absurd (k refl)
      positive (c ∷ t) k = ground arith
