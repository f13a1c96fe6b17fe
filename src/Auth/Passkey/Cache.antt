-- ===== src/Auth/Passkey/Cache.antt =====
-- RPProvider of internal/auth/passkey.go: the cache of derived relying parties.
use go_tunnels.Shared.{
  ◌≤◌, ◌≡◌, refl, inl, inr, List, [], ◌∷◌, map, some, Text, Result, ok, err, leb, if◌then◌else◌,
  length, any, ◌==◌, nat_eq, text_eq, text_beq, text_beq_iff, arith, All, Bool-cases, Option-cases,
  Result-cases, pure, stop, ◌>>=◌,
}
use go_tunnels.Store.{World, Platform, RelyingParty}
use go_tunnels.Httpx.Origins.{normal_origin, match_origin_pattern}
use go_tunnels.Auth.Passkey.{
  Webauthn, RpProvider, max_derived_rps, cached, build, derived, for_origin, remember, not_allowed,
}

module _ (platform : Platform) (lib : Webauthn) (p : RpProvider) where
  -- What an origin stands for where nothing is cached.
  pub resolve : Text → Result Text (RelyingParty × Text)
  resolve raw =
      let origin = normal_origin platform.lower_rune raw in
      if origin == []
      then ok (p.static, p.static_default)
      else if any (λ o. o == origin) p.static_origins
      then ok (p.static, origin)
      else if any (λ pat. match_origin_pattern platform.lower_rune pat origin) p.patterns
      then elim (build platform lib p origin) [ ok wa ↦ ok (wa, origin) | err e ↦ err e ]
      else err (not_allowed platform lib origin)

  -- Every entry is what would be built now, and there are at most maxDerivedRPs of them.
  pub record IsCoherent (entries : List (Text × RelyingParty)) : Type 0 where
    pub built : All (λ e. build platform lib p e.0 ≡ ok e.1) entries
    pub bounded : length entries ≤ max_derived_rps

  cached-build :
      (origin : Text) (entries : List (Text × RelyingParty)) {wa : RelyingParty}
      → All (λ e. build platform lib p e.0 ≡ ok e.1) entries
      → cached origin entries ≡ some wa
      → build platform lib p origin ≡ ok wa
  unfolding cached
  cached-build origin [] h found = absurd (ground arith)
  cached-build origin ((key, wa') ∷ rest) {wa} h found = elim (Bool-cases (text_beq key origin)) [
    | inl same ↦
        let key_is : key ≡ origin = (text_beq_iff key origin).0 same in
        let wa_is : some wa' ≡ some wa = rw same at found in
        let built : build platform lib p key ≡ ok wa' = h.0 in cc
    | inr other ↦ cached-build origin rest h.1 (rw other at found)
  ]

  remember-IsCoherent :
      (origin : Text) (wa : RelyingParty) (entries : List (Text × RelyingParty))
      → build platform lib p origin ≡ ok wa
      → IsCoherent entries
      → IsCoherent (remember platform lib origin wa entries)
  remember-IsCoherent origin wa entries built h =
      elim (Bool-cases (leb max_derived_rps (length entries))) [
        | inl full ↦ rw full (record { built = (built, tt); bounded = omega arith })
        | inr room ↦ rw room (record { built = (built, h.built); bounded = ground arith })
      ]

  derived-build :
      (origin : Text) (w : World)
      → IsCoherent w.by_origin
      → ((derived platform lib p origin w).0 ≡ build platform lib p origin)
        × IsCoherent (derived platform lib p origin w).1.by_origin
  unfolding derived
  derived-build origin w h = elim (Option-cases (cached origin w.by_origin)) [
    | inr (wa, hit) ↦
        let e = cached-build origin w.by_origin h.built hit in
        (rw (hit, e, derived) refl, rw (hit, derived) h)
    | inl miss ↦ elim (Result-cases (build platform lib p origin)) [
      | inl (wa, e) ↦
          (rw (miss, e, derived) refl, rw (miss, e, derived) (remember-IsCoherent origin wa _ e h))
      | inr (x, e) ↦ (rw (miss, e, derived) refl, rw (miss, e, derived) h)
    ]
  ]

  pub for_origin-resolve :
      (raw : Text) (w : World)
      → IsCoherent w.by_origin
      → ((for_origin platform lib p raw w).0 ≡ resolve raw)
        × IsCoherent (for_origin platform lib p raw w).1.by_origin
  unfolding for_origin resolve pure stop ◌>>=◌
  for_origin-resolve raw w h =
      let origin = normal_origin platform.lower_rune raw in
      let listed = any (λ o. text_beq o origin) p.static_origins in
      let trusted = any (λ pat. match_origin_pattern platform.lower_rune pat origin) p.patterns in
      let (same, kept) = derived-build origin w h in
      elim (Bool-cases (text_beq origin [])) [
        | inl blank ↦ (rw blank refl, rw blank h)
        | inr given ↦ elim (Bool-cases listed) [
          | inl on ↦ (rw (given, on) refl, rw (given, on) h)
          | inr off ↦ elim (Bool-cases trusted) [
            | inr out ↦ (rw (given, off, out) refl, rw (given, off, out) h)
            | inl fits ↦ elim (Result-cases (build platform lib p origin)) [
              | inl (wa, e) ↦
                  (rw (given, off, fits, same, e) refl, rw (given, off, fits, same, e) kept)
              | inr (x, e) ↦
                  (rw (given, off, fits, same, e) refl, rw (given, off, fits, same, e) kept)
            ]
          ]
        ]
      ]

  derived-db : (origin : Text) (w : World) → (derived platform lib p origin w).1.db ≡ w.db
  unfolding derived
  derived-db origin w = elim (Option-cases (cached origin w.by_origin)) [
    | inr (wa, hit) ↦ rw (hit, derived) refl
    | inl miss ↦ elim (Result-cases (build platform lib p origin)) [
      | inl (wa, e) ↦ rw (miss, e, derived) refl
      | inr (x, e) ↦ rw (miss, e, derived) refl
    ]
  ]

  -- The tables are not touched.
  pub for_origin-db : (raw : Text) (w : World) → (for_origin platform lib p raw w).1.db ≡ w.db
  unfolding for_origin pure stop ◌>>=◌
  for_origin-db raw w =
      let origin = normal_origin platform.lower_rune raw in
      let listed = any (λ o. text_beq o origin) p.static_origins in
      let trusted = any (λ pat. match_origin_pattern platform.lower_rune pat origin) p.patterns in
      let kept = derived-db origin w in
      elim (Bool-cases (text_beq origin [])) [
        | inl blank ↦ rw blank refl
        | inr given ↦ elim (Bool-cases listed) [
          | inl on ↦ rw (given, on) refl
          | inr off ↦ elim (Bool-cases trusted) [
            | inr out ↦ rw (given, off, out) refl
            | inl fits ↦ elim (Result-cases (derived platform lib p origin w).0) [
              | inl (wa, e) ↦ rw (given, off, fits, e) kept
              | inr (x, e) ↦ rw (given, off, fits, e) kept
            ]
          ]
        ]
      ]

  -- The answers to the origins of a sequence of requests.
  pub for_origins : List Text → World → List (Result Text (RelyingParty × Text)) × World
  unfolding for_origin
  for_origins [] w = ([], w)
  for_origins (raw ∷ raws) w =
      let (answer, w') = for_origin platform lib p raw w in
      let (answers, v) = for_origins raws w' in (answer ∷ answers, v)

  for_origins-resolve :
      (raws : List Text) (w : World)
      → IsCoherent w.by_origin
      → ((for_origins raws w).0 ≡ map resolve raws) × IsCoherent (for_origins raws w).1.by_origin
  unfolding for_origins
  for_origins-resolve [] w h = (refl, h)
  for_origins-resolve (raw ∷ raws) w h =
      let (same, kept) = for_origin-resolve raw w h in
      let (rest, end) = for_origins-resolve raws _ kept in (rw (same, rest) refl, end)

  -- From an empty cache, every origin of a sequence of requests gets the answer that it would get if
  -- nothing were cached, whatever came before it, and the cache never holds more than 256 entries.
  pub for_origins-cache :
      (raws : List Text) (w : World)
      → w.by_origin ≡ []
      → ((for_origins raws w).0 ≡ map resolve raws)
        × (length (for_origins raws w).1.by_origin ≤ 256)
  for_origins-cache raws w empty =
      let start : IsCoherent w.by_origin =
        rw empty (record { built = tt; bounded = omega arith }) in
      let (same, kept) = for_origins-resolve raws w start in (same, kept.bounded)
