-- ===== src/Auth/Passkey.antt =====
-- internal/auth/passkey.go: relying parties per request origin, and the WebAuthn library as the
-- handlers use it.
use go_tunnels.Shared.{
  ℕ, suc, ◌+◌, Bool, true, false, not, ◌&&◌, List, [], ◌∷◌, ◌++◌, map, Option, none, some, Text,
  codes, Result, ok, err, Exec, leb, if◌then◌else◌, length, take, drop, any, ◌==◌, nat_eq, text_eq,
  pure, stop, ◌>>=◌,
}
use go_tunnels.Text.{index_of}
use go_tunnels.Store.{World, Platform, RelyingParty, User, Credential}
use go_tunnels.Httpx.Origins.{normal_origin, match_origin_pattern, separator}
pub mod Cache

-- webauthn.SessionData, which only the library reads.
abbrev pub SessionData : Type 0
SessionData = Text

pub record WebauthnUser : Type 0 where
  pub user : User
  pub credentials : List Credential

pub record SignupFlowData : Type 0 where
  pub user_id : Text
  pub username : Text
  pub display_name : Text

pub record FlowEnvelope : Type 0 where
  pub origin : Text
  pub signup : Option SignupFlowData
  pub session : Option SessionData

-- The WebAuthn library, and the codec of the envelope. What begins a ceremony takes what a read of
-- random bytes returned; what finishes one takes the request's body, if it was within the limit,
-- and the time.
pub record Webauthn : Type 0 where
  -- webauthn.New: its error, if any
  pub config_problem : RelyingParty → Option Text
  -- with the credentials to exclude
  pub begin_registration :
      RelyingParty → WebauthnUser → List Credential → Option Text → Result Text SessionData
  pub finish_registration :
      RelyingParty → WebauthnUser → SessionData → Option Text → ℕ → Result Text Credential
  pub begin_login : RelyingParty → WebauthnUser → Option Text → Result Text SessionData
  pub finish_login :
      RelyingParty → WebauthnUser → SessionData → Option Text → ℕ → Result Text Credential
  pub marshal_envelope : FlowEnvelope → Option Text
  pub unmarshal_envelope : Text → Option FlowEnvelope
  -- uuid.NewV4
  pub new_v4 : Option Text → Text

-- WebAuthnDisplayName
unfoldable pub web_authn_display_name : WebauthnUser → Text
web_authn_display_name u =
    if u.user.display_name == [] then u.user.username else u.user.display_name

pub record RpConfig : Type 0 where
  pub rp_id : Text
  pub rp_display_name : Text
  pub rp_origins : List Text
  pub origin_patterns : List Text

pub record RpProvider : Type 0 where
  pub display_name : Text
  pub static : RelyingParty
  pub static_default : Text
  -- the keys of a set
  pub static_origins : List Text
  pub patterns : List Text

abbrev pub max_derived_rps : ℕ
max_derived_rps = 256

-- What precedes the first occurrence of a byte, or the whole text.
unfoldable pub until_byte : ℕ → Text → Text
until_byte c [] = []
until_byte c (x ∷ s) = let rest = until_byte c s in if x == c then [] else x ∷ rest

-- strings.CutLast: what precedes the last occurrence.
unfoldable pub before_last : ℕ → Text → Option Text
before_last c [] = none
before_last c (x ∷ s) = elim (before_last c s) [
  | some t ↦ some (x ∷ t)
  | none ↦ if x == c then some [] else none
]

-- What follows the scheme, if there is one.
abbrev after_scheme : Text → Text
after_scheme origin = elim (index_of separator origin) [
  | none ↦ origin
  | some i ↦ drop (i + 3) origin
]

unfoldable pub host_of_origin : Text → Text
unfolding until_byte before_last index_of
host_of_origin origin =
    let authority = until_byte b'/' (after_scheme origin) in
    elim (before_last b':' authority) [ none ↦ authority | some host ↦ host ]

-- A lookup in `byOrigin`.
unfoldable pub cached : Text → List (Text × RelyingParty) → Option RelyingParty
cached origin [] = none
cached origin ((key, wa) ∷ rest) =
    let found = cached origin rest in if key == origin then some wa else found

module _ (platform : Platform) (lib : Webauthn) where
  -- NewWebAuthn
  unfoldable pub new_web_authn : Text → Text → List Text → Result Text RelyingParty
  new_web_authn rp_id display_name origins =
      let wa : RelyingParty = record {
        rp_id = rp_id;
        display_name = display_name;
        origins = origins;
      } in
      elim (lib.config_problem wa) [ none ↦ ok wa | some problem ↦ err problem ]

  abbrev first_origin : List Text → Text
  first_origin [] = []
  first_origin (o ∷ _) = o

  -- NewRPProvider; the cache starts empty.
  unfoldable pub new_rp_provider : RpConfig → Result Text RpProvider
  unfolding new_web_authn
  new_rp_provider cfg = elim (new_web_authn cfg.rp_id cfg.rp_display_name cfg.rp_origins) [
    | err problem ↦ err problem
    | ok static ↦ ok (record {
      display_name = cfg.rp_display_name;
      static = static;
      static_default = first_origin cfg.rp_origins;
      static_origins = map (normal_origin platform.lower_rune) cfg.rp_origins;
      patterns = cfg.origin_patterns;
    })
  ]

  abbrev no_rp_id : Text → Text
  no_rp_id origin = codes "auth: cannot derive RP ID from origin " ++ platform.quote origin

  abbrev not_allowed : Text → Text
  not_allowed origin =
      codes "auth: origin "
      ++ platform.quote origin
      ++ codes " is not an allowed WebAuthn relying party"

  -- What the cache is after an insertion: it is emptied first when it is full.
  abbrev pub remember :
      Text → RelyingParty → List (Text × RelyingParty) → List (Text × RelyingParty)
  remember origin wa entries =
      if leb max_derived_rps (length entries) then (origin, wa) ∷ [] else (origin, wa) ∷ entries

  -- The instance that `derived` builds for an origin that is not cached.
  unfoldable pub build : RpProvider → Text → Result Text RelyingParty
  unfolding new_web_authn host_of_origin
  build p origin =
      let rp_id = host_of_origin origin in
      if rp_id == []
      then err (no_rp_id origin)
      else new_web_authn rp_id p.display_name (origin ∷ [])

  -- derived
  unfoldable pub derived : RpProvider → Text → Exec World Text RelyingParty
  unfolding cached build
  derived p origin w = elim (cached origin w.by_origin) [
    | some wa ↦ (ok wa, w)
    | none ↦ elim (build p origin) [
      | err problem ↦ (err problem, w)
      | ok wa ↦ (ok wa, record w { by_origin = remember origin wa w.by_origin })
    ]
  ]

  -- ForOrigin: the instance, and the origin that it is bound to.
  unfoldable pub for_origin : RpProvider → Text → Exec World Text (RelyingParty × Text)
  unfolding normal_origin match_origin_pattern derived any pure stop ◌>>=◌
  for_origin p raw =
      let origin = normal_origin platform.lower_rune raw in
      if origin == []
      then pure (p.static, p.static_default)
      else if any (λ o. o == origin) p.static_origins
      then pure (p.static, origin)
      else if not (any (λ pat. match_origin_pattern platform.lower_rune pat origin) p.patterns)
      then stop (not_allowed origin)
      else do wa ← derived p origin; pure (wa, origin)
