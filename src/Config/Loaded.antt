-- ===== src/Config/Loaded.antt =====
-- Load of internal/config/config.go: what a configuration that it returns satisfies.
use go_tunnels.Shared.{
  ◌≡◌, ◌≢◌, sym, ap, ◌∙◌, inl, inr, false, List, [], ◌∷◌, Text, codes, Result, ok, err, text_eq,
  nat_eq, text_beq, arith, Bool-cases, Option-cases, Result-cases, ok_inj,
}
use Prim.Native.String.{String}
use go_tunnels.Store.{Platform}
use go_tunnels.Config.Environment.{Environment, Problem}
use go_tunnels.Config.Settings.{Settings, Config, Host, read_settings}
use go_tunnels.Config.Load.{
  getenv, resolve_secret, resolve_secrets, validate, complete, load, finished,
}
use go_tunnels.Config.Valid.{IsValid, nonempty, validate-IsValid}

secret_set :
    (set random : Text) (message : String) {s : Text}
    → resolve_secret false set random message ≡ ok s
    → (set ≢ []) × (s ≡ set)
unfolding resolve_secret
secret_set set random message h = elim (Bool-cases (text_beq set [])) [
  | inl blank ↦ absurd (ground (arith, rw (resolve_secret, blank) at h))
  | inr given ↦ (nonempty set given, sym (ok_inj (rw (resolve_secret, given) at h)))
]

module _ (platform : Platform) (e : Environment) (host : Host) where
  -- The secrets that a server outside development runs with.
  pub record HasSecrets (c : Config) : Type 0 where
    pub pepper_set : getenv e (codes "GOTUNNELS_IP_HASH_PEPPER") ≢ []
    pub pepper : c.ip_hash_pepper ≡ getenv e (codes "GOTUNNELS_IP_HASH_PEPPER")
    pub key_set : getenv e (codes "GOTUNNELS_TOTP_ENCRYPTION_KEY") ≢ []
    pub key : c.totp_aes_key ≡ platform.sha256 (getenv e (codes "GOTUNNELS_TOTP_ENCRYPTION_KEY"))

  complete-ok :
      (s : Settings) {c : Config}
      → complete platform e host s ≡ ok c
      → (c.settings ≡ s)
        × IsValid s
        × (resolve_secrets platform e host s ≡ ok (c.ip_hash_pepper, c.totp_aes_key))
  unfolding complete
  complete-ok s {c} h = elim (Result-cases (resolve_secrets platform e host s)) [
    | inr (x, failed) ↦ absurd (ground (arith, rw (complete, failed) at h))
    | inl ((pepper, key), found) ↦ elim (Option-cases (validate s)) [
      | inr (x, failed) ↦ absurd (ground (arith, rw (complete, found, failed) at h))
      | inl valid ↦
          let is_c = ok_inj (rw (complete, found, valid) at h) in
          (
            ap (λ t. t.settings) (sym is_c),
            validate-IsValid s valid,
            found ∙ ap (λ t. ok (t.ip_hash_pepper, t.totp_aes_key)) is_c,
          )
    ]
  ]

  resolve-HasSecrets :
      (s : Settings) {pepper key : Text}
      → s.dev ≡ false
      → resolve_secrets platform e host s ≡ ok (pepper, key)
      → (getenv e (codes "GOTUNNELS_IP_HASH_PEPPER") ≢ [])
        × (pepper ≡ getenv e (codes "GOTUNNELS_IP_HASH_PEPPER"))
        × (getenv e (codes "GOTUNNELS_TOTP_ENCRYPTION_KEY") ≢ [])
        × (key ≡ platform.sha256 (getenv e (codes "GOTUNNELS_TOTP_ENCRYPTION_KEY")))
  unfolding resolve_secrets resolve_secret
  resolve-HasSecrets s {pepper} {key} production h =
      let p = getenv e (codes "GOTUNNELS_IP_HASH_PEPPER") in
      let k = getenv e (codes "GOTUNNELS_TOTP_ENCRYPTION_KEY") in
      elim (Bool-cases (text_beq p [])) [
        | inl blank ↦
            absurd (ground (arith, rw (resolve_secrets, resolve_secret, production, blank) at h))
        | inr given ↦ elim (Bool-cases (text_beq k [])) [
          | inl blank ↦
              absurd (
                ground (arith, rw (resolve_secrets, resolve_secret, production, given, blank) at h))
          | inr set ↦
              let same =
                ok_inj (rw (resolve_secrets, resolve_secret, production, given, set) at h) in
              (nonempty p given, ap (λ q. q.0) (sym same), nonempty k set, ap (λ q. q.1) (sym same))
        ]
      ]

  -- A configuration that Load returns: its settings are those that the settings' own variables give, and reading these
  -- recorded no problem; Validate's conditions hold; and, unless the development flag is set, both secrets are set in the
  -- environment: the pepper as it stands, and the key as the SHA-256 of what is set. The variables of the telemetry and
  -- the two secrets are read without that record of problems.
  pub load-IsValid :
      {c : Config}
      → load platform e host ≡ ok c
      → (read_settings e host [] ≡ (ok c.settings, []))
        × IsValid c.settings
        × (c.settings.dev ≡ false → HasSecrets c)
  unfolding load
  load-IsValid {c} h = of_read (read_settings e host []) h
    where
      of_read :
          (q : Result Unit Settings × List Problem)
          → finished platform e host q ≡ ok c
          → (q ≡ (ok c.settings, [])) × IsValid c.settings × (c.settings.dev ≡ false → HasSecrets c)
      of_read (ok s, []) k =
          let (same, valid, secrets) = complete-ok s k in
          (
            ap (λ t. (ok t, [])) (sym same),
            rw same valid,
            λ production.
                let (a, b, d, f) =
                  resolve-HasSecrets s (ap (λ t. t.dev) (sym same) ∙ production) secrets in
                record { pepper_set = a; pepper = b; key_set = d; key = f },
          )
      of_read (ok s, p ∷ ps) k = absurd (ground arith)
      of_read (err x, ps) k = absurd (ground arith)
