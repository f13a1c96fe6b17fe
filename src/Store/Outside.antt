-- ===== src/Store/Outside.antt =====
-- What the program takes from outside its own code: Unicode's case table, the cryptographic
-- primitives, and the JSON codec of library types.
use go_tunnels.Shared.{ℕ, Bool, List, Option, Text, ℤ}
use go_tunnels.Store.Schema.{Credential, Detail}

pub record Argon : Type 0 where
  pub memory : ℕ
  pub time : ℕ
  pub threads : ℕ

-- webauthn.WebAuthn: the configuration that an instance was built from.
pub record RelyingParty : Type 0 where
  pub rp_id : Text
  pub display_name : Text
  pub origins : List Text

pub record Platform : Type 0 where
  -- unicode.ToLower
  pub lower_rune : ℕ → ℕ
  -- crypto/sha256
  pub sha256 : Text → Text
  -- argon2.IDKey: password, salt, parameters, length of the key
  pub argon2_id_key : Text → Text → Argon → ℕ → Text
  -- totp.GenerateCodeCustom at a time step, with the program's options
  pub totp_code : Text → ℤ → Option Text
  -- AES-256-GCM: key, nonce, plaintext or ciphertext
  pub gcm_seal : Text → Text → Text → Text
  pub gcm_open : Text → Text → Text → Option Text
  -- json.Marshal and json.Unmarshal of a webauthn.Credential
  pub marshal_credential : Credential → Option Text
  pub unmarshal_credential : Text → Option Credential
  -- json.Marshal of an event's detail, with invalid UTF-8 replaced
  pub marshal_detail : Detail → Option Text
  -- strconv.Quote, which %q applies
  pub quote : Text → Text
  -- PostgreSQL's jsonb, on a JSON text
  pub jsonb_accepts : Text → Bool
