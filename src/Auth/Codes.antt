-- ===== src/Auth/Codes.antt =====
-- internal/auth/totp.go and session.go: one-time codes, the sealing of their secret, recovery
-- codes, session tokens.
use mathlib.Core.List.{flat_map}
use go_tunnels.Shared.{
  ℕ, zero, suc, ◌+◌, ◌/◌, ◌%◌, ◌&&◌, ◌||◌, List, [], ◌∷◌, ◌++◌, Option, none, some, Text, codes, ℤ,
  pos, negsuc, ◌+ℤ◌, ltb, leb, if◌then◌else◌, length, take, drop, Exec, ok, err, ◌>>=◌, pure, ◌==◌,
  nat_eq, text_eq, Result,
}
use go_tunnels.Text.{Rune, runes, trim_space, hex_encode, base64_raw_url}
use go_tunnels.Store.{World, Platform}

abbrev drawn : {E : Type 0} → E → Option Text → Result E Text
drawn e none = err e
drawn e (some bytes) = ok bytes

-- rand.Read of n bytes.
unfoldable pub random_bytes : {E : Type 0} → ℕ → E → Exec World E Text
random_bytes n e w = (drawn e (w.entropy w.reads n), record w { reads = suc w.reads })

-- time.Now()
unfoldable pub time_now : {E : Type 0} → Exec World E ℕ
time_now w = (ok w.clock, w)

abbrev totp_period : ℕ
totp_period = 30

-- now.Unix()
abbrev unix_seconds : ℕ → ℕ
unix_seconds now = now / 1000000000

-- The step among those to try whose code is the given one; the library's failure ends the search.
unfoldable pub first_match : (ℤ → Option Text) → Text → List ℤ → Option ℤ
first_match want code [] = none
first_match want code (step ∷ steps) =
    let rest = first_match want code steps in
    elim (want step) [ none ↦ none | some text ↦ if text == code then some step else rest ]

-- MatchTOTPStep: the matching step, if any.
unfoldable pub match_totp_step : Platform → Text → Text → ℕ → Option ℤ
unfolding first_match trim_space
match_totp_step platform raw secret now =
    let code = trim_space raw in
    let base = pos (unix_seconds now / totp_period) in
    if length code == 6
    then first_match (platform.totp_code secret) code
        (base ∷ (base +ℤ negsuc 0) ∷ (base +ℤ pos 1) ∷ [])
    else none

-- gcm.NonceSize()
abbrev nonce_size : ℕ
nonce_size = 12

module _ (platform : Platform) (key : Text) where
  -- EncryptSecret: nonce || ciphertext.
  unfoldable pub encrypt_secret : {E : Type 0} → Text → E → Exec World E Text
  unfolding random_bytes ◌>>=◌ pure
  encrypt_secret plaintext e = do
    nonce ← random_bytes nonce_size e
    pure (nonce ++ platform.gcm_seal key nonce plaintext)

  unfoldable pub decrypt_secret : Text → Option Text
  decrypt_secret sealed =
      if ltb (length sealed) nonce_size
      then none
      else platform.gcm_open key (take nonce_size sealed) (drop nonce_size sealed)

-- The lower-case letter or digit of a rune, or nothing.
unfoldable pub recovery_rune : Rune → Text
recovery_rune r =
    if leb b'A' r.point && leb r.point b'Z'
    then (r.point + 32) ∷ []
    else if (leb b'a' r.point && leb r.point b'z') || (leb b'0' r.point && leb r.point b'9')
    then r.point ∷ []
    else []

unfoldable pub normalize_recovery_code : Text → Text
unfolding runes recovery_rune
normalize_recovery_code code = flat_map recovery_rune (runes code)

unfoldable pub hash_recovery_code : Platform → Text → Text
unfolding normalize_recovery_code hex_encode
hash_recovery_code platform code = hex_encode (platform.sha256 (normalize_recovery_code code))

abbrev pub recovery_alphabet : Text
recovery_alphabet = codes "abcdefghijkmnpqrstuvwxyz23456789"

byte_at : ℕ → Text → ℕ
byte_at i [] = 0
byte_at zero (c ∷ s) = c
byte_at (suc i) (c ∷ s) = byte_at i s

-- recoveryAlphabet[b % len(recoveryAlphabet)]
abbrev letter : ℕ → ℕ
letter b = byte_at (b % length recovery_alphabet) recovery_alphabet

letters : Text → Text
unfolding byte_at
letters [] = []
letters (b ∷ s) = letter b ∷ letters s

-- Two groups of five letters for ten bytes of entropy.
unfoldable pub recovery_code : Text → Text
unfolding letters
recovery_code bytes = letters (take 5 bytes) ++ b'-' ∷ letters (take 5 (drop 5 bytes))

-- randomRecoveryCode
unfoldable pub random_recovery_code : {E : Type 0} → E → Exec World E Text
unfolding random_bytes recovery_code ◌>>=◌ pure
random_recovery_code e = do bytes ← random_bytes 10 e; pure (recovery_code bytes)

-- The loop of GenerateRecoveryCodes: the codes and their hashes.
unfoldable pub recovery_codes :
    {E : Type 0} → Platform → ℕ → E → Exec World E (List Text × List Text)
unfolding random_recovery_code hash_recovery_code ◌>>=◌ pure
recovery_codes platform zero e = pure ([], [])
recovery_codes platform (suc n) e = do
  code ← random_recovery_code e
  (more, hashes) ← recovery_codes platform n e
  pure (code ∷ more, hash_recovery_code platform code ∷ hashes)

-- GenerateRecoveryCodes: ten codes where none are asked for.
unfoldable pub generate_recovery_codes :
    {E : Type 0} → Platform → ℕ → E → Exec World E (List Text × List Text)
unfolding recovery_codes
generate_recovery_codes platform n e = recovery_codes platform (if n == 0 then 10 else n) e

unfoldable pub hash_session_token : Platform → Text → Text
unfolding hex_encode
hash_session_token platform token = hex_encode (platform.sha256 token)

-- NewSessionToken: the token and its storage id.
unfoldable pub new_session_token : {E : Type 0} → Platform → E → Exec World E (Text × Text)
unfolding random_bytes base64_raw_url ◌>>=◌ pure
new_session_token platform e = do
  bytes ← random_bytes 32 e
  let token = base64_raw_url bytes
  pure (token, hash_session_token platform token)
