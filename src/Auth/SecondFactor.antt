-- ===== src/Auth/SecondFactor.antt =====
-- verifySecondFactor of internal/auth/handlers.go: what an accepted code stands for.
use go_tunnels.Shared.{
  ℕ, ◌≡◌, refl, ap, ◌∙◌, ◌⊎◌, inl, inr, Bool, true, false, [], Option, none, some, Text, ℤ, arith,
  ok, any, Bool-cases, nat_eq, text_eq, text_beq, text_beq_iff, pure, stop, catch, ◌>>=◌, >>=-ok,
  ◌≢◌,
}
use go_tunnels.Text.{trim_space}
use go_tunnels.Store.{World, Platform, find}
use go_tunnels.Store.Schema.{TotpRow}
use go_tunnels.Store.Statement.{statement-ok}
use go_tunnels.Store.Rows.{any_of_count}
use go_tunnels.Store.Totp.{
  is_of, accepts_step, is_unused_code, mark_totp_step_used, update_last_used_step,
  use_recovery_code, update_used_code,
}
use go_tunnels.Auth.Codes.{match_totp_step, decrypt_secret, hash_recovery_code, time_now}
use go_tunnels.Auth.Sessions.{Settings}
use go_tunnels.Auth.Login.{verify_second_factor, check_code, check_opened, check_step, read_secret}
use go_tunnels.Auth.Grant.{get_totp_secret-cases}

mark-accepted :
    (id : Text) (step : ℤ) (w : World)
    → (mark_totp_step_used id step w).0 ≡ ok true
    → any (accepts_step id step) w.db.totp_secrets ≡ true
unfolding mark_totp_step_used update_last_used_step
mark-accepted id step w h =
    let (now, _, _, e, _) = statement-ok (update_last_used_step id step) w h in
    any_of_count (accepts_step id step) w.db.totp_secrets (ground arith)

use-unused :
    (id hash : Text) (w : World)
    → (use_recovery_code id hash w).0 ≡ ok true
    → any (is_unused_code id hash) w.db.totp_recovery_codes ≡ true
unfolding use_recovery_code update_used_code
use-unused id hash w h =
    let (now, _, _, e, _) = statement-ok (update_used_code id hash) w h in
    any_of_count (is_unused_code id hash) w.db.totp_recovery_codes (ground arith)

read_secret-ok :
    (id : Text) (w : World) {sealed : Text} {confirmed : Bool}
    → (read_secret id w).0 ≡ ok (some (sealed, confirmed))
    → ((read_secret id w).1.db ≡ w.db)
      × (row : TotpRow) × (find (is_of id) w.db.totp_secrets ≡ some row)
      × (row.secret_encrypted ≡ sealed)
      × (row.confirmed ≡ confirmed)
unfolding read_secret catch pure stop ◌>>=◌
read_secret-ok id w h =
    let (same, cases) = get_totp_secret-cases id w refl in
    elim cases [
      | inl down ↦ absurd (ground arith)
      | inr (inl (missing, none_of)) ↦ absurd (ground arith)
      | inr (inr (row, some_of, e)) ↦ (rw e same, row, some_of, ground arith, ground arith)
    ]

module _ (platform : Platform) (h : Settings) (id : Text) where
  -- The code's time step is newer than the last one accepted, or the code is an unused recovery code.
  abbrev pub IsAccepted : Text → Text → World → Type 0
  IsAccepted code secret w =
      ((now : ℕ) × (step : ℤ) × (match_totp_step platform code secret now ≡ some step)
        × (any (accepts_step id step) w.db.totp_secrets ≡ true))
      ⊎ (any (is_unused_code id (hash_recovery_code platform code)) w.db.totp_recovery_codes ≡ true)

  -- What stands behind an accepted code: a confirmed secret of the user that the server's key opens,
  -- and a time step newer than the last, whose code it is, or an unused recovery code.
  pub record IsSecondFactor (code : Text) (w : World) : Type 0 where
    pub row : TotpRow
    pub secret : Text
    pub enrolled : find (is_of id) w.db.totp_secrets ≡ some row
    pub confirmed : row.confirmed ≡ true
    pub opened : decrypt_secret platform h.totp_key row.secret_encrypted ≡ some secret
    pub accepted : IsAccepted code secret w

  check_step-ok :
      (code secret : Text) (now : ℕ) (o : Option ℤ) (w : World)
      → match_totp_step platform code secret now ≡ o
      → (check_step platform h id code o w).0 ≡ ok true
      → IsAccepted code secret w
  unfolding check_step
  check_step-ok code secret now none w e done =
      inr (use-unused id (hash_recovery_code platform code) w done)
  check_step-ok code secret now (some step) w e done =
      inl (now, step, e, mark-accepted id step w done)

  check_opened-ok :
      (code : Text) (o : Option Text) (w : World)
      → (check_opened platform h id code o w).0 ≡ ok true
      → (secret : Text) × (o ≡ some secret) × IsAccepted code secret w
  unfolding check_opened stop time_now ◌>>=◌
  check_opened-ok code none w done = absurd (ground arith)
  check_opened-ok code (some secret) w done =
      (secret, refl, check_step-ok code secret w.clock _ w refl done)

  check_code-ok :
      (code : Text) (o : Option (Text × Bool)) (w : World)
      → (check_code platform h id code o w).0 ≡ ok true
      → (sealed secret : Text) × (o ≡ some (sealed, true))
        × (decrypt_secret platform h.totp_key sealed ≡ some secret)
        × IsAccepted code secret w
  unfolding check_code pure
  check_code-ok code none w done = absurd (ground arith)
  check_code-ok code (some (sealed, false)) w done = absurd (ground arith)
  check_code-ok code (some (sealed, true)) w done =
      let (secret, opened, accepted) = check_opened-ok code _ w done in
      (sealed, secret, refl, opened, accepted)

  -- verifySecondFactor accepts a code for a user only if the code is not blank, the user has a
  -- confirmed secret that the server's key opens, and either the trimmed code is the secret's code at a
  -- time step that is newer than the last one accepted, or it is an unused recovery code of the user.
  pub verify_second_factor-IsSecondFactor :
      (raw : Text) (w : World)
      → (verify_second_factor platform h id raw w).0 ≡ ok true
      → (trim_space raw ≢ []) × IsSecondFactor (trim_space raw) w
  unfolding verify_second_factor pure
  verify_second_factor-IsSecondFactor raw w done =
      elim (Bool-cases (text_beq (trim_space raw) [])) [
        | inl blank ↦ absurd (ground arith)
        | inr code ↦
            let (o, e, rest) = >>=-ok (read_secret id) _ w (rw code at done) in
            let (sealed, secret, some_row, opened, accepted) =
              check_code-ok (trim_space raw) o _ rest in
            let (same, row, enrolled, sealed_row, confirmed) =
              read_secret-ok id w (e ∙ ap ok some_row) in
            (
              λ e0. ground (arith, text_beq_iff (trim_space raw) []),
              record {
                row = row;
                secret = secret;
                enrolled = enrolled;
                confirmed = confirmed;
                opened = ap (decrypt_secret platform h.totp_key) sealed_row ∙ opened;
                accepted = rw same at accepted;
              },
            )
      ]
