-- ===== src/Store/Totp.antt =====
-- The second factor of internal/store/store.go (StartTOTPEnrollment to UseRecoveryCode).
use go_tunnels.Shared.{
  ℕ, Bool, true, false, not, ◌&&◌, List, [], ◌∷◌, ◌++◌, Option, none, some, ok, Text, ℤ, ltb, ltb_ℤ,
  if◌then◌else◌, ◌==◌, nat_eq, text_eq, any, Option, pure, ◌>>=◌, ◌>>◌,
}
use go_tunnels.Store.Schema.{Db, TotpRow, RecoveryRow}
use go_tunnels.Store.Table.{find, update_where, delete_where, count_where}
use go_tunnels.Store.Statement.{
  Query, Stored, statement, in_tx, checked_insert, or_not_found, is_null,
}

abbrev pub is_of : Text → TotpRow → Bool
is_of user_id r = r.user_id == user_id

-- user_id = $1 AND confirmed = false
abbrev pub is_pending : Text → TotpRow → Bool
is_pending user_id r = is_of user_id r && not r.confirmed

abbrev pub last_step_below : Option ℤ → ℤ → Bool
last_step_below none step = true
last_step_below (some last) step = ltb_ℤ last step

-- confirmed = true AND (last_used_step IS NULL OR last_used_step < $2)
abbrev pub accepts_step : Text → ℤ → TotpRow → Bool
accepts_step user_id step r =
    is_of user_id r && r.confirmed && last_step_below r.last_used_step step

abbrev pub pending_row : Text → Text → ℕ → TotpRow
pending_row user_id encrypted now = record {
  user_id = user_id;
  secret_encrypted = encrypted;
  confirmed = false;
  created_at = now;
  confirmed_at = none;
  last_used_step = none;
}

abbrev pub recovery_row : Text → Text → RecoveryRow
recovery_row user_id hash = record { user_id = user_id; code_hash = hash; used_at = none }

abbrev pub has_user : Text → Db → Bool
has_user user_id d = any (λ u. u.user.id == user_id) d.users

-- INSERT … ON CONFLICT (user_id) DO UPDATE … WHERE totp_secrets.confirmed = false
unfoldable pub upsert_pending : Text → Text → Query ℕ
unfolding any update_where count_where
upsert_pending user_id encrypted now d =
    if any (is_of user_id) d.totp_secrets
    then (
      ok (count_where (is_pending user_id) d.totp_secrets),
      record d {
        totp_secrets =
            update_where (is_pending user_id) (λ _. pending_row user_id encrypted now)
              d.totp_secrets;
      },
    )
    else checked_insert false (has_user user_id d) 1 d
        (record d { totp_secrets = d.totp_secrets ++ pending_row user_id encrypted now ∷ [] })

unfoldable pub delete_recovery_codes : Text → Query Unit
unfolding delete_where
delete_recovery_codes user_id now d = (
  ok tt,
  record d { totp_recovery_codes = delete_where (λ r. r.user_id == user_id) d.totp_recovery_codes },
)

unfoldable pub insert_recovery_code : Text → Text → Query Unit
unfolding any
insert_recovery_code user_id hash now d =
    checked_insert false (has_user user_id d) tt d
      (record d { totp_recovery_codes = d.totp_recovery_codes ++ recovery_row user_id hash ∷ [] })

-- `for _, h := range recoveryHashes`
unfoldable pub insert_recovery_codes : Text → List Text → Stored Unit
insert_recovery_codes user_id [] = pure tt
insert_recovery_codes user_id (h ∷ hs) = do
  statement (insert_recovery_code user_id h)
  insert_recovery_codes user_id hs

unfoldable pub start_totp_enrollment : Text → Text → List Text → Stored Bool
start_totp_enrollment user_id encrypted recovery_hashes = in_tx do
  affected ← statement (upsert_pending user_id encrypted)
  if affected == 0 then pure false else do
    statement (delete_recovery_codes user_id)
    insert_recovery_codes user_id recovery_hashes
    pure true

unfoldable pub update_confirmed : Text → ℤ → Query Bool
unfolding update_where count_where
update_confirmed user_id step now d = (
  ok (ltb 0 (count_where (is_pending user_id) d.totp_secrets)),
  record d {
    totp_secrets =
        update_where (is_pending user_id)
          (λ r. record r { confirmed = true; confirmed_at = some now; last_used_step = some step })
          d.totp_secrets;
  },
)

unfoldable pub update_last_used_step : Text → ℤ → Query Bool
unfolding update_where count_where
update_last_used_step user_id step now d = (
  ok (ltb 0 (count_where (accepts_step user_id step) d.totp_secrets)),
  record d {
    totp_secrets =
        update_where (accepts_step user_id step) (λ r. record r { last_used_step = some step })
          d.totp_secrets;
  },
)

unfoldable pub select_totp_secret : Text → Query (Text × Bool)
unfolding find
select_totp_secret user_id now d =
    (or_not_found (secret_of (find (is_of user_id) d.totp_secrets)), d)
  where
    secret_of : Option TotpRow → Option (Text × Bool)
    secret_of none = none
    secret_of (some r) = some (r.secret_encrypted, r.confirmed)

unfoldable pub delete_totp_secret : Text → Query Unit
unfolding delete_where
delete_totp_secret user_id now d =
    (ok tt, record d { totp_secrets = delete_where (is_of user_id) d.totp_secrets })

-- user_id = $1 AND code_hash = $2 AND used_at IS NULL
abbrev pub is_unused_code : Text → Text → RecoveryRow → Bool
is_unused_code user_id hash r = r.user_id == user_id && r.code_hash == hash && is_null r.used_at

unfoldable pub update_used_code : Text → Text → Query Bool
unfolding update_where count_where
update_used_code user_id hash now d = (
  ok (ltb 0 (count_where (is_unused_code user_id hash) d.totp_recovery_codes)),
  record d {
    totp_recovery_codes =
        update_where (is_unused_code user_id hash) (λ r. record r { used_at = some now })
          d.totp_recovery_codes;
  },
)

unfoldable pub confirm_totp : Text → ℤ → Stored Bool
confirm_totp user_id step = statement (update_confirmed user_id step)

unfoldable pub mark_totp_step_used : Text → ℤ → Stored Bool
mark_totp_step_used user_id step = statement (update_last_used_step user_id step)

unfoldable pub get_totp_secret : Text → Stored (Text × Bool)
get_totp_secret user_id = statement (select_totp_secret user_id)

unfoldable pub delete_totp : Text → Stored Unit
delete_totp user_id =
    in_tx do statement (delete_recovery_codes user_id); statement (delete_totp_secret user_id)

unfoldable pub use_recovery_code : Text → Text → Stored Bool
use_recovery_code user_id hash = statement (update_used_code user_id hash)
