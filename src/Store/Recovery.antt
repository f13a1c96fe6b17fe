-- ===== src/Store/Recovery.antt =====
-- Recovery codes of internal/store/store.go, and the enrolment of a second factor.
use go_tunnels.Shared.{
  ℕ, ◌≡◌, refl, ◌∙◌, ◌⊎◌, inl, inr, Bool, true, false, List, [], ◌∷◌, some, ok, err, arith, Text,
  text_eq, nat_eq, text_beq, any,
}
use go_tunnels.Store.Schema.{Db, unavailable}
use go_tunnels.Store.Outside.{Platform}
use go_tunnels.Store.Statement.{
  World, QueryKeeps, statement-ok, statement-cases, checked_insert, checked_insert-keeps,
}
use go_tunnels.Store.Rows.{
  any-append, any-update_false, any-update_self, any-delete_false, count-zero, update-none,
}
use go_tunnels.Store.Sessions.{insert_session, update_last_seen, update_revoked, update_revoked_all}
use go_tunnels.Store.Flows.{insert_flow, delete_returning_flow, delete_expired}
use go_tunnels.Store.Totp.{
  is_of, is_pending, pending_row, is_unused_code, recovery_row, upsert_pending,
  delete_recovery_codes, insert_recovery_code, update_confirmed, update_last_used_step,
  delete_totp_secret, update_used_code, use_recovery_code, start_totp_enrollment,
}
use go_tunnels.Store.Audit.{insert_activity_row}
use go_tunnels.Store.Users.{
  insert_user_row, insert_user_role, insert_password, insert_credential, update_credential,
}
use go_tunnels.Store.Idle.{Idle-in_tx, Idle-bind, Idle-statement, Idle-pure}
use go_tunnels.Store.History.Posts.{Ignores-StablePost}
use go_tunnels.Store.History.{
  posts, Call, starts_totp, deletes_totp, uses_recovery_code, run, run-keeps, Only,
}
use go_tunnels.Store.History.Stable.{Stable, perform-keeps}

-- No unused recovery code of the user has the hash.
abbrev pub IsUsed : Text → Text → Db → Type 0
IsUsed user_id hash d = any (is_unused_code user_id hash) d.totp_recovery_codes ≡ false

-- The call does not enrol the user again, which issues new codes.
abbrev pub IsNotEnrolment : Text → Call → Type 0
IsNotEnrolment user_id (starts_totp other _ _) = text_beq other user_id ≡ false
IsNotEnrolment user_id _ = Unit {0}

module _ (user_id hash : Text) where
  insert_recovery_code-IsUsed :
      (other h : Text)
      → text_beq other user_id ≡ false
      → QueryKeeps (IsUsed user_id hash) (insert_recovery_code other h)
  unfolding insert_recovery_code any
  insert_recovery_code-IsUsed other h apart now d used =
      checked_insert-keeps (IsUsed user_id hash) _ _ _ _ _ used (λ _ _.
        any-append (is_unused_code user_id hash) d.totp_recovery_codes (recovery_row other h ∷ [])
        ∙ ground arith)

  update_used_code-IsUsed :
      (other h : Text) → QueryKeeps (IsUsed user_id hash) (update_used_code other h)
  unfolding update_used_code
  update_used_code-IsUsed other h now d used =
      any-update_false (is_unused_code user_id hash) (is_unused_code other h)
        (λ r. record r { used_at = some now }) d.totp_recovery_codes (λ r k q. ground arith) used

  update_used_code-uses :
      (now : ℕ) (d : Db) → IsUsed user_id hash (update_used_code user_id hash now d).1
  unfolding update_used_code
  update_used_code-uses now d =
      any-update_self (is_unused_code user_id hash) (is_unused_code user_id hash)
        (λ r. record r { used_at = some now }) d.totp_recovery_codes (λ r k. k) (λ r. ground arith)

  update_used_code-used :
      (now : ℕ) (d : Db)
      → IsUsed user_id hash d
      → (update_used_code user_id hash now d).0 ≡ ok false
  unfolding update_used_code
  update_used_code-used now d used = rw (
      count-zero (is_unused_code user_id hash) (is_unused_code user_id hash) d.totp_recovery_codes
        (λ r k. k) used)

  IsUsed-Stable : (c : Call) → IsNotEnrolment user_id c → Stable (IsUsed user_id hash) c
  unfolding insert_session update_last_seen update_revoked update_revoked_all insert_flow
      delete_returning_flow delete_expired delete_recovery_codes upsert_pending update_confirmed
      update_last_used_step delete_totp_secret insert_user_row insert_user_role insert_password
      insert_credential update_credential insert_activity_row checked_insert
  IsUsed-Stable (starts_totp other encrypted hashes) apart = (
    ground arith,
    λ now d used. any-delete_false _ _ d.totp_recovery_codes used,
    λ h. insert_recovery_code-IsUsed other h apart,
  )
  IsUsed-Stable (deletes_totp other) _ =
      (λ now d used. any-delete_false _ _ d.totp_recovery_codes used, ground arith)
  IsUsed-Stable (uses_recovery_code other h) _ = update_used_code-IsUsed other h
  IsUsed-Stable (posts p) _ =
      Ignores-StablePost (IsUsed user_id hash) (record { at = λ d _ _ _ _ _ _ _ _ used. used }) p
  IsUsed-Stable _ _ = ground arith

  use-IsUsed :
      (w : World)
      → IsUsed user_id hash w.db
      → ((use_recovery_code user_id hash w).0 ≡ ok false)
        ⊎ ((use_recovery_code user_id hash w).0 ≡ err unavailable)
  unfolding use_recovery_code
  use-IsUsed w used = elim (statement-cases (update_used_code user_id hash) w) [
    | inl (down, _) ↦ inr down
    | inr (now, _, r, _) ↦ inl (r ∙ update_used_code-used now w.db used)
  ]

  -- Once UseRecoveryCode has returned for a code of a user, with true or with false, no history of
  -- calls that does not enrol the user again lets the code be used: UseRecoveryCode then reports
  -- false, or that the database is unavailable.
  pub recovery_single_use :
      (platform : Platform) (cs : List Call) (w : World) {used : Bool}
      → (use_recovery_code user_id hash w).0 ≡ ok used
      → Only (IsNotEnrolment user_id) cs
      → let later = run platform cs (use_recovery_code user_id hash w).1 in
        ((use_recovery_code user_id hash later).0 ≡ ok false)
        ⊎ ((use_recovery_code user_id hash later).0 ≡ err unavailable)
  unfolding use_recovery_code
  recovery_single_use platform cs w done only =
      let (now, _, _, _, d) = statement-ok (update_used_code user_id hash) w done in
      use-IsUsed _ (
        run-keeps platform (IsUsed user_id hash) (IsNotEnrolment user_id)
          (λ c v k. perform-keeps platform (IsUsed user_id hash) c v (IsUsed-Stable c k)) cs _ only
          (rw d (update_used_code-uses now w.db)))

upsert_pending-refused :
    (user_id encrypted : Text) (now : ℕ) (d : Db)
    → any (is_of user_id) d.totp_secrets ≡ true
    → any (is_pending user_id) d.totp_secrets ≡ false
    → upsert_pending user_id encrypted now d ≡ (ok 0, d)
unfolding upsert_pending
upsert_pending-refused user_id encrypted now d known confirmed = rw (
  known,
  count-zero (is_pending user_id) (is_pending user_id) d.totp_secrets (λ r k. k) confirmed,
  update-none (is_pending user_id) (λ _. pending_row user_id encrypted now) d.totp_secrets
      confirmed,
)

-- While a user's second factor is confirmed, StartTOTPEnrollment changes no table, and reports false
-- or that the database is unavailable.
pub enrolment_refused :
    (user_id encrypted : Text) (hashes : List Text) (w : World)
    → any (is_of user_id) w.db.totp_secrets ≡ true
    → any (is_pending user_id) w.db.totp_secrets ≡ false
    → ((start_totp_enrollment user_id encrypted hashes w).1.db ≡ w.db)
      × (((start_totp_enrollment user_id encrypted hashes w).0 ≡ ok false)
          ⊎ ((start_totp_enrollment user_id encrypted hashes w).0 ≡ err unavailable))
unfolding start_totp_enrollment
enrolment_refused user_id encrypted hashes w known confirmed =
    (Idle-in_tx w.db _ (
        Idle-bind w.db {a = 0} _ _
          (Idle-statement w.db _
            (λ now. upsert_pending-refused user_id encrypted now w.db known confirmed))
          (Idle-pure w.db false))).at
      w refl
