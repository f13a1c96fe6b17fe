-- ===== src/Store/Factors.antt =====
-- The second factor of internal/store/store.go: a code and a recovery code are accepted once.
use mathlib.Core.Bool.{false≢true}
use go_tunnels.Shared.{
  ℕ, ◌≡◌, sym, ◌∙◌, ◌⊎◌, inl, inr, Bool, true, false, not, ◌&&◌, ◌||◌, List, [], ◌∷◌, ◌++◌, some,
  ok, err, arith, Text, text_eq, nat_eq, text_beq, text_beq_iff, any, Bool-cases, ℤ, ◌≤ℤ◌,
}
use go_tunnels.Store.Schema.{Db, TotpRow, unavailable}
use go_tunnels.Store.Outside.{Platform}
use go_tunnels.Store.Statement.{
  World, QueryKeeps, statement-ok, statement-cases, checked_insert, checked_insert-keeps,
}
use go_tunnels.Store.Rows.{
  any-append, any-update_false, any-update_true, any-delete_false, any-delete_true, count-zero,
  any_weaken, any_of_count, any-update_key_row,
}
use go_tunnels.Store.Sessions.{insert_session, update_last_seen, update_revoked, update_revoked_all}
use go_tunnels.Store.Flows.{insert_flow, delete_returning_flow, delete_expired}
use go_tunnels.Store.Totp.{
  is_of, is_pending, accepts_step, last_step_below, pending_row, upsert_pending,
  delete_recovery_codes, insert_recovery_code, update_confirmed, update_last_used_step,
  delete_totp_secret, update_used_code, mark_totp_step_used, confirm_totp,
}
use go_tunnels.Store.Audit.{insert_activity_row}
use go_tunnels.Store.Users.{
  insert_user_row, insert_user_role, insert_password, insert_credential, update_credential,
}
use go_tunnels.Store.Keys.{HasKeys}
use go_tunnels.Store.History.Posts.{Ignores-StablePost}
use go_tunnels.Store.History.{
  posts, Call, starts_totp, confirms_totp, marks_step, deletes_totp, run, run-keeps, Only,
}
use go_tunnels.Store.History.Stable.{Stable, perform-keeps}

-- A row of the user under which step `s` could still be accepted: it is not confirmed, or its last
-- accepted step is below s.
abbrev pub is_open : Text → ℤ → TotpRow → Bool
is_open user_id s r = is_of user_id r && (not r.confirmed || last_step_below r.last_used_step s)

-- The user has a secret, and no row that would accept step `s`.
pub record IsSpent (user_id : Text) (s : ℤ) (d : Db) : Type 0 where
  pub enrolled : any (is_of user_id) d.totp_secrets ≡ true
  pub spent : any (is_open user_id s) d.totp_secrets ≡ false

-- A user without a secret is not the user with one.
fresh_user :
    (other user_id : Text) (d : Db)
    → any (is_of other) d.totp_secrets ≡ false
    → any (is_of user_id) d.totp_secrets ≡ true
    → text_beq other user_id ≡ false
fresh_user other user_id d fresh known = elim (Bool-cases (text_beq other user_id)) [
  | inl same ↦ absurd (false≢true (sym fresh ∙ rw ((text_beq_iff other user_id).0 same) known))
  | inr apart ↦ apart
]

module _ (user_id : Text) (s : ℤ) where
  secret_added-IsSpent :
      (other encrypted : Text) (now : ℕ) (d : Db)
      → IsSpent user_id s d
      → text_beq other user_id ≡ false
      → IsSpent user_id s
          (record d { totp_secrets = d.totp_secrets ++ pending_row other encrypted now ∷ [] })
  unfolding any
  secret_added-IsSpent other encrypted now d h apart = ground (
    arith,
    any-append (is_of user_id) d.totp_secrets (pending_row other encrypted now ∷ []),
    any-append (is_open user_id s) d.totp_secrets (pending_row other encrypted now ∷ []),
  )

  upsert_pending-IsSpent :
      (other encrypted : Text) → QueryKeeps (IsSpent user_id s) (upsert_pending other encrypted)
  unfolding upsert_pending
  upsert_pending-IsSpent other encrypted now d h =
      elim (Bool-cases (any (is_of other) d.totp_secrets)) [
        | inl known ↦
            rw (known, upsert_pending)
              (record {
                enrolled =
                    any-update_true (is_of user_id) (is_pending other)
                      (λ _. pending_row other encrypted now) d.totp_secrets
                      (λ r k q.
                        ground
                          (arith, text_beq_iff r.user_id other, text_beq_iff r.user_id user_id))
                      h.enrolled;
                spent =
                    any-update_false (is_open user_id s) (is_pending other)
                      (λ _. pending_row other encrypted now) d.totp_secrets
                      (λ r k q. ground (arith, text_beq_iff r.user_id other)) h.spent;
              })
        | inr fresh ↦
            rw (fresh, upsert_pending)
              (checked_insert-keeps (IsSpent user_id s) _ _ _ _ _ h (λ _ _.
                secret_added-IsSpent other encrypted now d h
                  (fresh_user other user_id d fresh h.enrolled)))
      ]

  update_confirmed-IsSpent :
      (other : Text) (t : ℤ) → QueryKeeps (IsSpent user_id s) (update_confirmed other t)
  unfolding update_confirmed
  update_confirmed-IsSpent other t now d h = record {
    enrolled = any-update_true (is_of user_id) _ _ d.totp_secrets (λ r k _. k) h.enrolled;
    spent =
        any-update_false (is_open user_id s) (is_pending other)
          (λ r. record r { confirmed = true; confirmed_at = some now; last_used_step = some t })
          d.totp_secrets (λ r k q. ground arith) h.spent;
  }

  update_last_used_step-IsSpent :
      (other : Text) (t : ℤ) → QueryKeeps (IsSpent user_id s) (update_last_used_step other t)
  unfolding update_last_used_step
  update_last_used_step-IsSpent other t now d h = record {
    enrolled = any-update_true (is_of user_id) _ _ d.totp_secrets (λ r k _. k) h.enrolled;
    spent =
        any-update_false (is_open user_id s) (accepts_step other t)
          (λ r. record r { last_used_step = some t }) d.totp_secrets (λ r k q. ground arith)
          h.spent;
  }

  delete_totp_secret-IsSpent :
      (other : Text)
      → text_beq other user_id ≡ false
      → QueryKeeps (IsSpent user_id s) (delete_totp_secret other)
  unfolding delete_totp_secret
  delete_totp_secret-IsSpent other ne now d h = record {
    enrolled =
        any-delete_true (is_of user_id) (is_of other) d.totp_secrets
          (λ r k. ground (
            arith,
            text_beq_iff r.user_id user_id,
            text_beq_iff r.user_id other,
            text_beq_iff other user_id,
          ))
          h.enrolled;
    spent = any-delete_false (is_open user_id s) (is_of other) d.totp_secrets h.spent;
  }

  -- The call does not disable the user's second factor.
  abbrev pub IsNotDisable : Call → Type 0
  IsNotDisable (deletes_totp other) = text_beq other user_id ≡ false
  IsNotDisable _ = Unit {0}

  IsSpent-Stable : (c : Call) → IsNotDisable c → Stable (IsSpent user_id s) c
  unfolding insert_session update_last_seen update_revoked update_revoked_all insert_flow
      delete_returning_flow delete_expired delete_recovery_codes insert_recovery_code
      update_used_code insert_user_row insert_user_role insert_password insert_credential
      update_credential insert_activity_row checked_insert
  IsSpent-Stable (starts_totp other encrypted hashes) _ =
      (upsert_pending-IsSpent other encrypted, ground arith, ground arith)
  IsSpent-Stable (confirms_totp other t) _ = update_confirmed-IsSpent other t
  IsSpent-Stable (marks_step other t) _ = update_last_used_step-IsSpent other t
  IsSpent-Stable (deletes_totp other) apart = (ground arith, delete_totp_secret-IsSpent other apart)
  IsSpent-Stable (posts p) _ =
      Ignores-StablePost (IsSpent user_id s)
        (record { at = λ d _ _ _ _ _ _ _ _ r. record { enrolled = r.enrolled; spent = r.spent } }) p
  IsSpent-Stable _ _ = ground arith

  -- A step that is accepted closes itself and every earlier step.
  update_last_used_step-spends :
      (now : ℕ) (d : Db)
      → HasKeys d
      → (update_last_used_step user_id s now d).0 ≡ ok true
      → IsSpent user_id s (update_last_used_step user_id s now d).1
  unfolding update_last_used_step
  update_last_used_step-spends now d keys done =
      let accepted : any (accepts_step user_id s) d.totp_secrets ≡ true =
        any_of_count (accepts_step user_id s) d.totp_secrets (ground arith) in
      record {
        enrolled =
            any-update_true (is_of user_id) _ _ d.totp_secrets (λ r k _. k)
              (any_weaken (accepts_step user_id s) (is_of user_id) d.totp_secrets
                (λ r k. ground arith) accepted);
        spent =
            any-update_key_row (λ r. r.user_id) user_id (accepts_step user_id s) (is_open user_id s)
              (λ r. record r { last_used_step = some s }) d.totp_secrets (λ r k. ground arith)
              (λ r k. ground arith) (λ r k. ground arith) keys.secrets accepted;
      }

  update_confirmed-spends :
      (now : ℕ) (d : Db)
      → HasKeys d
      → (update_confirmed user_id s now d).0 ≡ ok true
      → IsSpent user_id s (update_confirmed user_id s now d).1
  unfolding update_confirmed
  update_confirmed-spends now d keys done =
      let pending : any (is_pending user_id) d.totp_secrets ≡ true =
        any_of_count (is_pending user_id) d.totp_secrets (ground arith) in
      record {
        enrolled =
            any-update_true (is_of user_id) _ _ d.totp_secrets (λ r k _. k)
              (any_weaken (is_pending user_id) (is_of user_id) d.totp_secrets (λ r k. ground arith)
                pending);
        spent =
            any-update_key_row (λ r. r.user_id) user_id (is_pending user_id) (is_open user_id s)
              (λ r. record r { confirmed = true; confirmed_at = some now; last_used_step = some s })
              d.totp_secrets (λ r k. ground arith) (λ r k. ground arith) (λ r k. ground arith)
              keys.secrets pending;
      }

  update_last_used_step-spent :
      (t : ℤ) (now : ℕ) (d : Db)
      → t ≤ℤ s
      → IsSpent user_id s d
      → (update_last_used_step user_id t now d).0 ≡ ok false
  unfolding update_last_used_step
  update_last_used_step-spent t now d le h = rw (
      count-zero (accepts_step user_id t) (is_open user_id s) d.totp_secrets (λ r k. ground arith)
        h.spent)

mark-IsSpent :
    (user_id : Text) (s t : ℤ) (w : World)
    → t ≤ℤ s
    → IsSpent user_id s w.db
    → ((mark_totp_step_used user_id t w).0 ≡ ok false)
      ⊎ ((mark_totp_step_used user_id t w).0 ≡ err unavailable)
unfolding mark_totp_step_used
mark-IsSpent user_id s t w le h = elim (statement-cases (update_last_used_step user_id t) w) [
  | inl (down, _) ↦ inr down
  | inr (now, _, r, _) ↦ inl (r ∙ update_last_used_step-spent user_id s t now w.db le h)
]

run-IsSpent :
    (platform : Platform) (user_id : Text) (s : ℤ) (cs : List Call) (w : World)
    → Only (IsNotDisable user_id s) cs
    → IsSpent user_id s w.db
    → IsSpent user_id s (run platform cs w).db
run-IsSpent platform user_id s cs w =
    run-keeps platform (IsSpent user_id s) (IsNotDisable user_id s)
      (λ c v k. perform-keeps platform (IsSpent user_id s) c v (IsSpent-Stable user_id s c k)) cs w

-- Where the tables' keys are unique: once MarkTOTPStepUsed has accepted a step for a user, no history
-- of calls that does not disable the user's second factor lets that step, or an earlier one, be
-- accepted again: MarkTOTPStepUsed then reports false, or that the database is unavailable.
pub step_single_use :
    (platform : Platform) (user_id : Text) (s t : ℤ) (cs : List Call) (w : World)
    → HasKeys w.db
    → (mark_totp_step_used user_id s w).0 ≡ ok true
    → Only (IsNotDisable user_id s) cs
    → t ≤ℤ s
    → let later = run platform cs (mark_totp_step_used user_id s w).1 in
      ((mark_totp_step_used user_id t later).0 ≡ ok false)
      ⊎ ((mark_totp_step_used user_id t later).0 ≡ err unavailable)
unfolding mark_totp_step_used
step_single_use platform user_id s t cs w keys done only le =
    let (now, _, _, e, d) = statement-ok (update_last_used_step user_id s) w done in
    mark-IsSpent user_id s t _ le (
      run-IsSpent platform user_id s cs _ only
        (rw d (update_last_used_step-spends user_id s now w.db keys e)))

-- Where the tables' keys are unique: once ConfirmTOTP has confirmed a user's enrolment at a step, no
-- history of calls that does not disable the user's second factor lets that step, or an earlier one,
-- be accepted: MarkTOTPStepUsed then reports false, or that the database is unavailable.
pub confirmed_step_spent :
    (platform : Platform) (user_id : Text) (s t : ℤ) (cs : List Call) (w : World)
    → HasKeys w.db
    → (confirm_totp user_id s w).0 ≡ ok true
    → Only (IsNotDisable user_id s) cs
    → t ≤ℤ s
    → let later = run platform cs (confirm_totp user_id s w).1 in
      ((mark_totp_step_used user_id t later).0 ≡ ok false)
      ⊎ ((mark_totp_step_used user_id t later).0 ≡ err unavailable)
unfolding confirm_totp
confirmed_step_spent platform user_id s t cs w keys done only le =
    let (now, _, _, e, d) = statement-ok (update_confirmed user_id s) w done in
    mark-IsSpent user_id s t _ le (
      run-IsSpent platform user_id s cs _ only
        (rw d (update_confirmed-spends user_id s now w.db keys e)))
