-- ===== src/Tests/Stores.antt =====
-- The theorems about internal/store/store.go at a small database.
use go_tunnels.Shared.{
  ◌≡◌, refl, true, false, List, [], ◌∷◌, none, some, ok, err, codes, pos, ◌⊎◌, any, text_beq, arith,
}
use go_tunnels.Tests.Data.{a_world, a_platform, alice, bob, laptop, ceremony, two_users}
use go_tunnels.Store.{not_found, unavailable, World}
use go_tunnels.Store.Statement.{statement, run_statement, apply_query, checked_insert}
use go_tunnels.Store.Table.{find, count_where}
use go_tunnels.Store.Sessions.{
  revoke_session, get_session, insert_session, select_session, update_revoked,
}
use go_tunnels.Store.Flows.{consume_flow, delete_returning_flow}
use go_tunnels.Store.Totp.{
  mark_totp_step_used, update_last_used_step, confirm_totp, update_confirmed, use_recovery_code,
  update_used_code, start_totp_enrollment,
}
use go_tunnels.Store.History.{
  posts, sets_pref, syncs_stats, Call, creates_session, touches_session, consumes_flow, saves_flow,
  marks_step, starts_totp, creates_password_user, uses_recovery_code, deletes_totp, confirms_totp,
  run,
}
use go_tunnels.Store.Keys.{HasKeys}
use go_tunnels.Store.Statement.{Outage}
use go_tunnels.Store.Schema.{User, StoreError}
use go_tunnels.Store.Rollback.{IsRegistered, create_user_with_password-IsRegistered}
use go_tunnels.Store.Users.{create_user_with_password}
use go_tunnels.Store.Revocation.{revoked_forever, select-insert}
use go_tunnels.Store.Ceremonies.{consumed_once}
use go_tunnels.Store.Factors.{step_single_use, confirmed_step_spent}
use go_tunnels.Store.Recovery.{recovery_single_use, enrolment_refused}

two_users-HasKeys : HasKeys two_users
unfolding any text_beq
two_users-HasKeys = record {
  user_ids = (refl, (refl, tt));
  usernames = (refl, (refl, tt));
  passwords = (refl, tt);
  credentials = tt;
  flows = (refl, tt);
  secrets = (refl, (refl, tt));
  sessions = (refl, tt);
  roles = (refl, tt);
  stats = tt;
  prefs = tt;
}

-- The laptop's session is made again, which fails, and another is made.
abbrev session_calls : List Call
session_calls =
    creates_session laptop alice (codes "password") none
    ∷ touches_session laptop
    ∷ creates_session (codes "s-2") bob (codes "passkey") none
    ∷ []

revoked_forever_example :
    let later = run a_platform session_calls (revoke_session laptop a_world).1 in
    ((get_session laptop later).0 ≡ err not_found)
    ⊎ ((get_session laptop later).0 ≡ err unavailable)
unfolding revoke_session statement run_statement apply_query update_revoked any text_beq
revoked_forever_example = revoked_forever a_platform laptop session_calls a_world refl refl

select-insert_example :
    (select_session
      (codes "s-2")
      300000
      (insert_session (codes "s-2") bob (codes "passkey") (some 350700) 200300 two_users).1).0
    ≡ ok (record {
      id = codes "s-2";
      user_id = bob;
      auth_method = codes "passkey";
      created_at = 200000;
      last_seen_at = 200000;
      expires_at = some 350000;
      revoked_at = none;
    })
unfolding insert_session any text_beq checked_insert
select-insert_example =
    select-insert (codes "s-2") bob (codes "passkey") (some 350700) 200300 300000 two_users refl

-- A name that is taken, the same preference twice, and a batch of solves.
abbrev key_calls : List Call
key_calls =
    creates_password_user (codes "ALICE") [] (codes "hash")
    ∷ posts (sets_pref alice (codes "theme") (codes "dark"))
    ∷ posts (sets_pref alice (codes "theme") (codes "light"))
    ∷ posts (
        syncs_stats bob
          (record { manual_delta = 3; auto_delta = 2; current_streak = 5; best_streak = 5 }))
    ∷ []

abbrev flow_calls : List Call
flow_calls =
    consumes_flow (codes "f-1") (codes "login")
    ∷ saves_flow (record ceremony { id = codes "f-2" })
    ∷ []

consumed_once_example :
    let later =
      run a_platform flow_calls (consume_flow (codes "f-1") (codes "register") a_world).1 in
    ((consume_flow (codes "f-1") (codes "register") later).0 ≡ err not_found)
    ⊎ ((consume_flow (codes "f-1") (codes "register") later).0 ≡ err unavailable)
unfolding consume_flow statement run_statement apply_query delete_returning_flow find text_beq
consumed_once_example =
    consumed_once a_platform (codes "f-1") (codes "register") (codes "register") flow_calls a_world
      {f = ceremony} two_users-HasKeys refl (tt, (refl, tt))

abbrev factor_calls : List Call
factor_calls =
    deletes_totp (codes "u-3")
    ∷ starts_totp alice (codes "fresh") []
    ∷ confirms_totp alice (pos 3)
    ∷ marks_step alice (pos 8)
    ∷ []

step_single_use_example :
    let later = run a_platform factor_calls (mark_totp_step_used alice (pos 5) a_world).1 in
    ((mark_totp_step_used alice (pos 4) later).0 ≡ ok false)
    ⊎ ((mark_totp_step_used alice (pos 4) later).0 ≡ err unavailable)
unfolding mark_totp_step_used statement run_statement apply_query update_last_used_step count_where
    text_beq
step_single_use_example =
    step_single_use a_platform alice (pos 5) (pos 4) factor_calls a_world two_users-HasKeys refl
      (refl, (tt, (tt, (tt, tt)))) (ground arith)

confirmed_step_spent_example :
    let later = run a_platform factor_calls (confirm_totp bob (pos 5) a_world).1 in
    ((mark_totp_step_used bob (pos 5) later).0 ≡ ok false)
    ⊎ ((mark_totp_step_used bob (pos 5) later).0 ≡ err unavailable)
unfolding confirm_totp statement run_statement apply_query update_confirmed count_where text_beq
confirmed_step_spent_example =
    confirmed_step_spent a_platform bob (pos 5) (pos 5) factor_calls a_world two_users-HasKeys refl
      (refl, (tt, (tt, (tt, tt)))) (ground arith)

abbrev recovery_calls : List Call
recovery_calls =
    starts_totp bob (codes "fresh") (codes "h-1" ∷ []) ∷ uses_recovery_code alice (codes "h-1") ∷ []

recovery_single_use_example :
    let later = run a_platform recovery_calls (use_recovery_code alice (codes "h-1") a_world).1 in
    ((use_recovery_code alice (codes "h-1") later).0 ≡ ok false)
    ⊎ ((use_recovery_code alice (codes "h-1") later).0 ≡ err unavailable)
unfolding use_recovery_code statement run_statement apply_query update_used_code count_where
    text_beq
recovery_single_use_example =
    recovery_single_use alice (codes "h-1") a_platform recovery_calls a_world {used = true} refl
      (refl, (tt, tt))

enrolment_refused_example :
    ((start_totp_enrollment alice (codes "fresh") (codes "h-2" ∷ []) a_world).1.db ≡ two_users)
    × (((start_totp_enrollment alice (codes "fresh") (codes "h-2" ∷ []) a_world).0 ≡ ok false)
        ⊎ ((start_totp_enrollment alice (codes "fresh") (codes "h-2" ∷ []) a_world).0
            ≡ err unavailable))
unfolding any text_beq
enrolment_refused_example =
    enrolment_refused alice (codes "fresh") (codes "h-2" ∷ []) a_world refl refl

-- The answer of the COMMIT is lost, after it took effect.
abbrev answered : Outage
answered = record { elapsed = 1; fails = false; landed = false }

abbrev lossy_world : World
lossy_world = record a_world {
  outages =
      answered
      ∷ answered
      ∷ answered
      ∷ answered
      ∷ record { elapsed = 1; fails = true; landed = true }
      ∷ [];
}

create_user_with_password-IsRegistered_example :
    let r = create_user_with_password a_platform (codes "Carol") [] (codes "hash") lossy_world in
    ((e : StoreError) × (r.0 ≡ err e) × (r.1.db ≡ two_users))
    ⊎ ((user : User) × IsRegistered a_platform
          (codes "Carol")
          []
          (codes "hash")
          two_users
          r.1.db
          user
        × ((r.0 ≡ ok user) ⊎ (r.0 ≡ err unavailable)))
create_user_with_password-IsRegistered_example =
    create_user_with_password-IsRegistered a_platform (codes "Carol") [] (codes "hash") lossy_world
