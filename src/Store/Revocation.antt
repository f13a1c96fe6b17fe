-- ===== src/Store/Revocation.antt =====
-- Sessions of internal/store/store.go: when a token is good, and that revocation is final.
use mathlib.Core.Bool.{false≢true}
use go_tunnels.Shared.{
  none, some, ltb, ◌*◌, ◌/◌, sym, ◌∙◌, ◌⊎◌, ℕ, ◌≡◌, true, false, ◌&&◌, [], ◌∷◌, Option, err, arith,
  Text, text_eq, text_beq_iff, any, text_beq, Bool-cases, inl, inr, ◌++◌, ok, List, if◌then◌else◌,
  text_beq_self, Result, Bool,
}
use go_tunnels.Store.Schema.{Db, not_found, unavailable, StoreError}
use go_tunnels.Store.Outside.{Platform}
use go_tunnels.Store.Table.{find}
use go_tunnels.Store.Statement.{
  QueryKeeps, checked_insert, checked_insert-keeps, World, statement-ok, statement-cases,
}
use go_tunnels.Store.Rows.{
  any-append, any-update_false, any-update_true, find-none, any-update_self, find-append,
}
use go_tunnels.Store.Sessions.{
  has_id, is_unrevoked_with, is_live, is_active_of, revoke_at, new_session, insert_session,
  select_session, update_last_seen, update_revoked, update_revoked_all, get_session, revoke_session,
}
use go_tunnels.Store.Flows.{insert_flow, delete_returning_flow, delete_expired}
use go_tunnels.Store.Totp.{
  upsert_pending, delete_recovery_codes, insert_recovery_code, update_confirmed,
  update_last_used_step, delete_totp_secret, update_used_code,
}
use go_tunnels.Store.Audit.{insert_activity_row}
use go_tunnels.Store.Users.{
  insert_user_row, insert_user_role, insert_password, insert_credential, update_credential,
}
use go_tunnels.Store.History.Posts.{Ignores-StablePost}
use go_tunnels.Store.History.{
  posts, Call, creates_session, touches_session, revokes_session, revokes_all, run, run-keeps,
  Only-all,
}
use go_tunnels.Store.History.Stable.{Stable, perform-keeps}

-- There is a session with the id, and every one is revoked.
pub record IsRevoked (id : Text) (d : Db) : Type 0 where
  pub known : any (has_id id) d.sessions ≡ true
  pub dead : any (is_unrevoked_with id) d.sessions ≡ false

select-IsRevoked :
    (id : Text) (now : ℕ) (d : Db) → IsRevoked id d → (select_session id now d).0 ≡ err not_found
unfolding select_session
select-IsRevoked id now d r = ground (
  arith,
  find-none (λ s. has_id id s && is_live now s) (is_unrevoked_with id) d.sessions
      (λ s h. ground arith) r.dead,
)

-- A fresh id is none of the ids in the table.
fresh_other :
    (new id : Text) (d : Db)
    → any (has_id new) d.sessions ≡ false
    → any (has_id id) d.sessions ≡ true
    → text_beq new id ≡ false
fresh_other new id d fresh known = elim (Bool-cases (text_beq new id)) [
  | inl same ↦ absurd (false≢true (sym fresh ∙ rw ((text_beq_iff new id).0 same) known))
  | inr other ↦ other
]

session_added-IsRevoked :
    (id new user_id method : Text) (exp : Option ℕ) (now : ℕ) (d : Db)
    → IsRevoked id d
    → text_beq new id ≡ false
    → IsRevoked id
        (record d { sessions = d.sessions ++ new_session new user_id method exp now ∷ [] })
unfolding any
session_added-IsRevoked id new user_id method exp now d r other = ground (
  arith,
  any-append (has_id id) d.sessions (new_session new user_id method exp now ∷ []),
  any-append (is_unrevoked_with id) d.sessions (new_session new user_id method exp now ∷ []),
)

insert_session-IsRevoked :
    (id new user_id method : Text) (exp : Option ℕ)
    → QueryKeeps (IsRevoked id) (insert_session new user_id method exp)
unfolding insert_session
insert_session-IsRevoked id new user_id method exp now d r =
    checked_insert-keeps (IsRevoked id) _ _ _ _ _ r (λ fresh _.
      session_added-IsRevoked id new user_id method exp now d r
        (fresh_other new id d fresh r.known))

update_last_seen-IsRevoked : (id other : Text) → QueryKeeps (IsRevoked id) (update_last_seen other)
unfolding update_last_seen
update_last_seen-IsRevoked id other now d r = record {
  known = any-update_true _ _ _ d.sessions (λ s h _. h) r.known;
  dead = any-update_false _ _ _ d.sessions (λ s h _. h) r.dead;
}

update_revoked-IsRevoked : (id other : Text) → QueryKeeps (IsRevoked id) (update_revoked other)
unfolding update_revoked
update_revoked-IsRevoked id other now d r = record {
  known = any-update_true _ _ _ d.sessions (λ s h _. h) r.known;
  dead =
      any-update_false (is_unrevoked_with id) (is_unrevoked_with other) (revoke_at now) d.sessions
        (λ s h _. ground arith) r.dead;
}

update_revoked_all-IsRevoked :
    (id user_id : Text) → QueryKeeps (IsRevoked id) (update_revoked_all user_id)
unfolding update_revoked_all
update_revoked_all-IsRevoked id user_id now d r = record {
  known = any-update_true _ _ _ d.sessions (λ s h _. h) r.known;
  dead =
      any-update_false (is_unrevoked_with id) (is_active_of user_id) (revoke_at now) d.sessions
        (λ s h _. ground arith) r.dead;
}

pub IsRevoked-Stable : (id : Text) (c : Call) → Stable (IsRevoked id) c
unfolding insert_flow delete_returning_flow delete_expired upsert_pending delete_recovery_codes
    insert_recovery_code update_confirmed update_last_used_step delete_totp_secret update_used_code
    insert_user_row insert_user_role insert_password insert_credential update_credential
    insert_activity_row checked_insert
IsRevoked-Stable id (creates_session new user_id method exp) =
    insert_session-IsRevoked id new user_id method exp
IsRevoked-Stable id (touches_session other) = update_last_seen-IsRevoked id other
IsRevoked-Stable id (revokes_session other) = update_revoked-IsRevoked id other
IsRevoked-Stable id (revokes_all user_id) = update_revoked_all-IsRevoked id user_id
IsRevoked-Stable id (posts p) =
    Ignores-StablePost (IsRevoked id)
      (record { at = λ d _ _ _ _ _ _ _ _ r. record { known = r.known; dead = r.dead } }) p
IsRevoked-Stable id _ = ground arith

update_revoked-revokes :
    (id : Text) (now : ℕ) (d : Db)
    → any (has_id id) d.sessions ≡ true
    → IsRevoked id (update_revoked id now d).1
unfolding update_revoked
update_revoked-revokes id now d known = record {
  known = any-update_true (has_id id) _ _ d.sessions (λ s h _. h) known;
  dead =
      any-update_self (is_unrevoked_with id) (is_unrevoked_with id) (revoke_at now) d.sessions
        (λ s h. h) (λ s. ground arith);
}

-- RevokeSession succeeds, so every session with the id is revoked.
pub revoke-IsRevoked :
    (id : Text) (w : World)
    → any (has_id id) w.db.sessions ≡ true
    → (revoke_session id w).0 ≡ ok tt
    → IsRevoked id (revoke_session id w).1.db
unfolding revoke_session
revoke-IsRevoked id w known done =
    let (now, _, _, _, e) = statement-ok (update_revoked id) w done in
    rw e (update_revoked-revokes id now w.db known)

pub get-IsRevoked :
    (id : Text) (w : World)
    → IsRevoked id w.db
    → ((get_session id w).0 ≡ err not_found) ⊎ ((get_session id w).0 ≡ err unavailable)
unfolding get_session
get-IsRevoked id w r = elim (statement-cases (select_session id) w) [
  | inl (down, _) ↦ inr down
  | inr (now, _, e, _) ↦ inl (e ∙ select-IsRevoked id now w.db r)
]

pub run-IsRevoked :
    (platform : Platform) (id : Text) (cs : List Call) (w : World)
    → IsRevoked id w.db
    → IsRevoked id (run platform cs w).db
run-IsRevoked platform id cs w =
    run-keeps platform (IsRevoked id) (λ _. Unit)
      (λ c v _. perform-keeps platform (IsRevoked id) c v (IsRevoked-Stable id c)) cs w
      (Only-all cs)

-- Once RevokeSession has returned with success for a stored session, no history of calls makes its
-- token good again: GetSession then reports ErrNotFound, or that the database is unavailable.
pub revoked_forever :
    (platform : Platform) (id : Text) (cs : List Call) (w : World)
    → any (has_id id) w.db.sessions ≡ true
    → (revoke_session id w).0 ≡ ok tt
    → let later = run platform cs (revoke_session id w).1 in
      ((get_session id later).0 ≡ err not_found) ⊎ ((get_session id later).0 ≡ err unavailable)
revoked_forever platform id cs w known done =
    get-IsRevoked id _ (run-IsRevoked platform id cs _ (revoke-IsRevoked id w known done))

-- GetSession after CreateSession, at any two instants: the session as it was created, its instants cut to whole
-- microseconds, if it has no expiry or its expiry, so cut, is later than the second instant; otherwise ErrNotFound.
pub select-insert :
    (id user_id method : Text) (exp : Option ℕ) (now later : ℕ) (d : Db)
    → (insert_session id user_id method exp now d).0 ≡ ok tt
    → (select_session id later (insert_session id user_id method exp now d).1).0 ≡ (
        if elim exp [ none ↦ true | some t ↦ ltb later (t / 1000 * 1000) ]
        then ok (record {
          id = id;
          user_id = user_id;
          auth_method = method;
          created_at = now / 1000 * 1000;
          last_seen_at = now / 1000 * 1000;
          expires_at = elim exp [ none ↦ none | some t ↦ some (t / 1000 * 1000) ];
          revoked_at = none;
        })
        else err not_found)
unfolding insert_session select_session checked_insert find
select-insert id user_id method none now later d done = ground (
  arith,
  text_beq_self id,
  find-append (λ s. has_id id s && is_live later s) (has_id id) d.sessions
      (new_session id user_id method none now ∷ []) (λ s h. ground arith),
)
select-insert id user_id method (some t) now later d done = ground (
  arith,
  text_beq_self id,
  find-append (λ s. has_id id s && is_live later s) (has_id id) d.sessions
      (new_session id user_id method (some t) now ∷ []) (λ s h. ground arith),
)

abbrev counted : ℕ → Result StoreError ℕ
counted n = ok n
