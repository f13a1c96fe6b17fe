-- ===== src/Store/Ceremonies.antt =====
-- WebAuthn ceremonies of internal/store/store.go: each is finished at most once.
use go_tunnels.Shared.{
  ℕ, ◌≡◌, ◌∙◌, ◌⊎◌, inl, inr, true, false, List, [], ◌∷◌, some, Option-cases, ok, err, arith, Text,
  text_eq, nat_eq, text_beq, text_beq_iff, any,
}
use go_tunnels.Store.Schema.{Db, Flow, not_found, unavailable}
use go_tunnels.Store.Outside.{Platform}
use go_tunnels.Store.Statement.{
  World, QueryKeeps, statement-ok, statement-cases, checked_insert, checked_insert-keeps,
}
use go_tunnels.Store.Table.{find_sound, find}
use go_tunnels.Store.Rows.{any-append, any-delete_false, any-delete_key, find-none}
use go_tunnels.Store.Sessions.{insert_session, update_last_seen, update_revoked, update_revoked_all}
use go_tunnels.Store.Flows.{
  stored_flow, is_consumable, insert_flow, delete_returning_flow, delete_expired, consume_flow,
}
use go_tunnels.Store.Totp.{
  upsert_pending, delete_recovery_codes, insert_recovery_code, update_confirmed,
  update_last_used_step, delete_totp_secret, update_used_code,
}
use go_tunnels.Store.Audit.{insert_activity_row}
use go_tunnels.Store.Users.{
  insert_user_row, insert_user_role, insert_password, insert_credential, update_credential,
}
use go_tunnels.Store.Keys.{HasKeys}
use go_tunnels.Store.History.Posts.{Ignores-StablePost}
use go_tunnels.Store.History.{
  posts, Call, saves_flow, consumes_flow, deletes_expired_flows, run, run-keeps, Only,
}
use go_tunnels.Store.History.Stable.{Stable, perform-keeps}

-- No stored ceremony has the id.
abbrev pub IsAbsent : Text → Db → Type 0
IsAbsent id d = any (λ f. text_beq f.id id) d.webauthn_flows ≡ false

-- The call is not a SaveFlow under the id.
abbrev pub IsNotSave : Text → Call → Type 0
IsNotSave id (saves_flow f) = text_beq f.id id ≡ false
IsNotSave id _ = Unit {0}

insert_flow-IsAbsent :
    (id : Text) (f : Flow) → text_beq f.id id ≡ false → QueryKeeps (IsAbsent id) (insert_flow f)
unfolding insert_flow any
insert_flow-IsAbsent id f other now d h =
    checked_insert-keeps (IsAbsent id) _ _ _ _ _ h (λ _ _.
      any-append (λ g. text_beq g.id id) d.webauthn_flows (stored_flow f ∷ []) ∙ ground arith)

pub IsAbsent-Stable : (id : Text) (c : Call) → IsNotSave id c → Stable (IsAbsent id) c
unfolding insert_session update_last_seen update_revoked update_revoked_all delete_returning_flow
    delete_expired upsert_pending delete_recovery_codes insert_recovery_code update_confirmed
    update_last_used_step delete_totp_secret update_used_code insert_user_row insert_user_role
    insert_password insert_credential update_credential insert_activity_row checked_insert
IsAbsent-Stable id (saves_flow f) other = insert_flow-IsAbsent id f other
IsAbsent-Stable id (consumes_flow _ kind) other = λ now d h. any-delete_false _ _ d.webauthn_flows h
IsAbsent-Stable id deletes_expired_flows other = λ now d h. any-delete_false _ _ d.webauthn_flows h
IsAbsent-Stable id (posts p) other =
    Ignores-StablePost (IsAbsent id) (record { at = λ d _ _ _ _ _ _ _ _ h. h }) p
IsAbsent-Stable id _ other = ground arith

consumable-id :
    (id kind : Text) (now : ℕ) (fs : List Flow) {f : Flow}
    → find (is_consumable id kind now) fs ≡ some f
    → text_beq f.id id ≡ true
consumable-id id kind now fs {f} h =
    ground (arith, find_sound (is_consumable id kind now) fs {x = f} h)

delete_returning_flow-absent :
    (id kind : Text) (now : ℕ) (d : Db)
    → IsAbsent id d
    → (delete_returning_flow id kind now d).0 ≡ err not_found
unfolding delete_returning_flow
delete_returning_flow-absent id kind now d h = rw (
    find-none (is_consumable id kind now) (λ f. text_beq f.id id) d.webauthn_flows
      (λ f g. ground arith) h)

pub delete_returning_flow-IsAbsent :
    (id kind : Text) (now : ℕ) (d : Db) {f : Flow}
    → HasKeys d
    → (delete_returning_flow id kind now d).0 ≡ ok f
    → IsAbsent id (delete_returning_flow id kind now d).1
unfolding delete_returning_flow
delete_returning_flow-IsAbsent id kind now d {f} k h =
    elim (Option-cases (find (is_consumable id kind now) d.webauthn_flows)) [
      | inl e ↦ absurd (ground arith)
      | inr (g, e) ↦
          let same : g.id ≡ id =
            (text_beq_iff g.id id).0 (consumable-id id kind now d.webauthn_flows e) in
          rw same at
            (any-delete_key (λ x. x.id) (is_consumable id kind now) d.webauthn_flows k.flows e)
    ]

pub consume-IsAbsent :
    (id kind : Text) (w : World)
    → IsAbsent id w.db
    → ((consume_flow id kind w).0 ≡ err not_found) ⊎ ((consume_flow id kind w).0 ≡ err unavailable)
unfolding consume_flow
consume-IsAbsent id kind w h = elim (statement-cases (delete_returning_flow id kind) w) [
  | inl (down, _) ↦ inr down
  | inr (now, _, e, _) ↦ inl (e ∙ absent now)
]
  where
    absent : (now : ℕ) → (delete_returning_flow id kind now w.db).0 ≡ err not_found
    absent now = delete_returning_flow-absent id kind now w.db h

-- Where the tables' keys are unique: once ConsumeFlow has returned a ceremony, no history of calls without a SaveFlow under the same id
-- lets it be finished again, as a ceremony of any kind: ConsumeFlow then reports ErrNotFound, or
-- that the database is unavailable.
pub consumed_once :
    (platform : Platform) (id kind other : Text) (cs : List Call) (w : World) {f : Flow}
    → HasKeys w.db
    → (consume_flow id kind w).0 ≡ ok f
    → Only (IsNotSave id) cs
    → let later = run platform cs (consume_flow id kind w).1 in
      ((consume_flow id other later).0 ≡ err not_found)
      ⊎ ((consume_flow id other later).0 ≡ err unavailable)
unfolding consume_flow
consumed_once platform id kind other cs w {f} k h only =
    let (now, _, _, e, d) = statement-ok (delete_returning_flow id kind) w h in
    consume-IsAbsent id other _ (
      run-keeps platform (IsAbsent id) (IsNotSave id)
        (λ c v other_id. perform-keeps platform (IsAbsent id) c v (IsAbsent-Stable id c other_id))
        cs _ only (rw d (delete_returning_flow-IsAbsent id kind now w.db k e)))
