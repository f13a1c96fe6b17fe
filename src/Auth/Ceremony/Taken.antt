-- ===== src/Auth/Ceremony/Taken.antt =====
-- consumeFlow of internal/auth/handlers.go: what it has checked where it returns a flow.
use go_tunnels.Shared.{
  ℕ, ◌≤◌, ◌≡◌, refl, sym, ap, ◌∙◌, inl, inr, [], Option, none, some, Text, arith, ok, Bool-cases,
  Option-cases, text_eq, text_beq, pure, stop, >>=-ok, catch-stop-ok, >>=-eq, ok_inj,
}
use go_tunnels.Store.{World, Platform, Flow, find, delete_where}
use go_tunnels.Store.Statement.{statement-ok, statement-by_origin}
use go_tunnels.Store.Flows.{consume_flow, delete_returning_flow, is_consumable}
use go_tunnels.Activity.{Request}
use go_tunnels.Auth.Sessions.{found}
use go_tunnels.Auth.Grant.{found-some, found-world}
use go_tunnels.Auth.Passkey.{Webauthn, RpProvider, FlowEnvelope, for_origin}
use go_tunnels.Auth.Passkey.Cache.{IsCoherent, resolve, for_origin-resolve, for_origin-db}
use go_tunnels.Auth.Ceremony.{
  LiveFlow, consume_ceremony, revive_taken, revive, bind_origin, decode_flow_envelope, flow_user,
  origin_refused, SessionData,
}

-- The flow was stored under the request's id, for the kind, not yet expired, and is deleted; it is
-- bound to the relying party of the origin that it began with.
pub record IsTaken (platform : Platform) (lib : Webauthn) (p : RpProvider) (id kind : Text)
    (w v : World) (flow : LiveFlow) : Type 0 where
  pub row : Flow
  pub envelope : FlowEnvelope
  pub now : ℕ
  pub bound_origin : Text
  pub not_before : w.clock ≤ now
  pub stored : find (is_consumable id kind now) w.db.webauthn_flows ≡ some row
  pub deleted : v.db ≡ record w.db {
    webauthn_flows = delete_where (is_consumable id kind now) w.db.webauthn_flows;
  }
  pub decoded : decode_flow_envelope platform lib row.session_data ≡ some (envelope, flow.session)
  pub same_user : flow.user_id ≡ flow_user row.user_id
  pub same_signup : flow.signup ≡ envelope.signup
  pub bound : resolve platform lib p envelope.origin ≡ ok (flow.wa, bound_origin)
  pub coherent : IsCoherent platform lib p v.by_origin

consume_flow-taken :
    (id kind : Text) (w : World) {row : Flow}
    → (consume_flow id kind w).0 ≡ ok row
    → (now : ℕ) × (w.clock ≤ now)
      × (find (is_consumable id kind now) w.db.webauthn_flows ≡ some row)
      × ((consume_flow id kind w).1.db ≡ record w.db {
        webauthn_flows = delete_where (is_consumable id kind now) w.db.webauthn_flows;
      })
unfolding consume_flow delete_returning_flow
consume_flow-taken id kind w {row} h =
    let (now, le, _, e, d) = statement-ok (delete_returning_flow id kind) w h in
    elim (Option-cases (find (is_consumable id kind now) w.db.webauthn_flows)) [
      | inl none_of ↦ absurd (ground arith)
      | inr (t, some_of) ↦ (now, le, ground arith, d)
    ]

module _ (platform : Platform) (lib : Webauthn) (p : RpProvider) where
  -- What `revive` has checked.
  record IsRevived (row : Flow) (o : Option (FlowEnvelope × SessionData)) (w v : World)
      (flow : LiveFlow) : Type 0 where
    envelope : FlowEnvelope
    bound_origin : Text
    decoded : o ≡ some (envelope, flow.session)
    same_user : flow.user_id ≡ flow_user row.user_id
    same_signup : flow.signup ≡ envelope.signup
    bound : resolve platform lib p envelope.origin ≡ ok (flow.wa, bound_origin)
    same_db : v.db ≡ w.db
    coherent : IsCoherent platform lib p v.by_origin

  revive-IsRevived :
      (row : Flow) (o : Option (FlowEnvelope × SessionData)) (w : World) {flow : LiveFlow}
      → IsCoherent platform lib p w.by_origin
      → (revive platform lib p row o w).0 ≡ ok flow
      → IsRevived row o w (revive platform lib p row o w).1 flow
  unfolding revive bind_origin pure stop
  revive-IsRevived row none w coherent done = absurd (ground arith)
  revive-IsRevived row (some (env, sd)) w {flow} coherent done =
      let ((wa, origin), e, rest) = >>=-ok (bind_origin platform lib p env.origin) _ w done in
      let (found_wa, s) =
        catch-stop-ok (for_origin platform lib p env.origin) (λ _. origin_refused) w e in
      let (same, kept) = for_origin-resolve platform lib p env.origin w coherent in
      let db_same = for_origin-db platform lib p env.origin w in
      let is_flow = ok_inj rest in
      let state : (revive platform lib p row (some (env, sd)) w).1
          ≡ (for_origin platform lib p env.origin w).1 =
        ap (λ q. q.1) (>>=-eq (bind_origin platform lib p env.origin) _ w e) ∙ ap (λ q. q.1) s in
      record {
        envelope = env;
        bound_origin = origin;
        decoded = ap (λ f. some (env, f.session)) is_flow;
        same_user = ap (λ f. f.user_id) (sym is_flow);
        same_signup = ap (λ f. f.signup) (sym is_flow);
        bound = sym same ∙ found_wa ∙ ap (λ f. ok (f.wa, origin)) is_flow;
        same_db = ap (λ v. v.db) state ∙ db_same;
        coherent = rw state kept;
      }

  revive_taken-IsRevived :
      (o : Option Flow) (w : World) {flow : LiveFlow}
      → IsCoherent platform lib p w.by_origin
      → (revive_taken platform lib p o w).0 ≡ ok flow
      → (row : Flow) × (o ≡ some row)
        × IsRevived row
            (decode_flow_envelope platform lib row.session_data)
            w
            (revive_taken platform lib p o w).1
            flow
  unfolding revive_taken stop
  revive_taken-IsRevived none w coherent done = absurd (ground arith)
  revive_taken-IsRevived (some row) w coherent done =
      (row, refl, revive-IsRevived row _ w coherent done)

  consume-IsCoherent :
      (id kind : Text) (w : World)
      → IsCoherent platform lib p w.by_origin
      → IsCoherent platform lib p (found (consume_flow id kind) w).1.by_origin
  unfolding consume_flow
  consume-IsCoherent id kind w h =
      rw
        (
          found-world (consume_flow id kind) w,
          statement-by_origin (delete_returning_flow id kind) w,
        )
        h

  pub consume_ceremony-IsTaken :
      (r : Request) (kind : Text) (w : World) {flow : LiveFlow}
      → IsCoherent platform lib p w.by_origin
      → (consume_ceremony platform lib p r kind w).0 ≡ ok flow
      → IsTaken platform lib p r.flow kind w (consume_ceremony platform lib p r kind w).1 flow
  unfolding consume_ceremony stop
  consume_ceremony-IsTaken r kind w {flow} coherent done = elim (Bool-cases (text_beq r.flow [])) [
    | inl blank ↦ absurd (ground arith)
    | inr given ↦
        let (o, e, rest) = >>=-ok (found (consume_flow r.flow kind)) _ w (rw given at done) in
        let (row, some_row, revived) =
          revive_taken-IsRevived o _ (consume-IsCoherent r.flow kind w coherent) rest in
        let (taken, s) = found-some (consume_flow r.flow kind) w (e ∙ ap ok some_row) in
        let (now, le, stored, deleted) = consume_flow-taken r.flow kind w taken in
        rw (given, >>=-eq (found (consume_flow r.flow kind)) (revive_taken platform lib p) w e)
          (record {
            row = row;
            envelope = revived.envelope;
            now = now;
            bound_origin = revived.bound_origin;
            not_before = le;
            stored = stored;
            deleted = revived.same_db ∙ ap (λ v. v.db) s ∙ deleted;
            decoded = revived.decoded;
            same_user = revived.same_user;
            same_signup = revived.same_signup;
            bound = revived.bound;
            coherent = revived.coherent;
          })
  ]
