-- ===== src/Auth/Ceremony.antt =====
-- The flows of internal/auth/handlers.go: what goes into `webauthn_flows.session_data`.
use go_tunnels.Shared.{
  ℕ, ◌+◌, ◌*◌, [], Option, none, some, Text, codes, ok, Exec, ltb, if◌then◌else◌, length, ◌==◌,
  text_eq, pure, stop, catch, ◌>>=◌, ◌>>◌,
}
use go_tunnels.Text.{hex_encode}
use go_tunnels.Store.{World, Stored, Platform, RelyingParty, User, Flow, unavailable}
use go_tunnels.Store.Flows.{save_flow, consume_flow}
use go_tunnels.Store.Users.{get_webauthn_credentials}
use go_tunnels.Httpx.Reply.{Response, Handler, write_error}
use go_tunnels.Activity.{Request}
use go_tunnels.Auth.Codes.{random_bytes, time_now}
use go_tunnels.Auth.Sessions.{Settings, found}
use go_tunnels.Auth.Passkey.{
  SessionData, WebauthnUser, SignupFlowData, FlowEnvelope, Webauthn, RpProvider, for_origin,
}
pub mod Taken

abbrev pub flow_register : Text
flow_register = codes "register"

abbrev pub flow_login : Text
flow_login = codes "login"

abbrev pub flow_signup : Text
flow_signup = codes "signup"

-- liveFlow; a flow without a user has the empty id.
pub record LiveFlow : Type 0 where
  pub user_id : Text
  pub signup : Option SignupFlowData
  pub session : SessionData
  pub wa : RelyingParty

abbrev pub max_ceremony_body : ℕ
max_ceremony_body = 128 * 1024

-- What the library reads of a body under MaxBytesReader.
abbrev pub limited : Text → Option Text
limited body = if ltb max_ceremony_body (length body) then none else some body

-- A random value that a library draws by itself.
unfoldable pub library_bytes : {E : Type 0} → ℕ → Exec World E (Option Text)
library_bytes n w = (ok (w.entropy w.reads n), record w { reads = w.reads + 1 })

-- newFlowID
unfoldable pub new_flow_id : Stored Text
unfolding random_bytes hex_encode ◌>>=◌ pure
new_flow_id = do bytes ← random_bytes 24 unavailable; pure (hex_encode bytes)

abbrev pub invalid_flow : Response
invalid_flow = write_error 400 "invalid or expired flow"

abbrev pub origin_refused : Response
origin_refused = write_error 400 "this origin is not allowed to use passkeys"

-- The user of a flow, with "" for none.
abbrev pub flow_user : Option Text → Text
flow_user none = []
flow_user (some id) = id

module _ (platform : Platform) (lib : Webauthn) where
  -- encodeFlowEnvelope
  unfoldable pub encode_flow_envelope : FlowEnvelope → Option Text
  encode_flow_envelope env = elim env.session [ none ↦ none | some _ ↦ lib.marshal_envelope env ]

  -- The envelope that a decoded document holds, and its session.
  abbrev with_session : FlowEnvelope → Option (FlowEnvelope × SessionData)
  with_session env = elim env.session [ none ↦ none | some sd ↦ some (env, sd) ]

  -- decodeFlowEnvelope
  unfoldable pub decode_flow_envelope : Text → Option (FlowEnvelope × SessionData)
  decode_flow_envelope blob = elim (lib.unmarshal_envelope blob) [
    | none ↦ none
    | some env ↦ with_session env
  ]

  -- Store the flow under a fresh id.
  unfoldable pub save_encoded : ℕ → Option Text → Text → Option Text → Stored Text
  unfolding new_flow_id time_now
  save_encoded ttl user_id kind none = stop unavailable
  save_encoded ttl user_id kind (some blob) = do
    id ← new_flow_id
    now ← time_now
    save_flow (record {
      id = id;
      user_id = user_id;
      kind = kind;
      session_data = blob;
      expires_at = now + ttl;
    })
    pure id

  -- saveFlow
  unfoldable pub save_ceremony :
      Settings → Option Text → Text → Text → Option SignupFlowData → SessionData → Stored Text
  unfolding encode_flow_envelope save_encoded
  save_ceremony h user_id kind origin signup sd =
      save_encoded h.flow_ttl user_id kind
        (encode_flow_envelope (record { origin = origin; signup = signup; session = some sd }))

  -- ForOrigin, where a refused origin has the response of the handler.
  unfoldable pub bind_origin : RpProvider → Text → Handler (RelyingParty × Text)
  unfolding for_origin
  bind_origin p origin = catch (for_origin platform lib p origin) (λ _. stop origin_refused)

  -- The rest of consumeFlow for the decoded envelope, and for the flow that was taken.
  unfoldable pub revive : RpProvider → Flow → Option (FlowEnvelope × SessionData) → Handler LiveFlow
  unfolding bind_origin
  revive p flow none = stop invalid_flow
  revive p flow (some (env, sd)) = do
    (wa, _) ← bind_origin p env.origin
    pure (record { user_id = flow_user flow.user_id; signup = env.signup; session = sd; wa = wa })

  unfoldable pub revive_taken : RpProvider → Option Flow → Handler LiveFlow
  unfolding revive decode_flow_envelope
  revive_taken p none = stop invalid_flow
  revive_taken p (some flow) = revive p flow (decode_flow_envelope flow.session_data)

  -- consumeFlow
  unfoldable pub consume_ceremony : RpProvider → Request → Text → Handler LiveFlow
  unfolding revive_taken
  consume_ceremony p r kind =
      if r.flow == []
      then stop invalid_flow
      else do flow ← found (consume_flow r.flow kind); revive_taken p flow

  -- buildWAUser
  unfoldable pub build_wa_user : User → Stored WebauthnUser
  build_wa_user user = do
    creds ← get_webauthn_credentials platform user.id
    pure (record { user = user; credentials = creds })
