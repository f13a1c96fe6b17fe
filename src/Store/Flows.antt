-- ===== src/Store/Flows.antt =====
-- WebAuthn ceremonies of internal/store/store.go (SaveFlow, ConsumeFlow, DeleteExpiredFlows).
use go_tunnels.Shared.{
  ℕ, Bool, ◌&&◌, [], ◌∷◌, ◌++◌, Option, none, some, ok, Text, ltb, leb, ◌==◌, text_eq, any, true,
}
use go_tunnels.Store.Schema.{Db, Flow}
use go_tunnels.Store.Table.{find, delete_where, count_where}
use go_tunnels.Store.Statement.{Query, Stored, statement, checked_insert, or_not_found, timestamptz}

-- A user that a nullable column references exists.
abbrev references : Option Text → Db → Bool
references none d = true
references (some user_id) d = any (λ u. u.user.id == user_id) d.users

abbrev pub stored_flow : Flow → Flow
stored_flow f = record f { expires_at = timestamptz f.expires_at }

unfoldable pub insert_flow : Flow → Query Unit
unfolding any
insert_flow f now d =
    checked_insert (any (λ g. g.id == f.id) d.webauthn_flows) (references f.user_id d) tt d
      (record d { webauthn_flows = d.webauthn_flows ++ stored_flow f ∷ [] })

-- id = $1 AND kind = $2 AND expires_at > now()
abbrev pub is_consumable : Text → Text → ℕ → Flow → Bool
is_consumable id kind now f = f.id == id && f.kind == kind && ltb now f.expires_at

-- DELETE … RETURNING …
unfoldable pub delete_returning_flow : Text → Text → Query Flow
unfolding find delete_where
delete_returning_flow id kind now d = (
  or_not_found (find (is_consumable id kind now) d.webauthn_flows),
  record d { webauthn_flows = delete_where (is_consumable id kind now) d.webauthn_flows },
)

unfoldable pub delete_expired : Query ℕ
unfolding count_where delete_where
delete_expired now d = (
  ok (count_where (λ f. leb f.expires_at now) d.webauthn_flows),
  record d { webauthn_flows = delete_where (λ f. leb f.expires_at now) d.webauthn_flows },
)

unfoldable pub save_flow : Flow → Stored Unit
save_flow f = statement (insert_flow f)

unfoldable pub consume_flow : Text → Text → Stored Flow
consume_flow id kind = statement (delete_returning_flow id kind)

unfoldable pub delete_expired_flows : Stored ℕ
delete_expired_flows = statement delete_expired
