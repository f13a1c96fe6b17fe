-- ===== src/Store/Users.antt =====
-- Users, roles, passwords and passkeys of internal/store/store.go.
use go_tunnels.Shared.{
  ℕ, suc, Bool, true, ◌&&◌, ◌||◌, List, [], ◌∷◌, ◌++◌, map, Option, none, some, ok, Text,
  if◌then◌else◌, ◌==◌, text_eq, nat_eq, any, pure, stop, ◌>>=◌, ◌>>◌, codes, false, ltb,
}
use go_tunnels.Text.{trim_space, to_lower}
use go_tunnels.Store.Schema.{Db, User, UserRow, PasswordRow, Credential, CredentialRow, unavailable}
use go_tunnels.Store.Outside.{Platform}
use go_tunnels.Store.Table.{find, update_where, select_where, count_where, order_by}
use go_tunnels.Store.Statement.{Query, Stored, statement, in_tx, checked_insert, or_not_found}

abbrev has_user : Text → Db → Bool
has_user user_id d = any (λ u. u.user.id == user_id) d.users

-- SELECT … FROM users: the columns of `User`.
abbrev user_of : Option UserRow → Option User
user_of none = none
user_of (some r) = some r.user

unfoldable pub select_user_by_username_lower : Text → Query User
unfolding find
select_user_by_username_lower lower now d =
    (or_not_found (user_of (find (λ u. u.username_lower == lower) d.users)), d)

unfoldable pub select_user_by_id : Text → Query User
unfolding find
select_user_by_id id now d = (or_not_found (user_of (find (λ u. u.user.id == id) d.users)), d)

unfoldable pub select_username_exists : Text → Query Bool
unfolding any
select_username_exists lower now d = (ok (any (λ u. u.username_lower == lower) d.users), d)

-- COALESCE($1::uuid, gen_random_uuid()), and the tables after it.
abbrev pub coalesce_id : Option Text → Db → Text × Db
coalesce_id (some id) d = (id, d)
coalesce_id none d = (d.random_uuid d.uuids_drawn, record d { uuids_drawn = suc d.uuids_drawn })

abbrev pub user_row : Text → Text → Text → Text → ℕ → UserRow
user_row id username lower display_name now = record {
  user = record { id = id; username = username; display_name = display_name; created_at = now };
  username_lower = lower;
}

abbrev pub password_row : Text → Text → PasswordRow
password_row user_id hash = record { user_id = user_id; password_hash = hash }

abbrev pub credential_row : Text → Credential → Text → CredentialRow
credential_row user_id cred blob = record {
  user_id = user_id;
  credential_id = cred.id;
  public_key = cred.public_key;
  attestation_type = cred.attestation_type;
  aaguid = cred.aaguid;
  transports = cred.transports;
  sign_count = cred.sign_count;
  clone_warning = cred.clone_warning;
  credential = blob;
  last_used_at = none;
}

-- The keys of `users` are `id` and `username_lower`.
unfoldable pub insert_user_row : Option Text → Text → Text → Text → Query User
unfolding any
insert_user_row id username lower display_name now d =
    let (key, d') = coalesce_id id d in
    let row = user_row key username lower display_name now in
    checked_insert (any (λ u. u.user.id == key || u.username_lower == lower) d'.users) true row.user
      d' (record d' { users = d'.users ++ row ∷ [] })

abbrev pub role_user : Text
role_user = codes "user"

unfoldable pub insert_user_role : Text → Text → Query Unit
unfolding any
insert_user_role user_id role now d =
    checked_insert (any (λ r. r.user_id == user_id && r.role == role) d.user_roles)
      (has_user user_id d) tt d
      (record d { user_roles = d.user_roles ++ record { user_id = user_id; role = role } ∷ [] })

unfoldable pub insert_password : Text → Text → Query Unit
unfolding any
insert_password user_id hash now d =
    checked_insert (any (λ r. r.user_id == user_id) d.password_credentials) (has_user user_id d) tt
      d
      (record d { password_credentials = d.password_credentials ++ password_row user_id hash ∷ [] })

abbrev hash_of : Option PasswordRow → Option Text
hash_of none = none
hash_of (some r) = some r.password_hash

unfoldable pub select_password_hash : Text → Query Text
unfolding find
select_password_hash user_id now d =
    (or_not_found (hash_of (find (λ r. r.user_id == user_id) d.password_credentials)), d)

-- ORDER BY role, by bytes.
unfoldable pub text_below : Text → Text → Bool
text_below [] [] = false
text_below [] (y ∷ ys) = true
text_below (x ∷ xs) [] = false
text_below (x ∷ xs) (y ∷ ys) = ltb x y || (x == y && text_below xs ys)

unfoldable pub select_roles : Text → Query (List Text)
unfolding select_where order_by text_below
select_roles user_id now d = (
  ok (
      order_by text_below
        (map (λ r. r.role) (select_where (λ r. r.user_id == user_id) d.user_roles))),
  d,
)

unfoldable pub insert_credential : Text → Credential → Text → Query Unit
unfolding any
insert_credential user_id cred blob now d =
    checked_insert (any (λ r. r.credential_id == cred.id) d.webauthn_credentials)
      (has_user user_id d) tt d
      (record d {
        webauthn_credentials = d.webauthn_credentials ++ credential_row user_id cred blob ∷ [];
      })

-- ORDER BY id: the order of insertion.
unfoldable pub select_credentials : Text → Query (List Text)
unfolding select_where
select_credentials user_id now d = (
  ok (map (λ r. r.credential) (select_where (λ r. r.user_id == user_id) d.webauthn_credentials)),
  d,
)

unfoldable pub select_credential_count : Text → Query ℕ
unfolding count_where
select_credential_count user_id now d =
    (ok (count_where (λ r. r.user_id == user_id) d.webauthn_credentials), d)

unfoldable pub update_credential : Text → Credential → Text → Query Unit
unfolding update_where
update_credential user_id cred blob now d = (
  ok tt,
  record d {
    webauthn_credentials =
        update_where (λ r. r.user_id == user_id && r.credential_id == cred.id)
          (λ r. record r {
            sign_count = cred.sign_count;
            clone_warning = cred.clone_warning;
            credential = blob;
            last_used_at = some now;
          })
          d.webauthn_credentials;
  },
)

module _ (platform : Platform) where
  unfoldable pub normalize_username : Text → Text
  normalize_username u = to_lower platform.lower_rune (trim_space u)

  unfoldable pub insert_user : Option Text → Text → Text → Stored User
  insert_user id username display_name = do
    user ← statement (
        insert_user_row id username (normalize_username username)
          (if display_name == [] then username else display_name))
    statement (insert_user_role user.id role_user)
    pure user

  -- insertWebAuthnCredential: a codec error is one more error of the call.
  unfoldable pub insert_webauthn_credential : Text → Credential → Stored Unit
  insert_webauthn_credential user_id cred = elim (platform.marshal_credential cred) [
    | none ↦ stop unavailable
    | some blob ↦ statement (insert_credential user_id cred blob)
  ]

  -- AddWebAuthnCredential
  unfoldable pub add_webauthn_credential : Text → Credential → Stored Unit
  add_webauthn_credential user_id cred = insert_webauthn_credential user_id cred

  unfoldable pub create_user_with_password : Text → Text → Text → Stored User
  create_user_with_password username display_name password_hash = in_tx do
    user ← insert_user none username display_name
    statement (insert_password user.id password_hash)
    pure user

  unfoldable pub create_user_with_passkey : Text → Text → Text → Credential → Stored User
  create_user_with_passkey id username display_name cred = in_tx do
    user ← insert_user (some id) username display_name
    insert_webauthn_credential user.id cred
    pure user

  unfoldable pub get_user_by_username : Text → Stored User
  get_user_by_username username =
      statement (select_user_by_username_lower (normalize_username username))

  unfoldable pub username_exists : Text → Stored Bool
  username_exists username = statement (select_username_exists (normalize_username username))

  unfoldable pub unmarshal_all : List Text → Stored (List Credential)
  unmarshal_all [] = pure []
  unmarshal_all (blob ∷ rest) = elim (platform.unmarshal_credential blob) [
    | none ↦ stop unavailable
    | some cred ↦ do creds ← unmarshal_all rest; pure (cred ∷ creds)
  ]

  unfoldable pub get_webauthn_credentials : Text → Stored (List Credential)
  unfolding unmarshal_all
  get_webauthn_credentials user_id = do
    blobs ← statement (select_credentials user_id)
    unmarshal_all blobs

  unfoldable pub update_webauthn_credential : Text → Credential → Stored Unit
  update_webauthn_credential user_id cred = elim (platform.marshal_credential cred) [
    | none ↦ stop unavailable
    | some blob ↦ statement (update_credential user_id cred blob)
  ]

unfoldable pub get_user_by_id : Text → Stored User
get_user_by_id id = statement (select_user_by_id id)

unfoldable pub user_roles : Text → Stored (List Text)
user_roles user_id = statement (select_roles user_id)

unfoldable pub get_password_hash : Text → Stored Text
get_password_hash user_id = statement (select_password_hash user_id)

unfoldable pub count_webauthn_credentials : Text → Stored ℕ
count_webauthn_credentials user_id = statement (select_credential_count user_id)
