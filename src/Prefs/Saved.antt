-- ===== src/Prefs/Saved.antt =====
-- A preference that Set has saved is what Get returns.
use go_tunnels.Shared.{
  ◌&&◌, ℕ, ◌≡◌, refl, inl, inr, Bool, true, [], ◌∷◌, some, Text, arith, ok, any, Bool-cases,
  text_beq_self, text_eq, List,
}
use go_tunnels.Store.{Db, find, find-update}
use go_tunnels.Store.Schema.{PrefRow}
use go_tunnels.Store.Statement.{is_text, checked_insert}
use go_tunnels.Store.Rows.{find-append}
use go_tunnels.Store.Prefs.{is_pref, pref_row, select_pref, upsert_pref, write_pref, pref_fits}

any-find :
    (p : PrefRow → Bool) (xs : List PrefRow)
    → any p xs ≡ true
    → (r : PrefRow) × (find p xs ≡ some r) × (p r ≡ true)
unfolding any find
any-find p [] h = absurd (ground arith)
any-find p (x ∷ xs) h = elim (Bool-cases (p x)) [
  | inl hit ↦ (x, rw hit, hit)
  | inr miss ↦ let (r, e, k) = any-find p xs (ground arith) in (r, rw miss e, k)
]

write_pref-select :
    (user_id key value : Text) (now later : ℕ) (d : Db)
    → (write_pref user_id key value now d).0 ≡ ok tt
    → (select_pref user_id key later (write_pref user_id key value now d).1).0 ≡ ok value
unfolding write_pref select_pref checked_insert find
write_pref-select user_id key value now later d h =
    elim (Bool-cases (any (is_pref user_id key) d.user_prefs)) [
      | inl known ↦
          let (r, e, hit) = any-find (is_pref user_id key) d.user_prefs known in
          let updated =
            find-update (is_pref user_id key) (is_pref user_id key)
              (λ x. record x { value = value; updated_at = now }) d.user_prefs (λ x. refl) in
          rw (known, write_pref, rw (e, hit) at updated) refl
      | inr fresh ↦ ground (
        arith,
        text_beq_self user_id,
        text_beq_self key,
        find-append (is_pref user_id key) (is_pref user_id key) d.user_prefs
            (pref_row user_id key value now ∷ []) (λ x k. k),
      )
    ]

-- Where SetUserPref saves a value, whether there was one before or not, GetUserPref returns it at any
-- instant that follows.
pub select-upsert_pref :
    (user_id key value : Text) (now later : ℕ) (d : Db)
    → (upsert_pref user_id key value now d).0 ≡ ok tt
    → (select_pref user_id key later (upsert_pref user_id key value now d).1).0 ≡ ok value
unfolding upsert_pref
select-upsert_pref user_id key value now later d h =
    elim (Bool-cases (is_text key && is_text value)) [
      | inr broken ↦ let failed = rw (broken, upsert_pref) at h in absurd (ground arith)
      | inl text ↦ elim (Bool-cases (pref_fits key value)) [
        | inl fits ↦
            rw (text, fits, upsert_pref)
              (write_pref-select user_id key value now later d (rw (text, fits, upsert_pref) at h))
        | inr large ↦ let failed = rw (text, large, upsert_pref) at h in absurd (ground arith)
      ]
    ]
