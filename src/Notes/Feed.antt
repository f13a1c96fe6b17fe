-- ===== src/Notes/Feed.antt =====
-- The feed of notes of internal/store/store.go: DeleteNote and ListNotes.
use mathlib.Core.Path.{subst}
use go_tunnels.Shared.{
  ap, ◌⊎◌, ◌≢◌, ◌<◌, ◌||◌, ◌==◌, text_beq, ℕ, zero, suc, ◌≤◌, ◌≡◌, refl, ◌∙◌, sym, inl, inr, Bool,
  true, false, not, List, [], ◌∷◌, Text, arith, ok, any, ltb, length, take, All, Bool-cases,
  text_eq, nat_eq, ok_inj,
}
use go_tunnels.Store.{World, count_where, delete_where}
use go_tunnels.Store.Table.{select_where, order_by, insert_row}
use go_tunnels.Store.Ordered.{length-take_le, All-select, All-take, All-order, All-insert}
use go_tunnels.Store.Schema.{Note}
use go_tunnels.Store.Statement.{statement-ok}
use go_tunnels.Store.Notes.{
  is_own_note, delete_own_note, delete_note, is_listed, is_later, page_limit, select_notes,
  list_notes, join_users,
}

module _ {ℓ} {A : Type ℓ} where
  ltb-count : (p : A → Bool) (xs : List A) → ltb 0 (count_where p xs) ≡ any p xs
  unfolding any count_where
  ltb-count p [] = refl
  ltb-count p (x ∷ xs) = ground (arith, ltb-count p xs)

  any-delete_self : (p : A → Bool) (xs : List A) → any p (delete_where p xs) ≡ false
  unfolding any delete_where
  any-delete_self p [] = refl
  any-delete_self p (x ∷ xs) = ground (arith, any-delete_self p xs)

  select-delete :
      (p : A → Bool) (xs : List A)
      → select_where (λ x. not (p x)) (delete_where p xs) ≡ select_where (λ x. not (p x)) xs
  unfolding select_where delete_where
  select-delete p [] = refl
  select-delete p (x ∷ xs) = ground (arith, select-delete p xs)

-- No note stands before one with a larger id.
abbrev pub Descends : List Note → Type 0
Descends [] = Unit
Descends (n ∷ ns) = All (λ m. m.id ≤ n.id) ns × Descends ns

weaken_bound : (a b : ℕ) (ns : List Note) → a ≤ b → All (λ m. m.id ≤ a) ns → All (λ m. m.id ≤ b) ns
weaken_bound a b [] le h = tt
weaken_bound a b (n ∷ ns) le h = (omega arith, weaken_bound a b ns le h.1)

insert-Descends : (n : Note) (ns : List Note) → Descends ns → Descends (insert_row is_later n ns)
unfolding insert_row
insert-Descends n [] h = (tt, tt)
insert-Descends n (m ∷ ms) h = elim (Bool-cases (is_later n m)) [
  | inl later ↦
      let le : m.id ≤ n.id = ground arith in
      rw (later, insert_row) ((le, weaken_bound m.id n.id ms le h.0), h)
  | inr not_later ↦
      let le : n.id ≤ m.id = ground arith in
      rw (not_later, insert_row)
        (All-insert (λ x. x.id ≤ m.id) is_later n ms le h.0, insert-Descends n ms h.1)
]

order-Descends : (ns : List Note) → Descends (order_by is_later ns)
unfolding order_by
order-Descends [] = tt
order-Descends (n ∷ ns) = insert-Descends n (order_by is_later ns) (order-Descends ns)

take-Descends : (k : ℕ) (ns : List Note) → Descends ns → Descends (take k ns)
take-Descends zero ns h = tt
take-Descends (suc k) [] h = tt
take-Descends (suc k) (n ∷ ns) h = (All-take (λ m. m.id ≤ n.id) k ns h.0, take-Descends k ns h.1)

-- The first rows in the order of the feed.
feed-Descends :
    (p : Note → Bool) (k : ℕ) (ns : List Note) (page : List Note)
    → take k (order_by is_later (select_where p ns)) ≡ page
    → All (λ n. p n ≡ true) page × Descends page × (length page ≤ k)
feed-Descends p k ns page same =
    let rows = order_by is_later (select_where p ns) in
    (
      rw same at (
          All-take (λ n. p n ≡ true) k rows
            (All-order (λ n. p n ≡ true) is_later (select_where p ns) (All-select p ns))),
      rw same at (take-Descends k rows (order-Descends (select_where p ns))),
      rw same at (length-take_le k rows),
    )

-- A note that the request asks for: older than the cursor, where there is one, and of one of the authors, where there are any.
pub record IsAskedFor (before : ℕ) (authors : List Text) (n : Note) : Type 0 where
  pub cursor : (before ≡ 0) ⊎ (n.id < before)
  pub author : (authors ≡ []) ⊎ (any (λ a. text_beq n.user_id a) authors ≡ true)

-- A note that it does not ask for.
abbrev pub IsLeftOut : ℕ → List Text → Note → Type 0
IsLeftOut before authors n =
    ((before ≢ 0) × (before ≤ n.id))
    ⊎ ((authors ≢ []) × (any (λ a. text_beq n.user_id a) authors ≡ false))

is_listed-IsAskedFor :
    (before : ℕ) (authors : List Text) (n : Note)
    → is_listed before authors n ≡ true
    → IsAskedFor before authors n
unfolding is_listed any
is_listed-IsAskedFor before [] n h = record { cursor = ground arith; author = inl refl }
is_listed-IsAskedFor before (a ∷ others) n h = record {
  cursor = ground arith;
  author = ground arith;
}

is_listed-IsLeftOut :
    (before : ℕ) (authors : List Text) (n : Note)
    → is_listed before authors n ≡ false
    → IsLeftOut before authors n
unfolding is_listed any
is_listed-IsLeftOut before [] n h = inl (λ e. ground arith, ground arith)
is_listed-IsLeftOut before (a ∷ others) n h =
    elim (Bool-cases (any (λ x. text_beq n.user_id x) (a ∷ others))) [
      | inl of_one ↦ inl (λ e. ground arith, ground arith)
      | inr of_none ↦ inr (λ e. ground arith, of_none)
    ]

-- There is a note with the id.
abbrev pub has_note : ℕ → List Note → Bool
has_note id ns = any (λ m. m.id == id) ns

has_note-le :
    (id bound : ℕ) (ns : List Note)
    → has_note id ns ≡ true
    → All (λ m. m.id ≤ bound) ns
    → id ≤ bound
unfolding any
has_note-le id bound [] h k = absurd (ground arith)
has_note-le id bound (m ∷ ms) h k = elim (Bool-cases (m.id == id)) [
  | inl same ↦ ground arith
  | inr other ↦ has_note-le id bound ms (ground arith) k.1
]

-- A note is on the page, or the page is full, and of notes that are no older.
abbrev pub IsServed : ℕ → ℕ → List Note → Type 0
IsServed limit id page =
    (has_note id page ≡ true) ⊎ ((length page ≡ limit) × All (λ m. id ≤ m.id) page)

take-IsServed :
    (k id : ℕ) (ns : List Note) → has_note id ns ≡ true → Descends ns → IsServed k id (take k ns)
unfolding any
take-IsServed zero id ns h d = inr (refl, tt)
take-IsServed (suc k) id [] h d = absurd (ground arith)
take-IsServed (suc k) id (m ∷ ms) h d = elim (Bool-cases (m.id == id)) [
  | inl same ↦ inl (ground arith)
  | inr other ↦
      let rest : has_note id ms ≡ true = ground arith in
      elim (take-IsServed k id ms rest d.1) [
        | inl there ↦ inl (ground arith)
        | inr (full, older) ↦ inr (ap (λ l. suc l) full, (has_note-le id m.id ms rest d.0, older))
      ]
]

module _ {ℓ} {A : Type ℓ} (p : A → Bool) (before : A → A → Bool) where
  any-insert : (x : A) (xs : List A) → any p (insert_row before x xs) ≡ (p x || any p xs)
  unfolding any insert_row
  any-insert x [] = refl
  any-insert x (y ∷ ys) = ground (arith, any-insert x ys)

  any-order : (xs : List A) → any p (order_by before xs) ≡ any p xs
  unfolding any order_by
  any-order [] = refl
  any-order (x ∷ xs) = any-insert x (order_by before xs) ∙ ap (λ b. p x || b) (any-order xs)

-- The rows that pass a test are selected.
selected :
    (p : Note → Bool) (ns later : List Note)
    → ((id : ℕ) → has_note id (select_where p ns) ≡ true → has_note id later ≡ true)
    → All (λ n. (p n ≡ false) ⊎ (has_note n.id later ≡ true)) ns
unfolding any select_where
selected p [] later into = tt
selected p (n ∷ ns) later into = elim (Bool-cases (p n)) [
  | inl hit ↦ (inr (into n.id (ground arith)), selected p ns later (λ id h. into id (ground arith)))
  | inr miss ↦ (inl miss, selected p ns later (λ id h. into id (ground arith)))
]

-- Every row that passes the test is served.
served :
    (p : Note → Bool) (k : ℕ) (ns rows : List Note)
    → Descends rows
    → All (λ n. (p n ≡ false) ⊎ (has_note n.id rows ≡ true)) ns
    → All (λ n. (p n ≡ false) ⊎ IsServed k n.id (take k rows)) ns
served p k [] rows d h = tt
served p k (n ∷ ns) rows d h = (
  elim h.0 [ inl miss ↦ inl miss | inr there ↦ inr (take-IsServed k n.id rows there d) ],
  served p k ns rows d h.1,
)

-- What a page holds, and what it leaves out.
asked_for :
    (before : ℕ) (authors : List Text) (ns : List Note)
    → All (λ n. is_listed before authors n ≡ true) ns
    → All (IsAskedFor before authors) ns
asked_for before authors [] h = tt
asked_for before authors (n ∷ ns) h =
    (is_listed-IsAskedFor before authors n h.0, asked_for before authors ns h.1)

left_out :
    (before limit : ℕ) (authors : List Text) (page ns : List Note)
    → All (λ n. (is_listed before authors n ≡ false) ⊎ IsServed limit n.id page) ns
    → All (λ n. IsLeftOut before authors n ⊎ IsServed limit n.id page) ns
left_out before limit authors page [] h = tt
left_out before limit authors page (n ∷ ns) h = (
  elim h.0 [ inl miss ↦ inl (is_listed-IsLeftOut before authors n miss) | inr there ↦ inr there ],
  left_out before limit authors page ns h.1,
)

-- A page that ListNotes returns: it holds notes that are older than the cursor, where there is one, and of the authors,
-- where there are any; no note stands before one with a larger id; it is no longer than the limit in force, which is at
-- most 200; and every note of the table that is older than the cursor and of the authors is on it, unless the page has as many
-- notes as the limit, none of them with a smaller id.
pub list_notes-Descends :
    (before limit : ℕ) (authors : List Text) (w : World) {page : List Note}
    → (list_notes before limit authors w).0 ≡ ok page
    → All (IsAskedFor before authors) page
      × Descends page
      × (length page ≤ page_limit limit)
      × (page_limit limit ≤ 200)
      × All
          (λ n. IsLeftOut before authors n ⊎ IsServed (page_limit limit) n.id page)
          (join_users w.db.users w.db.notes)
unfolding list_notes select_notes
list_notes-Descends before limit authors w {page} h =
    let (now, _, _, e, _) = statement-ok (select_notes before (page_limit limit) authors) w h in
    let all = join_users w.db.users w.db.notes in
    let test = is_listed before authors in
    let rows = order_by is_later (select_where test all) in
    let (listed, sorted, short) = feed-Descends test (page_limit limit) all page (ok_inj e) in
    let covers =
      selected test all rows
        (λ id there. any-order (λ m. m.id == id) is_later (select_where test all) ∙ there) in
    (
      asked_for before authors page listed,
      sorted,
      short,
      ground arith,
      subst (λ pg. All (λ n. IsLeftOut before authors n ⊎ IsServed (page_limit limit) n.id pg) all)
          (ok_inj e)
          (left_out before (page_limit limit) authors (take (page_limit limit) rows) all (
            served test (page_limit limit) all rows (order-Descends (select_where test all))
              covers)),
    )

-- DeleteNote, where it answers, says whether the user had a note with the id; afterwards the user has
-- none, and every other note, of this user or of others, is as it was.
pub delete_note-select :
    (id : ℕ) (user_id : Text) (w : World) {removed : Bool}
    → (delete_note id user_id w).0 ≡ ok removed
    → let later = (delete_note id user_id w).1.db in
      (removed ≡ any (is_own_note id user_id) w.db.notes)
      × (any (is_own_note id user_id) later.notes ≡ false)
      × (select_where (λ n. not (is_own_note id user_id n)) later.notes
          ≡ select_where (λ n. not (is_own_note id user_id n)) w.db.notes)
unfolding delete_note delete_own_note
delete_note-select id user_id w {removed} h =
    let (now, _, _, e, d) = statement-ok (delete_own_note id user_id) w h in
    let counted = ltb-count (is_own_note id user_id) w.db.notes in
    (
      sym (ok_inj e) ∙ counted,
      rw d (any-delete_self (is_own_note id user_id) w.db.notes),
      rw d (select-delete (is_own_note id user_id) w.db.notes),
    )
