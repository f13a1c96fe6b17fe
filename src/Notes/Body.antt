-- ===== src/Notes/Body.antt =====
-- ValidateBody of internal/notes/notes.go and the CHECK of the notes table agree.
use Prim.Native.String.{String}
use go_tunnels.Shared.{
  ℕ, ◌≤◌, ◌≡◌, ◌≢◌, refl, ◌∙◌, sym, inl, inr, Bool, true, false, [], ◌∷◌, Text, arith, Result, ok,
  err, any, ltb, Bool-cases, Option-cases, if◌then◌else◌, text_beq, ◌==◌, text_eq, nat_eq,
  text_beq_iff,
}
use go_tunnels.Text.{runes, rune_count, valid_string}
use go_tunnels.Store.{World, Db, find}
use go_tunnels.Store.Schema.{check_violation}
use go_tunnels.Store.Statement.{statement-cases}
use go_tunnels.Store.Notes.{body_fits, insert_note, create_note}
use go_tunnels.Notes.{validate_body, validate_normalised, max_body_chars, forbidden_rune}

rune_count_pos : (s : Text) → s ≢ [] → 1 ≤ rune_count s
unfolding rune_count runes
rune_count_pos [] h = absurd (h refl)
rune_count_pos (c ∷ s) h = ground arith

-- What a test lets through is what was tested.
passed :
    (b : Bool) (problem : String) (r : Result String Text) {body : Text}
    → (if b then err problem else r) ≡ ok body
    → (b ≡ false) × (r ≡ ok body)
passed true problem r h = absurd (ground arith)
passed false problem r h = (refl, h)

fits_from :
    (body : Text) → body ≢ [] → ltb max_body_chars (rune_count body) ≡ false → body_fits body ≡ true
unfolding body_fits
fits_from body full short = let some_rune = rune_count_pos body full in ground arith

validate_normalised-fits :
    (raw : Text) {body : Text} → validate_normalised raw ≡ ok body → body_fits body ≡ true
unfolding validate_normalised
validate_normalised-fits raw {body} h =
    let (full, h1) = passed (text_beq raw []) "note body must not be empty" _ h in
    let (short, h2) =
      passed (ltb max_body_chars (rune_count raw)) "note body must be at most 500 characters" _
        h1 in
    let (clean, h3) =
      passed (any (λ r. forbidden_rune r.point) (runes raw))
        "note body must not contain control or invisible formatting characters" _ h2 in
    let same : raw ≡ body = ground arith in
    rw same at (fits_from raw (λ e. ground (arith, text_beq_iff raw [])) short)

validate_body-fits :
    (raw : Text) {body : Text} → validate_body raw ≡ ok body → body_fits body ≡ true
unfolding validate_body
validate_body-fits raw h = elim (Bool-cases (valid_string raw)) [
  | inl valid ↦ validate_normalised-fits _ (rw valid at h)
  | inr broken ↦ absurd (let refused = rw broken at h in ground arith)
]

insert_note-fits :
    (user_id body : Text) (now : ℕ) (d : Db)
    → body_fits body ≡ true
    → (insert_note user_id body now d).0 ≢ err check_violation
unfolding insert_note
insert_note-fits user_id body now d fits refused =
    elim (Option-cases (find (λ u. u.user.id == user_id) d.users)) [
      | inl gone ↦ let answer = rw (fits, gone, insert_note) at refused in ground arith
      | inr (u, known) ↦ let answer = rw (fits, known, insert_note) at refused in ground arith
    ]

-- A body that ValidateBody returns never violates the CHECK on the length of notes.body: CreateNote
-- may fail for another reason, but not for this one, and the body has between 1 and 500 characters.
pub create_note-validate_body :
    (user_id raw : Text) (w : World) {body : Text}
    → validate_body raw ≡ ok body
    → ((create_note user_id body w).0 ≢ err check_violation)
      × (1 ≤ rune_count body)
      × (rune_count body ≤ max_body_chars)
unfolding create_note body_fits
create_note-validate_body user_id raw w {body} h =
    let fits = validate_body-fits raw h in
    (
      λ refused. elim (statement-cases (insert_note user_id body) w) [
        | inl (down, _) ↦ let answer = sym down ∙ refused in ground arith
        | inr (now, _, e, _) ↦ insert_note-fits user_id body now w.db fits (sym e ∙ refused)
      ],
      ground arith,
      ground arith,
    )
