-- ===== src/Captcha/Board.antt =====
-- The leaderboard of internal/captcha/captcha.go and internal/store/store.go: its two queries.
use mathlib.Core.Path.{subst}
use go_tunnels.Shared.{
  ℕ, ◌≤◌, ◌≡◌, refl, sym, ap, ◌∙◌, ◌⊎◌, inl, inr, false, List, [], ◌∷◌, Option, some, Text, arith,
  ok, ok_inj, All, any, length, take, Bool-cases, Option-cases, text_beq, text_beq_iff, text_eq,
  pure, stop, catch, ◌>>=◌, >>=-ok, catch-stop-ok,
}
use go_tunnels.Store.{World, Db, User, CaptchaStats, find}
use go_tunnels.Store.Table.{order_by}
use go_tunnels.Store.Rows.{IsKey}
use go_tunnels.Store.Ordered.{All-take, All-order, length-take_le}
use go_tunnels.Store.Statement.{statement-ok, statement-cases}
use go_tunnels.Store.Summaries.{
  CaptchaLeaderboardRow, ranked, is_listed_before, select_leaderboard, captcha_leaderboard,
  select_rank, captcha_rank,
}
use go_tunnels.Httpx.Reply.{Response, or_server_error, write_json, board_body}
use go_tunnels.Auth.Sessions.{found}
use go_tunnels.Captcha.{leaderboard}

module _ {ℓ} {A : Type ℓ} (key : A → Text) where
  find-cons :
      (x : A) (xs zs : List A)
      → any (λ z. text_beq (key z) (key x)) zs ≡ false
      → All (λ z. find (λ y. text_beq (key y) (key z)) xs ≡ some z) zs
      → All (λ z. find (λ y. text_beq (key y) (key z)) (x ∷ xs) ≡ some z) zs
  unfolding find any
  find-cons x xs [] h hs = tt
  find-cons x xs (z ∷ zs) h hs = (
    ground (arith, hs.0, text_beq_iff (key x) (key z), text_beq_iff (key z) (key x)),
    find-cons x xs zs (ground arith) hs.1,
  )

  -- A search by a key finds the row that has it.
  find-IsKey :
      (xs : List A) → IsKey key xs → All (λ z. find (λ y. text_beq (key y) (key z)) xs ≡ some z) xs
  unfolding find any
  find-IsKey [] k = tt
  find-IsKey (x ∷ xs) k =
      (ground (arith, text_beq_iff (key x) (key x)), find-cons x xs xs k.0 (find-IsKey xs k.1))

module _ (d : Db) where
  any-ranked :
      (id : Text) (rows : List CaptchaStats)
      → any (λ s. text_beq s.user_id id) rows ≡ false
      → any (λ r. text_beq r.user_id id) (ranked d rows) ≡ false
  unfolding any ranked
  any-ranked id [] h = refl
  any-ranked id (s ∷ rows) h =
      let rest : any (λ r. text_beq r.user_id id) (ranked d rows) ≡ false =
        any-ranked id rows (ground arith) in
      elim (Option-cases (find (λ u. text_beq u.user.id s.user_id) d.users)) [
        | inl gone ↦ rw (gone, ranked) rest
        | inr (u, joined) ↦ rw (joined, ranked) ground (arith, h, rest)
      ]

  ranked-IsKey :
      (rows : List CaptchaStats)
      → IsKey (λ s. s.user_id) rows
      → IsKey (λ r. r.user_id) (ranked d rows)
  unfolding ranked
  ranked-IsKey [] k = tt
  ranked-IsKey (s ∷ rows) k =
      elim (Option-cases (find (λ u. text_beq u.user.id s.user_id) d.users)) [
        | inl gone ↦ rw (gone, ranked) (ranked-IsKey rows k.1)
        | inr (u, joined) ↦
            rw (joined, ranked) (any-ranked s.user_id rows k.0, ranked-IsKey rows k.1)
      ]

-- The own row of a user that `found` hands on is what the search finds.
found-captcha_rank :
    (id : Text) (w : World) {mine : Option CaptchaLeaderboardRow}
    → (found (captcha_rank id) w).0 ≡ ok mine
    → find (λ r. text_beq r.user_id id) (ranked w.db w.db.captcha_stats) ≡ mine
unfolding found captcha_rank select_rank catch stop pure ◌>>=◌
found-captcha_rank id w {mine} h = elim (statement-cases (select_rank id) w) [
  | inl (down, _) ↦ let failed = rw down at h in absurd (ground arith)
  | inr (now, _, e, _) ↦
      elim (Option-cases (find (λ r. text_beq r.user_id id) (ranked w.db w.db.captcha_stats))) [
        | inl unranked ↦ unranked ∙ ok_inj (rw (e, unranked) at h)
        | inr (row, own) ↦ own ∙ ok_inj (rw (e, own) at h)
      ]
]

abbrev AgreesWith : Text → Option CaptchaLeaderboardRow → CaptchaLeaderboardRow → Type 0
AgreesWith id mine row = (text_beq row.user_id id ≡ false) ⊎ (mine ≡ some row)

-- Rows that a search by their user finds agree with any search.
found-AgreesWith :
    (id : Text) (rows rs : List CaptchaLeaderboardRow)
    → All (λ z. find (λ y. text_beq y.user_id z.user_id) rows ≡ some z) rs
    → All (AgreesWith id (find (λ r. text_beq r.user_id id) rows)) rs
found-AgreesWith id rows [] hs = tt
found-AgreesWith id rows (r ∷ rs) hs = (
  elim (Bool-cases (text_beq r.user_id id)) [
    | inl own ↦ inr (
        subst (λ i. find (λ y. text_beq y.user_id i) rows ≡ some r)
          ((text_beq_iff r.user_id id).0 own) hs.0)
    | inr other ↦ inl other
  ],
  found-AgreesWith id rows rs hs.1,
)

board-AgreesWith :
    (id : Text) (d : Db) (limit : ℕ)
    → IsKey (λ s. s.user_id) d.captcha_stats
    → All
        (AgreesWith id (find (λ r. text_beq r.user_id id) (ranked d d.captcha_stats)))
        (take limit (order_by is_listed_before (ranked d d.captcha_stats)))
board-AgreesWith id d limit k =
    let rows = ranked d d.captcha_stats in
    let P = AgreesWith id (find (λ r. text_beq r.user_id id) rows) in
    All-take P limit (order_by is_listed_before rows) (
      All-order P is_listed_before rows (
        found-AgreesWith id rows rows
          (find-IsKey (λ r. r.user_id) rows (ranked-IsKey d d.captcha_stats k))))

-- Where a table of statistics has one row for each user and the Leaderboard handler answers: the answer holds at most ten
-- rows, and the caller's own row is the row of the board whenever the caller is on the board.
pub leaderboard-AgreesWith :
    (who : User × Text) (w : World) {response : Response}
    → IsKey (λ s. s.user_id) w.db.captcha_stats
    → (leaderboard who w).0 ≡ ok response
    → (page : List CaptchaLeaderboardRow) × (mine : Option CaptchaLeaderboardRow) × (response
        ≡ write_json 200 (board_body page mine))
      × All (λ row. (text_beq row.user_id who.0.id ≡ false) ⊎ (mine ≡ some row)) page
      × (length page ≤ 10)
unfolding leaderboard captcha_leaderboard select_leaderboard or_server_error pure
leaderboard-AgreesWith (user, session) w k h =
    let (page, board, rest) = >>=-ok (or_server_error (captcha_leaderboard 10)) _ w h in
    let w' = (or_server_error (captcha_leaderboard 10) w).1 in
    let (mine, own, sent) = >>=-ok (found (captcha_rank user.id)) _ w' rest in
    let (queried, same) = catch-stop-ok (captcha_leaderboard 10) _ w board in
    let (now, _, _, e, d) = statement-ok (select_leaderboard 10) w queried in
    let unchanged : w'.db ≡ w.db = ap (λ r. r.1.db) same ∙ d in
    let searched = found-captcha_rank user.id w' own in
    let agreed =
      subst
        (λ v.
          IsKey (λ s. s.user_id) v.captcha_stats
          → All (AgreesWith user.id mine)
              (take 10 (order_by is_listed_before (ranked v v.captcha_stats))))
        unchanged
        (λ key.
          subst
            (λ m.
              All (AgreesWith user.id m)
                (take 10 (order_by is_listed_before (ranked w'.db w'.db.captcha_stats))))
            searched (board-AgreesWith user.id w'.db 10 key)) in
    (
      page,
      mine,
      sym (ok_inj sent),
      subst (All (AgreesWith user.id mine)) (ok_inj e) (agreed k),
      subst (λ rows. length rows ≤ 10) (ok_inj e)
          (length-take_le 10 (order_by is_listed_before (ranked w.db w.db.captcha_stats))),
    )
