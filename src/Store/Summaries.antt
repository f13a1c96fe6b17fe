-- ===== src/Store/Summaries.antt =====
-- The read-only reports of internal/store/store.go: the CAPTCHA leaderboard and the authors of notes.
use go_tunnels.Shared.{
  ℕ, suc, Bool, ◌&&◌, ◌||◌, List, [], ◌∷◌, map, none, some, ok, Text, ltb, if◌then◌else◌, take,
  ◌==◌, nat_eq, text_eq,
}
use go_tunnels.Store.Schema.{Db, UserRow, CaptchaStats, NoteRow}
use go_tunnels.Store.Table.{find, select_where, count_where, order_by}
use go_tunnels.Store.Users.{text_below}
use go_tunnels.Store.Statement.{Query, Stored, statement, or_not_found}

pub record CaptchaLeaderboardRow : Type 0 where
  pub rank : ℕ
  pub user_id : Text
  pub username : Text
  pub display_name : Text
  pub best_streak : ℕ
  pub total_solves : ℕ

-- ORDER BY best_streak DESC, total_solves DESC, updated_at ASC: the first is strictly before.
abbrev pub is_ahead : CaptchaStats → CaptchaStats → Bool
is_ahead r s =
    ltb s.best_streak r.best_streak
    || (s.best_streak == r.best_streak
        && (ltb s.total_solves r.total_solves
            || (s.total_solves == r.total_solves && ltb r.updated_at s.updated_at)))

-- RANK()
unfoldable pub rank_of : CaptchaStats → List CaptchaStats → ℕ
unfolding count_where
rank_of s rows = suc (count_where (λ r. is_ahead r s) rows)

abbrev ranked_row : Db → CaptchaStats → UserRow → CaptchaLeaderboardRow
ranked_row d s u = record {
  rank = rank_of s d.captcha_stats;
  user_id = s.user_id;
  username = u.user.username;
  display_name = u.user.display_name;
  best_streak = s.best_streak;
  total_solves = s.total_solves;
}

-- ranked r JOIN users u ON u.id = r.user_id
unfoldable pub ranked : Db → List CaptchaStats → List CaptchaLeaderboardRow
unfolding find rank_of
ranked d [] = []
ranked d (s ∷ rows) =
    let rest = ranked d rows in
    elim (find (λ u. u.user.id == s.user_id) d.users) [
      | none ↦ rest
      | some u ↦ ranked_row d s u ∷ rest
    ]

-- ORDER BY r.rank, u.username
abbrev pub is_listed_before : CaptchaLeaderboardRow → CaptchaLeaderboardRow → Bool
is_listed_before r s = ltb r.rank s.rank || (r.rank == s.rank && text_below r.username s.username)

-- limit <= 0 || limit > 100
abbrev pub board_limit : ℕ → ℕ
board_limit limit = if limit == 0 || ltb 100 limit then 10 else limit

unfoldable pub select_leaderboard : ℕ → Query (List CaptchaLeaderboardRow)
unfolding ranked order_by text_below
select_leaderboard limit now d =
    (ok (take limit (order_by is_listed_before (ranked d d.captcha_stats))), d)

unfoldable pub captcha_leaderboard : ℕ → Stored (List CaptchaLeaderboardRow)
captcha_leaderboard limit = statement (select_leaderboard (board_limit limit))

unfoldable pub select_rank : Text → Query CaptchaLeaderboardRow
unfolding find ranked
select_rank user_id now d =
    (or_not_found (find (λ r. r.user_id == user_id) (ranked d d.captcha_stats)), d)

unfoldable pub captcha_rank : Text → Stored CaptchaLeaderboardRow
captcha_rank user_id = statement (select_rank user_id)

pub record NoteAuthor : Type 0 where
  pub user_id : Text
  pub username : Text
  pub display_name : Text
  pub notes : ℕ

abbrev author_of : List NoteRow → UserRow → NoteAuthor
author_of notes u = record {
  user_id = u.user.id;
  username = u.user.username;
  display_name = u.user.display_name;
  notes = count_where (λ n. n.user_id == u.user.id) notes;
}

-- The groups of the join: the users with a note.
unfoldable pub select_authors : Query (List NoteAuthor)
unfolding select_where count_where order_by text_below
select_authors now d = (
  ok (
      order_by (λ a b. text_below a.username b.username)
        (select_where (λ a. ltb 0 a.notes) (map (author_of d.notes) d.users))),
  d,
)

unfoldable pub list_note_authors : Stored (List NoteAuthor)
list_note_authors = statement select_authors
