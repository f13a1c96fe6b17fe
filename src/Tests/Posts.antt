-- ===== src/Tests/Posts.antt =====
-- The theorems about the notes, the CAPTCHA statistics and the preferences at a small database.
use go_tunnels.Shared.{
  ◌≤◌, ◌≡◌, ◌≢◌, refl, false, not, List, [], ◌∷◌, ok, err, Text, codes, pos, negsuc, any, ◌⊎◌,
  Option, some, catch, pure, ◌>>=◌, text_beq, arith, All, length, Result,
}
use go_tunnels.Tests.Data.{alice, bob, with_posts, posts_world, alice_stats, two_users}
use go_tunnels.Text.{rune_count, runes, valid_string, trim_space}
use go_tunnels.Store.{World, User, CaptchaStats, find, count_where, select_where}
use go_tunnels.Store.Schema.{Note, check_violation}
use go_tunnels.Store.Statement.{statement, run_statement, apply_query}
use go_tunnels.Store.Table.{order_by, insert_row}
use go_tunnels.Store.Captcha.{
  CaptchaSyncInput, upsert_captcha_stats, select_captcha_stats, merged_stats,
}
use go_tunnels.Store.Notes.{
  create_note, list_notes, select_notes, delete_note, delete_own_note, is_own_note, is_listed,
  page_limit, join_users,
}
use go_tunnels.Notes.{validate_body, validate_normalised, max_body_chars, forbidden_rune}
use go_tunnels.Store.Prefs.{select_pref, upsert_pref, write_pref, pref_fits}
use go_tunnels.Store.Statement.{checked_insert}
use go_tunnels.Prefs.Saved.{select-upsert_pref}
use go_tunnels.Notes.Body.{create_note-validate_body}
use go_tunnels.Notes.Feed.{
  IsAskedFor, IsLeftOut, IsServed, Descends, list_notes-Descends, delete_note-select,
}
use go_tunnels.Captcha.Board.{leaderboard-AgreesWith}
use go_tunnels.Store.Users.{text_below}
use go_tunnels.Store.Summaries.{
  CaptchaLeaderboardRow, captcha_leaderboard, select_leaderboard, captcha_rank, select_rank, ranked,
  rank_of,
}
use go_tunnels.Auth.Sessions.{found}
use go_tunnels.Captcha.{leaderboard, SyncRequest, sync, reset}
use go_tunnels.Captcha.Counts.{IsMerged, AreCounted, sync-AreCounted, select-upsert}
use go_tunnels.Httpx.Reply.{DecodeProblem, write_json, board_body, or_server_error}

abbrev boast : SyncRequest
boast = record {
  manual_delta = pos 5000000;
  auto_delta = negsuc 3;
  current_streak = pos 9;
  best_streak = pos 4;
}

abbrev sent_boast : Result DecodeProblem SyncRequest
sent_boast = ok boast

abbrev alice_who : User × Text
alice_who = (
  record { id = alice; username = codes "Alice"; display_name = codes "Alice"; created_at = 5 },
  codes "s-1",
)

sync-AreCounted_example :
    AreCounted (sync sent_boast alice_who posts_world).1.db
    × AreCounted (reset alice_who posts_world).1.db
sync-AreCounted_example =
    sync-AreCounted sent_boast alice_who posts_world
      (record { total = refl; streak = ground arith; bounded = ground arith }, tt)

abbrev a_batch : CaptchaSyncInput
a_batch = record { manual_delta = 3; auto_delta = 2; current_streak = 5; best_streak = 5 }

abbrev merged_row : CaptchaStats
merged_row = record {
  user_id = alice;
  best_streak = 7;
  current_streak = 5;
  total_solves = 15;
  manual_solves = 7;
  auto_solves = 8;
  updated_at = 60;
}

select-upsert_example :
    ((select_captcha_stats alice 99 (upsert_captcha_stats alice a_batch 60 with_posts).1).0
      ≡ ok merged_row)
    × IsMerged alice a_batch 60 (some alice_stats) merged_row
unfolding upsert_captcha_stats merged_stats find text_beq
select-upsert_example = select-upsert alice a_batch 60 99 with_posts {stats = merged_row} refl

create_note-validate_body_example :
    ((create_note alice (codes "hi there") posts_world).0 ≢ err check_violation)
    × (1 ≤ rune_count (codes "hi there"))
    × (rune_count (codes "hi there") ≤ max_body_chars)
unfolding validate_body validate_normalised valid_string trim_space runes rune_count forbidden_rune
    any text_beq
create_note-validate_body_example =
    create_note-validate_body alice (codes " hi there\r\n") posts_world {body = codes "hi there"}
      refl

abbrev first_page : List Note
first_page =
    record {
      id = 3;
      user_id = alice;
      username = codes "Alice";
      display_name = codes "Alice";
      body = codes "hello";
      created_at = 40;
    }
    ∷ record {
      id = 1;
      user_id = alice;
      username = codes "Alice";
      display_name = codes "Alice";
      body = codes "hello";
      created_at = 40;
    }
    ∷ []

list_notes-Descends_example :
    All (IsAskedFor 9 (alice ∷ [])) first_page
    × Descends first_page
    × (length first_page ≤ page_limit 2)
    × (page_limit 2 ≤ 200)
    × All
        (λ n. IsLeftOut 9 (alice ∷ []) n ⊎ IsServed (page_limit 2) n.id first_page)
        (join_users posts_world.db.users posts_world.db.notes)
unfolding list_notes select_notes statement run_statement apply_query join_users is_listed order_by
    insert_row select_where find any text_beq
list_notes-Descends_example =
    list_notes-Descends 9 2 (alice ∷ []) posts_world {page = first_page} refl

delete_note-select_example :
    let later = (delete_note 2 alice posts_world).1.db in
    (false ≡ any (is_own_note 2 alice) with_posts.notes)
    × (any (is_own_note 2 alice) later.notes ≡ false)
    × (select_where (λ n. not (is_own_note 2 alice n)) later.notes
        ≡ select_where (λ n. not (is_own_note 2 alice n)) with_posts.notes)
unfolding delete_note delete_own_note statement run_statement apply_query count_where text_beq
delete_note-select_example = delete_note-select 2 alice posts_world {removed = false} refl

select-upsert_pref_example :
    (select_pref alice
      (codes "theme")
      80
      (upsert_pref alice (codes "theme") (codes "dark") 70 two_users).1).0
    ≡ ok (codes "dark")
unfolding upsert_pref write_pref pref_fits rune_count runes checked_insert any text_beq
select-upsert_pref_example =
    select-upsert_pref alice (codes "theme") (codes "dark") 70 80 two_users refl

-- Bob leads, with the longer streak.
abbrev bob_stats : CaptchaStats
bob_stats = record {
  user_id = bob;
  best_streak = 9;
  current_streak = 1;
  total_solves = 9;
  manual_solves = 9;
  auto_solves = 0;
  updated_at = 70;
}

abbrev contest : World
contest = record posts_world {
  db = record with_posts { captcha_stats = alice_stats ∷ bob_stats ∷ [] };
}

abbrev alice_rank : CaptchaLeaderboardRow
alice_rank = record {
  rank = 2;
  user_id = alice;
  username = codes "Alice";
  display_name = codes "Alice";
  best_streak = 7;
  total_solves = 10;
}

abbrev bob_rank : CaptchaLeaderboardRow
bob_rank = record {
  rank = 1;
  user_id = bob;
  username = codes "bob";
  display_name = codes "bob";
  best_streak = 9;
  total_solves = 9;
}

abbrev the_board : List CaptchaLeaderboardRow
the_board = bob_rank ∷ alice_rank ∷ []

leaderboard-AgreesWith_example :
    (page : List CaptchaLeaderboardRow) × (mine : Option CaptchaLeaderboardRow) × (write_json 200
        (board_body the_board (some alice_rank))
      ≡ write_json 200 (board_body page mine))
    × All (λ row. (text_beq row.user_id alice ≡ false) ⊎ (mine ≡ some row)) page
    × (length page ≤ 10)
unfolding leaderboard captcha_leaderboard select_leaderboard captcha_rank select_rank ranked rank_of
    order_by insert_row find count_where any text_beq text_below statement run_statement apply_query
    or_server_error found catch pure ◌>>=◌
leaderboard-AgreesWith_example =
    leaderboard-AgreesWith alice_who contest
      {response = write_json 200 (board_body the_board (some alice_rank))} (refl, (refl, tt)) refl
