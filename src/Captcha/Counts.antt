-- ===== src/Captcha/Counts.antt =====
-- The counts of the CAPTCHA statistics under the handlers of internal/captcha/captcha.go.
use mathlib.Core.Path.{subst}
use go_tunnels.Shared.{
  none, ap, ◌∙◌, ◌++◌, [], ◌∷◌, List, Bool, Option, sym, ◌⊎◌, text_beq_iff, ok_inj, text_beq_self,
  ℕ, ◌+◌, ◌^◌, ◌≤◌, ◌≡◌, refl, inl, inr, some, Text, ℤ, pos, negsuc, arith, Result, ok, err, All,
  All-append, Bool-cases, Option-cases, ltb, Keeps, Keeps-bind, Keeps-pure, Keeps-stop, Keeps-catch,
  text_eq,
}
use go_tunnels.Store.{
  World, Db, User, CaptchaStats, find, find_sound, find-update, All-update, All-delete,
}
use go_tunnels.Store.Statement.{
  checked_insert-ok, or_not_found, QueryKeeps, statement-Keeps, checked_insert-keeps,
}
use go_tunnels.Store.Captcha.{
  CaptchaSyncInput, stats_of, first_stats, merged_stats, upsert_captcha_stats, sync_captcha_stats,
  select_captcha_stats, delete_captcha_stats, delete_stats_rows,
}
use go_tunnels.Httpx.Reply.{DecodeProblem, decode_json, or_server_error}
use go_tunnels.Captcha.{SyncRequest, clamp, clamp_sync, sync, reset, max_streak}

-- The solves add up, and no streak is longer than the best one or than a client may report.
pub record IsCounted (r : CaptchaStats) : Type 0 where
  pub total : r.total_solves ≡ r.manual_solves + r.auto_solves
  pub streak : r.current_streak ≤ r.best_streak
  pub bounded : r.best_streak ≤ max_streak

abbrev pub AreCounted : Db → Type 0
AreCounted d = All IsCounted d.captcha_stats

-- What clampSync lets through.
pub record IsClamped (e : CaptchaSyncInput) : Type 0 where
  pub streak : e.current_streak ≤ e.best_streak
  pub bounded : e.best_streak ≤ max_streak

clamp_le : (v : ℤ) (hi : ℕ) → clamp v hi ≤ hi
unfolding clamp
clamp_le (pos n) hi = ground arith
clamp_le (negsuc n) hi = ground arith

clamp_sync-IsClamped : (e : SyncRequest) → IsClamped (clamp_sync e)
unfolding clamp_sync
clamp_sync-IsClamped e = record {
  streak = ground (arith, clamp_le e.best_streak max_streak, clamp_le e.current_streak max_streak);
  bounded = ground (arith, clamp_le e.best_streak max_streak, clamp_le e.current_streak max_streak);
}

merged-IsCounted :
    (e : CaptchaSyncInput) (now : ℕ) (r : CaptchaStats)
    → IsClamped e
    → IsCounted r
    → IsCounted (merged_stats e now r)
unfolding merged_stats
merged-IsCounted e now r c k = record {
  total = ground arith;
  streak = ground arith;
  bounded = ground arith;
}

first-IsCounted :
    (user_id : Text) (e : CaptchaSyncInput) (now : ℕ)
    → IsClamped e
    → IsCounted (first_stats user_id e now)
first-IsCounted user_id e now c = record { total = refl; streak = c.streak; bounded = c.bounded }

upsert-AreCounted :
    (user_id : Text) (e : CaptchaSyncInput)
    → IsClamped e
    → QueryKeeps AreCounted (upsert_captcha_stats user_id e)
unfolding upsert_captcha_stats
upsert-AreCounted user_id e c now d k =
    elim (Option-cases (find (stats_of user_id) d.captcha_stats)) [
      | inl fresh ↦
          rw (fresh, upsert_captcha_stats)
            (checked_insert-keeps AreCounted _ _ _ _ _ k (λ _ _.
              All-append IsCounted d.captcha_stats _ k (first-IsCounted user_id e now c, tt)))
      | inr (r, known) ↦ elim (Bool-cases (ltb (merged_stats e now r).total_solves (2 ^ 63))) [
        | inl fits ↦
            rw (known, fits, upsert_captcha_stats)
              (All-update IsCounted (stats_of user_id) (merged_stats e now) d.captcha_stats
                (λ x _ h. merged-IsCounted e now x c h) k)
        | inr wide ↦ rw (known, wide, upsert_captcha_stats) k
      ]
    ]

decode-Keeps :
    {A : Type 0} {P : World → Type 0} (body : Result DecodeProblem A) → Keeps P (decode_json body)
unfolding decode_json
decode-Keeps (ok a) = Keeps-pure a
decode-Keeps (err p) = Keeps-stop _

-- Where every row of the statistics is IsCounted (its solves add up, its current streak is at most its
-- best one, and that at most the bound), the Sync handler keeps this, whatever numbers the client sends
-- and whether it succeeds or not, and so does the Reset handler.
pub sync-AreCounted :
    (body : Result DecodeProblem SyncRequest) (who : User × Text) (w : World)
    → AreCounted w.db
    → AreCounted (sync body who w).1.db × AreCounted (reset who w).1.db
unfolding sync reset or_server_error sync_captcha_stats delete_captcha_stats delete_stats_rows
sync-AreCounted body (user, id) w k = (
  (Keeps-bind _ _ (decode-Keeps {P = λ v. AreCounted v.db} body) (λ req.
        Keeps-bind _ _
          (Keeps-catch _ _
            (statement-Keeps {P = AreCounted} _
              (upsert-AreCounted user.id (clamp_sync req) (clamp_sync-IsClamped req)))
            (λ e. Keeps-stop _))
          (λ row. Keeps-pure _))).at
      w k,
  (Keeps-bind _ _
        (Keeps-catch _ _
          (statement-Keeps {P = AreCounted} _
            (λ now d h. All-delete IsCounted (stats_of user.id) d.captcha_stats h))
          (λ e. Keeps-stop _))
        (λ _. Keeps-pure _)).at
      w k,
)

-- A number of the row that was there before, or 0.
abbrev before_of : (CaptchaStats → ℕ) → Option CaptchaStats → ℕ
before_of column none = 0
before_of column (some r) = column r

-- A row with a batch merged in: the solves of each kind and their sum are added, the current streak is the batch's, the best
-- one is the greater of the two, and the instant is the statement's.
pub record IsMerged (user_id : Text) (e : CaptchaSyncInput) (now : ℕ) (before : Option CaptchaStats)
    (stats : CaptchaStats) : Type 0 where
  pub owner : stats.user_id ≡ user_id
  pub manual : stats.manual_solves ≡ before_of (λ r. r.manual_solves) before + e.manual_delta
  pub auto : stats.auto_solves ≡ before_of (λ r. r.auto_solves) before + e.auto_delta
  pub total :
      stats.total_solves ≡ before_of (λ r. r.total_solves) before + e.manual_delta + e.auto_delta
  pub current : stats.current_streak ≡ e.current_streak
  pub best_kept : before_of (λ r. r.best_streak) before ≤ stats.best_streak
  pub best_new : e.best_streak ≤ stats.best_streak
  pub best_one :
      (stats.best_streak ≡ before_of (λ r. r.best_streak) before)
      ⊎ (stats.best_streak ≡ e.best_streak)
  pub instant : stats.updated_at ≡ now

first_stats-IsMerged :
    (user_id : Text) (e : CaptchaSyncInput) (now : ℕ)
    → IsMerged user_id e now none (first_stats user_id e now)
first_stats-IsMerged user_id e now = record {
  owner = refl;
  manual = omega arith;
  auto = omega arith;
  total = omega arith;
  current = refl;
  best_kept = ground arith;
  best_new = ground arith;
  best_one = inr refl;
  instant = refl;
}

merged_stats-IsMerged :
    (user_id : Text) (e : CaptchaSyncInput) (now : ℕ) (r : CaptchaStats)
    → r.user_id ≡ user_id
    → IsMerged user_id e now (some r) (merged_stats e now r)
unfolding merged_stats
merged_stats-IsMerged user_id e now r own = record {
  owner = own;
  manual = refl;
  auto = refl;
  total = refl;
  current = refl;
  best_kept = ground arith;
  best_new = ground arith;
  best_one = elim (Bool-cases (ltb r.best_streak e.best_streak)) [
    | inl less ↦ inr (rw less refl)
    | inr more ↦ inl (rw more refl)
  ];
  instant = refl;
}

find-fresh :
    (p : CaptchaStats → Bool) (xs ys : List CaptchaStats)
    → find p xs ≡ none
    → find p (xs ++ ys) ≡ find p ys
unfolding find
find-fresh p [] ys h = refl
find-fresh p (x ∷ xs) ys h = ground (arith, find-fresh p xs ys)

-- The row that a first sync inserts.
insert_stats-IsMerged :
    (user_id : Text) (e : CaptchaSyncInput) (now later : ℕ) (d : Db) {stats : CaptchaStats}
    → find (stats_of user_id) d.captcha_stats ≡ none
    → (upsert_captcha_stats user_id e now d).0 ≡ ok stats
    → ((select_captcha_stats user_id later (upsert_captcha_stats user_id e now d).1).0 ≡ ok stats)
      × IsMerged user_id e now none stats
unfolding upsert_captcha_stats select_captcha_stats find
insert_stats-IsMerged user_id e now later d {stats} fresh h =
    let (_, same, after) = checked_insert-ok _ _ _ _ _ _ (rw (fresh, upsert_captcha_stats) at h) in
    let row = first_stats user_id e now in
    let stored : (upsert_captcha_stats user_id e now d).1
        ≡ record d { captcha_stats = d.captcha_stats ++ row ∷ [] } =
      rw (fresh, upsert_captcha_stats) after in
    let hit : find (stats_of user_id) (row ∷ []) ≡ some row =
      ground (arith, text_beq_self user_id) in
    (
      ap (λ x. (select_captcha_stats user_id later x).0) stored
          ∙ ap or_not_found (find-fresh (stats_of user_id) d.captcha_stats (row ∷ []) fresh ∙ hit)
          ∙ ap ok same,
      subst (IsMerged user_id e now none) same (first_stats-IsMerged user_id e now),
    )

-- Where SyncCaptchaStats succeeds, for a first batch of the user or a later one: GetCaptchaStats then returns, at any instant,
-- what SyncCaptchaStats returned, and this is the user's row with the batch merged in.
pub select-upsert :
    (user_id : Text) (e : CaptchaSyncInput) (now later : ℕ) (d : Db) {stats : CaptchaStats}
    → (upsert_captcha_stats user_id e now d).0 ≡ ok stats
    → ((select_captcha_stats user_id later (upsert_captcha_stats user_id e now d).1).0 ≡ ok stats)
      × IsMerged user_id e now (find (stats_of user_id) d.captcha_stats) stats
unfolding upsert_captcha_stats select_captcha_stats
select-upsert user_id e now later d {stats} h =
    elim (Option-cases (find (stats_of user_id) d.captcha_stats)) [
      | inl fresh ↦
          let (found, merged) = insert_stats-IsMerged user_id e now later d fresh h in
          (found, subst (λ o. IsMerged user_id e now o stats) (sym fresh) merged)
      | inr (r, known) ↦ elim (Bool-cases (ltb (merged_stats e now r).total_solves (2 ^ 63))) [
        | inl fits ↦
            let merged = rw (known, fits, upsert_captcha_stats) at h in
            let hit = find_sound (stats_of user_id) d.captcha_stats {x = r} known in
            let own = (text_beq_iff r.user_id user_id).0 hit in
            let now_found =
              find-update (stats_of user_id) (stats_of user_id) (merged_stats e now) d.captcha_stats
                (λ x. refl) in
            (
              rw (known, fits, upsert_captcha_stats, rw (known, hit) at now_found) merged,
              subst (λ o. IsMerged user_id e now o stats) (sym known)
                  (subst (IsMerged user_id e now (some r)) (ok_inj merged)
                    (merged_stats-IsMerged user_id e now r own)),
            )
        | inr wide ↦
            let failed = rw (known, wide, upsert_captcha_stats) at h in absurd (ground arith)
      ]
    ]
