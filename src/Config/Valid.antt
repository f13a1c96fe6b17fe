-- ===== src/Config/Valid.antt =====
-- Validate of internal/config/config.go: what settings that are accepted satisfy.
use go_tunnels.Shared.{
  zero, suc, ◌≡◌, ◌≢◌, ◌↔◌, refl, ◌⊎◌, inl, inr, Bool, true, false, not, ◌&&◌, ◌||◌, List, [], ◌∷◌,
  Option, none, some, Text, codes, ℤ, pos, negsuc, ltb_ℤ, ◌≤ℤ◌, if◌then◌else◌, length, text_eq,
  nat_eq, text_beq, text_beq_iff, text_beq_self, nat_beq, arith, Bool-cases,
}
use go_tunnels.Config.Settings.{Settings}
use go_tunnels.Config.Load.{validate, is_negative, is_positive}

-- The limits of a limiter: none, or at least one event of burst.
pub data IsLimit (interval burst : ℤ) : Type 0 where
  disabled : interval ≡ pos 0 → IsLimit interval burst
  enabled : pos 1 ≤ℤ interval → pos 1 ≤ℤ burst → IsLimit interval burst

-- The settings that the server may start with.
pub record IsValid (c : Settings) : Type 0 where
  pub has_database : c.database_url ≢ []
  pub has_address : c.http_addr ≢ []
  pub ttl : pos 0 ≤ℤ c.session_ttl
  pub mode : (c.csp_mode ≡ codes "report-only") ⊎ (c.csp_mode ≡ codes "enforce")
  pub has_origin : c.rp_origins ≢ []
  pub ip_limit : IsLimit c.signup_ip_interval c.signup_ip_burst
  pub global_limit : IsLimit c.signup_global_interval c.signup_global_burst
  pub auth_limit : IsLimit c.auth_attempt_interval c.auth_attempt_burst
  pub max_conns : pos 1 ≤ℤ c.db_max_conns
  pub min_conns : (pos 0 ≤ℤ c.db_min_conns) × (c.db_min_conns ≤ℤ c.db_max_conns)
  pub interval : pos 1 ≤ℤ c.maintenance_interval
  pub retentions : (pos 0 ≤ℤ c.health_log_retention) × (pos 0 ≤ℤ c.csp_report_retention)

module _ {ℓ} {A : Type ℓ} where
  -- One check of Validate's ladder.
  passed :
      (b : Bool) (x : A) (o : Option A)
      → (if b then some x else o) ≡ none
      → (b ≡ false) × (o ≡ none)
  passed true x o h = absurd (ground arith)
  passed false x o h = (refl, h)

pub nonempty : (t : Text) → text_beq t [] ≡ false → t ≢ []
nonempty t h e = absurd (ground (arith, rw (e, text_beq_self) at h))

limit_of :
    (interval burst : ℤ)
    → is_negative interval ≡ false
    → (is_positive interval && ltb_ℤ burst (pos 1)) ≡ false
    → IsLimit interval burst
limit_of (pos zero) burst h k = disabled refl
limit_of (pos (suc n)) burst h k = enabled (ground arith) (ground arith)
limit_of (negsuc n) burst h k = absurd (ground arith)

mode_of :
    (mode : Text)
    → not (text_beq mode (codes "report-only") || text_beq mode (codes "enforce")) ≡ false
    → (mode ≡ codes "report-only") ⊎ (mode ≡ codes "enforce")
mode_of mode h = elim (Bool-cases (text_beq mode (codes "report-only"))) [
  | inl e ↦ inl ((text_beq_iff mode _).0 e)
  | inr other ↦ elim (Bool-cases (text_beq mode (codes "enforce"))) [
    | inl e ↦ inr ((text_beq_iff mode _).0 e)
    | inr neither ↦ absurd (ground (arith, rw (other, neither) at h))
  ]
]

has_element : (xs : List Text) → nat_beq (length xs) 0 ≡ false → xs ≢ []
has_element xs h e = absurd (ground (arith, rw e at h))

-- The two halves of a test on two settings.
neither : (a b : Bool) → (a || b) ≡ false → (a ≡ false) × (b ≡ false)
neither a b h = ground arith

not_negative : (n : ℤ) → is_negative n ≡ false → pos 0 ≤ℤ n
not_negative n h = ground arith

at_least_one : (n : ℤ) → not (is_positive n) ≡ false → pos 1 ≤ℤ n
at_least_one n h = ground arith

not_below : (m n : ℤ) → ltb_ℤ n m ≡ false → m ≤ℤ n
not_below m n h = ground arith

pub validate-IsValid : (c : Settings) → validate c ≡ none → IsValid c
unfolding validate
validate-IsValid c h0 =
    let (url, h1) = passed _ _ _ h0 in
    let (addr, h2) = passed _ _ _ h1 in
    let (ttl, h3) = passed _ _ _ h2 in
    let (mode, h4) = passed _ _ _ h3 in
    let (origins, h5) = passed _ _ _ h4 in
    let (signs, h6) = passed _ _ _ h5 in
    let (ip, h7) = passed _ _ _ h6 in
    let (global, h8) = passed _ _ _ h7 in
    let (auth, h9) = passed _ _ _ h8 in
    let (attempts, h10) = passed _ _ _ h9 in
    let (max, h11) = passed _ _ _ h10 in
    let (mins, h12) = passed _ _ _ h11 in
    let (every, h13) = passed _ _ _ h12 in
    let (kept, _) = passed _ _ _ h13 in
    let (ip_sign, global_sign) = neither _ _ signs in
    let (min_sign, ordered) = neither _ _ mins in
    let (health, csp) = neither _ _ kept in
    record {
      has_database = nonempty c.database_url url;
      has_address = nonempty c.http_addr addr;
      ttl = not_negative c.session_ttl ttl;
      mode = mode_of c.csp_mode mode;
      has_origin = has_element c.rp_origins origins;
      ip_limit = limit_of c.signup_ip_interval c.signup_ip_burst ip_sign ip;
      global_limit = limit_of c.signup_global_interval c.signup_global_burst global_sign global;
      auth_limit = limit_of c.auth_attempt_interval c.auth_attempt_burst auth attempts;
      max_conns = not_below (pos 1) c.db_max_conns max;
      min_conns =
          (not_negative c.db_min_conns min_sign, not_below c.db_min_conns c.db_max_conns ordered);
      interval = at_least_one c.maintenance_interval every;
      retentions =
          (not_negative c.health_log_retention health, not_negative c.csp_report_retention csp);
    }

filled : (t : Text) → t ≢ [] → text_beq t [] ≡ false
filled t h = elim (Bool-cases (text_beq t [])) [
  | inl e ↦ absurd (h ((text_beq_iff t []).0 e))
  | inr e ↦ e
]

counted : (xs : List Text) → xs ≢ [] → nat_beq (length xs) 0 ≡ false
counted [] h = absurd (h refl)
counted (x ∷ xs) h = ground arith

limit_tests :
    (interval burst : ℤ)
    → IsLimit interval burst
    → (is_negative interval ≡ false) × ((is_positive interval && ltb_ℤ burst (pos 1)) ≡ false)
limit_tests interval burst (disabled e) = (rw e refl, rw e refl)
limit_tests interval burst (enabled h k) = (ground arith, ground arith)

mode_test :
    (mode : Text)
    → (mode ≡ codes "report-only") ⊎ (mode ≡ codes "enforce")
    → not (text_beq mode (codes "report-only") || text_beq mode (codes "enforce")) ≡ false
unfolding text_beq
mode_test mode (inl e) = rw e refl
mode_test mode (inr e) = rw e refl

both : (a b : Bool) → a ≡ false → b ≡ false → (a || b) ≡ false
both a b h k = ground arith

signed : (n : ℤ) → pos 0 ≤ℤ n → is_negative n ≡ false
signed n h = ground arith

ordered_test : (m n : ℤ) → m ≤ℤ n → ltb_ℤ n m ≡ false
ordered_test m n h = ground arith

positive_test : (n : ℤ) → pos 1 ≤ℤ n → not (is_positive n) ≡ false
positive_test n h = ground arith

IsValid-validate : (c : Settings) → IsValid c → validate c ≡ none
unfolding validate
IsValid-validate c v =
    let (ip_sign, ip) = limit_tests _ _ v.ip_limit in
    let (global_sign, global) = limit_tests _ _ v.global_limit in
    let (auth, attempts) = limit_tests _ _ v.auth_limit in
    rw
      (
        filled c.database_url v.has_database,
        filled c.http_addr v.has_address,
        signed c.session_ttl v.ttl,
        mode_test c.csp_mode v.mode,
        counted c.rp_origins v.has_origin,
        both (is_negative c.signup_ip_interval) (is_negative c.signup_global_interval) ip_sign
            global_sign,
        ip,
        global,
        auth,
        attempts,
        ordered_test (pos 1) c.db_max_conns v.max_conns,
        both (is_negative c.db_min_conns) (ltb_ℤ c.db_max_conns c.db_min_conns)
            (signed c.db_min_conns v.min_conns.0)
            (ordered_test c.db_min_conns c.db_max_conns v.min_conns.1),
        positive_test c.maintenance_interval v.interval,
        both (is_negative c.health_log_retention) (is_negative c.csp_report_retention)
            (signed c.health_log_retention v.retentions.0)
            (signed c.csp_report_retention v.retentions.1),
      )
      refl

-- Validate accepts exactly the settings with a database URL, an address and an origin; a session
-- lifetime, limiter intervals and retentions that are not negative; a CSP mode of the two known; a
-- burst of at least 1 for every limiter that is enabled; between 0 and the maximum, itself at least
-- 1, as the least number of connections; and a positive maintenance interval.
pub validate_iff : (c : Settings) → (validate c ≡ none) ↔ IsValid c
validate_iff c = (validate-IsValid c, IsValid-validate c)
