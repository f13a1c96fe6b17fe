-- ===== src/Config/Environment.antt =====
-- The readers of internal/config/config.go: what is set in the environment, with every problem
-- collected.
use go_tunnels.Shared.{
  Bool, List, [], ◌∷◌, ◌++◌, Option, none, some, Text, codes, ℤ, ok, Exec, if◌then◌else◌, ◌==◌,
  text_eq, pure, ◌>>=◌, ◌>>◌,
}
use go_tunnels.Text.{trim_space, index_of, parse_int, parse_int32, parse_bool}

-- The problems that Load reports; a reader's carries the variable and its value.
pub data Problem : Type 0 where
  placeholder not_an_integer not_a_32_bit_integer not_a_boolean not_a_duration :
      Text → Text → Problem

-- os.LookupEnv, and what a reader takes from outside: time.ParseDuration, in nanoseconds.
pub record Environment : Type 0 where
  pub lookup_env : Text → Option Text
  pub parse_duration : Text → Option ℤ

-- A reader never stops; the problems so far are its state.
abbrev pub Reader : Type 0 → Type 0
Reader A = Exec (List Problem) Unit A

unfoldable pub report : Problem → Reader Unit
report p problems = (ok tt, problems ++ p ∷ [])

-- strings.Contains(v, "${")
abbrev is_placeholder : Text → Bool
is_placeholder v = elim (index_of (codes "${") v) [ none ↦ Bool.false | some _ ↦ Bool.true ]

abbrev value_of : Option Text → Text
value_of none = []
value_of (some v) = v

module _ (e : Environment) where
  -- raw: the trimmed value, if the variable is set to anything at all.
  unfoldable pub raw : Text → Reader (Option Text)
  unfolding report index_of trim_space
  raw key =
      let v = value_of (e.lookup_env key) in
      if is_placeholder v
      then (do report (placeholder key v); pure none)
      else pure (if v == [] then none else some (trim_space v))

  unfoldable pub str : Text → Text → Reader Text
  unfolding raw
  str key default = do v ← raw key; pure (elim v [ none ↦ default | some value ↦ value ])

  -- The parsed value, or a problem and the default.
  unfoldable pub parsed :
      {A : Type 0} → (Text → Option A) → (Text → Text → Problem) → Text → A → Option Text → Reader A
  unfolding report
  parsed parse problem key default none = pure default
  parsed parse problem key default (some v) = elim (parse v) [
    | some a ↦ pure a
    | none ↦ do report (problem key v); pure default
  ]

  -- int, int32, bool and dur
  unfoldable pub int : Text → ℤ → Reader ℤ
  unfolding parse_int
  int key default = do v ← raw key; parsed parse_int not_an_integer key default v

  unfoldable pub int32 : Text → ℤ → Reader ℤ
  unfolding parse_int32
  int32 key default = do v ← raw key; parsed parse_int32 not_a_32_bit_integer key default v

  unfoldable pub bool : Text → Bool → Reader Bool
  unfolding parse_bool
  bool key default = do v ← raw key; parsed parse_bool not_a_boolean key default v

  unfoldable pub dur : Text → ℤ → Reader ℤ
  unfolding parsed raw
  dur key default = do v ← raw key; parsed e.parse_duration not_a_duration key default v
