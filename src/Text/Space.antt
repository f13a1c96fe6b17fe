-- ===== src/Text/Space.antt =====
-- strings.TrimSpace, ToLower, HasPrefix, HasSuffix and Index.
use mathlib.Core.List.{reverse, flat_map}
use go_tunnels.Shared.{
  ℕ, zero, suc, ◌+◌, Bool, true, false, ◌&&◌, ◌||◌, [], ◌∷◌, map, Option, none, some, Text, leb,
  ltb, if◌then◌else◌, ◌==◌, nat_eq, all,
}
use go_tunnels.Text.Utf8.{Rune, decode_rune, runes, encode_rune, ascii_only}

-- unicode.IsSpace.
unfoldable pub is_space : ℕ → Bool
is_space p =
    (leb 9 p && leb p 13)
    || p == 0x20
    || p == 0x85
    || p == 0xa0
    || p == 0x1680
    || (leb 0x2000 p && leb p 0x200a)
    || p == 0x2028
    || p == 0x2029
    || p == 0x202f
    || p == 0x205f
    || p == 0x3000

-- The width of the space at the head of a text, or 0.
abbrev space_width : Rune → ℕ
space_width r = if is_space r.point then r.width else 0

-- `trim_left_after k s` drops k bytes that belong to a space, and then the spaces that follow.
trim_left_after : ℕ → Text → Text
trim_left_after k [] = []
trim_left_after (suc k) (b ∷ s) = trim_left_after k s
trim_left_after zero (b ∷ s) = elim (space_width (decode_rune b s)) [
  | zero ↦ b ∷ s
  | suc w ↦ trim_left_after w s
]

-- What fmt.Sscanf skips before an operand: spaces, but no newline. `skip_space k s` drops k bytes that belong to a space,
-- and then the spaces that follow.
unfoldable pub skip_space : ℕ → Text → Option Text
unfolding is_space decode_rune
skip_space k [] = some []
skip_space (suc k) (b ∷ s) = skip_space k s
skip_space zero (b ∷ s) = elim (b == 10) [
  | true ↦ none
  | false ↦ elim (space_width (decode_rune b s)) [ zero ↦ some (b ∷ s) | suc w ↦ skip_space w s ]
]

-- The width of the space at the end of a text, from the text's bytes in reverse.
last_space_width : ℕ → Text → ℕ
last_space_width c [] = if ltb c 0x80 && is_space c then 1 else 0
last_space_width c (b ∷ []) =
    if ltb c 0x80
    then (if is_space c then 1 else 0)
    else if (decode_rune b (c ∷ [])).width == 2
    then space_width (decode_rune b (c ∷ []))
    else 0
last_space_width c (b ∷ a ∷ _) =
    if ltb c 0x80
    then (if is_space c then 1 else 0)
    else if (decode_rune b (c ∷ [])).width == 2
    then space_width (decode_rune b (c ∷ []))
    else if (decode_rune a (b ∷ c ∷ [])).width == 3
    then space_width (decode_rune a (b ∷ c ∷ []))
    else 0

trim_right_after : ℕ → Text → Text
trim_right_after k [] = []
trim_right_after (suc k) (b ∷ s) = trim_right_after k s
trim_right_after zero (b ∷ s) = elim (last_space_width b s) [
  | zero ↦ b ∷ s
  | suc w ↦ trim_right_after w s
]

unfoldable pub trim_space : Text → Text
unfolding trim_left_after trim_right_after last_space_width is_space decode_rune
trim_space s = reverse (trim_right_after 0 (reverse (trim_left_after 0 s)))

unfoldable pub ascii_lower : ℕ → ℕ
ascii_lower c = if leb b'A' c && leb c b'Z' then c + 32 else c

-- `lower_rune` is Unicode's table of lower-case letters; on ASCII text it is not read.
unfoldable pub to_lower : (ℕ → ℕ) → Text → Text
unfolding ascii_lower all runes encode_rune
to_lower lower_rune s =
    if ascii_only s
    then map ascii_lower s
    else flat_map (λ r. encode_rune (lower_rune r.point)) (runes s)

unfoldable pub has_prefix : Text → Text → Bool
has_prefix s [] = true
has_prefix [] (p ∷ ps) = false
has_prefix (c ∷ s) (p ∷ ps) = c == p && has_prefix s ps

unfoldable pub has_suffix : Text → Text → Bool
unfolding has_prefix
has_suffix s p = has_prefix (reverse s) (reverse p)

-- The position of the first occurrence.
unfoldable pub index_of : Text → Text → Option ℕ
unfolding has_prefix
index_of p [] = if has_prefix [] p then some 0 else none
index_of p (c ∷ s) =
    let rest = index_of p s in
    if has_prefix (c ∷ s) p then some 0 else elim rest [ none ↦ none | some i ↦ some (suc i) ]
