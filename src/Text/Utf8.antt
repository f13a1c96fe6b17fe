-- ===== src/Text/Utf8.antt =====
-- unicode/utf8: DecodeRune, RuneCountInString, ValidString, and `range` over a string.
use go_tunnels.Shared.{
  ℕ, zero, suc, ◌+◌, ◌-◌, ◌*◌, ◌/◌, ◌%◌, ◌<◌, ◌≡◌, refl, Bool, true, ◌&&◌, List, [], ◌∷◌, arith,
  Text, leb, ltb, if◌then◌else◌, length, all, ◌==◌, nat_eq,
}

-- A decoded code point and the number of bytes it took.
pub record Rune : Type 0 where
  pub point : ℕ
  pub width : ℕ

abbrev pub rune_error : ℕ
rune_error = 0xfffd

abbrev invalid : Rune
invalid = record { point = rune_error; width = 1 }

abbrev within : ℕ → ℕ → ℕ → Bool
within lo hi c = leb lo c && leb c hi

abbrev is_continuation : ℕ → Bool
is_continuation = within 0x80 0xbf

-- The bytes that may follow a lead byte of a three-byte and of a four-byte sequence: no overlong
-- form, no surrogate, nothing above U+10FFFF.
abbrev second_of_three : ℕ → ℕ → Bool
second_of_three b0 =
    if b0 == 0xe0
    then within 0xa0 0xbf
    else if b0 == 0xed
    then within 0x80 0x9f
    else is_continuation

abbrev second_of_four : ℕ → ℕ → Bool
second_of_four b0 =
    if b0 == 0xf0
    then within 0x90 0xbf
    else if b0 == 0xf4
    then within 0x80 0x8f
    else is_continuation

two_bytes : ℕ → Text → Rune
two_bytes b0 (b1 ∷ _) =
    if is_continuation b1
    then record { point = (b0 - 0xc0) * 64 + (b1 - 0x80); width = 2 }
    else invalid
two_bytes b0 [] = invalid

three_bytes : ℕ → Text → Rune
three_bytes b0 (b1 ∷ b2 ∷ _) =
    if second_of_three b0 b1 && is_continuation b2
    then record { point = (b0 - 0xe0) * 4096 + (b1 - 0x80) * 64 + (b2 - 0x80); width = 3 }
    else invalid
three_bytes b0 _ = invalid

four_bytes : ℕ → Text → Rune
four_bytes b0 (b1 ∷ b2 ∷ b3 ∷ _) =
    if second_of_four b0 b1 && is_continuation b2 && is_continuation b3
    then record {
      point = (b0 - 0xf0) * 262144 + (b1 - 0x80) * 4096 + (b2 - 0x80) * 64 + (b3 - 0x80);
      width = 4;
    }
    else invalid
four_bytes b0 _ = invalid

-- The first code point of a text that begins with the byte `b0`.
unfoldable pub decode_rune : ℕ → Text → Rune
unfolding two_bytes three_bytes four_bytes
decode_rune b0 rest =
    if ltb b0 0x80
    then record { point = b0; width = 1 }
    else if within 0xc2 0xdf b0
    then two_bytes b0 rest
    else if within 0xe0 0xef b0
    then three_bytes b0 rest
    else if within 0xf0 0xf4 b0
    then four_bytes b0 rest
    else invalid

-- `runes_after k s`: the code points of `s` behind its first k bytes, which belong to one that is
-- already read.
runes_after : ℕ → Text → List Rune
runes_after k [] = []
runes_after zero (b ∷ s) = decode_rune b s ∷ runes_after ((decode_rune b s).width - 1) s
runes_after (suc k) (b ∷ s) = runes_after k s

-- The code points that `range` visits.
unfoldable pub runes : Text → List Rune
unfolding runes_after decode_rune
runes s = runes_after 0 s

unfoldable pub rune_count : Text → ℕ
unfolding runes
rune_count s = length (runes s)

-- No byte had to be replaced.
unfoldable pub valid_string : Text → Bool
unfolding runes all decode_rune
valid_string s = all (λ r. if r.point == rune_error then leb 2 r.width else true) (runes s)

-- `string(r)` for a code point.
unfoldable pub encode_rune : ℕ → Text
encode_rune p =
    if ltb p 0x80
    then p ∷ []
    else if ltb p 0x800
    then (0xc0 + p / 64) ∷ (0x80 + p % 64) ∷ []
    else if ltb p 0x10000
    then (0xe0 + p / 4096) ∷ (0x80 + p / 64 % 64) ∷ (0x80 + p % 64) ∷ []
    else (0xf0 + p / 262144) ∷ (0x80 + p / 4096 % 64) ∷ (0x80 + p / 64 % 64) ∷ (0x80 + p % 64) ∷ []

-- Every byte is below 0x80.
abbrev pub ascii_only : Text → Bool
ascii_only = all (λ b. ltb b 0x80)

abbrev as_runes : Text → List Rune
as_runes [] = []
as_runes (b ∷ s) = record { point = b; width = 1 } ∷ as_runes s

decode_rune-ascii :
    (b : ℕ) (s : Text) → b < 0x80 → decode_rune b s ≡ record { point = b; width = 1 }
unfolding decode_rune
decode_rune-ascii b s h = ground arith

-- The code points of an ASCII text are its bytes.
pub runes-ascii : (s : Text) → ascii_only s ≡ true → runes s ≡ as_runes s
unfolding runes all decode_rune
runes-ascii [] h = refl
runes-ascii (b ∷ s) h = ground (arith, runes-ascii s)
