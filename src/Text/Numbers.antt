-- ===== src/Text/Numbers.antt =====
-- strconv's reading of decimal integers and of Booleans.
use go_tunnels.Shared.{
  ℕ, zero, suc, ◌+◌, ◌-◌, ◌*◌, ◌^◌, Bool, true, false, ◌&&◌, [], ◌∷◌, Option, none, some, Text,
  codes, ℤ, pos, negsuc, ltb, leb, if◌then◌else◌, any, List, ◌==◌, nat_eq, text_eq,
}

digits_value : ℕ → Text → Option ℕ
digits_value acc [] = some acc
digits_value acc (c ∷ s) =
    let rest = digits_value (acc * 10 + (c - b'0')) s in
    if leb b'0' c && leb c b'9' then rest else none

natural : Text → Option ℕ
unfolding digits_value
natural [] = none
natural (c ∷ s) = digits_value 0 (c ∷ s)

negated : ℕ → ℤ
negated zero = pos 0
negated (suc n) = negsuc n

within_positive : Option ℕ → Option ℤ
within_positive none = none
within_positive (some n) = if ltb n (2 ^ 63) then some (pos n) else none

within_negative : Option ℕ → Option ℤ
unfolding negated
within_negative none = none
within_negative (some n) = if leb n (2 ^ 63) then some (negated n) else none

-- strconv.ParseInt(s, 10, 64), and strconv.Atoi
unfoldable pub parse_int : Text → Option ℤ
unfolding natural within_positive within_negative
parse_int [] = none
parse_int (c ∷ s) =
    if c == b'-'
    then within_negative (natural s)
    else if c == b'+'
    then within_positive (natural s)
    else within_positive (natural (c ∷ s))

-- strconv.ParseInt(s, 10, 32)
abbrev as_int32 : ℤ → Option ℤ
as_int32 (pos n) = if ltb n (2 ^ 31) then some (pos n) else none
as_int32 (negsuc n) = if ltb n (2 ^ 31) then some (negsuc n) else none

unfoldable pub parse_int32 : Text → Option ℤ
unfolding parse_int
parse_int32 s = elim (parse_int s) [ none ↦ none | some n ↦ as_int32 n ]

abbrev true_words : List Text
true_words = codes "1" ∷ codes "t" ∷ codes "T" ∷ codes "true" ∷ codes "TRUE" ∷ codes "True" ∷ []

abbrev false_words : List Text
false_words = codes "0" ∷ codes "f" ∷ codes "F" ∷ codes "false" ∷ codes "FALSE" ∷ codes "False" ∷ []

-- strconv.ParseBool
unfoldable pub parse_bool : Text → Option Bool
unfolding any
parse_bool s =
    if any (λ t. t == s) true_words
    then some true
    else if any (λ t. t == s) false_words
    then some false
    else none
