-- ===== src/Text/Check.antt =====
-- Runs of the text functions on small inputs.
use go_tunnels.Shared.{◌≡◌, refl, ◌∷◌, [], some, codes, false, ◌++◌}
use go_tunnels.Text.{
  trim_space, to_lower, valid_string, rune_count, hex_encode, base64_raw_url, index_of,
}

-- "é" and U+00A0 around a word are one character each.
trim_space_run :
    trim_space (0xc2 ∷ 0xa0 ∷ 0x20 ∷ codes "a b" ++ 0xe2 ∷ 0x80 ∷ 0x83 ∷ []) ≡ codes "a b"
unfolding trim_space
trim_space_run = refl

to_lower_run : to_lower (λ p. p) (codes "Bob_X") ≡ codes "bob_x"
unfolding to_lower
to_lower_run = refl

rune_count_run : rune_count (0xe2 ∷ 0x82 ∷ 0xac ∷ 0xf0 ∷ 0x9f ∷ 0x98 ∷ 0x80 ∷ []) ≡ 2
unfolding rune_count
rune_count_run = refl

valid_string_run : valid_string (0xed ∷ 0xa0 ∷ 0x80 ∷ []) ≡ false
unfolding valid_string
valid_string_run = refl

hex_encode_run : hex_encode (0x0f ∷ 0xa1 ∷ []) ≡ codes "0fa1"
unfolding hex_encode
hex_encode_run = refl

base64_raw_url_run : base64_raw_url (codes "foob") ≡ codes "Zm9vYg"
unfolding base64_raw_url
base64_raw_url_run = refl

index_of_run : index_of (codes "://") (codes "https://x") ≡ some 5
unfolding index_of
index_of_run = refl
