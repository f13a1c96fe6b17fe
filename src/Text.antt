-- ===== src/Text.antt =====
-- What the program uses of Go's `strings`, `unicode/utf8` and the encoders of its standard library,
-- over strings as byte sequences.
mod Utf8
mod Space
mod Encoding
mod Numbers
mod Check
pub mod Search
unfoldable pub use Utf8.{decode_rune, runes, rune_count, valid_string, encode_rune}
pub use Utf8.{Rune, ascii_only, runes-ascii, rune_error}
unfoldable pub use Space.{
  skip_space, trim_space, to_lower, has_prefix, has_suffix, index_of, ascii_lower,
}
unfoldable pub use Encoding.{hex_digit, hex_encode, base64_raw_url}
unfoldable pub use Numbers.{parse_int, parse_int32, parse_bool}
