-- ===== src/Text.antt =====
-- Go strings. A `string` is its bytes; `for range` over it, `utf8.*` and `strings.TrimSpace` read
-- the bytes through Go's UTF-8 decoder, which is written out in `Utf8`. `Space` has the white-space
-- trimming. Literals of the source are all ASCII, so their bytes are their code points.
pub mod Bytes
pub mod Members
pub mod Utf8
pub mod Runes
pub mod Space
pub mod Fold
pub use Bytes.{Str, str, is_empty, same→eq, same_refl, same_iff}
unfoldable pub use Bytes.{same, precedes, contains}
pub use Members.{contains_iff}
unfoldable pub use Utf8.{rune_width, rune_value, ranges, valid_string, rune_count}
unfoldable pub use Space.{trim_space}
pub use Fold.{CaseTables}
unfoldable pub use Fold.{to_lower, to_upper, cut}
