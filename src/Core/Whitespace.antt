-- ===== src/Core/Whitespace.antt =====
-- `str.rstrip()` and `str.strip()`: Python's white space, and its removal at the ends.
use async_ai_document_pipeli.Prelude.{
  ℕ, Bool, ◌&&◌, ◌||◌, String, ◌==◌, leb, rstrip_where, strip_where,
}

-- `str.isspace` of one character, by its code.
unfoldable pub is_space : ℕ → Bool
is_space c =
    (leb 9 c && leb c 13)
    || (leb 28 c && leb c 32)
    || (c == 0x85)
    || (c == 0xA0)
    || (c == 0x1680)
    || (leb 0x2000 c && leb c 0x200A)
    || (leb 0x2028 c && leb c 0x2029)
    || (c == 0x202F)
    || (c == 0x205F)
    || (c == 0x3000)

unfoldable pub rstrip : String → String
unfolding is_space rstrip_where
rstrip = rstrip_where is_space

unfoldable pub strip : String → String
unfolding is_space strip_where
strip = strip_where is_space
