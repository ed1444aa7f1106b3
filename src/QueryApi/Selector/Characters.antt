-- ===== src/QueryApi/Selector/Characters.antt =====
-- crates/query-api/src/selector.rs: the classes of characters. A text is
-- the list of its code points.
use kaleidoscope.Prelude.{ℕ, Bool, List, leb, nat_beq, ◌&&◌, ◌||◌}

abbrev pub Chars : Type 0
Chars = List ℕ

unfoldable pub is_ascii_whitespace : ℕ → Bool
is_ascii_whitespace c = nat_beq c 32 || nat_beq c 9 || nat_beq c 10 || nat_beq c 12 || nat_beq c 13

unfoldable pub is_ascii_alphabetic : ℕ → Bool
is_ascii_alphabetic c = (leb b'A' c && leb c b'Z') || (leb b'a' c && leb c b'z')

unfoldable pub is_ascii_alphanumeric : ℕ → Bool
unfolding is_ascii_alphabetic
is_ascii_alphanumeric c = is_ascii_alphabetic c || (leb b'0' c && leb c b'9')

unfoldable pub is_name_start : ℕ → Bool
unfolding is_ascii_alphabetic
is_name_start c = is_ascii_alphabetic c || nat_beq c b'_' || nat_beq c b':'

unfoldable pub is_name_continue : ℕ → Bool
unfolding is_ascii_alphanumeric
is_name_continue c = is_ascii_alphanumeric c || nat_beq c b'_' || nat_beq c b':'

unfoldable pub is_label_name_continue : ℕ → Bool
unfolding is_name_continue
is_label_name_continue c = is_name_continue c || nat_beq c b'.'
