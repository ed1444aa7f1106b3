-- ===== src/QueryHttp/Bearer.antt =====
-- crates/query-http-common/src/lib.rs: the token of an `Authorization` header. A header's text is the list of
-- its characters.
use Prim.Native.Char.{Char, code}
use kaleidoscope.Prelude.{
  ℕ, ◌+◌, String, Bool, true, false, ◌&&◌, Option, none, some, List, [], ◌∷◌, map, leb, nat_beq,
  if◌then◌else◌, is_nil, is_whitespace, trim,
}

abbrev pub Header : Type 0
Header = List Char

abbrev pub text : Header → String
text [] = String.[]
text (c ∷ cs) = String.◌∷◌ c (text cs)

abbrev pub codes : Header → List ℕ
codes = map code

abbrev pub blank : Char → Bool
blank c = is_whitespace (code c)

-- `raw.strip_prefix(prefix)`, with the code points of the prefix.
unfoldable pub strip_prefix : List ℕ → Header → Option Header
strip_prefix [] cs = some cs
strip_prefix (p ∷ ps) [] = none
strip_prefix (p ∷ ps) (c ∷ cs) = if nat_beq (code c) p then strip_prefix ps cs else none

unfoldable pub cons_first : Char → Option (Header × Header) → Option (Header × Header)
cons_first c none = none
cons_first c (some (a, b)) = some (c ∷ a, b)

-- `raw.split_once(' ')`
unfoldable pub split_once : Header → Option (Header × Header)
unfolding cons_first
split_once [] = none
split_once (c ∷ cs) = if nat_beq (code c) 32 then some ([], cs) else cons_first c (split_once cs)

unfoldable pub to_ascii_lowercase : ℕ → ℕ
to_ascii_lowercase c = if leb b'A' c && leb c b'Z' then c + 32 else c

-- On the code points.
unfoldable pub eq_ignore_ascii_case : List ℕ → List ℕ → Bool
unfolding to_ascii_lowercase
eq_ignore_ascii_case [] [] = true
eq_ignore_ascii_case [] (p ∷ ps) = false
eq_ignore_ascii_case (c ∷ cs) [] = false
eq_ignore_ascii_case (c ∷ cs) (p ∷ ps) =
    nat_beq (to_ascii_lowercase c) (to_ascii_lowercase p) && eq_ignore_ascii_case cs ps

abbrev pub bearer : List ℕ
bearer = b'b' ∷ b'e' ∷ b'a' ∷ b'r' ∷ b'e' ∷ b'r' ∷ []

abbrev pub bearer_prefix : List ℕ
bearer_prefix = b'B' ∷ b'e' ∷ b'a' ∷ b'r' ∷ b'e' ∷ b'r' ∷ 32 ∷ []

unfoldable pub other_case : Option (Header × Header) → Option Header
other_case none = none
other_case (some (scheme, rest)) =
    if eq_ignore_ascii_case (codes scheme) bearer then some rest else none

unfoldable pub or_else : Option Header → Option Header → Option Header
or_else none other = other
or_else (some rest) other = some rest

unfoldable pub non_empty : Option Header → Option Header
non_empty none = none
non_empty (some rest) = if is_nil (trim blank rest) then none else some (trim blank rest)

unfoldable pub bearer_token : Option Header → Option Header
unfolding strip_prefix split_once eq_ignore_ascii_case other_case or_else non_empty
bearer_token none = none
bearer_token (some raw) =
    non_empty (or_else (strip_prefix bearer_prefix raw) (other_case (split_once raw)))
