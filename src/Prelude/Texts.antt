-- ===== src/Prelude/Texts.antt =====
-- The standard library's `trim` and its white space, on lists of characters of any kind.
use Prim.Native.Char.{code}
use Prim.Native.Nat.{ℕ}
use Prim.Native.String.{String}
use mathlib.Core.Bool.{Bool, true, false, ◌&&◌, ◌||◌}
use mathlib.Core.List.{List, [], ◌∷◌}
use kaleidoscope.Prelude.Tests.{leb, nat_beq, if◌then◌else◌}

abbrev pub is_nil {ℓ} : {A : Type ℓ} → List A → Bool
is_nil [] = true
is_nil (c ∷ cs) = false

-- `char::is_whitespace`: the property White_Space of Unicode.
unfoldable pub is_whitespace : ℕ → Bool
is_whitespace c =
    (leb 9 c && leb c 13)
    || nat_beq c 32
    || nat_beq c 0x85
    || nat_beq c 0xA0
    || nat_beq c 0x1680
    || (leb 0x2000 c && leb c 0x200A)
    || nat_beq c 0x2028
    || nat_beq c 0x2029
    || nat_beq c 0x202F
    || nat_beq c 0x205F
    || nat_beq c 0x3000

module _ {ℓ} {A : Type ℓ} (blank : A → Bool) where
  unfoldable pub trim_start : List A → List A
  trim_start [] = []
  trim_start (c ∷ cs) = if blank c then trim_start cs else c ∷ cs

  unfoldable pub trim_end : List A → List A
  trim_end [] = []
  trim_end (c ∷ cs) = let rest = trim_end cs in if blank c && is_nil rest then [] else c ∷ rest

  unfoldable pub trim : List A → List A
  unfolding trim_start trim_end
  trim cs = trim_end (trim_start cs)

-- The code points of a text.
abbrev pub codes : String → List ℕ
codes String.[] = []
codes (String.◌∷◌ c s) = code c ∷ codes s
