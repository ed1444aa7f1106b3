-- ===== src/WalRecovery/Utf8.antt =====
-- crates/wal-recovery/src/lib.rs: `String::from_utf8_lossy`, through which the replay reads a file. Each
-- longest beginning of a character that is not completed, and each byte that begins none, becomes U+FFFD.
use kaleidoscope.Prelude.{
  ℕ, zero, suc, ◌+◌, ◌≡◌, ◌≢◌, refl, sym, ap, ◌∙◌, Bool, true, false, List, [], ◌∷◌, ◌++◌, arith,
  leb, nat_beq, if◌then◌else◌, ◌&&◌, All,
}
use mathlib.Core.List.{append_assoc}

abbrev pub Bytes : Type 0
Bytes = List ℕ

abbrev pub newline : ℕ
newline = 10

abbrev pub is_nil {ℓ} : {A : Type ℓ} → List A → Bool
is_nil [] = true
is_nil (x ∷ xs) = false

-- A line has no newline inside.
abbrev pub IsLine : Bytes → Type 0
IsLine = All (λ c. c ≢ newline)

-- The character being read: none, or its first bytes, the bounds of the six bits that the next one
-- carries, and how many come after that.
pub data Reading : Type 0 where
  idle : Reading
  inside : Bytes → ℕ → ℕ → ℕ → Reading

-- U+FFFD in UTF-8.
abbrev replacement : Bytes
replacement = 239 ∷ 191 ∷ 189 ∷ []

unfoldable first_byte : ℕ → Bytes × Reading
first_byte b =
    if leb b 127
    then (b ∷ [], idle)
    else if leb 194 b && leb b 223
    then ([], inside (b ∷ []) 0 63 0)
    else if nat_beq b 224
    then ([], inside (b ∷ []) 32 63 1)
    else if nat_beq b 237
    then ([], inside (b ∷ []) 0 31 1)
    else if leb 225 b && leb b 239
    then ([], inside (b ∷ []) 0 63 1)
    else if nat_beq b 240
    then ([], inside (b ∷ []) 16 63 2)
    else if leb 241 b && leb b 243
    then ([], inside (b ∷ []) 0 63 2)
    else if nat_beq b 244
    then ([], inside (b ∷ []) 0 15 2)
    else (replacement, idle)

unfoldable next_byte : Bytes → ℕ → ℕ → Bytes × Reading
next_byte held zero b = (held ++ b ∷ [], idle)
next_byte held (suc more) b = ([], inside (held ++ b ∷ []) 0 63 more)

unfoldable read_byte : Reading → ℕ → Bytes × Reading
unfolding first_byte next_byte
read_byte idle b = first_byte b
read_byte (inside held low high more) b =
    if leb (128 + low) b && leb b (128 + high)
    then next_byte held more b
    else (replacement ++ (first_byte b).0, (first_byte b).1)

unfoldable at_end : Reading → Bytes
at_end idle = []
at_end (inside held low high more) = replacement

unfoldable decode_from : Reading → Bytes → Bytes
unfolding read_byte at_end
decode_from s [] = at_end s
decode_from s (b ∷ bytes) = (read_byte s b).0 ++ decode_from (read_byte s b).1 bytes

unfoldable pub from_utf8_lossy : Bytes → Bytes
unfolding decode_from
from_utf8_lossy bytes = decode_from Reading.idle bytes

at_newline :
    (s : Reading) (rest : Bytes)
    → decode_from s (newline ∷ rest) ≡ at_end s ++ newline ∷ decode_from Reading.idle rest
unfolding decode_from at_end read_byte first_byte
at_newline idle rest = refl
at_newline (inside held low high more) rest = ground arith

decode_from-line :
    (s : Reading) (l rest : Bytes)
    → decode_from s (l ++ newline ∷ rest)
      ≡ decode_from s l ++ newline ∷ decode_from Reading.idle rest
unfolding decode_from
decode_from-line s [] rest = at_newline s rest
decode_from-line s (b ∷ l) rest =
    ap (λ after. (read_byte s b).0 ++ after) (decode_from-line (read_byte s b).1 l rest)
    ∙ sym (append_assoc (read_byte s b).0 _ _)

-- A newline ends what stands before it, whatever bytes those are.
pub from_utf8_lossy-line :
    (l rest : Bytes)
    → from_utf8_lossy (l ++ newline ∷ rest) ≡ from_utf8_lossy l ++ newline ∷ from_utf8_lossy rest
unfolding from_utf8_lossy
from_utf8_lossy-line l rest = decode_from-line Reading.idle l rest

pub IsLine-append : (a b : Bytes) → IsLine a → IsLine b → IsLine (a ++ b)
IsLine-append [] b ha hb = hb
IsLine-append (c ∷ a) b ha hb = (ha.0, IsLine-append a b ha.1 hb)

if_both :
    {A : Type 0} (P : A → Type 0) (test : Bool) (x y : A) → P x → P y → P (if test then x else y)
if_both P true x y px py = px
if_both P false x y px py = py

abbrev IsLineAhead : Bytes × Reading → Type 0
IsLineAhead (out, idle) = IsLine out
IsLineAhead (out, inside held low high more) = IsLine out × IsLine held

abbrev Sounds : Bytes × Reading → Type 0
Sounds ([], idle) = ⊥
Sounds ([], inside held low high more) = Unit
Sounds (c ∷ out, s) = Unit

-- What holds of each of the outcomes for a first byte holds of its outcome.
first_byte-all :
    (P : Bytes × Reading → Type 0) (b : ℕ)
    → P (b ∷ [], Reading.idle)
    → P (replacement, Reading.idle)
    → ((low high more : ℕ) → P ([], Reading.inside (b ∷ []) low high more))
    → P (first_byte b)
unfolding first_byte
first_byte-all P b plain bad half = if_both P _ _ _ plain (
    if_both P _ _ _ (half 0 63 0) (
      if_both P _ _ _ (half 32 63 1) (
        if_both P _ _ _ (half 0 31 1) (
          if_both P _ _ _ (half 0 63 1) (
            if_both P _ _ _ (half 16 63 2)
              (if_both P _ _ _ (half 0 63 2) (if_both P _ _ _ (half 0 15 2) bad)))))))

first_byte-IsLine : (b : ℕ) → b ≢ newline → IsLineAhead (first_byte b)
first_byte-IsLine b ne =
    first_byte-all IsLineAhead b (ne, tt) (omega arith) (λ low high more. (tt, (ne, tt)))

first_byte-Sounds : (b : ℕ) → Sounds (first_byte b)
first_byte-Sounds b = first_byte-all Sounds b tt tt (λ low high more. tt)

fresh-IsLine :
    (step : Bytes × Reading) → IsLineAhead step → IsLineAhead (replacement ++ step.0, step.1)
fresh-IsLine (out, idle) h = (omega arith, (omega arith, (omega arith, h)))
fresh-IsLine (out, inside half low high more) h =
    ((omega arith, (omega arith, (omega arith, h.0))), h.1)

next_byte-IsLine :
    (held : Bytes) (more b : ℕ) → IsLine held → b ≢ newline → IsLineAhead (next_byte held more b)
unfolding next_byte
next_byte-IsLine held zero b h ne = IsLine-append held (b ∷ []) h (ne, tt)
next_byte-IsLine held (suc more) b h ne = (tt, IsLine-append held (b ∷ []) h (ne, tt))

read_byte-IsLine :
    (s : Reading) (b : ℕ) → IsLineAhead ([], s) → b ≢ newline → IsLineAhead (read_byte s b)
unfolding read_byte
read_byte-IsLine idle b h ne = first_byte-IsLine b ne
read_byte-IsLine (inside held low high more) b h ne =
    if_both IsLineAhead (leb (128 + low) b && leb b (128 + high)) _ _
      (next_byte-IsLine held more b h.1 ne) (fresh-IsLine (first_byte b) (first_byte-IsLine b ne))

out_and_held :
    (step : Bytes × Reading) → IsLineAhead step → IsLine step.0 × IsLineAhead ([], step.1)
out_and_held (out, idle) h = (h, tt)
out_and_held (out, inside held low high more) h = (h.0, (tt, h.1))

decode_from-IsLine :
    (s : Reading) (l : Bytes) → IsLineAhead ([], s) → IsLine l → IsLine (decode_from s l)
unfolding decode_from at_end
decode_from-IsLine idle [] h hl = tt
decode_from-IsLine (inside held low high more) [] h hl = omega arith
decode_from-IsLine s (b ∷ l) h hl =
    let (out, rest) = out_and_held (read_byte s b) (read_byte-IsLine s b h hl.0) in
    IsLine-append (read_byte s b).0 (decode_from (read_byte s b).1 l) out
      (decode_from-IsLine (read_byte s b).1 l rest hl.1)

-- No newline comes of the replacements.
pub from_utf8_lossy-IsLine : (l : Bytes) → IsLine l → IsLine (from_utf8_lossy l)
unfolding from_utf8_lossy
from_utf8_lossy-IsLine l h = decode_from-IsLine Reading.idle l tt h

next_byte-Sounds : (held : Bytes) (more b : ℕ) → Sounds (next_byte held more b)
unfolding next_byte
next_byte-Sounds [] zero b = tt
next_byte-Sounds (d ∷ held) zero b = tt
next_byte-Sounds held (suc more) b = tt

read_byte-Sounds : (s : Reading) (b : ℕ) → Sounds (read_byte s b)
unfolding read_byte
read_byte-Sounds idle b = first_byte-Sounds b
read_byte-Sounds (inside held low high more) b =
    if_both Sounds (leb (128 + low) b && leb b (128 + high)) _ _ (next_byte-Sounds held more b) tt

decode_from-Sounds :
    (out : Bytes) (s : Reading) (l : Bytes)
    → Sounds (out, s)
    → is_nil (out ++ decode_from s l) ≡ false
unfolding decode_from at_end
decode_from-Sounds (c ∷ out) s l h = refl
decode_from-Sounds [] idle l h = absurd h
decode_from-Sounds [] (inside held low high more) [] h = refl
decode_from-Sounds [] (inside held low high more) (b ∷ l) h =
    decode_from-Sounds (read_byte (inside held low high more) b).0
      (read_byte (inside held low high more) b).1 l (read_byte-Sounds (inside held low high more) b)

-- A part that is not empty is not empty as a text.
pub from_utf8_lossy-cons : (c : ℕ) (l : Bytes) → is_nil (from_utf8_lossy (c ∷ l)) ≡ false
unfolding from_utf8_lossy decode_from
from_utf8_lossy-cons c l =
    decode_from-Sounds (read_byte Reading.idle c).0 (read_byte Reading.idle c).1 l
      (read_byte-Sounds Reading.idle c)
