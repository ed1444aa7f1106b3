-- ===== src/Sluice/Hex.antt =====
-- crates/sluice/src/file_backed.rs: payloads as hexadecimal text. A `u8` is a number below 256, a
-- text its list of ASCII codes.
use Prim.Native.Nat.{bit_and, bit_or}
use kaleidoscope.Prelude.{
  ℕ, zero, suc, ◌+◌, ◌-◌, ◌*◌, ◌/◌, ◌%◌, ◌<◌, ◌≡◌, refl, Bool, true, false, List, [], ◌∷◌, arith,
  leb, nat_beq, if◌then◌else◌, ◌&&◌, Result, ok, err, ◌>>=◌, length, All,
}
use kaleidoscope.Sluice.Types.{EnqueueError, persistence_failed}

-- The last arm is unreachable for a nibble, and its value is of no account.
hex_char : ℕ → ℕ
hex_char nibble = if leb nibble 9 then b'0' + nibble else b'a' + nibble - 10

unfoldable pub encode_hex : List ℕ → List ℕ
unfolding hex_char
encode_hex [] = []
encode_hex (b ∷ bytes) = hex_char (bit_and (b / 16) 15) ∷ hex_char (bit_and b 15) ∷ encode_hex bytes

hex_value : ℕ → Result ℕ EnqueueError
hex_value b =
    if leb b'0' b && leb b b'9'
    then ok (b - b'0')
    else if leb b'a' b && leb b b'f'
    then ok (b - b'a' + 10)
    else if leb b'A' b && leb b b'F'
    then ok (b - b'A' + 10)
    else err (persistence_failed "bad hex digit")

-- The loop over the pairs of digits.
decode_pairs : List ℕ → Result (List ℕ) EnqueueError
decode_pairs [] = ok []
decode_pairs (odd ∷ []) = ok []
decode_pairs (h ∷ l ∷ rest) = do
  hi ← hex_value h
  lo ← hex_value l
  out ← decode_pairs rest
  ok (bit_or (hi * 16 % 256) lo ∷ out)

unfoldable pub decode_hex : List ℕ → Result (List ℕ) EnqueueError
unfolding decode_pairs hex_value
decode_hex s =
    if nat_beq (length s % 2) 0 then decode_pairs s else err (persistence_failed "odd hex length")

length-encode_hex : (bytes : List ℕ) → length (encode_hex bytes) ≡ 2 * length bytes
unfolding encode_hex
length-encode_hex [] = refl
length-encode_hex (b ∷ bytes) = omega (arith, length-encode_hex bytes)

-- One byte there and back, by evaluation over all of them.
is_ok : ℕ → Result (List ℕ) EnqueueError → Bool
is_ok b (ok (c ∷ [])) = nat_beq c b
is_ok b r = false

byte_back : ℕ → Bool
unfolding is_ok encode_hex decode_pairs hex_value
byte_back b = is_ok b (decode_pairs (encode_hex (b ∷ [])))

holds_below : (ℕ → Bool) → ℕ → Bool
holds_below p zero = true
holds_below p (suc n) = holds_below p n && p n

at_below : (p : ℕ → Bool) (n b : ℕ) → b < n → holds_below p n ≡ true → p b ≡ true
unfolding holds_below
at_below p zero b lt all = absurd (omega arith)
at_below p (suc n) b lt all = ground (arith, at_below p n b)

byte_table : holds_below byte_back 256 ≡ true
unfolding holds_below byte_back
byte_table = refl

pair_back :
    (h l b : ℕ) (rest out : List ℕ)
    → is_ok b (decode_pairs (h ∷ l ∷ [])) ≡ true
    → decode_pairs rest ≡ ok out
    → decode_pairs (h ∷ l ∷ rest) ≡ ok (b ∷ out)
unfolding decode_pairs is_ok
pair_back h l b rest out one more = ground arith

abbrev pub IsBytes : List ℕ → Type 0
IsBytes = All (λ b. b < 256)

pairs_back : (bytes : List ℕ) → IsBytes bytes → decode_pairs (encode_hex bytes) ≡ ok bytes
unfolding encode_hex
pairs_back [] h = unfold decode_pairs in refl
pairs_back (b ∷ bytes) h =
    pair_back _ _ b (encode_hex bytes) bytes
      (unfold byte_back in at_below byte_back 256 b h.0 byte_table) (pairs_back bytes h.1)

-- Decoding the hexadecimal text of a list of numbers below 256 gives the list back.
pub decode_hex-encode_hex :
    (bytes : List ℕ) → IsBytes bytes → decode_hex (encode_hex bytes) ≡ ok bytes
unfolding decode_hex
decode_hex-encode_hex bytes h = ground (arith, length-encode_hex bytes, pairs_back bytes h)
