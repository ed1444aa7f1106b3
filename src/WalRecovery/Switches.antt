-- ===== src/WalRecovery/Switches.antt =====
-- A serialiser of two-byte records, at which the theorems about logs are tried, and serialisers of
-- other records through it.
use kaleidoscope.Prelude.{
  ℕ, ◌≡◌, refl, ap, ◌∙◌, subst, String, Bool, true, false, Option, none, some, [], ◌∷◌, ◌++◌, arith,
  Result, ok, err, if◌then◌else◌, nat_beq,
}
use kaleidoscope.WalRecovery.Replay.{Bytes, is_nil}
use kaleidoscope.WalRecovery.Utf8.{from_utf8_lossy}
use kaleidoscope.WalRecovery.Lines.{IsLine}
use kaleidoscope.WalRecovery.Json.{JsonLines}

-- A switch is written as one character of two bytes, so that a write can be cut inside it.
unfoldable pub print : Bool → Bytes
print true = 195 ∷ 169 ∷ []
print false = 195 ∷ 168 ∷ []

unfoldable pub parse : Bytes → Result Bool String
parse [] = err "EOF"
parse (c ∷ []) = err "EOF"
parse (c ∷ d ∷ []) =
    if nat_beq d 169 then ok true else if nat_beq d 168 then ok false else err "expected value"
parse (c ∷ d ∷ e ∷ rest) = err "trailing characters"

abbrev printed : Bool → Result Bytes String
printed r = ok (print r)

pub print-IsLine : (r : Bool) → IsLine (print r)
unfolding print
print-IsLine true = omega arith
print-IsLine false = omega arith

pub parse-print : (r : Bool) → parse (print r) ≡ ok r
unfolding print parse
parse-print true = refl
parse-print false = refl

pub print-IsLong : (r : Bool) → is_nil (print r) ≡ false
unfolding print
print-IsLong true = refl
print-IsLong false = refl

pub print-utf8 : (r : Bool) → from_utf8_lossy (print r) ≡ print r
unfolding print from_utf8_lossy
print-utf8 true = refl
print-utf8 false = refl

pub text_of : (r : Bool) (l : Bytes) → printed r ≡ ok l → print r ≡ l
text_of r l h = cc

two_bytes : (r : Bool) (x y z : ℕ) (rest : Bytes) → print r ≡ x ∷ y ∷ z ∷ rest → ⊥
unfolding print
two_bytes true x y z rest h = cc
two_bytes false x y z rest h = cc

cut : (r : Bool) (x y : ℕ) (rest : Bytes) → print r ≡ x ∷ y ∷ rest → x ≡ 195
unfolding print
cut true x y rest h = cc
cut false x y rest h = cc

-- The first byte of a switch is read as the three bytes of U+FFFD.
cut_fails : parse (from_utf8_lossy (195 ∷ [])) ≡ err "trailing characters"
unfolding parse from_utf8_lossy
cut_fails = refl

pub no_prefix :
    (r : Bool) (front : Bytes) (c : ℕ) (rest : Bytes)
    → print r ≡ front ++ c ∷ rest
    → is_nil front ≡ false
    → (e : String) × (parse (from_utf8_lossy front) ≡ err e)
no_prefix r [] c rest h nonempty = cc
no_prefix r (x ∷ []) c rest h nonempty = (
  "trailing characters",
  ap (λ b. parse (from_utf8_lossy (b ∷ []))) (cut r x c rest h) ∙ cut_fails,
)
no_prefix r (x ∷ y ∷ []) c rest h nonempty = absurd (two_bytes r x y c rest h)
no_prefix r (x ∷ y ∷ z ∷ more) c rest h nonempty = absurd (two_bytes r x y z (more ++ c ∷ rest) h)

abbrev pub switches : JsonLines Bool
switches = record {
  to_string = printed;
  from_str = parse;
  round_trip = λ r l h. subst (λ b. parse b ≡ ok r) (text_of r l h) (parse-print r);
  one_line = λ r l h. subst IsLine (text_of r l h) (print-IsLine r);
  non_empty = λ r l h. subst (λ b. is_nil b ≡ false) (text_of r l h) (print-IsLong r);
  is_utf8 = λ r l h. subst (λ b. from_utf8_lossy b ≡ b) (text_of r l h) (print-utf8 r);
  prefix_fails = λ r l front c rest h parts nonempty.
      no_prefix r front c rest (text_of r l h ∙ parts) nonempty;
}

module _ {R : Type 0} (encode : R → Option Bool) (decode : Bool → R)
    (decode-encode : (r : R) (b : Bool) → encode r ≡ some b → decode b ≡ r) where
  abbrev text_if : Option Bool → Result Bytes String
  text_if none = err "no such record"
  text_if (some b) = ok (print b)

  abbrev decoded : Result Bool String → Result R String
  decoded (err e) = err e
  decoded (ok b) = ok (decode b)

  pub encoded :
      (r : R) (l : Bytes) (o : Option Bool)
      → encode r ≡ o
      → text_if o ≡ ok l
      → (b : Bool) × (encode r ≡ some b) × (print b ≡ l)
  encoded r l none e h = cc
  encoded r l (some b) e h = (b, e, cc)

  -- A serialiser that knows two records.
  abbrev pub two_records : JsonLines R
  two_records = record {
    to_string = λ r. text_if (encode r);
    from_str = λ l. decoded (parse l);
    round_trip = λ r l h.
        let (b, e, t) = encoded r l (encode r) refl h in
        ap decoded (subst (λ k. parse k ≡ ok b) t (parse-print b)) ∙ ap ok (decode-encode r b e);
    one_line =
        λ r l h. let (b, e, t) = encoded r l (encode r) refl h in subst IsLine t (print-IsLine b);
    non_empty = λ r l h.
        let (b, e, t) = encoded r l (encode r) refl h in
        subst (λ k. is_nil k ≡ false) t (print-IsLong b);
    is_utf8 = λ r l h.
        let (b, e, t) = encoded r l (encode r) refl h in
        subst (λ k. from_utf8_lossy k ≡ k) t (print-utf8 b);
    prefix_fails = λ r l front c rest h parts nonempty.
        let (b, e, t) = encoded r l (encode r) refl h in
        let (reason, bad) = no_prefix b front c rest (t ∙ parts) nonempty in
        (reason, ap decoded bad);
  }
