-- ===== src/QueryHttp/Carries.antt =====
-- crates/query-http-common/src/lib.rs: which headers carry a token.
use Prim.Native.Char.{Char, code}
use mathlib.Core.List.{append_assoc}
use kaleidoscope.Prelude.{
  ℕ, ◌≡◌, ◌↔◌, refl, sym, ap, ◌∙◌, Bool, Bool-cases, true, false, ◌&&◌, Option, none, some, List,
  [], ◌∷◌, ◌++◌, All, leb, nat_beq, nat_beq_iff, is_nil, trim, arith, inl, inr,
}
use kaleidoscope.QueryHttp.Bearer.{
  Header, codes, blank, strip_prefix, cons_first, split_once, to_ascii_lowercase,
  eq_ignore_ascii_case, bearer, bearer_prefix, other_case, or_else, non_empty, bearer_token,
}

-- A scheme, a space and a token, with white space round the token that is not part of it.
pub record Carries (raw token : Header) : Type 0 where
  pub scheme : Header
  pub rest : Header
  pub space : Char
  pub is_space : code space ≡ 32
  pub parts : raw ≡ scheme ++ space ∷ rest
  pub is_bearer : eq_ignore_ascii_case (codes scheme) bearer ≡ true
  pub trimmed : token ≡ trim blank rest
  pub something : is_nil token ≡ false

abbrev NoSpace : Header → Type 0
NoSpace = All (λ c. nat_beq (code c) 32 ≡ false)

split_once-append :
    (scheme rest : Header) (space : Char)
    → NoSpace scheme
    → code space ≡ 32
    → split_once (scheme ++ space ∷ rest) ≡ some (scheme, rest)
unfolding split_once
split_once-append [] rest space h e = rw e
split_once-append (c ∷ scheme) rest space h e = rw (h.0, split_once-append scheme rest space h.1 e)

letter_not_space :
    (c p : ℕ)
    → leb b'a' p && leb p b'z' ≡ true
    → nat_beq (to_ascii_lowercase c) (to_ascii_lowercase p) ≡ true
    → nat_beq c 32 ≡ false
unfolding to_ascii_lowercase
letter_not_space c p l h = ground arith

abbrev Letters : List ℕ → Type 0
Letters = All (λ p. (leb b'a' p && leb p b'z') ≡ true)

scheme-NoSpace :
    (scheme : Header) (ps : List ℕ)
    → Letters ps
    → eq_ignore_ascii_case (codes scheme) ps ≡ true
    → NoSpace scheme
unfolding eq_ignore_ascii_case
scheme-NoSpace [] ps l h = tt
scheme-NoSpace (c ∷ scheme) [] l h = cc
scheme-NoSpace (c ∷ scheme) (p ∷ ps) l h =
    let (same, rest) =
      both (nat_beq (to_ascii_lowercase (code c)) (to_ascii_lowercase p))
        (eq_ignore_ascii_case (codes scheme) ps) h in
    (letter_not_space (code c) p l.0 same, scheme-NoSpace scheme ps l.1 rest)
  where
    both : (a b : Bool) → (a && b) ≡ true → (a ≡ true) × (b ≡ true)
    both a b h = ground arith

bearer-Letters : Letters bearer
bearer-Letters = (refl, (refl, (refl, (refl, (refl, (refl, tt))))))

other_case-append :
    (scheme rest : Header) (space : Char)
    → eq_ignore_ascii_case (codes scheme) bearer ≡ true
    → code space ≡ 32
    → other_case (split_once (scheme ++ space ∷ rest)) ≡ some rest
unfolding other_case
other_case-append scheme rest space h e =
    rw (split_once-append scheme rest space (scheme-NoSpace scheme bearer bearer-Letters h) e, h)

strip_prefix-inverse :
    (ps : List ℕ) (cs rest : Header)
    → strip_prefix ps cs ≡ some rest
    → (front : Header) × (codes front ≡ ps) × (cs ≡ front ++ rest)
unfolding strip_prefix
strip_prefix-inverse [] cs rest h = ([], refl, cc)
strip_prefix-inverse (p ∷ ps) [] rest h = cc
strip_prefix-inverse (p ∷ ps) (c ∷ cs) rest h = elim (Bool-cases (nat_beq (code c) p)) [
  | inl e ↦
      let (front, same, parts) = strip_prefix-inverse ps cs rest (rw e at h) in
      (c ∷ front, cc ((nat_beq_iff (code c) p).0 e), ap (λ l. c ∷ l) parts)
  | inr e ↦ cc (rw e at h)
]

-- The last character of a text whose code points are known.
last_code :
    (front : Header) (ps : List ℕ) (p : ℕ)
    → codes front ≡ ps ++ p ∷ []
    → (scheme : Header) × (space : Char) × (front ≡ scheme ++ space ∷ [])
      × (codes scheme ≡ ps)
      × (code space ≡ p)
last_code [] [] p h = cc
last_code [] (q ∷ ps) p h = cc
last_code (c ∷ []) [] p h = ([], c, refl, refl, cc)
last_code (c ∷ d ∷ front) [] p h = cc
last_code (c ∷ front) (q ∷ ps) p h =
    let (scheme, space, parts, same, is) = last_code front ps p (cc) in
    (c ∷ scheme, space, ap (λ l. c ∷ l) parts, cc, is)

-- The exact prefix is a case of the other reading.
exact_prefix :
    (raw rest : Header)
    → strip_prefix bearer_prefix raw ≡ some rest
    → other_case (split_once raw) ≡ some rest
unfolding eq_ignore_ascii_case
exact_prefix raw rest h =
    let (front, same, parts) = strip_prefix-inverse bearer_prefix raw rest h in
    let (scheme, space, halves, name, is_space) =
      last_code front (b'B' ∷ b'e' ∷ b'a' ∷ b'r' ∷ b'e' ∷ b'r' ∷ []) 32 same in
    ap (λ t. other_case (split_once t))
      (parts ∙ ap (λ t. t ++ rest) halves ∙ append_assoc scheme (space ∷ []) rest)
    ∙ other_case-append scheme rest space (ap (λ t. eq_ignore_ascii_case t bearer) name) is_space

or_else-same :
    (a b : Option Header) → ((rest : Header) → a ≡ some rest → b ≡ some rest) → or_else a b ≡ b
unfolding or_else
or_else-same none b h = refl
or_else-same (some rest) b h = sym (h rest refl)

bearer_token-other :
    (raw : Header) → bearer_token (some raw) ≡ non_empty (other_case (split_once raw))
unfolding bearer_token
bearer_token-other raw =
    ap non_empty (
      or_else-same (strip_prefix bearer_prefix raw) (other_case (split_once raw))
        (exact_prefix raw))

behind :
    (c : Char) (cs : Header) (o : Option (Header × Header)) (scheme rest : Header)
    → ((scheme rest : Header)
        → o ≡ some (scheme, rest)
        → (space : Char) × (code space ≡ 32) × (cs ≡ scheme ++ space ∷ rest))
    → cons_first c o ≡ some (scheme, rest)
    → (space : Char) × (code space ≡ 32) × (c ∷ cs ≡ scheme ++ space ∷ rest)
unfolding cons_first
behind c cs none scheme rest hyp h = cc
behind c cs (some (a, b)) scheme rest hyp h =
    let (space, is_space, parts) = hyp a b refl in
    let front : c ∷ a ≡ scheme = cc in
    let back : b ≡ rest = cc in
    (
      space,
      is_space,
      ap (λ l. c ∷ l) parts ∙ ap (λ t. t ++ space ∷ b) front ∙ ap (λ t. scheme ++ space ∷ t) back,
    )

split_once-inverse :
    (raw scheme rest : Header)
    → split_once raw ≡ some (scheme, rest)
    → (space : Char) × (code space ≡ 32) × (raw ≡ scheme ++ space ∷ rest)
unfolding split_once
split_once-inverse [] scheme rest h = cc
split_once-inverse (c ∷ cs) scheme rest h = elim (Bool-cases (nat_beq (code c) 32)) [
  | inl e ↦
      let same : ◌≡◌ {A = Option (Header × Header)} (some ([], cs)) (some (scheme, rest)) =
        rw e at h in
      let none_before : ◌≡◌ {A = Header} [] scheme = cc in
      let left : cs ≡ rest = cc in
      (c, (nat_beq_iff (code c) 32).0 e, ap (λ l. c ∷ l) left ∙ ap (λ t. t ++ c ∷ rest) none_before)
  | inr e ↦ behind c cs (split_once cs) scheme rest (split_once-inverse cs) (rw e at h)
]

other_case-inverse :
    (o : Option (Header × Header)) (rest : Header)
    → other_case o ≡ some rest
    → (scheme : Header) × (o ≡ some (scheme, rest))
      × (eq_ignore_ascii_case (codes scheme) bearer ≡ true)
unfolding other_case
other_case-inverse none rest h = cc
other_case-inverse (some (scheme, left)) rest h =
    elim (Bool-cases (eq_ignore_ascii_case (codes scheme) bearer)) [
      | inl e ↦ let same : some left ≡ some rest = rw e at h in (scheme, cc, e)
      | inr e ↦ cc (rw e at h)
    ]

non_empty-inverse :
    (o : Option Header) (token : Header)
    → non_empty o ≡ some token
    → (rest : Header) × (o ≡ some rest) × (token ≡ trim blank rest) × (is_nil token ≡ false)
unfolding non_empty
non_empty-inverse none token h = cc
non_empty-inverse (some rest) token h = elim (Bool-cases (is_nil (trim blank rest))) [
  | inl e ↦ cc (rw e at h)
  | inr e ↦
      let same : some (trim blank rest) ≡ some token = rw e at h in
      let token_is : token ≡ trim blank rest = cc in (rest, refl, token_is, ap is_nil token_is ∙ e)
]

token-Carries : (raw token : Header) → bearer_token (some raw) ≡ some token → Carries raw token
token-Carries raw token h =
    let (rest, found, trimmed, something) =
      non_empty-inverse (other_case (split_once raw)) token (sym (bearer_token-other raw) ∙ h) in
    let (scheme, halves, is_bearer) = other_case-inverse (split_once raw) rest found in
    let (space, is_space, parts) = split_once-inverse raw scheme rest halves in
    record {
      scheme = scheme;
      rest = rest;
      space = space;
      is_space = is_space;
      parts = parts;
      is_bearer = is_bearer;
      trimmed = trimmed;
      something = something;
    }

Carries-token : (raw token : Header) → Carries raw token → bearer_token (some raw) ≡ some token
unfolding non_empty
Carries-token raw token w =
    let other : other_case (split_once raw) ≡ some w.rest =
      ap (λ t. other_case (split_once t)) w.parts
      ∙ other_case-append w.scheme w.rest w.space w.is_bearer w.is_space in
    let solid : is_nil (trim blank w.rest) ≡ false = ap is_nil (sym w.trimmed) ∙ w.something in
    bearer_token-other raw ∙ ap non_empty other ∙ rw solid (ap some (sym w.trimmed))

pub bearer_token-Carries :
    (raw token : Header) → (bearer_token (some raw) ≡ some token) ↔ Carries raw token
bearer_token-Carries raw token = (token-Carries raw token, Carries-token raw token)
