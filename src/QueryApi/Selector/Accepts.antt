-- ===== src/QueryApi/Selector/Accepts.antt =====
-- crates/query-api/src/selector.rs: the selector of a text of the grammar.
use mathlib.Core.List.{append_assoc, append-nil}
use kaleidoscope.Prelude.{
  is_nil, is_whitespace, trim_start, trim_end, trim, ℕ, suc, ◌≡◌, refl, sym, ap, ◌∙◌, subst, true,
  false, some, none, List, [], ◌∷◌, ◌++◌, All, nat_beq, arith, ok, length,
}
use kaleidoscope.QueryApi.Selector.Characters.{Chars, is_name_start, is_name_continue}
use kaleidoscope.QueryApi.Selector.Parser.{
  LabelMatcher, Selector, parse_matcher_list, find_open, ends_with_close, drop_last, split_at_brace,
  all_continue, is_bare_metric_name, parse_braces, with_matchers, parse_parts, parse,
}
use kaleidoscope.QueryApi.Selector.Grammar.{IsMetricName, Lists, Denotes, bare, braces, Selects}
use kaleidoscope.QueryApi.Selector.Complete.{matcher_loop-Lists}

abbrev Blank : Chars → Type 0
Blank = All (λ c. is_whitespace c ≡ true)

-- A text that trimming leaves alone: it is not empty, and neither end is white space.
abbrev StartsSolid : Chars → Type 0
StartsSolid [] = ⊥
StartsSolid (c ∷ cs) = is_whitespace c ≡ false

EndsSolid : Chars → Type 0
EndsSolid [] = ⊥
EndsSolid (c ∷ []) = is_whitespace c ≡ false
EndsSolid (c ∷ d ∷ cs) = EndsSolid (d ∷ cs)

trim_start-Blank :
    (before cs : Chars)
    → Blank before
    → StartsSolid cs
    → trim_start is_whitespace (before ++ cs) ≡ cs
unfolding trim_start
trim_start-Blank [] [] h s = elim s [ ]
trim_start-Blank [] (c ∷ cs) h s = rw s
trim_start-Blank (b ∷ before) cs h s = rw h.0 (trim_start-Blank before cs h.1 s)

trim_end-nil : (after : Chars) → Blank after → trim_end is_whitespace after ≡ []
unfolding trim_end
trim_end-nil [] h = refl
trim_end-nil (c ∷ after) h = ground (arith, trim_end-nil after h.1)

trim_end-Blank :
    (cs after : Chars) → EndsSolid cs → Blank after → trim_end is_whitespace (cs ++ after) ≡ cs
unfolding trim_end EndsSolid
trim_end-Blank [] after s h = elim s [ ]
trim_end-Blank (c ∷ []) after s h = ground (arith, trim_end-nil after h)
trim_end-Blank (c ∷ d ∷ cs) after s h = ground (arith, trim_end-Blank (d ∷ cs) after s h)

trim-Blank :
    (before cs after : Chars)
    → Blank before
    → StartsSolid cs
    → EndsSolid cs
    → Blank after
    → trim is_whitespace (before ++ (cs ++ after)) ≡ cs
unfolding trim
trim-Blank before [] after hb ss es ha = elim ss [ ]
trim-Blank before (c ∷ cs) after hb ss es ha =
    ap (trim_end is_whitespace) (trim_start-Blank before (c ∷ cs ++ after) hb ss)
    ∙ trim_end-Blank (c ∷ cs) after es ha

start_solid : (c : ℕ) → is_name_start c ≡ true → is_whitespace c ≡ false
unfolding is_name_start is_whitespace
start_solid c h = ground arith

continue_solid : (c : ℕ) → is_name_continue c ≡ true → is_whitespace c ≡ false
unfolding is_name_continue is_whitespace
continue_solid c h = ground arith

start_not_open : (c : ℕ) → is_name_start c ≡ true → nat_beq c b'{' ≡ false
unfolding is_name_start
start_not_open c h = ground arith

continue_not_open : (c : ℕ) → is_name_continue c ≡ true → nat_beq c b'{' ≡ false
unfolding is_name_continue
continue_not_open c h = ground arith

NoOpen : Chars → Type 0
NoOpen = All (λ c. nat_beq c b'{' ≡ false)

tail-NoOpen : (cs : Chars) → All (λ d. is_name_continue d ≡ true) cs → NoOpen cs
unfolding NoOpen
tail-NoOpen [] h = tt
tail-NoOpen (c ∷ cs) h = (continue_not_open c h.0, tail-NoOpen cs h.1)

name-NoOpen : (n : Chars) → IsMetricName n → NoOpen n
unfolding NoOpen
name-NoOpen [] h = elim h [ ]
name-NoOpen (c ∷ n) h = (start_not_open c h.0, tail-NoOpen n h.1)

find_open-append : (n rest : Chars) → NoOpen n → find_open (n ++ b'{' ∷ rest) ≡ some (n, rest)
unfolding find_open NoOpen
find_open-append [] rest h = refl
find_open-append (c ∷ n) rest h = rw (h.0, find_open-append n rest h.1)

find_open-NoOpen : (n : Chars) → NoOpen n → find_open n ≡ none
unfolding find_open NoOpen
find_open-NoOpen [] h = refl
find_open-NoOpen (c ∷ n) h = rw (h.0, find_open-NoOpen n h.1)

ends_with_close-append : (cs : Chars) → ends_with_close (cs ++ b'}' ∷ []) ≡ true
unfolding ends_with_close
ends_with_close-append [] = refl
ends_with_close-append (c ∷ []) = refl
ends_with_close-append (c ∷ d ∷ cs) = ends_with_close-append (d ∷ cs)

drop_last-append : (cs : Chars) (e : ℕ) → drop_last (cs ++ e ∷ []) ≡ cs
unfolding drop_last
drop_last-append [] e = refl
drop_last-append (c ∷ []) e = refl
drop_last-append (c ∷ d ∷ cs) e = ap (λ l. c ∷ l) (drop_last-append (d ∷ cs) e)

all_continue-All : (cs : Chars) → All (λ d. is_name_continue d ≡ true) cs → all_continue cs ≡ true
unfolding all_continue
all_continue-All [] h = refl
all_continue-All (c ∷ cs) h = rw (h.0, all_continue-All cs h.1)

is_bare_metric_name-IsMetricName : (n : Chars) → IsMetricName n → is_bare_metric_name n ≡ true
unfolding is_bare_metric_name
is_bare_metric_name-IsMetricName [] h = elim h [ ]
is_bare_metric_name-IsMetricName (c ∷ n) h = rw (h.0, all_continue-All n h.1)

name-StartsSolid : (n cs : Chars) → IsMetricName n → StartsSolid (n ++ cs)
name-StartsSolid [] cs h = elim h [ ]
name-StartsSolid (c ∷ n) cs h = start_solid c h.0

tail-EndsSolid :
    (c : ℕ) (n : Chars)
    → is_whitespace c ≡ false
    → All (λ d. is_name_continue d ≡ true) n
    → EndsSolid (c ∷ n)
unfolding EndsSolid
tail-EndsSolid c [] h t = h
tail-EndsSolid c (d ∷ n) h t = tail-EndsSolid d n (continue_solid d t.0) t.1

name-EndsSolid : (n : Chars) → IsMetricName n → EndsSolid n
name-EndsSolid [] h = elim h [ ]
name-EndsSolid (c ∷ n) h = tail-EndsSolid c n (start_solid c h.0) h.1

close-EndsSolid : (cs : Chars) → EndsSolid (cs ++ b'}' ∷ [])
unfolding EndsSolid is_whitespace
close-EndsSolid [] = refl
close-EndsSolid (c ∷ []) = refl
close-EndsSolid (c ∷ d ∷ cs) = close-EndsSolid (d ∷ cs)

name-not_nil : (n cs : Chars) → IsMetricName n → is_nil (n ++ cs) ≡ false
name-not_nil [] cs h = elim h [ ]
name-not_nil (c ∷ n) cs h = refl

module _ (n : Chars) (named : IsMetricName n) where
  split-bare : split_at_brace n ≡ ok (n, none)
  unfolding split_at_brace
  split-bare = rw (find_open-NoOpen n (name-NoOpen n named))

  split-braces :
      (inner : Chars) → split_at_brace (n ++ b'{' ∷ (inner ++ b'}' ∷ [])) ≡ ok (n, some inner)
  unfolding split_at_brace
  split-braces inner = rw (
    find_open-append n (inner ++ b'}' ∷ []) (name-NoOpen n named),
    ← append_assoc n (b'{' ∷ inner) (b'}' ∷ []),
    ends_with_close-append (n ++ b'{' ∷ inner),
    drop_last-append inner b'}',
  )

  parse_parts-bare : parse_parts (split_at_brace n) ≡ some (ok (record { name = n; matchers = [] }))
  unfolding parse_parts with_matchers parse_braces
  parse_parts-bare = rw (split-bare, is_bare_metric_name-IsMetricName n named)

  parse_parts-braces :
      (ms : List LabelMatcher) (inner : Chars)
      → Lists ms inner
      → parse_parts (split_at_brace (n ++ b'{' ∷ (inner ++ b'}' ∷ [])))
        ≡ some (ok (record { name = n; matchers = ms }))
  unfolding parse_parts with_matchers parse_braces parse_matcher_list
  parse_parts-braces ms inner l = rw (
    split-braces inner,
    is_bare_metric_name-IsMetricName n named,
    matcher_loop-Lists (suc (length inner)) [] l (omega arith),
  )

parse_parts-Denotes :
    (s : Selector) {text : Chars} → Denotes s text → parse_parts (split_at_brace text) ≡ some (ok s)
parse_parts-Denotes s (bare named no_matchers e) =
    ap (λ t. parse_parts (split_at_brace t)) e
    ∙ parse_parts-bare s.name named
    ∙ ap (λ (ms : List LabelMatcher). some (ok (record { name = s.name; matchers = ms })))
        (sym no_matchers)
parse_parts-Denotes s (braces inner named l e) =
    ap (λ t. parse_parts (split_at_brace t)) e ∙ parse_parts-braces s.name named s.matchers inner l

Denotes-Solid : (s : Selector) {text : Chars} → Denotes s text → StartsSolid text × EndsSolid text
Denotes-Solid s (bare named no_matchers e) = (
  subst StartsSolid (append-nil s.name ∙ sym e) (name-StartsSolid s.name [] named),
  subst EndsSolid (sym e) (name-EndsSolid s.name named),
)
Denotes-Solid s (braces inner named l e) = (
  subst StartsSolid (sym e) (name-StartsSolid s.name (b'{' ∷ (inner ++ b'}' ∷ [])) named),
  subst EndsSolid (append_assoc s.name (b'{' ∷ inner) (b'}' ∷ []) ∙ sym e)
      (close-EndsSolid (s.name ++ b'{' ∷ inner)),
)

parse-trimmed :
    (s : Selector) (before text after : Chars)
    → Blank before
    → StartsSolid text
    → EndsSolid text
    → Blank after
    → parse_parts (split_at_brace text) ≡ some (ok s)
    → parse (before ++ (text ++ after)) ≡ some (ok s)
unfolding parse
parse-trimmed s before [] after hb ss es ha p = elim ss [ ]
parse-trimmed s before (c ∷ cs) after hb ss es ha p =
    rw (trim-Blank before (c ∷ cs) after hb ss es ha, p)

pub parse-Denoted : (s : Selector) (raw : Chars) → Selects s raw → parse raw ≡ some (ok s)
parse-Denoted s raw w =
    let (starts, ends) = Denotes-Solid s w.denotes in
    ap parse w.written
    ∙ parse-trimmed s w.before w.text w.after w.space_before starts ends w.space_after
        (parse_parts-Denotes s w.denotes)
