-- ===== src/WalRecovery/Lines.antt =====
-- crates/wal-recovery: how a file of complete lines, with a last line that has no newline, splits.
use kaleidoscope.Prelude.{
  ℕ, ◌≡◌, refl, sym, ap, false, List, [], ◌∷◌, ◌++◌, arith, nat_beq_iff, All, ◌∙◌,
}
use mathlib.Core.List.{append_assoc}
use kaleidoscope.WalRecovery.Replay.{Bytes, newline, split, ends_with_newline, cons_head, is_nil}
pub use kaleidoscope.WalRecovery.Utf8.{IsLine}
use kaleidoscope.WalRecovery.Utf8.{from_utf8_lossy, from_utf8_lossy-line}

-- The bytes of a file of complete lines.
unfoldable pub terminated : List Bytes → Bytes
terminated [] = []
terminated (l ∷ ls) = l ++ newline ∷ terminated ls

pub split-line : (l rest : Bytes) → IsLine l → split (l ++ newline ∷ rest) ≡ l ∷ split rest
unfolding split cons_head
split-line [] rest h = refl
split-line (c ∷ l) rest h = ground (arith, split-line l rest h.1, nat_beq_iff c newline)

pub split-last : (l : Bytes) → IsLine l → split l ≡ l ∷ []
unfolding split cons_head
split-last [] h = refl
split-last (c ∷ l) h = ground (arith, split-last l h.1, nat_beq_iff c newline)

-- The parts are the lines and the parts of what stands after them.
pub split-terminated :
    (ls : List Bytes) (tail : Bytes)
    → All IsLine ls
    → split (terminated ls ++ tail) ≡ ls ++ split tail
unfolding terminated
split-terminated [] tail h = refl
split-terminated (l ∷ ls) tail h =
    ap split (append_assoc l (newline ∷ terminated ls) tail)
    ∙ split-line l (terminated ls ++ tail) h.0
    ∙ ap (λ parts. l ∷ parts) (split-terminated ls tail h.1)

pub split-ne-nil : (bytes : Bytes) → is_nil (split bytes) ≡ false
unfolding split cons_head
split-ne-nil [] = refl
split-ne-nil (c ∷ bytes) = ground (arith, split-ne-nil bytes)

pub ends_with_newline-append :
    (xs : Bytes) (y : ℕ) (ys : Bytes)
    → ends_with_newline (xs ++ y ∷ ys) ≡ ends_with_newline (y ∷ ys)
unfolding ends_with_newline
ends_with_newline-append [] y ys = refl
ends_with_newline-append (x ∷ []) y ys = refl
ends_with_newline-append (x ∷ x' ∷ xs) y ys = ends_with_newline-append (x' ∷ xs) y ys

pub ends_with_newline-line :
    (c : ℕ) (l : Bytes) → IsLine (c ∷ l) → ends_with_newline (c ∷ l) ≡ false
unfolding ends_with_newline
ends_with_newline-line c [] h = ground (arith, nat_beq_iff c newline)
ends_with_newline-line c (d ∷ l) h = ends_with_newline-line d l h.1

-- The text of a file of lines that are valid UTF-8: those lines, and the text of what stands after them.
pub lossy-terminated :
    (ls : List Bytes) (tail : Bytes)
    → All (λ l. from_utf8_lossy l ≡ l) ls
    → from_utf8_lossy (terminated ls ++ tail) ≡ terminated ls ++ from_utf8_lossy tail
unfolding terminated
lossy-terminated [] tail h = refl
lossy-terminated (l ∷ ls) tail h =
    ap from_utf8_lossy (append_assoc l (newline ∷ terminated ls) tail)
    ∙ from_utf8_lossy-line l (terminated ls ++ tail)
    ∙ ap (λ k. k ++ newline ∷ from_utf8_lossy (terminated ls ++ tail)) h.0
    ∙ ap (λ end. l ++ newline ∷ end) (lossy-terminated ls tail h.1)
    ∙ sym (append_assoc l (newline ∷ terminated ls) (from_utf8_lossy tail))
