-- ===== src/WalRecovery/Crash.antt =====
-- crates/wal-recovery/src/lib.rs: the log that a crash leaves in the middle of an append.
use kaleidoscope.Prelude.{
  ℕ, ◌+◌, ◌≡◌, refl, ap, ◌∙◌, subst, String, false, none, some, List, [], ◌∷◌, ◌++◌, Result, ok,
  ◌>>=◌, length,
}
use mathlib.Core.Path.{fun_ext}
use kaleidoscope.WalRecovery.Replay.{Bytes, is_nil, replay_parts}
use kaleidoscope.WalRecovery.Lines.{
  IsLine, terminated, split-last, ends_with_newline-append, ends_with_newline-line,
}
use kaleidoscope.WalRecovery.Utf8.{from_utf8_lossy}
use kaleidoscope.WalRecovery.Json.{JsonLines, Written}
use kaleidoscope.WalRecovery.Prefix.{apply_all, run, loop, loop_parsed, replay_torn, split-Written}

pub front-IsLine : (front rest : Bytes) → IsLine (front ++ rest) → IsLine front
front-IsLine [] rest h = tt
front-IsLine (c ∷ front) rest h = (h.0, front-IsLine front rest h.1)

module _ {R S E : Type 0} (json : JsonLines R) (apply : S → R → Result S E)
    (on_parse_error : ℕ → String → E) where
  pub replay_torn_write :
      (rs : List R) (ls : List Bytes) (r : R) (l front : Bytes) (d : ℕ) (rest : Bytes) (s : S)
      → Written json rs ls
      → json.to_string r ≡ ok l
      → l ≡ front ++ d ∷ rest
      → is_nil front ≡ false
      → run json apply on_parse_error (terminated ls ++ front) s ≡ (
          apply_all json apply on_parse_error s rs >>= λ s'. ok (
            s',
            some (record { line = length ls + 1; dropped_bytes = length (from_utf8_lossy front) }),
          ))
  replay_torn_write rs ls r l [] d rest s w e parts nonempty = cc
  replay_torn_write rs ls r l (c ∷ cs) d rest s w e parts nonempty =
      let (reason, bad) = json.prefix_fails r l (c ∷ cs) d rest e parts refl in
      replay_torn json apply on_parse_error rs ls c cs s reason w
        (front-IsLine (c ∷ cs) (d ∷ rest) (subst IsLine parts (json.one_line r l e))) bad

  after_last :
      (index : ℕ) (s' : S)
      → (r : Result S E)
      → (r >>= loop json apply on_parse_error false index []) ≡ (r >>= λ s''. ok (s'', none))
  unfolding replay_parts
  after_last index s' r = refl

  -- A file of complete lines and the text of one more record without its newline: the record is
  -- applied after the others, and there is no warning.
  pub replay_unterminated :
      (rs : List R) (ls : List Bytes) (r : R) (l : Bytes) (s : S)
      → Written json rs ls
      → json.to_string r ≡ ok l
      → run json apply on_parse_error (terminated ls ++ l) s
        ≡ (apply_all json apply on_parse_error s rs >>= λ s'. apply s' r >>= λ s''. ok (s'', none))
  replay_unterminated rs ls r [] s w e = cc (json.non_empty r [] e)
  replay_unterminated rs ls r (c ∷ cs) s w e =
      split-Written json apply on_parse_error rs ls (c ∷ cs) s w
      ∙ rw
          (
            ends_with_newline-append (terminated ls) c cs,
            ends_with_newline-line c cs (json.one_line r (c ∷ cs) e),
            json.is_utf8 r (c ∷ cs) e,
            split-last (c ∷ cs) (json.one_line r (c ∷ cs) e),
          )
          (ap (λ k. apply_all json apply on_parse_error s rs >>= k)
            (fun_ext λ s'.
              loop_parsed json apply on_parse_error false (length ls) r c cs [] s'
                (json.round_trip r (c ∷ cs) e)
              ∙ after_last (length ls + 1) s' (apply s' r)))
