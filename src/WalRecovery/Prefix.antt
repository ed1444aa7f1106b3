-- ===== src/WalRecovery/Prefix.antt =====
-- crates/wal-recovery/src/lib.rs: what is recovered from a log of written records, with a torn tail,
-- and from a log with a bad line in it.
use kaleidoscope.Prelude.{
  ℕ, suc, ◌+◌, ◌≡◌, refl, ap, ◌∙◌, String, Bool, false, Option, none, some, List, [], ◌∷◌, ◌++◌,
  arith, Result, ok, err, ◌>>=◌, length, not, ◌&&◌,
}
use mathlib.Core.Path.{fun_ext}
use kaleidoscope.WalRecovery.Replay.{
  Bytes, newline, split, ends_with_newline, TornTail, is_nil, replay_parts,
  replay_wal_tolerating_torn_tail,
}
use kaleidoscope.WalRecovery.Utf8.{
  from_utf8_lossy, from_utf8_lossy-line, from_utf8_lossy-IsLine, from_utf8_lossy-cons,
}
use kaleidoscope.WalRecovery.Json.{JsonLines, Written, Written-lines, Written-utf8}
use kaleidoscope.WalRecovery.Lines.{
  IsLine, terminated, split-line, split-last, split-terminated, split-ne-nil, lossy-terminated,
  ends_with_newline-append, ends_with_newline-line,
}

module _ {R S E : Type 0} (json : JsonLines R) (apply : S → R → Result S E)
    (on_parse_error : ℕ → String → E) where
  -- Every record applied in order.
  unfoldable pub apply_all : S → List R → Result S E
  apply_all s [] = ok s
  apply_all s (r ∷ rs) = apply s r >>= λ s'. apply_all s' rs

  abbrev pub loop : Bool → ℕ → List Bytes → S → Result (S × Option TornTail) E
  loop = replay_parts json.from_str apply on_parse_error

  pub loop_parsed :
      (ends : Bool) (index : ℕ) (r : R) (c : ℕ) (cs : Bytes) (parts : List Bytes) (s : S)
      → json.from_str (c ∷ cs) ≡ ok r
      → loop ends index ((c ∷ cs) ∷ parts) s ≡ (apply s r >>= loop ends (index + 1) parts)
  unfolding replay_parts
  loop_parsed ends index r c cs parts s e = rw e refl

  loop_bad :
      (ends : Bool) (index : ℕ) (part : Bytes) (parts : List Bytes) (s : S) (e : String)
      → is_nil part ≡ false
      → json.from_str part ≡ err e
      → is_nil parts && not ends ≡ false
      → loop ends index (part ∷ parts) s ≡ err (on_parse_error (index + 1) e)
  unfolding replay_parts
  loop_bad ends index [] parts s e nonempty bad inner = cc
  loop_bad ends index (c ∷ cs) parts s e nonempty bad inner = rw bad (rw inner refl)

  loop_torn :
      (index : ℕ) (part : Bytes) (s : S) (e : String)
      → is_nil part ≡ false
      → json.from_str part ≡ err e
      → loop false index (part ∷ []) s
        ≡ ok (s, some (record { line = index + 1; dropped_bytes = length part }))
  unfolding replay_parts
  loop_torn index [] s e nonempty bad = cc
  loop_torn index (c ∷ cs) s e nonempty bad = rw bad refl

  at_index :
      (ends : Bool) (i j : ℕ) (parts : List Bytes) (s : S)
      → i ≡ j
      → loop ends i parts s ≡ loop ends j parts s
  at_index ends i j parts s e = ap (λ k. loop ends k parts s) e

  -- The loop over written lines, with more parts to come.
  replay_parts-Written :
      (ends : Bool) (index : ℕ) (rs : List R) (ls more : List Bytes) (s : S)
      → Written json rs ls
      → loop ends index (ls ++ more) s ≡ (apply_all s rs >>= loop ends (index + length ls) more)
  unfolding apply_all
  replay_parts-Written ends index [] [] more s w =
      at_index ends index (index + 0) more s (omega arith)
  replay_parts-Written ends index [] (l ∷ ls) more s w = absurd w
  replay_parts-Written ends index (r ∷ rs) [] more s w = absurd w
  replay_parts-Written ends index (r ∷ rs) ([] ∷ ls) more s w = cc (json.non_empty r [] w.0)
  replay_parts-Written ends index (r ∷ rs) ((c ∷ cs) ∷ ls) more s w =
      loop_parsed ends index r c cs (ls ++ more) s (json.round_trip r (c ∷ cs) w.0)
      ∙ go (apply s r) (λ s'. replay_parts-Written ends (index + 1) rs ls more s' w.1)
    where
      go :
          (first : Result S E)
          → ((s' : S)
              → loop ends (index + 1) (ls ++ more) s'
                ≡ (apply_all s' rs >>= loop ends (index + 1 + length ls) more))
          → (first >>= loop ends (index + 1) (ls ++ more))
            ≡ ((first >>= λ s'. apply_all s' rs) >>= loop ends (index + suc (length ls)) more)
      go (err e) ih = refl
      go (ok s') ih =
          ih s'
          ∙ ap (λ i. apply_all s' rs >>= loop ends i more)
              (let e : index + 1 + length ls ≡ index + suc (length ls) = omega arith in e)

  abbrev pub run : Bytes → S → Result (S × Option TornTail) E
  run = replay_wal_tolerating_torn_tail json.from_str apply on_parse_error

  -- The special case of an empty file agrees with the loop.
  run-loop :
      (bytes : Bytes) (s : S)
      → run bytes s ≡ loop (ends_with_newline bytes) 0 (split (from_utf8_lossy bytes)) s
  unfolding replay_wal_tolerating_torn_tail
  run-loop [] s = unfold split replay_parts ends_with_newline from_utf8_lossy in refl
  run-loop (b ∷ bytes) s = refl

  pub split-Written :
      (rs : List R) (ls : List Bytes) (tail : Bytes) (s : S)
      → Written json rs ls
      → run (terminated ls ++ tail) s ≡ (
          apply_all s rs
          >>= loop
              (ends_with_newline (terminated ls ++ tail))
              (length ls)
              (split (from_utf8_lossy tail)))
  split-Written rs ls tail s w =
      let ends = ends_with_newline (terminated ls ++ tail) in
      let after = from_utf8_lossy tail in
      run-loop (terminated ls ++ tail) s
      ∙ ap (λ text. loop ends 0 (split text) s)
          (lossy-terminated ls tail (Written-utf8 json rs ls w))
      ∙ ap (λ parts. loop ends 0 parts s) (split-terminated ls after (Written-lines json rs ls w))
      ∙ replay_parts-Written ends 0 rs ls (split after) s w
      ∙ ap (λ i. apply_all s rs >>= loop ends i (split after))
          (let e : 0 + length ls ≡ length ls = omega arith in e)

  -- The replay of a file of complete lines applies their records in order, and gives no warning.
  pub replay_complete :
      (rs : List R) (ls : List Bytes) (s : S)
      → Written json rs ls
      → run (terminated ls ++ []) s ≡ (apply_all s rs >>= λ s'. ok (s', none))
  replay_complete rs ls s w =
      split-Written rs ls [] s w ∙ unfold split replay_parts from_utf8_lossy in refl

  -- A last line that has no newline and whose text does not parse is dropped, and named in the
  -- warning, with the length of that text; what was written before it is recovered.
  pub replay_torn :
      (rs : List R) (ls : List Bytes) (c : ℕ) (cs : Bytes) (s : S) (e : String)
      → Written json rs ls
      → IsLine (c ∷ cs)
      → json.from_str (from_utf8_lossy (c ∷ cs)) ≡ err e
      → run (terminated ls ++ c ∷ cs) s ≡ (
          apply_all s rs >>= λ s'. ok (
            s',
            some (record {
              line = length ls + 1;
              dropped_bytes = length (from_utf8_lossy (c ∷ cs));
            }),
          ))
  replay_torn rs ls c cs s e w line bad =
      split-Written rs ls (c ∷ cs) s w
      ∙ rw
          (
            ends_with_newline-append (terminated ls) c cs,
            ends_with_newline-line c cs line,
            split-last (from_utf8_lossy (c ∷ cs)) (from_utf8_lossy-IsLine (c ∷ cs) line),
          )
          (ap (λ k. apply_all s rs >>= k)
            (fun_ext λ s'.
              loop_torn (length ls) (from_utf8_lossy (c ∷ cs)) s' e (from_utf8_lossy-cons c cs)
                bad))

  -- A line whose text does not parse, behind complete lines and ended by a newline, stops the replay
  -- with the error of its line number, whatever follows it.
  pub replay_corrupt :
      (rs : List R) (ls : List Bytes) (c : ℕ) (cs more : Bytes) (s : S) (e : String)
      → Written json rs ls
      → IsLine (c ∷ cs)
      → json.from_str (from_utf8_lossy (c ∷ cs)) ≡ err e
      → run (terminated ls ++ ((c ∷ cs) ++ newline ∷ more)) s
        ≡ (apply_all s rs >>= λ s'. err (on_parse_error (length ls + 1) e))
  replay_corrupt rs ls c cs more s e w line bad =
      split-Written rs ls ((c ∷ cs) ++ newline ∷ more) s w
      ∙ rw
          (
            from_utf8_lossy-line (c ∷ cs) more,
            split-line (from_utf8_lossy (c ∷ cs)) (from_utf8_lossy more)
                (from_utf8_lossy-IsLine (c ∷ cs) line),
          )
          (ap (λ k. apply_all s rs >>= k)
            (fun_ext λ s'.
              loop_bad _ (length ls) (from_utf8_lossy (c ∷ cs)) (split (from_utf8_lossy more)) s' e
                (from_utf8_lossy-cons c cs) bad (rw (split-ne-nil (from_utf8_lossy more)) refl)))
