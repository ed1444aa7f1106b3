-- ===== src/WalRecovery/Examples.antt =====
-- Logs of switches, replayed as crates/wal-recovery/src/lib.rs does, and its theorems on them.
use kaleidoscope.Prelude.{
  ℕ, ◌≡◌, refl, String, Bool, true, false, none, List, [], ◌∷◌, ◌++◌, arith, Result, ok, err, ◌>>=◌,
}
use kaleidoscope.WalRecovery.Replay.{Bytes, newline}
use kaleidoscope.WalRecovery.Lines.{terminated}
use kaleidoscope.WalRecovery.Json.{Written}
use kaleidoscope.WalRecovery.Prefix.{apply_all, run, replay_complete, replay_corrupt}
use kaleidoscope.WalRecovery.Utf8.{from_utf8_lossy}
use kaleidoscope.WalRecovery.Switches.{print, parse, switches}
use kaleidoscope.WalRecovery.Crash.{replay_unterminated}

-- The replayed state keeps the records, the last one first.
abbrev push : List Bool → Bool → Result (List Bool) String
push rs r = ok (r ∷ rs)

abbrev on_error : ℕ → String → String
on_error line reason = reason

abbrev two : List Bool
two = true ∷ false ∷ []

abbrev two_lines : List Bytes
two_lines = (195 ∷ 169 ∷ []) ∷ (195 ∷ 168 ∷ []) ∷ []

two-Written : Written switches two two_lines
unfolding print
two-Written = (refl, (refl, tt))

replay_complete_example :
    run switches push on_error (terminated two_lines ++ []) []
    ≡ (apply_all switches push on_error [] two >>= λ s'. ok (s', none))
replay_complete_example = replay_complete switches push on_error two two_lines [] two-Written

replay_unterminated_example :
    run switches push on_error (terminated two_lines ++ 195 ∷ 169 ∷ []) []
    ≡ (apply_all switches push on_error [] two >>= λ s'. push s' true >>= λ s''. ok (s'', none))
replay_unterminated_example =
    replay_unterminated switches push on_error two two_lines true (195 ∷ 169 ∷ []) [] two-Written
      (unfold print in refl)

-- Half a record, the next record behind it on the same line, and one more.
replay_corrupt_example :
    run switches push on_error
      (terminated two_lines ++ ((195 ∷ 195 ∷ 169 ∷ []) ++ newline ∷ 195 ∷ 168 ∷ newline ∷ []))
      []
    ≡ (apply_all switches push on_error [] two >>= λ s'. err (on_error 3 "trailing characters"))
replay_corrupt_example =
    replay_corrupt switches push on_error two two_lines 195 (195 ∷ 169 ∷ [])
      (195 ∷ 168 ∷ newline ∷ []) [] "trailing characters" two-Written (omega arith)
      (unfold parse from_utf8_lossy in refl)

-- The three first bytes of a character of four, and an overlong form of one byte.
lossy_cut : from_utf8_lossy (240 ∷ 144 ∷ 128 ∷ 87 ∷ []) ≡ 239 ∷ 191 ∷ 189 ∷ 87 ∷ []
unfolding from_utf8_lossy
lossy_cut = refl

lossy_overlong : from_utf8_lossy (224 ∷ 128 ∷ []) ≡ 239 ∷ 191 ∷ 189 ∷ 239 ∷ 191 ∷ 189 ∷ []
unfolding from_utf8_lossy
lossy_overlong = refl
