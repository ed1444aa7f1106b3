-- ===== src/Storage/Replayed.antt =====
-- What a log of appended records replays to, as `open` of the stores does.
use kaleidoscope.Prelude.{
  ℕ, ◌+◌, ◌≡◌, refl, sym, ap, ◌∙◌, String, false, Option, none, some, List, [], ◌∷◌, ◌++◌, Result,
  ok, err, ◌>>=◌, length, ◌⊎◌, inl, inr,
}
use mathlib.Core.List.{append_assoc, append-nil}
use kaleidoscope.WalRecovery.Replay.{
  Bytes, newline, TornTail, is_nil, replay_wal_tolerating_torn_tail,
}
use kaleidoscope.WalRecovery.Utf8.{from_utf8_lossy}
use kaleidoscope.WalRecovery.Lines.{terminated}
use kaleidoscope.WalRecovery.Json.{JsonLines, Written}
use kaleidoscope.WalRecovery.Prefix.{apply_all, replay_complete}
use kaleidoscope.WalRecovery.Crash.{replay_torn_write}
use kaleidoscope.Storage.Log.{
  Reason, Outcome, done, failed, unsynced, LogFile, flushed, buffer_line, append_wal, write_line,
}

-- No flush and no fsync fails.
abbrev pub IsClean : Outcome → Type 0
IsClean done = Unit
IsClean outcome = ⊥

-- Records applied in order, by a function that always succeeds.
unfoldable pub fold {ℓ κ} : {S : Type ℓ} {R : Type κ} → (S → R → S) → S → List R → S
fold f s [] = s
fold f s (r ∷ rs) = fold f (f s r) rs

pub fold-append {ℓ κ} :
    {S : Type ℓ} {R : Type κ} (f : S → R → S) (s : S) (rs : List R) (r : R)
    → fold f s (rs ++ r ∷ []) ≡ f (fold f s rs) r
unfolding fold
fold-append f s [] r = refl
fold-append f s (q ∷ rs) r = fold-append f (f s q) rs r

pub terminated-append :
    (ls : List Bytes) (l : Bytes) → terminated (ls ++ l ∷ []) ≡ terminated ls ++ (l ++ newline ∷ [])
unfolding terminated
terminated-append [] l = refl
terminated-append (k ∷ ls) l =
    ap (λ end. k ++ newline ∷ end) (terminated-append ls l)
    ∙ sym (append_assoc k (newline ∷ terminated ls) (l ++ newline ∷ []))

module _ {R : Type 0} (json : JsonLines R) where
  -- The file is the lines of these records.
  pub record Logged (wal : LogFile) (rs : List R) : Type 0 where
    pub lines : List Bytes
    pub written : Written json rs lines
    pub file : wal.bytes ≡ terminated lines
    pub flushed_all : wal.buffered ≡ []

  Written-append :
      (rs : List R) (ls : List Bytes) (r : R) (l : Bytes)
      → Written json rs ls
      → json.to_string r ≡ ok l
      → Written json (rs ++ r ∷ []) (ls ++ l ∷ [])
  Written-append [] [] r l w e = (e, tt)
  Written-append [] (k ∷ ls) r l w e = absurd w
  Written-append (q ∷ rs) [] r l w e = absurd w
  Written-append (q ∷ rs) (k ∷ ls) r l w e = (w.0, Written-append rs ls r l w.1 e)

  pub Logged-line :
      (wal : LogFile) (rs : List R) (r : R) (l : Bytes)
      → Logged wal rs
      → json.to_string r ≡ ok l
      → Logged (flushed (buffer_line wal l)) (rs ++ r ∷ [])
  unfolding flushed buffer_line
  Logged-line wal rs r l h e = record {
    lines = h.lines ++ l ∷ [];
    written = Written-append rs h.lines r l h.written e;
    file =
        ap (λ b. wal.bytes ++ (b ++ (l ++ newline ∷ []))) h.flushed_all
        ∙ ap (λ b. b ++ (l ++ newline ∷ [])) h.file
        ∙ sym (terminated-append h.lines l);
    flushed_all = refl;
  }

  -- A clean append writes the record, or fails and leaves the log as it was.
  pub append_clean :
      (outcome : Outcome) (wal : LogFile) (rs : List R) (r : R)
      → IsClean outcome
      → Logged wal rs
      → ((e : Reason) × (append_wal json outcome wal r ≡ (wal, err e)))
        ⊎ ((wal' : LogFile) × (append_wal json outcome wal r ≡ (wal', ok tt))
            × Logged wal' (rs ++ r ∷ []))
  unfolding append_wal write_line
  append_clean outcome wal rs r clean h = go outcome clean (json.to_string r) refl
    where
      go :
          (outcome : Outcome)
          → IsClean outcome
          → (text : Result Bytes String) → json.to_string r ≡ text
          → ((e : Reason) × (write_line outcome wal text ≡ (wal, err e)))
            ⊎ ((wal' : LogFile) × (write_line outcome wal text ≡ (wal', ok tt))
                × Logged wal' (rs ++ r ∷ []))
      go done clean (err e) t = inl (Reason.parse e, refl)
      go done clean (ok l) t = inr (flushed (buffer_line wal l), refl, Logged-line wal rs r l h t)
      go (failed e) clean text t = absurd clean
      go (unsynced e) clean text t = absurd clean

  module _ {S E : Type 0} (apply : S → R → S) (on_parse_error : ℕ → String → E) where
    abbrev pub always : S → R → Result S E
    always s r = ok (apply s r)

    pub apply_all-fold :
        (s : S) (rs : List R) → apply_all json always on_parse_error s rs ≡ ok (fold apply s rs)
    unfolding apply_all fold
    apply_all-fold s [] = refl
    apply_all-fold s (r ∷ rs) = apply_all-fold (apply s r) rs

    abbrev pub replayed : Bytes → S → Result (S × Option TornTail) E
    replayed = replay_wal_tolerating_torn_tail json.from_str always on_parse_error

    pub replayed-Logged :
        (wal : LogFile) (rs : List R) (s : S)
        → Logged wal rs
        → replayed wal.bytes s ≡ ok (fold apply s rs, none)
    replayed-Logged wal rs s h =
        ap (λ b. replayed b s) (h.file ∙ sym (append-nil (terminated h.lines)))
        ∙ replay_complete json always on_parse_error rs h.lines s h.written
        ∙ ap (λ first. first >>= λ s'. ok (s', none)) (apply_all-fold s rs)

    -- The file after a part of one more line.
    pub replayed-torn :
        (wal : LogFile) (rs : List R) (r : R) (l front : Bytes) (d : ℕ) (rest : Bytes) (s : S)
        → (h : Logged wal rs) → json.to_string r ≡ ok l
        → l ≡ front ++ d ∷ rest
        → is_nil front ≡ false
        → replayed (wal.bytes ++ front) s
          ≡ ok (
            fold apply s rs,
            some (record {
              line = length h.lines + 1;
              dropped_bytes = length (from_utf8_lossy front);
            }),
          )
    replayed-torn wal rs r l front d rest s h e parts nonempty =
        ap (λ b. replayed (b ++ front) s) h.file
        ∙ replay_torn_write json always on_parse_error rs h.lines r l front d rest s h.written e
            parts nonempty
        ∙ ap
            (λ first. first >>= λ s'. ok (
              s',
              some (record {
                line = length h.lines + 1;
                dropped_bytes = length (from_utf8_lossy front);
              }),
            ))
            (apply_all-fold s rs)
