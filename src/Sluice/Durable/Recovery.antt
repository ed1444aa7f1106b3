-- ===== src/Sluice/Durable/Recovery.antt =====
-- crates/sluice/src/file_backed.rs: what a reopened queue holds.
use kaleidoscope.Prelude.{
  ◌≡◌, refl, ap, ◌∙◌, String, List, [], ◌∷◌, ◌++◌, arith, inl, inr, ◌⊎◌, Result, ok, err, ◌>>=◌,
  nat_key, string_key,
}
use kaleidoscope.Sluice.Types.{EnqueueError, persistence_failed, InnerState}
use kaleidoscope.Sluice.Invariant.{IsWellFormed}
use kaleidoscope.Sluice.Durable.Log.{
  WalRecord, Codec, Outcome, LogFile, flushed, buffer, done, failed, unsynced, Loaded, append_wal,
  write_line, replay, apply_record, replay_line,
}
use kaleidoscope.Sluice.Durable.Replay.{Recovers, Replays}
use kaleidoscope.Sluice.Durable.Snapshot.{HasBytes}

-- No write and no fsync fails. (The text of a record may still fail.)
abbrev pub IsClean : Outcome → Type 0
IsClean done = Unit
IsClean outcome = ⊥

module _ (json : Codec WalRecord) where
  replay_line_written :
      (l : Loaded) (r : WalRecord) (line : json.Line)
      → json.to_string r ≡ ok line
      → replay_line json l line ≡ apply_record l r
  unfolding replay_line
  replay_line_written l r line e = ground (arith, json.non_empty r line e, json.round_trip r line e)

  -- A line that was written is replayed last.
  pub replay-append :
      (l : Loaded) (lines : List json.Line) (r : WalRecord) (line : json.Line)
      → json.to_string r ≡ ok line
      → replay json l (lines ++ line ∷ []) ≡ (replay json l lines >>= λ l'. apply_record l' r)
  unfolding replay
  replay-append l [] r line e = ground (arith, replay_line_written l r line e)
  replay-append l (x ∷ lines) r line e =
      go (replay_line json l x) (λ l'. replay-append l' lines r line e)
    where
      go :
          (first : Result Loaded EnqueueError)
          → ((l' : Loaded)
              → replay json l' (lines ++ line ∷ [])
                ≡ (replay json l' lines >>= λ l''. apply_record l'' r))
          → (first >>= λ l'. replay json l' (lines ++ line ∷ []))
            ≡ ((first >>= λ l'. replay json l' lines) >>= λ l''. apply_record l'' r)
      go (err e') ih = refl
      go (ok l') ih = ih l'

-- The files of a queue, read back, give what the state `s` holds. `base` is what the snapshot loads.
pub record IsDurable (json : Codec WalRecord) (base : Result Loaded EnqueueError) (s : InnerState)
    (wal : LogFile json.Line) : Type 0 where
  pub flushed_all : wal.buffered ≡ []
  pub well : IsWellFormed s
  pub bytes : HasBytes s
  pub loaded : Loaded
  pub loads : (base >>= λ l. replay json l wal.lines) ≡ ok loaded
  pub recovers : Recovers loaded s

module _ (json : Codec WalRecord) (base : Result Loaded EnqueueError) where
  pub loads-append :
      (b : Result Loaded EnqueueError) (wal : List json.Line) (loaded l' : Loaded) (r : WalRecord)
      (line : json.Line)
      → (b >>= λ l. replay json l wal) ≡ ok loaded
      → json.to_string r ≡ ok line
      → apply_record loaded r ≡ ok l'
      → (b >>= λ l. replay json l (wal ++ line ∷ [])) ≡ ok l'
  loads-append (err e) wal loaded l' r line h t a = cc
  loads-append (ok l) wal loaded l' r line h t a = ground (arith, replay-append json l wal r line t)

  -- A state with the files that the call before it left, and a line for the call itself.
  pub IsDurable-append :
      (s s' : InnerState) (wal : LogFile json.Line) (r : WalRecord) (line : json.Line)
      (d : IsDurable json base s wal)
      → json.to_string r ≡ ok line
      → Replays d.loaded r s'
      → IsWellFormed s'
      → HasBytes s'
      → IsDurable json base s' (flushed (buffer json wal line))
  IsDurable-append s s' wal r line d t (l', applied, recovers) w b = record {
    flushed_all = refl;
    well = w;
    bytes = b;
    loaded = l';
    loads =
        ap (λ buffered. base >>= λ l. replay json l (wal.lines ++ (buffered ++ line ∷ [])))
          d.flushed_all
        ∙ loads-append base wal.lines d.loaded l' r line d.loads t applied;
    recovers = recovers;
  }

module _ (json : Codec WalRecord) where
  -- A clean append has written its line, or has failed with the log as it was.
  pub append_clean :
      (outcome : Outcome) (wal : LogFile json.Line) (r : WalRecord)
      → IsClean outcome
      → ((e : EnqueueError) × (append_wal json outcome wal r ≡ (wal, err e)))
        ⊎ ((line : json.Line) × (json.to_string r ≡ ok line)
            × (append_wal json outcome wal r ≡ (flushed (buffer json wal line), ok tt)))
  unfolding append_wal
  append_clean outcome wal r clean = go outcome (json.to_string r) refl clean
    where
      go :
          (o : Outcome) (t : Result json.Line String)
          → json.to_string r ≡ t
          → IsClean o
          → ((e : EnqueueError) × (write_line json o wal t ≡ (wal, err e)))
            ⊎ ((line : json.Line) × (json.to_string r ≡ ok line)
                × (write_line json o wal t ≡ (flushed (buffer json wal line), ok tt)))
      go o (err reason) e c = inl (persistence_failed reason, refl)
      go done (ok line) e c = inr (line, e, refl)
      go (failed reason) (ok line) e c = absurd c
      go (unsynced reason) (ok line) e c = absurd c
