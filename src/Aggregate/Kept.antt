-- ===== src/Aggregate/Kept.antt =====
-- internal/distributed/aggregate.go: the snapshots that a run keeps of its workers.
use flow_routine.Prelude.{Option, none, some, List, [], ◌∷◌}
use Prim.Native.String.{String}
use flow_routine.Prelude.Int.{ℤ}
use flow_routine.Prelude.Result.{Result}
use flow_routine.Aggregate.{SnapshotResponse}
use flow_routine.Aggregate.Polls.{RunWorker, Descriptors, RunState, take_snapshot}
use flow_routine.Aggregate.Grows.{Grows}
use flow_routine.Aggregate.Totals.{Consistent}

abbrev pub LastConsistent : Option SnapshotResponse → Type 0
LastConsistent none = Unit {0}
LastConsistent (some r) = Consistent r

abbrev pub LastGrows : Option SnapshotResponse → Option SnapshotResponse → Type 0
LastGrows none later = Unit {0}
LastGrows (some p) none = ⊥
LastGrows (some p) (some c) = Grows p c

abbrev pub WorkerGrows : RunWorker → RunWorker → Type 0
WorkerGrows w w' = LastGrows w.last w'.last

abbrev pub AllConsistent : List RunWorker → Type 0
AllConsistent [] = Unit {0}
AllConsistent (w ∷ workers) = LastConsistent w.last × AllConsistent workers

-- A run through any number of polls, with any answers.
pub data Polls (started_at : ℤ) (first : RunState) : RunState → Type 0 where
  begin : Polls started_at first first
  poll :
      {run : RunState} (now : ℤ) (answers : List (Result String SnapshotResponse))
      → Polls started_at first run
      → Polls started_at first (take_snapshot started_at now answers run)

module _ (started_at now : ℤ) where
  module _ (worker : RunWorker) (kept : LastConsistent worker.last) where
    abbrev Good : Descriptors × RunWorker → Type 0
    Good r = LastConsistent r.1.last × WorkerGrows worker r.1
