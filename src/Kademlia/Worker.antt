-- ===== src/Kademlia/Worker.antt =====
-- The replication worker of kademlia/kademlia.go. `StartReplicationWorker` and
-- `StopReplicationWorker` hold `workerMu` for their whole run, also while they wait for the
-- goroutines to end, so one call runs at a time, while goroutines replicate and leave in between.
pub mod Single
use d7024e_lab.Prelude.{
  In, List, Option, [], if◌then◌else◌, none, some, ℕ, ◌++◌, ◌+◌, ◌==◌, ◌∷◌, ◌≡◌,
}

-- `DefaultReplicationInterval`, in seconds.
abbrev pub default_replication_interval : ℕ
default_replication_interval = 3600

-- The call that waits in `replicateWg.Wait()`, if any.
pub data Phase : Type 0 where
  idle : Phase
  stopping : Phase
  restarting : ℕ → Phase

-- `stop` is the field `stopReplication`; channels are numbered as they are made. `live` has the
-- channel of every goroutine that runs, and `closed` the channels that were closed.
pub record Worker : Type 0 where
  pub interval : ℕ
  pub stop : Option ℕ
  pub live : List ℕ
  pub closed : List ℕ
  pub next_channel : ℕ
  pub phase : Phase

abbrev pub no_worker : Worker
no_worker = record {
  interval = 0;
  stop = none;
  live = [];
  closed = [];
  next_channel = 0;
  phase = idle;
}

-- The rest of `StartReplicationWorker`. A duration that is not positive is 0 here.
unfoldable pub begin_worker : ℕ → Worker → Worker
begin_worker d w = record {
  interval = if d == 0 then default_replication_interval else d;
  stop = some w.next_channel;
  live = w.next_channel ∷ w.live;
  closed = w.closed;
  next_channel = w.next_channel + 1;
  phase = idle;
}

-- A call up to its wait.
unfoldable pub start_worker : ℕ → Worker → Worker
unfolding begin_worker
start_worker d w = elim w.stop [
  | none ↦ begin_worker d w
  | some ch ↦ record w { closed = ch ∷ w.closed; phase = restarting d }
]

unfoldable pub stop_worker : Worker → Worker
stop_worker w = elim w.stop [
  | none ↦ w
  | some ch ↦ record w { closed = ch ∷ w.closed; phase = stopping }
]

-- A call after its wait.
unfoldable pub end_wait : Worker → Worker
unfolding begin_worker
end_wait w = elim w.phase [
  | idle ↦ w
  | stopping ↦ record w { stop = none; phase = idle }
  | restarting d ↦ begin_worker d (record w { stop = none; phase = idle })
]

-- What happens next: a call begins, a call that waits goes on once no goroutine runs, a goroutine
-- replicates, or one whose channel is closed leaves.
pub data Step : Worker → Worker → Type 0 where
  starts : (w : Worker) (d : ℕ) → w.phase ≡ idle → Step w (start_worker d w)
  stops : (w : Worker) → w.phase ≡ idle → Step w (stop_worker w)
  goes_on : (w : Worker) → w.live ≡ [] → Step w (end_wait w)
  replicates : (w : Worker) (ch : ℕ) → In ch w.live → Step w w
  leaves :
      (w : Worker) (ch : ℕ) (before after : List ℕ)
      → w.live ≡ before ++ (ch ∷ after)
      → In ch w.closed
      → Step w (record w { live = before ++ after })

pub data Runs : Worker → Type 0 where
  begun : Runs no_worker
  stepped : (w w' : Worker) → Runs w → Step w w' → Runs w'
