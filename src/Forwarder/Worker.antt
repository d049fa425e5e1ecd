-- ===== src/Forwarder/Worker.antt =====
-- The worker of the forwarder as a system of steps: crates/pipe-bolt-core/src/forwarder.rs. The queue
-- is the list of the requests that it holds; what the channels, the tasks, the semaphore and the timer
-- decide is a choice between steps.
use pipe_bolt.Prelude.{Bool, List, Option, [], false, none, some, true, ℕ, ◌++◌, ◌+◌, ◌∷◌, ◌≡◌, ◌≢◌}
use pipe_bolt.Forwarder.Delivery.{
  ForwardDeliveryOutcome, ForwarderStats, Response, execute_request, record_acceptance,
  record_join_result, settle,
}
use pipe_bolt.Forwarder.Acceptance.{QueuedForwardRequest}

pub data Stage : Type 0 where
  serving draining aborting : Stage

-- `sending` counts the calls of `try_forward` that have sent and not yet counted. `held` is the
-- request that was received and waits for a permit; `running` are the requests of the tasks that have
-- not ended, and the tasks that have ended and were not joined are counted by how they ended.
pub record ForwardWorker (T : Type 0) : Type 0 where
  pub stage : Stage
  pub pending : List (QueuedForwardRequest T)
  pub sending : ℕ
  pub held : Option (QueuedForwardRequest T)
  pub permits : ℕ
  pub running : List (QueuedForwardRequest T)
  pub ended : ℕ
  pub crashed : ℕ
  pub stats : ForwarderStats

abbrev pub no_stats : ForwarderStats
no_stats = record {
  accepted_total = 0;
  backpressure_total = 0;
  delivered_total = 0;
  rejected_total = 0;
  timed_out_total = 0;
  failed_total = 0;
  response_too_large_total = 0;
  outcome_dropped_total = 0;
}

module _ {T : Type 0} where
  -- The worker of `try_channel_with_policy` when `run` starts.
  unfoldable pub new_worker : ℕ → ForwardWorker T
  new_worker max_in_flight = record {
    stage = serving;
    pending = [];
    sending = 0;
    held = none;
    permits = max_in_flight;
    running = [];
    ended = 0;
    crashed = 0;
    stats = no_stats;
  }

  -- `try_send` puts a request in the queue.
  abbrev pub send : QueuedForwardRequest T → ForwardWorker T → ForwardWorker T
  send q s = record s { pending = s.pending ++ q ∷ []; sending = s.sending + 1 }

  -- `record_acceptance` of a call that has sent.
  abbrev pub count_sent : ℕ → ForwardWorker T → ForwardWorker T
  count_sent rest s = record s { sending = rest; stats = record_acceptance s.stats }

  -- `recv`
  abbrev pub receive :
      QueuedForwardRequest T → List (QueuedForwardRequest T) → ForwardWorker T → ForwardWorker T
  receive q rest s = record s { pending = rest; held = some q }

  -- `acquire_owned` gives a permit, and `spawn_delivery` spawns.
  abbrev pub spawn_delivery : QueuedForwardRequest T → ℕ → ForwardWorker T → ForwardWorker T
  spawn_delivery q rest s = record s { held = none; permits = rest; running = q ∷ s.running }

  -- The end of a task, whose permit is dropped.
  abbrev pub finish_task :
      List (QueuedForwardRequest T)
      → ForwardDeliveryOutcome
      → Bool
      → ForwardWorker T
      → ForwardWorker T
  finish_task others outcome taken s = record s {
    running = others;
    permits = s.permits + 1;
    ended = s.ended + 1;
    stats = settle outcome taken s.stats;
  }

  -- The end of a task that panics or is aborted, whose permit is dropped.
  abbrev pub crash : List (QueuedForwardRequest T) → ForwardWorker T → ForwardWorker T
  crash others s = record s { running = others; permits = s.permits + 1; crashed = s.crashed + 1 }

  -- `join_next` of a task that has ended, and `record_join_result`.
  abbrev pub join_ended : ℕ → ForwardWorker T → ForwardWorker T
  join_ended rest s = record s { ended = rest; stats = record_join_result false s.stats }

  abbrev pub join_crashed : ℕ → ForwardWorker T → ForwardWorker T
  join_crashed rest s = record s { crashed = rest; stats = record_join_result true s.stats }

  -- The end of the time of `drain_remaining`, which drops a request that waits for a permit.
  abbrev pub abort_all : ForwardWorker T → ForwardWorker T
  abort_all s = record s { stage = aborting; held = none }

  -- The steps of `run`, `drain_remaining`, the tasks and the callers of `try_forward`.
  pub data Step : ForwardWorker T → ForwardWorker T → Type 0 where
    sends :
        {s : ForwardWorker T} (q : QueuedForwardRequest T) → s.stage ≡ serving → Step s (send q s)
    counts : {s : ForwardWorker T} (rest : ℕ) → s.sending ≡ rest + 1 → Step s (count_sent rest s)
    receives :
        {s : ForwardWorker T} (q : QueuedForwardRequest T) (rest : List (QueuedForwardRequest T))
        → s.stage ≢ aborting
        → s.held ≡ none
        → s.pending ≡ q ∷ rest
        → Step s (receive q rest s)
    spawns :
        {s : ForwardWorker T} (q : QueuedForwardRequest T) (rest : ℕ)
        → s.stage ≢ aborting
        → s.held ≡ some q
        → s.permits ≡ rest + 1
        → Step s (spawn_delivery q rest s)
    finishes :
        {s : ForwardWorker T} (before after : List (QueuedForwardRequest T))
        (q : QueuedForwardRequest T) (late : Bool) (answer : Option Response) (limit : ℕ)
        (taken : Bool)
        → s.running ≡ before ++ q ∷ after
        → Step s (
            finish_task
              (before ++ after)
              (execute_request late q.event_id q.sink_id answer limit)
              taken
              s)
    crashes :
        {s : ForwardWorker T} (before after : List (QueuedForwardRequest T))
        (q : QueuedForwardRequest T)
        → s.running ≡ before ++ q ∷ after
        → Step s (crash (before ++ after) s)
    joins_ended :
        {s : ForwardWorker T} (rest : ℕ)
        → s.held ≡ none
        → s.ended ≡ rest + 1
        → Step s (join_ended rest s)
    joins_crashed :
        {s : ForwardWorker T} (rest : ℕ)
        → s.held ≡ none
        → s.crashed ≡ rest + 1
        → Step s (join_crashed rest s)
    shuts_down :
        {s : ForwardWorker T}
        → s.stage ≡ serving
        → s.held ≡ none
        → Step s (record s { stage = draining })
    times_out : {s : ForwardWorker T} → s.stage ≡ draining → Step s (abort_all s)

  pub data Reachable (max_in_flight : ℕ) : ForwardWorker T → Type 0 where
    starts : Reachable max_in_flight (new_worker max_in_flight)
    goes :
        {s t : ForwardWorker T} → Reachable max_in_flight s → Step s t → Reachable max_in_flight t
