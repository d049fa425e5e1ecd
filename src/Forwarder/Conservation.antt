-- ===== src/Forwarder/Conservation.antt =====
-- What the steps of the worker of the forwarder keep.
use pipe_bolt.Prelude.{
  Bool, List, Option, [], arith, false, length, length-append, none, refl, some, true, ℕ, ◌%◌, ◌++◌,
  ◌+◌, ◌∷◌, ◌≡◌, ◌≢◌,
}
use pipe_bolt.Forwarder.Delivery.{
  ForwardDeliveryOutcome, ForwardDeliveryStatus, ForwarderStats, delivered, delivery_failed,
  execute_request, http_rejected, record_join_result, record_status, response_too_large, settle,
  timed_out,
}
use pipe_bolt.Forwarder.Worker.{
  ForwardWorker, Reachable, Step, aborting, counts, crashes, finish_task, finishes, goes,
  joins_crashed, joins_ended, new_worker, receives, sends, shuts_down, spawns, starts, times_out,
}

abbrev pub counter_base : ℕ
counter_base = 18446744073709551616

-- The deliveries that have been counted.
abbrev pub tally : ForwarderStats → ℕ
tally s =
    s.delivered_total + s.rejected_total + s.timed_out_total + s.failed_total
    + s.response_too_large_total

abbrev pub held_count : {A : Type 0} → Option A → ℕ
held_count none = 0
held_count (some a) = 1

-- The counter of a status goes up, and no other.
tally-record_status :
    (status : ForwardDeliveryStatus) (s : ForwarderStats) (k : ℕ)
    → (tally (record_status status s) + k) % counter_base ≡ (tally s + 1 + k) % counter_base
unfolding record_status
tally-record_status (delivered code bytes) s k = omega arith
tally-record_status (http_rejected code bytes) s k = omega arith
tally-record_status timed_out s k = omega arith
tally-record_status (response_too_large limit) s k = omega arith
tally-record_status (delivery_failed reason) s k = omega arith

accepted-record_status :
    (status : ForwardDeliveryStatus) (s : ForwarderStats)
    → (record_status status s).accepted_total ≡ s.accepted_total
unfolding record_status
accepted-record_status (delivered code bytes) s = refl
accepted-record_status (http_rejected code bytes) s = refl
accepted-record_status timed_out s = refl
accepted-record_status (response_too_large limit) s = refl
accepted-record_status (delivery_failed reason) s = refl

tally-settle :
    (outcome : ForwardDeliveryOutcome) (taken : Bool) (s : ForwarderStats) (k : ℕ)
    → (tally (settle outcome taken s) + k) % counter_base ≡ (tally s + 1 + k) % counter_base
unfolding settle
tally-settle outcome true s k = tally-record_status outcome.status s k
tally-settle outcome false s k = tally-record_status outcome.status s k

accepted-settle :
    (outcome : ForwardDeliveryOutcome) (taken : Bool) (s : ForwarderStats)
    → (settle outcome taken s).accepted_total ≡ s.accepted_total
unfolding settle
accepted-settle outcome true s = accepted-record_status outcome.status s
accepted-settle outcome false s = accepted-record_status outcome.status s

length-split :
    {A : Type 0} (xs before after : List A) (a : A)
    → xs ≡ before ++ a ∷ after
    → length xs ≡ length (before ++ after) + 1
length-split xs before after a e =
    rw e (omega (arith, length-append before (a ∷ after), length-append before after))

module _ {T : Type 0} where
  -- The requests that were sent and have not been counted.
  abbrev pub outstanding : ForwardWorker T → ℕ
  outstanding s = s.crashed + length s.running + held_count s.held + length s.pending

  abbrev pub Balanced : ForwardWorker T → Type 0
  Balanced s =
      (s.stats.accepted_total + s.sending) % counter_base
      ≡ (tally s.stats + outstanding s) % counter_base

  Step-permits :
      (m : ℕ) {s t : ForwardWorker T}
      → Step s t
      → s.permits + length s.running ≡ m
      → t.permits + length t.running ≡ m
  Step-permits m (sends q e) h = h
  Step-permits m (counts rest e) h = h
  Step-permits m (receives q rest a b c) h = h
  Step-permits m (spawns q rest a b c) h = omega arith
  Step-permits m (finishes before after q late answer limit taken e) h =
      omega (arith, length-split _ before after q e)
  Step-permits m (crashes before after q e) h = omega (arith, length-split _ before after q e)
  Step-permits m (joins_ended rest a b) h = h
  Step-permits m (joins_crashed rest a b) h = h
  Step-permits m (shuts_down a b) h = h
  Step-permits m (times_out a) h = h

  -- In every state that the worker reaches, the permits that are left and the tasks that run are
  -- together as many as the limit of requests in flight.
  pub Reachable-permits :
      (m : ℕ) {s : ForwardWorker T} → Reachable m s → s.permits + length s.running ≡ m
  unfolding new_worker
  Reachable-permits m starts = omega arith
  Reachable-permits m (goes r step) = Step-permits m step (Reachable-permits m r)

  Step-Balanced : {s t : ForwardWorker T} → Step s t → t.stage ≢ aborting → Balanced s → Balanced t
  unfolding record_join_result
  Step-Balanced (sends {s = s} q e) n h = omega (arith, length-append s.pending (q ∷ []))
  Step-Balanced (counts rest e) n h = omega arith
  Step-Balanced (receives {s = s} q rest a b c) n h =
      let e : held_count s.held ≡ 0 = rw b refl in
      let f : length s.pending ≡ length rest + 1 = rw c (omega arith) in omega arith
  Step-Balanced (spawns {s = s} q rest a b c) n h =
      let e : held_count s.held ≡ 1 = rw b refl in omega arith
  Step-Balanced (finishes {s = s} before after q late answer limit taken e) n h =
      let outcome = execute_request late q.event_id q.sink_id answer limit in
      let t = finish_task (before ++ after) outcome taken s in
      omega (
        arith,
        length-split s.running before after q e,
        accepted-settle outcome taken s.stats,
        tally-settle outcome taken s.stats (outstanding t),
      )
  Step-Balanced (crashes before after q e) n h = omega (arith, length-split _ before after q e)
  Step-Balanced (joins_ended rest a b) n h = h
  Step-Balanced (joins_crashed rest a b) n h = omega arith
  Step-Balanced (shuts_down a b) n h = h
  Step-Balanced (times_out a) n h = elim (n refl) [ ]

  not_aborting-before : {s t : ForwardWorker T} → Step s t → t.stage ≢ aborting → s.stage ≢ aborting
  not_aborting-before (sends q e) n = n
  not_aborting-before (counts rest e) n = n
  not_aborting-before (receives q rest a b c) n = n
  not_aborting-before (spawns q rest a b c) n = n
  not_aborting-before (finishes before after q late answer limit taken e) n = n
  not_aborting-before (crashes before after q e) n = n
  not_aborting-before (joins_ended rest a b) n = n
  not_aborting-before (joins_crashed rest a b) n = n
  not_aborting-before (shuts_down a b) n = λ e. cc
  not_aborting-before (times_out a) n = elim (n refl) [ ]

  -- As long as the time limit of the shutdown has not run out, every request that was sent to the queue
  -- is in the queue, waits for a permit, runs, has ended without a join that counts it, or is in exactly
  -- one of the counters of deliveries (the counters wrap around at 64 bits).
  pub Reachable-Balanced :
      (m : ℕ) {s : ForwardWorker T} → Reachable m s → s.stage ≢ aborting → Balanced s
  unfolding new_worker
  Reachable-Balanced m starts n = refl
  Reachable-Balanced m (goes r step) n =
      Step-Balanced step n (Reachable-Balanced m r (not_aborting-before step n))
