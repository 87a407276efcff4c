-- ===== src/Outbox/Worker.antt =====
-- Visualize/integration/kafka/outbox_worker.py: the delivery worker, and `compute_next_retry_at` of
-- outbox_store.py. The producer's answers, the clock, the random draw and the errors of SQLite are
-- arguments, and `json.loads` is a parameter. Threads, locks and the poll loop are left out: a
-- delivery callback is a step of its own.
pub mod Flush
pub mod Flight
pub mod Sorting
use smart_data_models.Prelude.{
  ℕ, zero, suc, ◌+◌, ◌-◌, ◌*◌, ◌/◌, ◌^◌, min, String, ℤ, minus_one, Bool, true, false, not, ◌&&◌,
  ◌||◌, Option, none, some, List, [], ◌∷◌, ◌++◌, map, leb, ltb, if◌then◌else◌, string_key, ◌==◌,
  length,
}
use smart_data_models.Outbox.Table.{EventKind, entity, run_started, OutboxRecord}
use smart_data_models.Outbox.Store.{OutboxStore}
use smart_data_models.Outbox.Updates.{
  Written, wrote, raised, Ack, Failure, Defect, fetch_eligible, mark_queued_batch, mark_acked_batch,
  mark_failed_retryable_batch, mark_failed_permanent_batch,
}

-- The delay before the next attempt, in microseconds, of an attempt count and a draw in thousandths
-- (`0.5 + random.random()` lies between 500 and 1500).
unfoldable pub retry_delay_us : ℕ → ℕ → ℕ
retry_delay_us attempt draw = min 60000000 (500000 * 2 ^ attempt) * draw / 1000

unfoldable pub compute_next_retry_at : ℕ → ℕ → ℕ → ℕ
unfolding retry_delay_us
compute_next_retry_at now attempt draw = now + retry_delay_us attempt draw

pub record Worker : Type 0 where
  pub store : OutboxStore
  pub max_in_flight : ℕ
  pub in_flight : ℕ
  pub pending_acks : List Ack
  pub pending_fails : List Failure
  pub produced_total : ℕ
  pub acked_total : ℕ
  pub failed_total : ℕ

unfoldable pub restore_acks : Worker → List Ack → OutboxStore × Written → Worker × Option String
restore_acks w acks (s, wrote n) = (record w { store = s }, none)
restore_acks w acks (s, raised e) =
    (record w { store = s; pending_acks = acks ++ w.pending_acks }, some e)

unfoldable pub restore_fails :
    Worker → List Failure → OutboxStore × Written → Worker × Option String
restore_fails w fails (s, wrote n) = (record w { store = s }, none)
restore_fails w fails (s, raised e) =
    (record w { store = s; pending_fails = fails ++ w.pending_fails }, some e)

-- The second half of the flush runs only where the first did not raise.
unfoldable pub flush_fails :
    ℕ → Option String → List Failure → Worker × Option String → Worker × Option String
unfolding restore_fails
flush_fails now error fails (w, some raised_by_acks) = (w, some raised_by_acks)
flush_fails now error [] (w, none) = (w, none)
flush_fails now error (f ∷ fs) (w, none) =
    restore_fails w (f ∷ fs) (mark_failed_retryable_batch w.store now error (f ∷ fs))

unfoldable pub flush_acks : ℕ → Option String → List Ack → Worker → Worker × Option String
unfolding restore_acks
flush_acks now error [] w = (w, none)
flush_acks now error (a ∷ as') w =
    restore_acks w (a ∷ as') (mark_acked_batch w.store now error (a ∷ as'))

-- Both buffers are emptied before the first write.
unfoldable pub flush_status_buffers :
    Worker → ℕ → Option String → Option String → Worker × Option String
unfolding flush_acks flush_fails
flush_status_buffers w now ack_error fail_error =
    flush_fails now fail_error w.pending_fails
      (flush_acks now ack_error w.pending_acks (record w { pending_acks = []; pending_fails = [] }))

-- What the code reads of a parsed payload, which is taken to be an object; a key that is absent is
-- `none`. Of the reason for a payload that does not parse, the exception's text is left out.
pub record Body : Type 0 where
  pub event_type : Option String
  pub event_id : Option String
  pub entity_payload_hash : Option String

abbrev pub is_text : Option String → String → Bool
is_text none s = false
is_text (some t) s = t == s

module _ (parse : String → Option Body) where
  unfoldable pub start_defect : Option Body → Option String
  start_defect none = some "payload parse"
  start_defect (some body) =
      if is_text body.event_type "TrafficSimulationRunStarted"
      then none
      else some "run_started eventType mismatch"

  unfoldable pub entity_defect : OutboxRecord → Option Body → Option String
  entity_defect r none = some "payload parse"
  entity_defect r (some body) =
      if not (is_text body.event_id r.event_id)
      then some "payload eventId mismatch"
      else if not (is_text body.entity_payload_hash r.payload_hash)
      then some "payload_hash mismatch vs frozen row"
      else none

  unfoldable pub payload_defect : OutboxRecord → Option String
  unfolding start_defect entity_defect
  payload_defect r = elim r.event_kind [
    | run_started ↦ start_defect (parse r.payload_json)
    | entity ↦ entity_defect r (parse r.payload_json)
  ]

-- The answer of `produce`, and what the error path of one dispatch meets.
pub data Produced : Type 0 where
  accepted : Produced
  refused : String → Produced

pub record Shot : Type 0 where
  pub answer : Produced
  pub now : ℕ
  pub draw : ℕ
  pub write_error : Option String

-- The error path of one dispatch.
unfoldable pub produce_failed : Worker → OutboxStore × Written → Worker × Option String
produce_failed w (s, wrote n) =
    (record w { store = s; in_flight = w.in_flight - 1; failed_total = w.failed_total + 1 }, none)
produce_failed w (s, raised e) = (record w { store = s }, some e)

-- What follows the call of `produce` of one row, counted in flight already.
unfoldable pub dispatched : Worker → OutboxRecord → Shot → Produced → Worker × Option String
unfolding compute_next_retry_at produce_failed
dispatched w r shot accepted = (record w { produced_total = w.produced_total + 1 }, none)
dispatched w r shot (refused e) =
    let retry_at = compute_next_retry_at shot.now (r.attempt_count + 1) shot.draw in
    produce_failed w (
      mark_failed_retryable_batch w.store shot.now shot.write_error
        ((r.event_id, e, retry_at) ∷ []))

unfoldable pub dispatch : Worker → OutboxRecord → Shot → Worker × Option String
unfolding dispatched
dispatch w r shot = dispatched (record w { in_flight = w.in_flight + 1 }) r shot shot.answer

-- The loop ends at the first error that a dispatch raises.
unfoldable pub dispatch_all :
    (OutboxRecord → Shot) → List OutboxRecord → Worker × Option String → Worker × Option String
unfolding dispatch
dispatch_all shot rs (w, some e) = (w, some e)
dispatch_all shot [] (w, none) = (w, none)
dispatch_all shot (r ∷ rs) (w, none) = dispatch_all shot rs (dispatch w r (shot r))

-- The rows of a batch with a defect, and those without.
unfoldable pub sort_one :
    OutboxRecord → Option String → List Defect × List OutboxRecord → List Defect × List OutboxRecord
sort_one r none (permanent, ready) = (permanent, r ∷ ready)
sort_one r (some reason) (permanent, ready) = ((r.event_id, reason) ∷ permanent, ready)

unfoldable pub sort_out :
    (OutboxRecord → Option String) → List OutboxRecord → List Defect × List OutboxRecord
unfolding sort_one
sort_out defect [] = ([], [])
sort_out defect (r ∷ rs) = sort_one r (defect r) (sort_out defect rs)

unfoldable pub failed_permanent : Worker → ℕ → OutboxStore × Written → Worker × Option String
failed_permanent w n (s, wrote _) =
    (record w { store = s; failed_total = w.failed_total + n }, none)
failed_permanent w n (s, raised e) = (record w { store = s }, some e)

unfoldable pub fail_permanent : Worker → ℕ → Option String → List Defect → Worker × Option String
unfolding failed_permanent
fail_permanent w now error [] = (w, none)
fail_permanent w now error (d ∷ ds) =
    failed_permanent w (length (d ∷ ds)) (mark_failed_permanent_batch w.store now error (d ∷ ds))

-- What the write of the queued rows answered.
unfoldable pub queued : Worker → OutboxStore × Written → Worker × Option String
queued w (s, wrote _) = (record w { store = s }, none)
queued w (s, raised e) = (record w { store = s }, some e)

unfoldable pub queue_ready :
    (OutboxRecord → Shot)
    → ℕ
    → Option String
    → List OutboxRecord
    → Worker × Option String
    → Worker × Option String
unfolding dispatch_all queued
queue_ready shot now error ready (w, some e) = (w, some e)
queue_ready shot now error [] (w, none) = (w, none)
queue_ready shot now error (r ∷ rs) (w, none) =
    let event_ids = map (λ (q : OutboxRecord). q.event_id) (r ∷ rs) in
    dispatch_all shot (r ∷ rs) (queued w (mark_queued_batch w.store now error event_ids))

unfoldable pub dispatch_batch :
    (String → Option Body)
    → (OutboxRecord → Shot)
    → Worker
    → ℕ
    → Option String
    → Option String
    → List OutboxRecord
    → Worker × Option String
unfolding payload_defect sort_out fail_permanent queue_ready
dispatch_batch parse shot w now permanent_error queue_error records =
    let (permanent, ready) = sort_out (payload_defect parse) records in
    queue_ready shot now queue_error ready (fail_permanent w now permanent_error permanent)

-- A delivery report: an error, or the message's partition and offset, where there is a message and
-- where it has them.
pub data Report : Type 0 where
  failed : String → Report
  delivered : Option (Option ℤ × Option ℤ) → Report

unfoldable pub or_minus_one : Option ℤ → ℤ
or_minus_one none = minus_one
or_minus_one (some z) = z

unfoldable pub acked_place : Option (Option ℤ × Option ℤ) → ℤ × ℤ
unfolding or_minus_one
acked_place none = (minus_one, minus_one)
acked_place (some (part, off)) = (or_minus_one part, or_minus_one off)

-- The callback of one produced row; `attempt` is its attempt count plus one.
unfoldable pub on_delivery : Worker → String → ℕ → ℕ → ℕ → Report → Worker
unfolding compute_next_retry_at acked_place
on_delivery w event_id attempt now draw (failed e) = record w {
  pending_fails = w.pending_fails ++ (event_id, e, compute_next_retry_at now attempt draw) ∷ [];
  failed_total = w.failed_total + 1;
  in_flight = w.in_flight - 1;
}
on_delivery w event_id attempt now draw (delivered at) =
    let place = acked_place at in
    record w {
      pending_acks = w.pending_acks ++ (event_id, place.0, place.1) ∷ [];
      acked_total = w.acked_total + 1;
      in_flight = w.in_flight - 1;
    }

-- One round of the worker's loop, up to the poll: an error that is raised ends the round.
unfoldable pub fill_room :
    (String → Option Body)
    → (OutboxRecord → Shot)
    → ℕ
    → Option String
    → Option String
    → Worker × Option String
    → Worker × Option String
unfolding dispatch_batch
fill_room parse shot now permanent_error queue_error (w, some e) = (w, some e)
fill_room parse shot now permanent_error queue_error (w, none) =
    let room = w.max_in_flight - w.in_flight in
    if ltb 0 room
    then dispatch_batch parse shot w now permanent_error queue_error
        (fetch_eligible w.store room now)
    else (w, none)
