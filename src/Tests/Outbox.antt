-- ===== src/Tests/Outbox.antt =====
-- Tests of Outbox: two cycles, their delivery, and a broker that refuses.
use smart_data_models.Prelude.{
  ◌≤◌, ◌≡◌, refl, arith, false, Option, none, some, String, List, [], ◌∷◌, pos, minus_one, take,
  keep, ◌⊎◌,
}
use smart_data_models.Outbox.Table.{entity, run_started, OutboxRecord, find, outboxed}
use smart_data_models.Outbox.Store.{
  OutboxRow, OutboxStore, Machine, appended, duplicate_error, append_cycle, append_run_started,
}
use smart_data_models.Outbox.Store.Answers.{
  IsAppended, append_cycle-IsAppended, IsSameSentinel, append_run_started-existing,
}
use smart_data_models.Outbox.Updates.{fetch_eligible, is_eligible}
use smart_data_models.Outbox.Delivery.{Call, cycle, queue, ack, fail, recover, run}
use smart_data_models.Outbox.Delivery.Retention.{IsPending}
use smart_data_models.Outbox.Delivery.NoLoss.{Acknowledged, run-IsPending}
use smart_data_models.Outbox.Delivery.Fifo.{IsOrdered, fetch_eligible-run}
use smart_data_models.Outbox.Worker.{
  sort_out, payload_defect, Worker, Body, Shot, refused, flush_status_buffers, retry_delay_us,
  fill_room,
}
use smart_data_models.Outbox.Worker.Sorting.{IsSorted, sort_out-IsSorted}
use smart_data_models.Outbox.Worker.Flush.{flush_status_buffers-ack_error}
use smart_data_models.Outbox.Worker.Flight.{in_flight-fill_room}

abbrev row : String → OutboxRow
row id = record {
  event_id = id;
  simulation_run_id = "run";
  cycle_sequence = 1;
  entity_sequence = 1;
  event_key = "node";
  topic = "traffic";
  payload_json = "{}";
  payload_hash = "h";
  event_kind = entity;
}

abbrev machine : Machine
machine = record { now = 5; free_bytes = 1000; begin_error = none; commit_error = none }

abbrev empty : OutboxStore
empty = record {
  rows = [];
  next_sequence = 0;
  disk_warn_free_bytes = 100;
  disk_fault_free_bytes = 10;
  faulted = false;
  fault_message = none;
  degraded = false;
}

abbrev rec_a : OutboxRecord
rec_a = record {
  event_id = "a";
  simulation_run_id = "run";
  cycle_sequence = pos 1;
  entity_sequence = pos 1;
  event_key = "node";
  topic = "traffic";
  payload_json = "{}";
  payload_hash = "h";
  event_kind = entity;
  outbox_sequence = 0;
  status = outboxed;
  attempt_count = 0;
  next_retry_at = none;
  last_error = none;
  kafka_partition = none;
  kafka_offset = none;
  created_at = 5;
  queued_at = none;
  acked_at = none;
  updated_at = 5;
}

abbrev one_row : OutboxStore
one_row = record empty { rows = rec_a ∷ []; next_sequence = 1 }

append_cycle-IsAppended_example :
    IsAppended empty 5
      (row "a" ∷ row "b" ∷ [])
      (append_cycle empty machine (row "a" ∷ row "b" ∷ []))
append_cycle-IsAppended_example = append_cycle-IsAppended empty machine (row "a" ∷ row "b" ∷ [])

abbrev sentinel : OutboxRecord
sentinel = record rec_a {
  event_id = "start";
  cycle_sequence = minus_one;
  entity_sequence = minus_one;
  event_kind = run_started;
}

abbrev started : OutboxStore
started = record empty { rows = sentinel ∷ []; next_sequence = 1 }

append_run_started-existing_example :
    ((append_run_started started machine (row "start")).0.rows ≡ started.rows)
    × ((IsSameSentinel (row "start") sentinel
          × ((append_run_started started machine (row "start")).1 ≡ appended))
        ⊎ ((¬ IsSameSentinel (row "start") sentinel)
            × ((append_run_started started machine (row "start")).1 ≡ duplicate_error)))
append_run_started-existing_example =
    append_run_started-existing started machine (row "start") sentinel refl (omega arith) refl
      (unfold find in refl)

abbrev calls : List Call
calls =
    cycle machine (row "b" ∷ [])
    ∷ queue 6 none ("a" ∷ "b" ∷ [])
    ∷ ack 7 none (("b", pos 0, pos 3) ∷ [])
    ∷ fail 8 none (("a", "timeout", 9) ∷ [])
    ∷ recover 10 none
    ∷ []

run-IsPending_example : Acknowledged "a" calls ⊎ IsPending rec_a (run one_row calls).rows
run-IsPending_example = run-IsPending one_row calls rec_a (
    unfold find in
    (
      rec_a,
      refl,
      record {
        event_id = refl;
        simulation_run_id = refl;
        event_key = refl;
        topic = refl;
        payload_json = refl;
        payload_hash = refl;
        event_kind = refl;
        outbox_sequence = refl;
      },
      refl,
    ))

fetch_eligible-run_example :
    IsOrdered (run one_row calls)
    × (fetch_eligible (run one_row calls) 5 20
        ≡ take 5 (keep (is_eligible 20) (run one_row calls).rows))
fetch_eligible-run_example = fetch_eligible-run one_row calls 5 20 (omega arith, omega arith)

abbrev worker : Worker
worker = record {
  store = one_row;
  max_in_flight = 10;
  in_flight = 3;
  pending_acks = ("a", pos 0, pos 1) ∷ [];
  pending_fails = ("b", "timeout", 9) ∷ [];
  produced_total = 0;
  acked_total = 0;
  failed_total = 0;
}

flush_status_buffers-ack_error_example :
    flush_status_buffers worker 7 (some "locked") none
    ≡ (record worker { pending_fails = [] }, some "locked")
flush_status_buffers-ack_error_example =
    flush_status_buffers-ack_error worker 7 "locked" none ("a", pos 0, pos 1) [] refl

abbrev parse : String → Option Body
parse s = some (record { event_type = none; event_id = some "a"; entity_payload_hash = some "h" })

abbrev shot : OutboxRecord → Shot
shot r = record { answer = refused "queue full"; now = 8; draw = 700; write_error = none }

in_flight-fill_room_example :
    ((fill_room parse shot 8 none none (worker, none)).0.max_in_flight ≡ 10)
    × ((fill_room parse shot 8 none none (worker, none)).0.in_flight ≤ 10)
in_flight-fill_room_example =
    in_flight-fill_room parse shot 8 none none (worker, none) (omega arith)

-- The first delay is a second, with the middle draw.
second : retry_delay_us 1 1000 ≡ 1000000
unfolding retry_delay_us
second = refl

sort_out-IsSorted_example :
    IsSorted parse
      (rec_a ∷ sentinel ∷ [])
      (sort_out (payload_defect parse) (rec_a ∷ sentinel ∷ [])).0
      (sort_out (payload_defect parse) (rec_a ∷ sentinel ∷ [])).1
sort_out-IsSorted_example = sort_out-IsSorted parse (rec_a ∷ sentinel ∷ [])
