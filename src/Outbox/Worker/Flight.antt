-- ===== src/Outbox/Worker/Flight.antt =====
-- How many rows the worker of Visualize/integration/kafka/outbox_worker.py has in flight, and which.
use smart_data_models.Prelude.{
  ℕ, zero, suc, ◌+◌, ◌-◌, ◌*◌, ◌/◌, ◌^◌, ◌≤◌, min, String, Option, none, some, List, [], ◌∷◌, ◌≡◌,
  refl, ap, ◌∙◌, arith, ltb, length, map, if-elim, length-take-le,
}
use native.Mathlib.Nat.{mul-le-mul}
use smart_data_models.Outbox.Table.{OutboxRecord}
use smart_data_models.Outbox.Store.{OutboxStore}
use smart_data_models.Outbox.Updates.{
  Written, wrote, raised, Defect, fetch_eligible, mark_failed_retryable_batch, mark_queued_batch,
  mark_failed_permanent_batch,
}
use smart_data_models.Outbox.Worker.{
  Worker, Shot, Produced, accepted, refused, Body, payload_defect, produce_failed, dispatch,
  dispatch_all, dispatched, queued, failed_permanent, sort_one, sort_out, fail_permanent,
  queue_ready, dispatch_batch, fill_room, retry_delay_us, compute_next_retry_at,
}

one-pow : (n : ℕ) → 1 ≤ 2 ^ n
one-pow zero = omega arith
one-pow (suc n) = ground (arith, one-pow n)

scaled_bounds :
    (x draw : ℕ)
    → 500000 ≤ x
    → x ≤ 60000000
    → 500 ≤ draw
    → draw ≤ 1500
    → (250000 ≤ x * draw / 1000) × (x * draw / 1000 ≤ 90000000)
scaled_bounds x draw a b c d =
    let low : 500000 * 500 ≤ x * draw = mul-le-mul a c in
    let high : x * draw ≤ 60000000 * 1500 = mul-le-mul b d in ground (arith, low, high)

-- With the draw in its range, the delay before a retry lies between a quarter of a second and a
-- minute and a half, at every attempt count.
pub retry_delay_us_bounds :
    (attempt draw : ℕ)
    → 500 ≤ draw
    → draw ≤ 1500
    → (250000 ≤ retry_delay_us attempt draw) × (retry_delay_us attempt draw ≤ 90000000)
unfolding retry_delay_us
retry_delay_us_bounds attempt draw low high =
    scaled_bounds (min 60000000 (500000 * 2 ^ attempt)) draw (ground (arith, one-pow attempt))
      (ground arith) low high

-- What every step of a round keeps: the limit, and a bound on the rows in flight.
record IsWithin (w w' : Worker) (more : ℕ) : Type 0 where
  limit : w'.max_in_flight ≡ w.max_in_flight
  bound : w'.in_flight ≤ w.in_flight + more

produce_failed-IsWithin :
    (w : Worker) (reply : OutboxStore × Written) → IsWithin w (produce_failed w reply).0 0
unfolding produce_failed
produce_failed-IsWithin w (s, wrote n) = record { limit = refl; bound = omega arith }
produce_failed-IsWithin w (s, raised e) = record { limit = refl; bound = omega arith }

dispatched-IsWithin :
    (w : Worker) (r : OutboxRecord) (shot : Shot) (p : Produced)
    → IsWithin w (dispatched w r shot p).0 0
unfolding dispatched
dispatched-IsWithin w r shot accepted = record { limit = refl; bound = omega arith }
dispatched-IsWithin w r shot (refused e) = produce_failed-IsWithin w (
    mark_failed_retryable_batch w.store shot.now shot.write_error
      ((r.event_id, e, compute_next_retry_at shot.now (r.attempt_count + 1) shot.draw) ∷ []))

dispatch-IsWithin :
    (w : Worker) (r : OutboxRecord) (shot : Shot) → IsWithin w (dispatch w r shot).0 1
unfolding dispatch
dispatch-IsWithin w r shot =
    let kept = dispatched-IsWithin (record w { in_flight = w.in_flight + 1 }) r shot shot.answer in
    record { limit = kept.limit; bound = ground (arith, kept.bound) }

dispatch_all-IsWithin :
    (shot : OutboxRecord → Shot) (rs : List OutboxRecord) (from : Worker × Option String)
    → IsWithin from.0 (dispatch_all shot rs from).0 (length rs)
unfolding dispatch_all
dispatch_all-IsWithin shot [] (w, none) = record { limit = refl; bound = omega arith }
dispatch_all-IsWithin shot [] (w, some e) = record { limit = refl; bound = omega arith }
dispatch_all-IsWithin shot (r ∷ rs) (w, some e) = record { limit = refl; bound = omega arith }
dispatch_all-IsWithin shot (r ∷ rs) (w, none) =
    let one = dispatch-IsWithin w r (shot r) in
    let rest = dispatch_all-IsWithin shot rs (dispatch w r (shot r)) in
    record { limit = rest.limit ∙ one.limit; bound = ground (arith, one.bound, rest.bound) }

queued-IsWithin : (w : Worker) (reply : OutboxStore × Written) → IsWithin w (queued w reply).0 0
unfolding queued
queued-IsWithin w (s, wrote n) = record { limit = refl; bound = omega arith }
queued-IsWithin w (s, raised e) = record { limit = refl; bound = omega arith }

failed_permanent-IsWithin :
    (w : Worker) (n : ℕ) (reply : OutboxStore × Written)
    → IsWithin w (failed_permanent w n reply).0 0
unfolding failed_permanent
failed_permanent-IsWithin w n (s, wrote m) = record { limit = refl; bound = omega arith }
failed_permanent-IsWithin w n (s, raised e) = record { limit = refl; bound = omega arith }

fail_permanent-IsWithin :
    (w : Worker) (now : ℕ) (error : Option String) (ds : List Defect)
    → IsWithin w (fail_permanent w now error ds).0 0
unfolding fail_permanent
fail_permanent-IsWithin w now error [] = record { limit = refl; bound = omega arith }
fail_permanent-IsWithin w now error (d ∷ ds) =
    failed_permanent-IsWithin w (length (d ∷ ds))
      (mark_failed_permanent_batch w.store now error (d ∷ ds))

queue_ready-IsWithin :
    (shot : OutboxRecord → Shot) (now : ℕ) (error : Option String) (ready : List OutboxRecord)
    (from : Worker × Option String)
    → IsWithin from.0 (queue_ready shot now error ready from).0 (length ready)
unfolding queue_ready
queue_ready-IsWithin shot now error [] (w, none) = record { limit = refl; bound = omega arith }
queue_ready-IsWithin shot now error [] (w, some e) = record { limit = refl; bound = omega arith }
queue_ready-IsWithin shot now error (r ∷ rs) (w, some e) = record {
  limit = refl;
  bound = omega arith;
}
queue_ready-IsWithin shot now error (r ∷ rs) (w, none) =
    let reply =
      mark_queued_batch w.store now error (map (λ (q : OutboxRecord). q.event_id) (r ∷ rs)) in
    let one = queued-IsWithin w reply in
    let rest = dispatch_all-IsWithin shot (r ∷ rs) (queued w reply) in
    record { limit = rest.limit ∙ one.limit; bound = ground (arith, one.bound, rest.bound) }

length-sort_one :
    (r : OutboxRecord) (d : Option String) (from : List Defect × List OutboxRecord)
    → length (sort_one r d from).0 + length (sort_one r d from).1
      ≡ suc (length from.0 + length from.1)
unfolding sort_one
length-sort_one r none (ds, rs) = omega arith
length-sort_one r (some e) (ds, rs) = omega arith

length-sort_out :
    (defect : OutboxRecord → Option String) (rs : List OutboxRecord)
    → length (sort_out defect rs).0 + length (sort_out defect rs).1 ≡ length rs
unfolding sort_out
length-sort_out defect [] = refl
length-sort_out defect (r ∷ rs) =
    length-sort_one r (defect r) (sort_out defect rs) ∙ ap suc (length-sort_out defect rs)

dispatch_batch-IsWithin :
    (parse : String → Option Body) (shot : OutboxRecord → Shot) (w : Worker) (now : ℕ)
    (permanent_error queue_error : Option String) (records : List OutboxRecord)
    → IsWithin w
        (dispatch_batch parse shot w now permanent_error queue_error records).0
        (length records)
unfolding dispatch_batch
dispatch_batch-IsWithin parse shot w now permanent_error queue_error records =
    let sorted = sort_out (payload_defect parse) records in
    let after = fail_permanent w now permanent_error sorted.0 in
    let one = fail_permanent-IsWithin w now permanent_error sorted.0 in
    let rest = queue_ready-IsWithin shot now queue_error sorted.1 after in
    let count = length-sort_out (payload_defect parse) records in
    record { limit = rest.limit ∙ one.limit; bound = ground (arith, one.bound, rest.bound, count) }

fetched : (s : OutboxStore) (room now : ℕ) → length (fetch_eligible s room now) ≤ room
unfolding fetch_eligible
fetched s room now = length-take-le room _

-- A round of the worker that starts with at most `max_in_flight` rows in flight ends so, whatever
-- the producer answers and whichever write of SQLite fails.
pub in_flight-fill_room :
    (parse : String → Option Body) (shot : OutboxRecord → Shot) (now : ℕ)
    (permanent_error queue_error : Option String) (from : Worker × Option String)
    → from.0.in_flight ≤ from.0.max_in_flight
    → let after = (fill_room parse shot now permanent_error queue_error from).0 in
      (after.max_in_flight ≡ from.0.max_in_flight) × (after.in_flight ≤ from.0.max_in_flight)
unfolding fill_room
in_flight-fill_room parse shot now permanent_error queue_error (w, some e) h = (refl, h)
in_flight-fill_room parse shot now permanent_error queue_error (w, none) h =
    let room = w.max_in_flight - w.in_flight in
    let records = fetch_eligible w.store room now in
    let went = dispatch_batch-IsWithin parse shot w now permanent_error queue_error records in
    if-elim
      (λ (after : Worker × Option String).
        (after.0.max_in_flight ≡ w.max_in_flight) × (after.0.in_flight ≤ w.max_in_flight))
      (ltb 0 room) (dispatch_batch parse shot w now permanent_error queue_error records) (w, none)
      (went.limit, ground (arith, went.bound, fetched w.store room now)) (refl, h)
