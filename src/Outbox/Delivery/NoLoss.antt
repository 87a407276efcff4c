-- ===== src/Outbox/Delivery/NoLoss.antt =====
-- No row of the outbox (Visualize/integration/kafka/outbox_store.py) is lost before the broker
-- acknowledged it, over any sequence of calls.
use text.Mathlib.TextEquality.{eq_iff}
use smart_data_models.Prelude.{
  ℕ, ◌-◌, ◌*◌, String, false, ◌&&◌, Option, none, some, List, [], ◌∷◌, ◌++◌, ◌≡◌, refl, sym, ap,
  subst, ◌∙◌, arith, ltb, if◌then◌else◌, string_key, inl, inr, ◌⊎◌,
}
use smart_data_models.Outbox.Table.{OutboxRecord, Table, has_id, find, is_status, acked, queued}
use smart_data_models.Outbox.Store.{
  OutboxStore, Outcome, appended, append_error, duplicate_error, append_cycle, append_run_started,
  records_of, run_started_record,
}
use smart_data_models.Outbox.Store.Append.{
  TableAfter, append_cycle-TableAfter, rows-append_run_started,
}
use smart_data_models.Outbox.Updates.{
  Ack, Failure, Defect, is_redriven, write_batch, requeue, to_queued, to_failed_retryable,
  to_failed_permanent, is_expired, delete_expired, recover_orphaned_queued, mark_queued_batch,
  mark_acked_batch, mark_failed_retryable_batch, mark_failed_permanent_batch, cleanup_acked, day_us,
}
use smart_data_models.Outbox.Delivery.{
  Call, cycle, start, recover, queue, ack, fail, defect, clean, step, run,
}
use smart_data_models.Outbox.Delivery.Retention.{
  IsPending, IsRequeueing, find-append, write_batch-IsPending, Names, update_each-to_acked,
}

append-IsPending :
    (r : OutboxRecord) (rows new rows' : Table)
    → rows' ≡ rows ++ new
    → IsPending r rows
    → IsPending r rows'
append-IsPending r rows new rows' e (r', here, frozen, open') =
    (r', ap (find r.event_id) e ∙ find-append r.event_id rows new r' here, frozen, open')

same-IsPending :
    (r : OutboxRecord) (rows rows' : Table) → rows' ≡ rows → IsPending r rows → IsPending r rows'
same-IsPending r rows rows' e h = subst (λ t. IsPending r t) (sym e) h

TableAfter-IsPending :
    (r : OutboxRecord) (rows new : Table) (reply : OutboxStore × Outcome)
    → TableAfter rows new reply
    → IsPending r rows
    → IsPending r reply.0.rows
TableAfter-IsPending r rows new (s, appended) e h = append-IsPending r rows new s.rows e h
TableAfter-IsPending r rows new (s, append_error x) e h = same-IsPending r rows s.rows e h
TableAfter-IsPending r rows new (s, duplicate_error) e h = same-IsPending r rows s.rows e h

find-delete_expired :
    (cutoff limit : ℕ) (id : String) (rows : Table) (r : OutboxRecord)
    → find id rows ≡ some r
    → is_status acked r.status ≡ false
    → find id (delete_expired cutoff limit rows).0 ≡ some r
unfolding find delete_expired is_expired
find-delete_expired cutoff limit id [] r h open' = cc h
find-delete_expired cutoff limit id (q ∷ rows) r h open' =
    let hit = is_expired cutoff q && ltb 0 limit in
    ground (
      arith,
      eq_iff q.event_id id,
      find-delete_expired cutoff (if hit then limit - 1 else limit) id rows r,
    )

mark_acked_batch-cases :
    (s : OutboxStore) (now : ℕ) (error : Option String) (acks : List Ack) (r : OutboxRecord)
    → IsPending r s.rows
    → ((error ≡ none) × Names r.event_id acks)
      ⊎ IsPending r (mark_acked_batch s now error acks).0.rows
unfolding mark_acked_batch write_batch
mark_acked_batch-cases s now error [] r h = inr h
mark_acked_batch-cases s now (some e) (a ∷ as') r h = inr h
mark_acked_batch-cases s now none (a ∷ as') r h =
    elim (update_each-to_acked now r (a ∷ as') s.rows h) [
      | inl named ↦ inl (refl, named)
      | inr kept ↦ inr kept
    ]

requeue-IsRequeueing : (now : ℕ) → IsRequeueing (requeue now)
unfolding requeue
requeue-IsRequeueing now q = ground arith

to_queued-IsRequeueing : (now : ℕ) → IsRequeueing (to_queued now)
unfolding to_queued
to_queued-IsRequeueing now q = ground arith

to_failed_retryable-IsRequeueing :
    (now : ℕ) (f : Failure) → IsRequeueing (to_failed_retryable now f)
unfolding to_failed_retryable
to_failed_retryable-IsRequeueing now f q = ground arith

to_failed_permanent-IsRequeueing : (now : ℕ) (d : Defect) → IsRequeueing (to_failed_permanent now d)
unfolding to_failed_permanent
to_failed_permanent-IsRequeueing now d q = ground arith

-- The call writes an acknowledgement of the id.
abbrev pub Acknowledges : String → Call → Type 0
Acknowledges id (ack now error acks) = (error ≡ none) × Names id acks
Acknowledges id _ = ⊥

step-IsPending :
    (s : OutboxStore) (c : Call) (r : OutboxRecord)
    → IsPending r s.rows
    → Acknowledges r.event_id c ⊎ IsPending r (step s c).rows
unfolding step
step-IsPending s (cycle m rs) r h = inr (
    TableAfter-IsPending r s.rows (records_of m.now s.next_sequence rs) (append_cycle s m rs)
      (append_cycle-TableAfter s m rs) h)
step-IsPending s (start m q) r h =
    let new = run_started_record m.now s.next_sequence q ∷ [] in
    let rows' = (append_run_started s m q).0.rows in
    elim (rows-append_run_started s m q) [
      | inl same ↦ inr (same-IsPending r s.rows rows' same h)
      | inr longer ↦ inr (append-IsPending r s.rows new rows' longer h)
    ]
step-IsPending s (recover now error) r h = inr (
    unfold recover_orphaned_queued in
    write_batch-IsPending (λ (p : Unit {0}) q. is_status queued q.status) (λ p q. requeue now q) r s
      error (tt ∷ []) (λ p. requeue-IsRequeueing now) h)
step-IsPending s (queue now error ids) r h = inr (
    unfold mark_queued_batch in
    write_batch-IsPending (λ (id : String) q. has_id id q && is_redriven q.status)
      (λ id q. to_queued now q) r s error ids (λ id. to_queued-IsRequeueing now) h)
step-IsPending s (ack now error acks) r h = mark_acked_batch-cases s now error acks r h
step-IsPending s (fail now error failures) r h = inr (
    unfold mark_failed_retryable_batch in
    write_batch-IsPending (λ (f : Failure) q. has_id f.0 q) (λ f q. to_failed_retryable now f q) r s
      error failures (to_failed_retryable-IsRequeueing now) h)
step-IsPending s (defect now error defects) r h = inr (
    unfold mark_failed_permanent_batch in
    write_batch-IsPending (λ (d : Defect) q. has_id d.0 q) (λ d q. to_failed_permanent now d q) r s
      error defects (to_failed_permanent-IsRequeueing now) h)
step-IsPending s (clean now none days batch) r (r', here, frozen, open') = inr (
    unfold cleanup_acked in
    (
      r',
      find-delete_expired (now - days * day_us) batch r.event_id s.rows r' here open',
      frozen,
      open',
    ))
step-IsPending s (clean now (some e) days batch) r h = inr (unfold cleanup_acked in h)

-- Some call of the sequence writes an acknowledgement of the id.
abbrev pub Acknowledged : String → List Call → Type 0
Acknowledged id [] = ⊥
Acknowledged id (c ∷ cs) = Acknowledges id c ⊎ Acknowledged id cs

-- Over any sequence of calls, with errors of SQLite, restarts and clean-ups among them, a row that is
-- not acknowledged is still there at the end under its id, with its event unchanged and not
-- acknowledged, unless some call wrote an acknowledgement of its id.
pub run-IsPending :
    (s : OutboxStore) (cs : List Call) (r : OutboxRecord)
    → IsPending r s.rows
    → Acknowledged r.event_id cs ⊎ IsPending r (run s cs).rows
unfolding run
run-IsPending s [] r h = inr h
run-IsPending s (c ∷ cs) r h = elim (step-IsPending s c r h) [
  | inl named ↦ inl (inl named)
  | inr kept ↦ elim (run-IsPending (step s c) cs r kept) [
    | inl later ↦ inl (inr later)
    | inr still ↦ inr still
  ]
]
