-- ===== src/Outbox/Delivery/Fifo.antt =====
-- The outbox (Visualize/integration/kafka/outbox_store.py) hands eligible rows out first in, first
-- out, over any sequence of calls.
use smart_data_models.Prelude.{
  ℕ, ◌+◌, ◌-◌, ◌*◌, String, Bool, ◌&&◌, Option, none, some, List, [], ◌∷◌, ◌≡◌, refl, sym, ap,
  subst, arith, keep, take, length,
}
use smart_data_models.Outbox.Table.{OutboxRecord, Table, has_id, is_status, queued}
use smart_data_models.Outbox.Store.{
  OutboxStore, OutboxRow, Machine, Outcome, appended, append_error, duplicate_error, append_cycle,
  append_run_started, records_of, run_started_record, run_insert, record_of, retried_sentinel,
}
use smart_data_models.Outbox.Store.Append.{
  TableAfter, run_insert-TableAfter, guarded-induction, next_sequence-run_insert,
  store-retried_sentinel,
}
use smart_data_models.Outbox.Updates.{
  Ack, Failure, Defect, is_redriven, is_eligible, fetch_eligible, write_batch, requeue, to_queued,
  to_acked, to_failed_retryable, to_failed_permanent, recover_orphaned_queued, mark_queued_batch,
  mark_acked_batch, mark_failed_retryable_batch, mark_failed_permanent_batch, cleanup_acked, day_us,
}
use smart_data_models.Outbox.Delivery.{
  Call, cycle, start, recover, queue, ack, fail, defect, clean, step, run,
}
use smart_data_models.Outbox.Delivery.Order.{
  IsSequenced, IsSequenced-raise, IsSequenced-append, records_of-IsSequenced, KeepsSequence,
  write_batch-IsSequenced, delete_expired-IsSequenced, keep-IsSequenced,
  order_by_sequence-sequenced,
}

-- The rows' sequence numbers rise, and the next one is above them all.
abbrev pub IsOrdered : OutboxStore → Type 0
IsOrdered s = IsSequenced 0 s.rows s.next_sequence

after-IsOrdered :
    (rows new : Table) (n k : ℕ) (reply : OutboxStore × Outcome)
    → reply.0.next_sequence ≡ n + k
    → IsSequenced 0 rows n
    → IsSequenced n new (n + k)
    → TableAfter rows new reply
    → IsOrdered reply.0
after-IsOrdered rows new n k (s, appended) e h i t =
    subst (λ m. IsSequenced 0 s.rows m) (sym e)
      (subst (λ q. IsSequenced 0 q (n + k)) (sym t) (IsSequenced-append 0 n (n + k) rows new h i))
after-IsOrdered rows new n k (s, append_error x) e h i t =
    subst (λ m. IsSequenced 0 s.rows m) (sym e)
      (subst (λ q. IsSequenced 0 q (n + k)) (sym t)
        (IsSequenced-raise 0 n (n + k) rows (omega arith) h))
after-IsOrdered rows new n k (s, duplicate_error) e h i t =
    subst (λ m. IsSequenced 0 s.rows m) (sym e)
      (subst (λ q. IsSequenced 0 q (n + k)) (sym t)
        (IsSequenced-raise 0 n (n + k) rows (omega arith) h))

same-IsOrdered :
    (s t : OutboxStore)
    → t.rows ≡ s.rows
    → t.next_sequence ≡ s.next_sequence
    → IsOrdered s
    → IsOrdered t
same-IsOrdered s t a b h =
    subst (λ m. IsSequenced 0 t.rows m) (sym b)
      (subst (λ q. IsSequenced 0 q s.next_sequence) (sym a) h)

-- `k` records under the numbers from the next one on, in one transaction.
insert-IsOrdered :
    (t : OutboxStore) (k : ℕ) (begin commit : Option String) (new : Table)
    → IsOrdered t
    → IsSequenced t.next_sequence new (t.next_sequence + k)
    → IsOrdered (run_insert (record t { next_sequence = t.next_sequence + k }) begin commit new).0
insert-IsOrdered t k begin commit new h i =
    let u = record t { next_sequence = t.next_sequence + k } in
    after-IsOrdered t.rows new t.next_sequence k (run_insert u begin commit new)
      (next_sequence-run_insert u begin commit new) h i (run_insert-TableAfter u begin commit new)

append_cycle-IsOrdered :
    (s : OutboxStore) (m : Machine) (rs : List OutboxRow)
    → IsOrdered s
    → IsOrdered (append_cycle s m rs).0
unfolding append_cycle
append_cycle-IsOrdered s m [] h = h
append_cycle-IsOrdered s m (r ∷ rs) h =
    guarded-induction (λ reply. IsOrdered reply.0) s m.free_bytes
      (λ t.
        run_insert (record t { next_sequence = t.next_sequence + length (r ∷ rs) }) m.begin_error
          m.commit_error (records_of m.now t.next_sequence (r ∷ rs)))
      (λ t e a b. same-IsOrdered s t a b h)
      (λ t a b.
        insert-IsOrdered t (length (r ∷ rs)) m.begin_error m.commit_error
          (records_of m.now t.next_sequence (r ∷ rs)) (same-IsOrdered s t a b h)
          (records_of-IsSequenced m.now t.next_sequence (r ∷ rs)))

append_run_started-IsOrdered :
    (s : OutboxStore) (m : Machine) (r : OutboxRow)
    → IsOrdered s
    → IsOrdered (append_run_started s m r).0
unfolding append_run_started
append_run_started-IsOrdered s m r h =
    guarded-induction (λ reply. IsOrdered reply.0) s m.free_bytes
      (λ t. retried_sentinel r (inserted t)) (λ t e a b. same-IsOrdered s t a b h)
      (λ t a b. subst IsOrdered (sym (store-retried_sentinel r (inserted t))) (
        insert-IsOrdered t 1 m.begin_error m.commit_error
          (run_started_record m.now t.next_sequence r ∷ []) (same-IsOrdered s t a b h)
          (unfold run_started_record record_of in omega arith)))
  where
    inserted : OutboxStore → OutboxStore × Outcome
    inserted t =
        run_insert (record t { next_sequence = t.next_sequence + 1 }) m.begin_error m.commit_error
          (run_started_record m.now t.next_sequence r ∷ [])

write_batch-IsOrdered {ℓ} :
    {A : Type ℓ} (test : A → OutboxRecord → Bool) (change : A → OutboxRecord → OutboxRecord)
    (s : OutboxStore) (error : Option String) (ps : List A)
    → ((p : A) → KeepsSequence (change p))
    → IsOrdered s
    → IsOrdered (write_batch test change s error ps).0
unfolding write_batch
write_batch-IsOrdered test change s error [] keeps h = h
write_batch-IsOrdered test change s (some e) (p ∷ ps) keeps h = h
write_batch-IsOrdered test change s none (p ∷ ps) keeps h =
    write_batch-IsSequenced test change 0 s.next_sequence (p ∷ ps) s.rows keeps h

step-IsOrdered : (s : OutboxStore) (c : Call) → IsOrdered s → IsOrdered (step s c)
unfolding step
step-IsOrdered s (cycle m rs) h = append_cycle-IsOrdered s m rs h
step-IsOrdered s (start m r) h = append_run_started-IsOrdered s m r h
step-IsOrdered s (recover now error) h =
    unfold recover_orphaned_queued in
    write_batch-IsOrdered (λ (p : Unit {0}) q. is_status queued q.status) (λ p q. requeue now q) s
      error (tt ∷ []) (λ p q. unfold requeue in refl) h
step-IsOrdered s (queue now error ids) h =
    unfold mark_queued_batch in
    write_batch-IsOrdered (λ (id : String) q. has_id id q && is_redriven q.status)
      (λ id q. to_queued now q) s error ids (λ id q. unfold to_queued in refl) h
step-IsOrdered s (ack now error acks) h =
    unfold mark_acked_batch in
    write_batch-IsOrdered (λ (a : Ack) q. has_id a.0 q) (λ a q. to_acked now a q) s error acks
      (λ a q. unfold to_acked in refl) h
step-IsOrdered s (fail now error failures) h =
    unfold mark_failed_retryable_batch in
    write_batch-IsOrdered (λ (f : Failure) q. has_id f.0 q) (λ f q. to_failed_retryable now f q) s
      error failures (λ f q. unfold to_failed_retryable in refl) h
step-IsOrdered s (defect now error defects) h =
    unfold mark_failed_permanent_batch in
    write_batch-IsOrdered (λ (d : Defect) q. has_id d.0 q) (λ d q. to_failed_permanent now d q) s
      error defects (λ d q. unfold to_failed_permanent in refl) h
step-IsOrdered s (clean now none days batch) h =
    unfold cleanup_acked in
    delete_expired-IsSequenced (now - days * day_us) batch 0 s.next_sequence s.rows h
step-IsOrdered s (clean now (some e) days batch) h = unfold cleanup_acked in h

run-IsOrdered : (s : OutboxStore) (cs : List Call) → IsOrdered s → IsOrdered (run s cs)
unfolding run
run-IsOrdered s [] h = h
run-IsOrdered s (c ∷ cs) h = run-IsOrdered (step s c) cs (step-IsOrdered s c h)

-- After any sequence of calls on a store whose rows are ordered, the rows are ordered still, and a
-- fetch gives the first eligible rows in the order in which they were appended.
pub fetch_eligible-run :
    (s : OutboxStore) (cs : List Call) (limit now : ℕ)
    → IsOrdered s
    → IsOrdered (run s cs)
      × (fetch_eligible (run s cs) limit now ≡ take limit (keep (is_eligible now) (run s cs).rows))
unfolding fetch_eligible
fetch_eligible-run s cs limit now h =
    let t = run s cs in
    let ordered = run-IsOrdered s cs h in
    (
      ordered,
      ap (take limit) (
          order_by_sequence-sequenced 0 t.next_sequence (keep (is_eligible now) t.rows)
            (keep-IsSequenced (is_eligible now) 0 t.next_sequence t.rows ordered)),
    )
