-- ===== src/Outbox/Worker/Flush.antt =====
-- What the flush of the status buffers of Visualize/integration/kafka/outbox_worker.py writes.
use smart_data_models.Prelude.{ℕ, String, Option, some, List, [], ◌∷◌, ◌≡◌, sym, ap, subst}
use mathlib.Core.List.{append-nil}
use smart_data_models.Outbox.Updates.{Ack, write_batch, mark_acked_batch}
use smart_data_models.Outbox.Worker.{Worker, flush_acks, flush_fails, flush_status_buffers}

-- Where the write of the acknowledgements fails, they are put back and the error is raised, but the
-- failures that were buffered are dropped: they are neither written nor put back.
pub flush_status_buffers-ack_error :
    (w : Worker) (now : ℕ) (e : String) (fail_error : Option String) (a : Ack) (acks : List Ack)
    → w.pending_acks ≡ a ∷ acks
    → flush_status_buffers w now (some e) fail_error ≡ (record w { pending_fails = [] }, some e)
unfolding flush_status_buffers
flush_status_buffers-ack_error w now e fail_error a acks h =
    let raised_at : List Ack → Worker × Option String = λ (xs : List Ack).
      flush_fails now fail_error w.pending_fails
        (flush_acks now (some e) xs (record w { pending_acks = []; pending_fails = [] })) in
    subst
      (λ (xs : List Ack).
        raised_at xs ≡ (record w { pending_acks = xs; pending_fails = [] }, some e))
      (sym h)
      (unfold mark_acked_batch write_batch in
        ap (λ (xs : List Ack). (record w { pending_acks = xs; pending_fails = [] }, some e))
          (append-nil (a ∷ acks)))
