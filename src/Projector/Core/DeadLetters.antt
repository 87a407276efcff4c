-- ===== src/Projector/Core/DeadLetters.antt =====
-- Visualize/integration/projector/poison.py and the consumer's step: a record that cannot be processed and
-- that the topic of the dead letters has not taken.
use smart_data_models.Prelude.{
  ℕ, String, true, Option, none, some, [], ◌∷◌, ◌≡◌, refl, sym, subst, TopicPartition,
}
use smart_data_models.Projector.Tables.{dlq_failed}
use smart_data_models.Projector.Store.{apply_batch_tx}
use smart_data_models.Projector.Core.State.{
  Core, Env, Answer, returned, raised, pure, raise, gets, update, continue, ◌>>=◌, ◌>>◌, write,
  apply_batch, answer_of, first_end, later_ends,
}
use smart_data_models.Projector.Core.Process.{message_of, unless_stopped}
use smart_data_models.Projector.Core.RunStart.{Value, process_record}
use smart_data_models.Projector.Core.Poison.{
  Defect, sound, poison, poison_unpublished, RawRecord, classify_raw_record, poison_row,
  disposition_poison, note_disposition, consume_verdict, consume,
}
use smart_data_models.Projector.Core.Advances.{apply_batch_tx-commits}

-- Nothing is marked or committed, and the projector is faulted.
pub record IsHalted (c c' : Core) : Type 0 where
  pub offsets : c'.offsets ≡ c.offsets
  pub commits : c'.store.commits ≡ c.store.commits
  pub faulted : c'.is_faulted ≡ true

process_record-faulted :
    (value : Value) (place : TopicPartition) (offset : ℕ) (v : Env) (c : Core)
    → c.is_faulted ≡ true
    → process_record value place offset v c ≡ (raised (message_of c.fault_message), c)
unfolding process_record unless_stopped gets raise ◌>>=◌ continue
process_record-faulted value place offset v c h = rw h

-- The rest of the step, after the write of the row.
after_write : Option String → Env → Core → Answer Unit × Core
after_write o v d =
    let x = continue (answer_of o) (λ _. pure poison_unpublished) v d in
    continue x.0 note_disposition v x.1

after_write-IsHalted :
    (o : Option String) (v : Env) (c d : Core)
    → d.offsets ≡ c.offsets
    → d.store.commits ≡ c.store.commits
    → (after_write o v d).0 ≡ returned tt
    → IsHalted c (after_write o v d).1
unfolding after_write continue answer_of pure note_disposition update
after_write-IsHalted none v c d offsets commits h = record {
  offsets = offsets;
  commits = commits;
  faulted = refl;
}
after_write-IsHalted (some e) v c d offsets commits h = absurd (cc h)

failed-IsHalted :
    (r : RawRecord) (defect : Defect) (run e : String) (v : Env) (c : Core)
    → classify_raw_record r.decoded ≡ poison defect run
    → (consume r (some e) v c).0 ≡ returned tt
    → IsHalted c (consume r (some e) v c).1
unfolding consume
failed-IsHalted r defect run e v c unsound h =
    subst (λ verdict. IsHalted c (consume_verdict r (some e) verdict v c).1) (sym unsound)
      (halted
        (subst (λ verdict. (consume_verdict r (some e) verdict v c).0 ≡ returned tt) unsound h))
  where
    halted :
        (consume_verdict r (some e) (poison defect run) v c).0 ≡ returned tt
        → IsHalted c (consume_verdict r (some e) (poison defect run) v c).1
    halted h =
        unfold consume_verdict disposition_poison apply_batch write ◌>>=◌ ◌>>◌ after_write in
        let rows = poison_row r run dlq_failed v.now ∷ [] in
        let x = apply_batch_tx c.store rows [] [] v.now (first_end c.disk) in
        after_write-IsHalted x.1 v c (record c { store = x.0; disk = later_ends c.disk }) refl
          (apply_batch_tx-commits c.store rows [] [] v.now (first_end c.disk)) h

consume-faulted :
    (r : RawRecord) (value : Value) (published : Option String) (v : Env) (c : Core)
    → classify_raw_record r.decoded ≡ sound value
    → c.is_faulted ≡ true
    → consume r published v c ≡ (raised (message_of c.fault_message), c)
unfolding consume consume_verdict ◌>>=◌ continue
consume-faulted r value published v c sane faulted =
    rw (sane, process_record-faulted value r.place r.offset v c faulted) refl

-- When the publisher of the dead letters fails for a record that cannot be processed, and the consumer's
-- step returns all the same, no offset is marked and nothing is committed, and the step of a next record
-- that could be processed raises and leaves the state as it is.
pub consume-IsHalted :
    (r : RawRecord) (defect : Defect) (run e : String) (v : Env) (c : Core) (next : RawRecord)
    (value : Value) (published : Option String) (w : Env)
    → classify_raw_record r.decoded ≡ poison defect run
    → (consume r (some e) v c).0 ≡ returned tt
    → classify_raw_record next.decoded ≡ sound value
    → let c' = (consume r (some e) v c).1 in
      IsHalted c c' × (consume next published w c' ≡ (raised (message_of c'.fault_message), c'))
consume-IsHalted r defect run e v c next value published w unsound h sane =
    let halted = failed-IsHalted r defect run e v c unsound h in
    (halted, consume-faulted next value published w (consume r (some e) v c).1 sane halted.faulted)
