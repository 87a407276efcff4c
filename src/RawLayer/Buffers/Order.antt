-- ===== src/RawLayer/Buffers/Order.antt =====
-- That the buffers of de/kafka_raw/batch_buffer.py lose and reorder no record.
use smart_data_models.Prelude.{
  ℕ, Bool, true, false, ◌&&◌, Option, none, some, List, [], ◌∷◌, ◌++◌, ◌≡◌, refl, sym, ap, ◌∙◌, inl,
  inr, Bool-cases, if◌then◌else◌, if-true, if-false, ◌==◌, Dict, get, remove, get-put, get-remove,
  TopicPartition, topic_partition_key,
}
use mathlib.Core.List.{append_assoc, append-nil}
use smart_data_models.RawLayer.Buffers.{
  Destination, raw, quarantine, BufferedRecord, PartitionBuffer, BatchBufferManager, buffers_of,
  with_buffers, grown, key_of, add_to, add, records_of, pop, discard_partition,
}

-- A call, and the moment where a record arrives.
pub data Step : Type 0 where
  arrive : BufferedRecord → ℕ → Step
  take_out : Destination → TopicPartition → Step
  discard : TopicPartition → Step

unfoldable pub step : Step → BatchBufferManager → BatchBufferManager
unfolding add pop discard_partition
step (arrive rec clock) m = add m rec clock
step (take_out destination key) m = (pop m destination key).0
step (discard key) m = discard_partition m key

abbrev pub is_for : Destination → Destination → Bool
is_for raw raw = true
is_for quarantine quarantine = true
is_for raw quarantine = false
is_for quarantine raw = false

unfoldable pub held : BatchBufferManager → Destination → TopicPartition → List BufferedRecord
unfolding get buffers_of records_of
held m d k = records_of (get (buffers_of m d) k)

-- The record of a call, where it arrives for the destination and the partition.
unfoldable pub arrived : Step → Destination → TopicPartition → List BufferedRecord
arrived (arrive rec clock) d k =
    if is_for rec.destination d && key_of rec == k then rec ∷ [] else []
arrived (take_out destination key) d k = []
arrived (discard key) d k = []

-- The records of the partition for the destination that a call takes out: what `pop` answers, and what
-- a discard drops.
unfoldable pub gone : Step → BatchBufferManager → Destination → TopicPartition → List BufferedRecord
unfolding held pop
gone (arrive rec clock) m d k = []
gone (take_out destination key) m d k =
    if is_for destination d && key == k then (pop m destination key).1 else []
gone (discard key) m d k = if key == k then held m d k else []

unfoldable pub step_all : List Step → BatchBufferManager → BatchBufferManager
unfolding step
step_all [] m = m
step_all (u ∷ us) m = step_all us (step u m)

unfoldable pub arrived_all : List Step → Destination → TopicPartition → List BufferedRecord
unfolding arrived
arrived_all [] d k = []
arrived_all (u ∷ us) d k = arrived u d k ++ arrived_all us d k

unfoldable pub gone_all :
    List Step → BatchBufferManager → Destination → TopicPartition → List BufferedRecord
unfolding gone step
gone_all [] m d k = []
gone_all (u ∷ us) m d k = gone u m d k ++ gone_all us (step u m) d k

grown_records :
    (o : Option PartitionBuffer) (rec : BufferedRecord) (clock : ℕ)
    → (grown o rec clock).records ≡ records_of o ++ rec ∷ []
unfolding grown records_of
grown_records none rec clock = refl
grown_records (some b) rec clock = refl

module _ (b : Dict TopicPartition PartitionBuffer) where
  records_of-add_to :
      (rec : BufferedRecord) (clock : ℕ) (k : TopicPartition)
      → records_of (get (add_to b rec clock) k)
        ≡ records_of (get b k) ++ (if key_of rec == k then rec ∷ [] else [])
  unfolding add_to records_of
  records_of-add_to rec clock k =
      let new = grown (get b (key_of rec)) rec clock in
      elim (Bool-cases (key_of rec == k)) [
        | inl here ↦
            ap records_of (get-put b (key_of rec) new k ∙ if-true (some new) (get b k) here)
            ∙ (grown_records (get b (key_of rec)) rec clock
                ∙ (ap (λ i. records_of (get b i) ++ rec ∷ [])
                      ((topic_partition_key.same_iff (key_of rec) k).0 here)
                    ∙ sym (ap (λ l. records_of (get b k) ++ l) (if-true (rec ∷ []) [] here))))
        | inr away ↦
            ap records_of (get-put b (key_of rec) new k ∙ if-false (some new) (get b k) away)
            ∙ (sym (append-nil (records_of (get b k)))
                ∙ sym (ap (λ l. records_of (get b k) ++ l) (if-false (rec ∷ []) [] away)))
      ]

  records_of-remove :
      (key k : TopicPartition)
      → (if key == k then records_of (get b k) else []) ++ records_of (get (remove b key) k)
        ≡ records_of (get b k) ++ []
  unfolding records_of
  records_of-remove key k = elim (Bool-cases (key == k)) [
    | inl here ↦
        ap (λ l. l ++ records_of (get (remove b key) k)) (if-true (records_of (get b k)) [] here)
        ∙ ap (λ o. records_of (get b k) ++ records_of o)
            (get-remove b key k ∙ if-true none (get b k) here)
    | inr away ↦
        ap (λ l. l ++ records_of (get (remove b key) k)) (if-false (records_of (get b k)) [] away)
        ∙ (ap records_of (get-remove b key k ∙ if-false none (get b k) away)
            ∙ sym (append-nil (records_of (get b k))))
  ]

held-arrive :
    (m : BatchBufferManager) (rec : BufferedRecord) (clock : ℕ) (to d : Destination)
    (k : TopicPartition)
    → held (with_buffers m to (add_to (buffers_of m to) rec clock)) d k
      ≡ held m d k ++ (if is_for to d && key_of rec == k then rec ∷ [] else [])
unfolding held with_buffers buffers_of
held-arrive m rec clock raw raw k = records_of-add_to m.raw rec clock k
held-arrive m rec clock quarantine quarantine k = records_of-add_to m.quarantine rec clock k
held-arrive m rec clock raw quarantine k = sym (append-nil (records_of (get m.quarantine k)))
held-arrive m rec clock quarantine raw k = sym (append-nil (records_of (get m.raw k)))

-- What `pop` answers is what was held.
pop-held :
    (m : BatchBufferManager) (d : Destination) (key k : TopicPartition)
    → (if key == k then (pop m d key).1 else []) ≡ (if key == k then held m d k else [])
unfolding held pop
pop-held m d key k = elim (Bool-cases (key == k)) [
  | inr away ↦ if-false _ _ away ∙ sym (if-false _ _ away)
  | inl here ↦
      if-true _ _ here
      ∙ (ap (λ i. records_of (get (buffers_of m d) i)) ((topic_partition_key.same_iff key k).0 here)
          ∙ sym (if-true _ _ here))
]

removed-held :
    (m : BatchBufferManager) (d : Destination) (key k : TopicPartition)
    → (if key == k then held m d k else [])
        ++ held (with_buffers m d (remove (buffers_of m d) key)) d k
      ≡ held m d k ++ []
unfolding held with_buffers buffers_of
removed-held m raw key k = records_of-remove m.raw key k
removed-held m quarantine key k = records_of-remove m.quarantine key k

held-take_out :
    (m : BatchBufferManager) (from d : Destination) (key k : TopicPartition)
    → (if is_for from d && key == k then (pop m from key).1 else [])
        ++ held (with_buffers m from (remove (buffers_of m from) key)) d k
      ≡ held m d k ++ []
held-take_out m raw raw key k =
    ap (λ l. l ++ held (with_buffers m raw (remove (buffers_of m raw) key)) raw k)
      (pop-held m raw key k)
    ∙ removed-held m raw key k
held-take_out m quarantine quarantine key k =
    ap
      (λ l.
        l ++ held (with_buffers m quarantine (remove (buffers_of m quarantine) key)) quarantine k)
      (pop-held m quarantine key k)
    ∙ removed-held m quarantine key k
held-take_out m raw quarantine key k =
    unfold held with_buffers buffers_of in sym (append-nil (records_of (get m.quarantine k)))
held-take_out m quarantine raw key k =
    unfold held with_buffers buffers_of in sym (append-nil (records_of (get m.raw k)))

held-discard :
    (m : BatchBufferManager) (d : Destination) (key k : TopicPartition)
    → (if key == k then held m d k else []) ++ held (discard_partition m key) d k ≡ held m d k ++ []
unfolding held discard_partition buffers_of
held-discard m raw key k = records_of-remove m.raw key k
held-discard m quarantine key k = records_of-remove m.quarantine key k

held-step :
    (u : Step) (m : BatchBufferManager) (d : Destination) (k : TopicPartition)
    → gone u m d k ++ held (step u m) d k ≡ held m d k ++ arrived u d k
unfolding gone step arrived add pop
held-step (arrive rec clock) m d k = held-arrive m rec clock rec.destination d k
held-step (take_out from key) m d k = held-take_out m from d key k
held-step (discard key) m d k = held-discard m d key k

-- Over any sequence of arrivals, take-outs and discards, the records of a partition for a destination that
-- `pop` answered or that were discarded, and then those that are held, are the ones that were held at first and then
-- those that arrived, in their order: none is lost, doubled or overtaken.
pub gone_all-step_all :
    (us : List Step) (m : BatchBufferManager) (d : Destination) (k : TopicPartition)
    → gone_all us m d k ++ held (step_all us m) d k ≡ held m d k ++ arrived_all us d k
unfolding gone_all step_all arrived_all
gone_all-step_all [] m d k = sym (append-nil (held m d k))
gone_all-step_all (u ∷ us) m d k =
    append_assoc (gone u m d k) (gone_all us (step u m) d k) (held (step_all us (step u m)) d k)
    ∙ (ap (λ l. gone u m d k ++ l) (gone_all-step_all us (step u m) d k)
        ∙ (sym (append_assoc (gone u m d k) (held (step u m) d k) (arrived_all us d k))
            ∙ (ap (λ l. l ++ arrived_all us d k) (held-step u m d k)
                ∙ append_assoc (held m d k) (arrived u d k) (arrived_all us d k))))
