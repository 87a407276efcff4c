-- ===== src/Outbox/Store/Answers.antt =====
-- What the answers of Visualize/integration/kafka/outbox_store.py to an append mean, in terms of the
-- columns of the table.
use text.Mathlib.TextEquality.{eq_iff}
use smart_data_models.Prelude.{
  ℕ, ◌+◌, ◌≤◌, pos, Bool, true, false, ◌&&◌, none, some, List, [], ◌∷◌, ◌++◌, ◌≡◌, ◌⊎◌, refl, ap,
  ◌∙◌, arith, inl, inr, Bool-cases, if-true, if-false, length, string_key,
}
use smart_data_models.Outbox.Table.{
  EventKind, run_started, entity, outboxed, OutboxRecord, Table, find,
}
use smart_data_models.Outbox.Store.{
  OutboxRow, OutboxStore, Machine, Outcome, appended, append_error, duplicate_error, record_of,
  records_of, run_insert, append_cycle, is_run_started, same_sentinel, append_run_started,
}
use smart_data_models.Outbox.Store.Append.{
  TableAfter, append_cycle-TableAfter, append_run_started-taken, guarded-induction,
  next_sequence-run_insert,
}

-- The record holds the row, unsent, under this number.
pub record IsRowOf (now sequence : ℕ) (r : OutboxRow) (x : OutboxRecord) : Type 0 where
  pub number : x.outbox_sequence ≡ sequence
  pub id : x.event_id ≡ r.event_id
  pub run : x.simulation_run_id ≡ r.simulation_run_id
  pub cycle : x.cycle_sequence ≡ pos r.cycle_sequence
  pub place : x.entity_sequence ≡ pos r.entity_sequence
  pub key : x.event_key ≡ r.event_key
  pub topic : x.topic ≡ r.topic
  pub payload : x.payload_json ≡ r.payload_json
  pub hash : x.payload_hash ≡ r.payload_hash
  pub kind : x.event_kind ≡ r.event_kind
  pub unsent : x.status ≡ outboxed
  pub attempts : x.attempt_count ≡ 0
  pub created : x.created_at ≡ now

-- One record for each row, in order, under consecutive numbers.
abbrev pub IsNumbered : ℕ → ℕ → List OutboxRow → Table → Type 0
IsNumbered now start [] [] = Unit
IsNumbered now start (r ∷ rs) (x ∷ xs) = IsRowOf now start r x × IsNumbered now (start + 1) rs xs
IsNumbered now start [] (x ∷ xs) = ⊥
IsNumbered now start (r ∷ rs) [] = ⊥

records_of-IsNumbered :
    (now start : ℕ) (rs : List OutboxRow) → IsNumbered now start rs (records_of now start rs)
unfolding records_of record_of
records_of-IsNumbered now start [] = tt
records_of-IsNumbered now start (r ∷ rs) = (
  record {
    number = refl;
    id = refl;
    run = refl;
    cycle = refl;
    place = refl;
    key = refl;
    topic = refl;
    payload = refl;
    hash = refl;
    kind = refl;
    unsent = refl;
    attempts = refl;
    created = refl;
  },
  records_of-IsNumbered now (start + 1) rs,
)

-- The store after an append of the rows: where it answers `appended`, with their records at the end and
-- the next number after theirs; and with the table as it was, where it does not.
abbrev pub IsAppended : OutboxStore → ℕ → List OutboxRow → OutboxStore × Outcome → Type 0
IsAppended s now rs (t, appended) =
    ((new : Table) × (t.rows ≡ s.rows ++ new) × IsNumbered now s.next_sequence rs new)
    × (t.next_sequence ≡ s.next_sequence + length rs)
IsAppended s now rs (t, append_error e) = t.rows ≡ s.rows
IsAppended s now rs (t, duplicate_error) = t.rows ≡ s.rows

-- The next number after an append that is answered by `appended`.
abbrev NextAfter : ℕ → OutboxStore × Outcome → Type 0
NextAfter n (t, appended) = t.next_sequence ≡ n
NextAfter n (t, append_error e) = Unit
NextAfter n (t, duplicate_error) = Unit

any-NextAfter :
    (n : ℕ) (reply : OutboxStore × Outcome) → reply.0.next_sequence ≡ n → NextAfter n reply
any-NextAfter n (t, appended) h = h
any-NextAfter n (t, append_error e) h = tt
any-NextAfter n (t, duplicate_error) h = tt

append_cycle-NextAfter :
    (s : OutboxStore) (m : Machine) (rs : List OutboxRow)
    → NextAfter (s.next_sequence + length rs) (append_cycle s m rs)
unfolding append_cycle
append_cycle-NextAfter s m [] = omega arith
append_cycle-NextAfter s m (r ∷ rs) =
    guarded-induction (NextAfter (s.next_sequence + length (r ∷ rs))) s m.free_bytes _
      (λ t e _ _. tt)
      (λ t a b.
        any-NextAfter (s.next_sequence + length (r ∷ rs))
          (run_insert (record t { next_sequence = t.next_sequence + length (r ∷ rs) }) m.begin_error
            m.commit_error (records_of m.now t.next_sequence (r ∷ rs)))
          (next_sequence-run_insert (record t { next_sequence = t.next_sequence + length (r ∷ rs) })
              m.begin_error m.commit_error (records_of m.now t.next_sequence (r ∷ rs))
            ∙ ap (λ n. n + length (r ∷ rs)) b))

table-IsAppended :
    (s : OutboxStore) (now : ℕ) (rs : List OutboxRow) (reply : OutboxStore × Outcome)
    → TableAfter s.rows (records_of now s.next_sequence rs) reply
    → NextAfter (s.next_sequence + length rs) reply
    → IsAppended s now rs reply
table-IsAppended s now rs (t, appended) h k =
    ((records_of now s.next_sequence rs, h, records_of-IsNumbered now s.next_sequence rs), k)
table-IsAppended s now rs (t, append_error e) h k = h
table-IsAppended s now rs (t, duplicate_error) h k = h

-- A cycle that is answered as appended stands whole at the end of the table: one unsent record for each
-- row, in order, with its columns, numbered from the store's next number on without a gap, and the
-- next number is the one after theirs. On every error, a duplicate id included, the table is as it was.
pub append_cycle-IsAppended :
    (s : OutboxStore) (m : Machine) (rs : List OutboxRow)
    → IsAppended s m.now rs (append_cycle s m rs)
append_cycle-IsAppended s m rs =
    table-IsAppended s m.now rs (append_cycle s m rs) (append_cycle-TableAfter s m rs)
      (append_cycle-NextAfter s m rs)

-- The record is a run-started sentinel with the row's run, hash, topic and key.
pub record IsSameSentinel (r : OutboxRow) (x : OutboxRecord) : Type 0 where
  pub kind : x.event_kind ≡ run_started
  pub run : x.simulation_run_id ≡ r.simulation_run_id
  pub hash : x.payload_hash ≡ r.payload_hash
  pub topic : x.topic ≡ r.topic
  pub key : x.event_key ≡ r.event_key

kind-run_started : (k : EventKind) → is_run_started k ≡ true → k ≡ run_started
kind-run_started run_started h = refl
kind-run_started entity h = absurd (cc h)

each_of_five :
    (a b c d e : Bool)
    → (a && b && c && d && e) ≡ true
    → (a ≡ true) × (b ≡ true) × (c ≡ true) × (d ≡ true) × (e ≡ true)
each_of_five a b c d e h = ground (arith, h)

same_sentinel_sound :
    (r : OutboxRow) (x : OutboxRecord) → same_sentinel r (some x) ≡ true → IsSameSentinel r x
unfolding same_sentinel
same_sentinel_sound r x h =
    let (kind, run, hash, topic, key) = each_of_five _ _ _ _ _ h in
    record {
      kind = kind-run_started x.event_kind kind;
      run = (eq_iff x.simulation_run_id r.simulation_run_id).0 run;
      hash = (eq_iff x.payload_hash r.payload_hash).0 hash;
      topic = (eq_iff x.topic r.topic).0 topic;
      key = (eq_iff x.event_key r.event_key).0 key;
    }

same_sentinel_complete :
    (r : OutboxRow) (x : OutboxRecord) → IsSameSentinel r x → same_sentinel r (some x) ≡ true
unfolding same_sentinel
same_sentinel_complete r x h =
    rw
      (
        ap is_run_started h.kind,
        (eq_iff x.simulation_run_id r.simulation_run_id).1 h.run,
        (eq_iff x.payload_hash r.payload_hash).1 h.hash,
        (eq_iff x.topic r.topic).1 h.topic,
        (eq_iff x.event_key r.event_key).1 h.key,
      )
      refl

-- A run-started sentinel that is offered again, to a healthy store that holds a record under its id,
-- changes no row. It is answered as appended where that record is a run-started sentinel with its run,
-- payload hash, topic and key, and as a duplicate where one of them differs.
pub append_run_started-existing :
    (s : OutboxStore) (m : Machine) (r : OutboxRow) (existing : OutboxRecord)
    → s.faulted ≡ false
    → s.disk_fault_free_bytes ≤ m.free_bytes
    → m.begin_error ≡ none
    → find r.event_id s.rows ≡ some existing
    → ((append_run_started s m r).0.rows ≡ s.rows)
      × ((IsSameSentinel r existing × ((append_run_started s m r).1 ≡ appended))
          ⊎ ((¬ IsSameSentinel r existing) × ((append_run_started s m r).1 ≡ duplicate_error)))
append_run_started-existing s m r existing ok room begun here =
    let (rows, answer) = append_run_started-taken s m r existing ok room begun here in
    elim (Bool-cases (same_sentinel r (some existing))) [
      | inl same ↦ (rows, inl (same_sentinel_sound r existing same, answer ∙ if-true _ _ same))
      | inr other ↦ (
        rows,
        inr (λ h. cc (same_sentinel_complete r existing h, other), answer ∙ if-false _ _ other),
      )
    ]
