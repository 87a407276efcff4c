-- ===== src/Outbox/Store/Append.antt =====
-- What the appends of Visualize/integration/kafka/outbox_store.py leave in the table.
use smart_data_models.Prelude.{
  ℕ, ◌+◌, ◌≤◌, String, true, false, Option, none, some, List, [], ◌∷◌, ◌++◌, ◌≡◌, refl, ap, subst,
  ◌∙◌, arith, if◌then◌else◌, string_key, length, Bool-cases, if-elim, if-false, inl, inr, ◌⊎◌,
}
use mathlib.Core.List.{append-nil, append_assoc}
use smart_data_models.Outbox.Table.{OutboxRecord, Table, find, exists_id, insert_all}
use smart_data_models.Outbox.Store.{
  OutboxRow, OutboxStore, Machine, Outcome, appended, append_error, duplicate_error, check_disk,
  records_of, faulted_with, commit_rows, commit_insert, message_or, run_insert, guarded,
  append_cycle, run_started_record, same_sentinel, retried_sentinel, append_run_started,
}

-- A successful INSERT of many rows puts them at the end, in order.
pub insert_all-eq-append :
    (rows rs : Table) (rows' : Table) → insert_all rows rs ≡ some rows' → rows' ≡ rows ++ rs
unfolding insert_all
insert_all-eq-append rows [] rows' h = rw append-nil (cc h)
insert_all-eq-append rows (r ∷ rs) rows' h = elim (Bool-cases (exists_id r.event_id rows)) [
  | inl there ↦ absurd (cc (rw there at h))
  | inr new ↦
      insert_all-eq-append (rows ++ r ∷ []) rs rows' (rw new at h) ∙ append_assoc rows (r ∷ []) rs
]

-- The table after an append: with the new rows at its end, or as it was.
abbrev pub TableAfter : Table → List OutboxRecord → OutboxStore × Outcome → Type 0
TableAfter rows new (s, appended) = s.rows ≡ rows ++ new
TableAfter rows new (s, append_error e) = s.rows ≡ rows
TableAfter rows new (s, duplicate_error) = s.rows ≡ rows

commit_rows-TableAfter :
    (s : OutboxStore) (rows : Table) (new : Table) (error : Option String)
    → rows ≡ s.rows ++ new
    → TableAfter s.rows new (commit_rows s rows error)
unfolding commit_rows faulted_with
commit_rows-TableAfter s rows new none e = e
commit_rows-TableAfter s rows new (some x) e = refl

commit_insert-TableAfter :
    (s : OutboxStore) (new : Table) (error : Option String) (o : Option Table)
    → insert_all s.rows new ≡ o
    → TableAfter s.rows new (commit_insert s error o)
unfolding commit_insert
commit_insert-TableAfter s new error none e = refl
commit_insert-TableAfter s new error (some rows) e =
    commit_rows-TableAfter s rows new error (insert_all-eq-append s.rows new rows e)

pub run_insert-TableAfter :
    (s : OutboxStore) (begin commit : Option String) (new : Table)
    → TableAfter s.rows new (run_insert s begin commit new)
unfolding run_insert
run_insert-TableAfter s none commit new =
    commit_insert-TableAfter s new commit (insert_all s.rows new) refl
run_insert-TableAfter s (some e) commit new = unfold faulted_with in refl

-- A transaction, whatever its end, leaves the next sequence number as it was.
pub next_sequence-run_insert :
    (s : OutboxStore) (begin commit : Option String) (new : Table)
    → (run_insert s begin commit new).0.next_sequence ≡ s.next_sequence
unfolding run_insert
next_sequence-run_insert s none commit new = go commit (insert_all s.rows new)
  where
    go :
        (c : Option String) (o : Option Table)
        → (commit_insert s c o).0.next_sequence ≡ s.next_sequence
    go c none = unfold commit_insert in refl
    go none (some rows) = unfold commit_insert in refl
    go (some e) (some rows) = unfold commit_insert in refl
next_sequence-run_insert s (some e) commit new = unfold faulted_with in refl

pub store-retried_sentinel :
    (r : OutboxRow) (reply : OutboxStore × Outcome) → (retried_sentinel r reply).0 ≡ reply.0
unfolding retried_sentinel
store-retried_sentinel r (s, appended) = refl
store-retried_sentinel r (s, append_error e) = refl
store-retried_sentinel r (s, duplicate_error) = refl

pub rows-check_disk : (s : OutboxStore) (free : ℕ) → (check_disk s free).rows ≡ s.rows
unfolding check_disk
rows-check_disk s free = ground arith

pub next_sequence-check_disk :
    (s : OutboxStore) (free : ℕ) → (check_disk s free).next_sequence ≡ s.next_sequence
unfolding check_disk
next_sequence-check_disk s free = ground arith

-- What holds of the refusals and of the body, on a store with the same rows, holds of the whole.
pub guarded-induction :
    (P : OutboxStore × Outcome → Type 0) (s : OutboxStore) (free : ℕ)
    (body : OutboxStore → OutboxStore × Outcome)
    → ((t : OutboxStore) (e : String)
        → t.rows ≡ s.rows
        → t.next_sequence ≡ s.next_sequence
        → P (t, append_error e))
    → ((t : OutboxStore) → t.rows ≡ s.rows → t.next_sequence ≡ s.next_sequence → P (body t))
    → P (guarded s free body)
unfolding guarded
guarded-induction P s free body refusal go =
    let t = check_disk s free in
    let full = append_error (message_or t.fault_message "disk full") in
    if-elim P s.faulted (s, append_error (message_or s.fault_message "outbox faulted"))
      (if t.faulted then (t, full) else body t)
      (refusal s (message_or s.fault_message "outbox faulted") refl refl)
      (if-elim P t.faulted (t, full) (body t)
        (refusal t (message_or t.fault_message "disk full") (rows-check_disk s free)
          (next_sequence-check_disk s free))
        (go t (rows-check_disk s free) (next_sequence-check_disk s free)))

-- A cycle is appended whole, in order and under consecutive sequence numbers from the next one on,
-- where the answer is `appended`; on every error, a duplicate id included, the table is as it was.
pub append_cycle-TableAfter :
    (s : OutboxStore) (m : Machine) (rs : List OutboxRow)
    → TableAfter s.rows (records_of m.now s.next_sequence rs) (append_cycle s m rs)
unfolding append_cycle
append_cycle-TableAfter s m [] = refl
append_cycle-TableAfter s m (r ∷ rs) =
    guarded-induction (TableAfter s.rows (records_of m.now s.next_sequence (r ∷ rs))) s m.free_bytes
      body (λ t e same _. same)
      (λ t a b.
        subst (λ old. TableAfter old (records_of m.now s.next_sequence (r ∷ rs)) (body t)) a
          (subst (λ n. TableAfter t.rows (records_of m.now n (r ∷ rs)) (body t)) b
            (run_insert-TableAfter (record t { next_sequence = t.next_sequence + length (r ∷ rs) })
              m.begin_error m.commit_error (records_of m.now t.next_sequence (r ∷ rs)))))
  where
    body : OutboxStore → OutboxStore × Outcome
    body t =
        run_insert (record t { next_sequence = t.next_sequence + length (r ∷ rs) }) m.begin_error
          m.commit_error (records_of m.now t.next_sequence (r ∷ rs))

exists_id-find :
    (id : String) (rows : Table) (r : OutboxRecord)
    → find id rows ≡ some r
    → exists_id id rows ≡ true
unfolding exists_id find
exists_id-find id [] r h = cc h
exists_id-find id (q ∷ rows) r h = ground (arith, exists_id-find id rows r)

insert_all-taken :
    (rows : Table) (r : OutboxRecord)
    → exists_id r.event_id rows ≡ true
    → insert_all rows (r ∷ []) ≡ none
unfolding insert_all
insert_all-taken rows r h = rw h

guarded-healthy :
    (s : OutboxStore) (free : ℕ) (body : OutboxStore → OutboxStore × Outcome)
    → s.faulted ≡ false
    → s.disk_fault_free_bytes ≤ free
    → guarded s free body ≡ body (check_disk s free)
unfolding guarded
guarded-healthy s free body ok room =
    let still : (check_disk s free).faulted ≡ false = unfold check_disk in ground arith in
    if-false _ _ ok ∙ if-false _ _ still

retried-taken :
    (t : OutboxStore) (commit : Option String) (new : OutboxRecord) (r : OutboxRow)
    (existing : OutboxRecord)
    → new.event_id ≡ r.event_id
    → find r.event_id t.rows ≡ some existing
    → let reply = retried_sentinel r (run_insert t none commit (new ∷ [])) in
      (reply.0.rows ≡ t.rows)
      × (reply.1 ≡ (if same_sentinel r (some existing) then appended else duplicate_error))
unfolding run_insert
retried-taken t commit new r existing id here =
    let taken : exists_id new.event_id t.rows ≡ true =
      rw id (exists_id-find r.event_id t.rows existing here) in
    rw (insert_all-taken t.rows new taken)
      (unfold commit_insert retried_sentinel in (refl, rw here refl))

-- A run-started sentinel that is offered again, to a healthy store that holds a row under its id,
-- changes no row; it is answered as appended where that row is the same sentinel, and as a
-- duplicate where it is not.
pub append_run_started-taken :
    (s : OutboxStore) (m : Machine) (r : OutboxRow) (existing : OutboxRecord)
    → s.faulted ≡ false
    → s.disk_fault_free_bytes ≤ m.free_bytes
    → m.begin_error ≡ none
    → find r.event_id s.rows ≡ some existing
    → ((append_run_started s m r).0.rows ≡ s.rows)
      × ((append_run_started s m r).1
          ≡ (if same_sentinel r (some existing) then appended else duplicate_error))
unfolding append_run_started
append_run_started-taken s m r existing ok room begun here =
    let t = check_disk s m.free_bytes in
    let u = record t { next_sequence = t.next_sequence + 1 } in
    let new = run_started_record m.now t.next_sequence r in
    let here' : find r.event_id u.rows ≡ some existing =
      ap (find r.event_id) (rows-check_disk s m.free_bytes) ∙ here in
    let taken =
      retried-taken u m.commit_error new r existing (unfold run_started_record in refl) here' in
    rw (guarded-healthy s m.free_bytes _ ok room, begun)
      (taken.0 ∙ rows-check_disk s m.free_bytes, taken.1)

pub retried_sentinel-TableAfter :
    (rows new : Table) (r : OutboxRow) (reply : OutboxStore × Outcome)
    → TableAfter rows new reply
    → ((retried_sentinel r reply).0.rows ≡ rows) ⊎ ((retried_sentinel r reply).0.rows ≡ rows ++ new)
unfolding retried_sentinel
retried_sentinel-TableAfter rows new r (s, appended) h = inr h
retried_sentinel-TableAfter rows new r (s, append_error e) h = inl h
retried_sentinel-TableAfter rows new r (s, duplicate_error) h = inl h

-- The table after `append_run_started`, whatever it answers.
pub rows-append_run_started :
    (s : OutboxStore) (m : Machine) (r : OutboxRow)
    → ((append_run_started s m r).0.rows ≡ s.rows)
      ⊎ ((append_run_started s m r).0.rows
          ≡ s.rows ++ run_started_record m.now s.next_sequence r ∷ [])
unfolding append_run_started
rows-append_run_started s m r =
    guarded-induction
      (λ reply.
        (reply.0.rows ≡ s.rows)
        ⊎ (reply.0.rows ≡ s.rows ++ run_started_record m.now s.next_sequence r ∷ []))
      s m.free_bytes body (λ t e same _. inl same)
      (λ t a b.
        retried_sentinel-TableAfter s.rows (run_started_record m.now s.next_sequence r ∷ []) r
          (inserted t)
          (subst
            (λ old. TableAfter old (run_started_record m.now s.next_sequence r ∷ []) (inserted t)) a
            (subst (λ n. TableAfter t.rows (run_started_record m.now n r ∷ []) (inserted t)) b
              (run_insert-TableAfter (record t { next_sequence = t.next_sequence + 1 })
                m.begin_error m.commit_error (run_started_record m.now t.next_sequence r ∷ [])))))
  where
    inserted : OutboxStore → OutboxStore × Outcome
    inserted t =
        run_insert (record t { next_sequence = t.next_sequence + 1 }) m.begin_error m.commit_error
          (run_started_record m.now t.next_sequence r ∷ [])

    body : OutboxStore → OutboxStore × Outcome
    body t = retried_sentinel r (inserted t)
