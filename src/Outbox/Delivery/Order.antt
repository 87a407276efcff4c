-- ===== src/Outbox/Delivery/Order.antt =====
-- The order of the outbox (Visualize/integration/kafka/outbox_store.py): rows stand in the order of
-- their sequence numbers, so eligible rows are fetched in the order in which they were appended.
use smart_data_models.Prelude.{
  ℕ, ◌+◌, ◌-◌, ◌≤◌, Bool, ◌&&◌, List, [], ◌∷◌, ◌++◌, ◌≡◌, refl, sym, subst, arith, ltb,
  if◌then◌else◌, string_key, keep, length, if-elim,
}
use smart_data_models.Outbox.Table.{
  OutboxRecord, Table, update, update_each, insert_by_sequence, order_by_sequence,
}
use smart_data_models.Outbox.Store.{OutboxRow, records_of, record_of}
use smart_data_models.Outbox.Updates.{is_expired, delete_expired}

-- The sequence numbers rise from row to row, from `lo` on and below `hi`.
abbrev pub IsSequenced : ℕ → Table → ℕ → Type 0
IsSequenced lo [] hi = lo ≤ hi
IsSequenced lo (r ∷ rows) hi =
    (lo ≤ r.outbox_sequence) × IsSequenced (r.outbox_sequence + 1) rows hi

IsSequenced-weaken :
    (lo lo' hi : ℕ) (rows : Table) → lo' ≤ lo → IsSequenced lo rows hi → IsSequenced lo' rows hi
IsSequenced-weaken lo lo' hi [] le h = omega arith
IsSequenced-weaken lo lo' hi (r ∷ rows) le h = (omega arith, h.1)

pub IsSequenced-raise :
    (lo hi hi' : ℕ) (rows : Table) → hi ≤ hi' → IsSequenced lo rows hi → IsSequenced lo rows hi'
IsSequenced-raise lo hi hi' [] le h = omega arith
IsSequenced-raise lo hi hi' (r ∷ rows) le h =
    (h.0, IsSequenced-raise (r.outbox_sequence + 1) hi hi' rows le h.1)

pub IsSequenced-append :
    (lo mid hi : ℕ) (xs ys : Table)
    → IsSequenced lo xs mid
    → IsSequenced mid ys hi
    → IsSequenced lo (xs ++ ys) hi
IsSequenced-append lo mid hi [] ys h k = IsSequenced-weaken mid lo hi ys h k
IsSequenced-append lo mid hi (r ∷ xs) ys h k =
    (h.0, IsSequenced-append (r.outbox_sequence + 1) mid hi xs ys h.1 k)

pub records_of-IsSequenced :
    (now start' : ℕ) (rs : List OutboxRow)
    → IsSequenced start' (records_of now start' rs) (start' + length rs)
unfolding records_of record_of
records_of-IsSequenced now start' [] = omega arith
records_of-IsSequenced now start' (r ∷ rs) = (
  omega arith,
  IsSequenced-raise (start' + 1) (start' + 1 + length rs) (start' + length (r ∷ rs))
      (records_of now (start' + 1) rs) (omega arith) (records_of-IsSequenced now (start' + 1) rs),
)

-- A change keeps the sequence number.
abbrev pub KeepsSequence : (OutboxRecord → OutboxRecord) → Type 0
KeepsSequence change = (q : OutboxRecord) → (change q).outbox_sequence ≡ q.outbox_sequence

update-IsSequenced :
    (test : OutboxRecord → Bool) (change : OutboxRecord → OutboxRecord) (lo hi : ℕ) (rows : Table)
    → KeepsSequence change
    → IsSequenced lo rows hi
    → IsSequenced lo (update test change rows) hi
unfolding update
update-IsSequenced test change lo hi [] keeps h = h
update-IsSequenced test change lo hi (r ∷ rows) keeps h =
    let same : (if test r then change r else r).outbox_sequence ≡ r.outbox_sequence =
      if-elim (λ (q : OutboxRecord). q.outbox_sequence ≡ r.outbox_sequence) (test r) (change r) r
        (keeps r) refl in
    (
      omega (arith, same),
      subst (λ n. IsSequenced (n + 1) (update test change rows) hi) (sym same)
          (update-IsSequenced test change (r.outbox_sequence + 1) hi rows keeps h.1),
    )

pub write_batch-IsSequenced {ℓ} :
    {A : Type ℓ} (test : A → OutboxRecord → Bool) (change : A → OutboxRecord → OutboxRecord)
    (lo hi : ℕ) (ps : List A) (rows : Table)
    → ((p : A) → KeepsSequence (change p))
    → IsSequenced lo rows hi
    → IsSequenced lo (update_each test change ps rows).0 hi
unfolding update_each
write_batch-IsSequenced test change lo hi [] rows keeps h = h
write_batch-IsSequenced test change lo hi (p ∷ ps) rows keeps h =
    write_batch-IsSequenced test change lo hi ps (update (test p) (change p) rows) keeps
      (update-IsSequenced (test p) (change p) lo hi rows (keeps p) h)

pub delete_expired-IsSequenced :
    (cutoff limit lo hi : ℕ) (rows : Table)
    → IsSequenced lo rows hi
    → IsSequenced lo (delete_expired cutoff limit rows).0 hi
unfolding delete_expired
delete_expired-IsSequenced cutoff limit lo hi [] h = h
delete_expired-IsSequenced cutoff limit lo hi (r ∷ rows) h =
    let hit = is_expired cutoff r && ltb 0 limit in
    let limit' = if hit then limit - 1 else limit in
    let rest = delete_expired-IsSequenced cutoff limit' (r.outbox_sequence + 1) hi rows h.1 in
    let kept = delete_expired cutoff limit' rows in
    if-elim (λ (reply : Table × ℕ). IsSequenced lo reply.0 hi) hit (kept.0, kept.1 + 1)
      (r ∷ kept.0, kept.1)
      (IsSequenced-weaken (r.outbox_sequence + 1) lo hi kept.0 (omega (arith, h.0)) rest)
      (h.0, rest)

pub keep-IsSequenced :
    (test : OutboxRecord → Bool) (lo hi : ℕ) (rows : Table)
    → IsSequenced lo rows hi
    → IsSequenced lo (keep test rows) hi
keep-IsSequenced test lo hi [] h = h
keep-IsSequenced test lo hi (r ∷ rows) h =
    let rest = keep-IsSequenced test (r.outbox_sequence + 1) hi rows h.1 in
    if-elim (λ (t : Table). IsSequenced lo t hi) (test r) (r ∷ keep test rows) (keep test rows)
      (h.0, rest)
      (IsSequenced-weaken (r.outbox_sequence + 1) lo hi (keep test rows) (omega (arith, h.0)) rest)

pub order_by_sequence-sequenced :
    (lo hi : ℕ) (rows : Table) → IsSequenced lo rows hi → order_by_sequence rows ≡ rows
unfolding order_by_sequence insert_by_sequence
order_by_sequence-sequenced lo hi [] h = refl
order_by_sequence-sequenced lo hi (r ∷ []) h = refl
order_by_sequence-sequenced lo hi (r ∷ s ∷ rows) h =
    ground (arith, order_by_sequence-sequenced (r.outbox_sequence + 1) hi (s ∷ rows) h.1, h.1)
