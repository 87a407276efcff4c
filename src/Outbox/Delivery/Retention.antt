-- ===== src/Outbox/Delivery/Retention.antt =====
-- No row of the outbox (Visualize/integration/kafka/outbox_store.py) is lost before it is
-- acknowledged.
use text.Mathlib.TextEquality.{eq_iff}
use smart_data_models.Prelude.{
  ℕ, String, Bool, false, Option, none, some, List, [], ◌∷◌, ◌++◌, ◌≡◌, refl, sym, ap, ◌∙◌, arith,
  if◌then◌else◌, string_key, Bool-cases, inl, inr, ◌⊎◌, if-elim, if-false,
}
use smart_data_models.Outbox.Table.{
  OutboxRecord, Table, has_id, find, update, update_each, is_status, acked,
}
use smart_data_models.Outbox.Store.{OutboxStore}
use smart_data_models.Outbox.Updates.{Ack, write_batch, to_acked}

-- What the updates of a row never change.
pub record IsFrozen (r r' : OutboxRecord) : Type 0 where
  pub event_id : r'.event_id ≡ r.event_id
  pub simulation_run_id : r'.simulation_run_id ≡ r.simulation_run_id
  pub event_key : r'.event_key ≡ r.event_key
  pub topic : r'.topic ≡ r.topic
  pub payload_json : r'.payload_json ≡ r.payload_json
  pub payload_hash : r'.payload_hash ≡ r.payload_hash
  pub event_kind : r'.event_kind ≡ r.event_kind
  pub outbox_sequence : r'.outbox_sequence ≡ r.outbox_sequence

-- The row `r` is still there under its id, with its event, and not acknowledged.
abbrev pub IsPending : OutboxRecord → Table → Type 0
IsPending r rows =
    (r' : OutboxRecord) × (find r.event_id rows ≡ some r')
    × IsFrozen r r'
    × (is_status acked r'.status ≡ false)

IsFrozen-trans : {a b c : OutboxRecord} → IsFrozen a b → IsFrozen b c → IsFrozen a c
IsFrozen-trans p q = record {
  event_id = q.event_id ∙ p.event_id;
  simulation_run_id = q.simulation_run_id ∙ p.simulation_run_id;
  event_key = q.event_key ∙ p.event_key;
  topic = q.topic ∙ p.topic;
  payload_json = q.payload_json ∙ p.payload_json;
  payload_hash = q.payload_hash ∙ p.payload_hash;
  event_kind = q.event_kind ∙ p.event_kind;
  outbox_sequence = q.outbox_sequence ∙ p.outbox_sequence;
}

pub IsFrozen-refl : (r : OutboxRecord) → IsFrozen r r
IsFrozen-refl r = record {
  event_id = refl;
  simulation_run_id = refl;
  event_key = refl;
  topic = refl;
  payload_json = refl;
  payload_hash = refl;
  event_kind = refl;
  outbox_sequence = refl;
}

pub find-append :
    (id : String) (rows new : Table) (r : OutboxRecord)
    → find id rows ≡ some r
    → find id (rows ++ new) ≡ some r
unfolding find
find-append id [] new r h = cc h
find-append id (q ∷ rows) new r h = ground (arith, find-append id rows new r)

find-update :
    (test : OutboxRecord → Bool) (change : OutboxRecord → OutboxRecord) (id : String) (rows : Table)
    (r : OutboxRecord)
    → ((q : OutboxRecord) → (change q).event_id ≡ q.event_id)
    → find id rows ≡ some r
    → find id (update test change rows) ≡ some (if test r then change r else r)
unfolding find update
find-update test change id [] r keeps h = cc h
find-update test change id (q ∷ rows) r keeps h =
    ground (arith, keeps q, find-update test change id rows r keeps)

-- A change of status that is no acknowledgement.
abbrev pub IsRequeueing : (OutboxRecord → OutboxRecord) → Type 0
IsRequeueing change =
    (q : OutboxRecord) → IsFrozen q (change q) × (is_status acked (change q).status ≡ false)

update-IsPending :
    (test : OutboxRecord → Bool) (change : OutboxRecord → OutboxRecord) (r : OutboxRecord)
    (rows : Table)
    → IsRequeueing change
    → IsPending r rows
    → IsPending r (update test change rows)
update-IsPending test change r rows keeps (r', here, frozen, open') = (
  if test r' then change r' else r',
  find-update test change r.event_id rows r' (λ q. (keeps q).0.event_id) here,
  if-elim (IsFrozen r) (test r') (change r') r' (IsFrozen-trans frozen (keeps r').0) frozen,
  if-elim (λ (q : OutboxRecord). is_status acked q.status ≡ false) (test r') (change r') r'
      (keeps r').1 open',
)

update_each-IsPending {ℓ} :
    {A : Type ℓ} (test : A → OutboxRecord → Bool) (change : A → OutboxRecord → OutboxRecord)
    (r : OutboxRecord) (ps : List A) (rows : Table)
    → ((p : A) → IsRequeueing (change p))
    → IsPending r rows
    → IsPending r (update_each test change ps rows).0
unfolding update_each
update_each-IsPending test change r [] rows keeps h = h
update_each-IsPending test change r (p ∷ ps) rows keeps h =
    update_each-IsPending test change r ps (update (test p) (change p) rows) keeps
      (update-IsPending (test p) (change p) r rows (keeps p) h)

pub write_batch-IsPending {ℓ} :
    {A : Type ℓ} (test : A → OutboxRecord → Bool) (change : A → OutboxRecord → OutboxRecord)
    (r : OutboxRecord) (s : OutboxStore) (error : Option String) (ps : List A)
    → ((p : A) → IsRequeueing (change p))
    → IsPending r s.rows
    → IsPending r (write_batch test change s error ps).0.rows
unfolding write_batch
write_batch-IsPending test change r s error [] keeps h = h
write_batch-IsPending test change r s (some e) (p ∷ ps) keeps h = h
write_batch-IsPending test change r s none (p ∷ ps) keeps h =
    update_each-IsPending test change r (p ∷ ps) s.rows keeps h

-- An acknowledgement of the id is among the acks.
abbrev pub Names : String → List Ack → Type 0
Names id [] = ⊥
Names id (a ∷ as') = (a.0 ≡ id) ⊎ Names id as'

update-to_acked :
    (now : ℕ) (a : Ack) (r : OutboxRecord) (rows : Table)
    → IsPending r rows
    → (a.0 ≡ r.event_id) ⊎ IsPending r (update (λ q. has_id a.0 q) (λ q. to_acked now a q) rows)
update-to_acked now a r rows (r', here, frozen, open') = elim (Bool-cases (has_id a.0 r')) [
  | inl hit ↦ inl (sym ((eq_iff r'.event_id a.0).0 hit) ∙ frozen.event_id)
  | inr miss ↦ inr (
    r',
    find-update (λ q. has_id a.0 q) (λ q. to_acked now a q) r.event_id rows r'
          (λ q. unfold to_acked in refl) here
        ∙ ap some (if-false (to_acked now a r') r' miss),
    frozen,
    open',
  )
]

pub update_each-to_acked :
    (now : ℕ) (r : OutboxRecord) (acks : List Ack) (rows : Table)
    → IsPending r rows
    → Names r.event_id acks
      ⊎ IsPending r
          (update_each (λ (a : Ack) q. has_id a.0 q) (λ a q. to_acked now a q) acks rows).0
unfolding update_each
update_each-to_acked now r [] rows h = inr h
update_each-to_acked now r (a ∷ as') rows h = elim (update-to_acked now a r rows h) [
  | inl named ↦ inl (inl named)
  | inr kept ↦
      elim (update_each-to_acked now r as' (update (λ q. has_id a.0 q) (λ q. to_acked now a q) rows)
        kept) [ inl later ↦ inl (inr later) | inr still ↦ inr still ]
]
