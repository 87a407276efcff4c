-- ===== src/Projector/Store/Cleanup.antt =====
-- Visualize/integration/projector/store.py: `cleanup`, and what it can delete.
use smart_data_models.Prelude.{
  ℕ, ◌-◌, ◌<◌, String, Bool, true, false, not, ◌&&◌, ◌||◌, Option, none, some, List, [], ◌∷◌, ◌≡◌,
  refl, sym, ap, ◌∙◌, subst, ◌⊎◌, inl, inr, arith, ltb, leb, if-true, if-false, if-elim, Bool-cases,
  string_key, ◌==◌, same_refl, Key, Dict, get, put, keep, length, All, All-put, topic_partition_key,
}
use smart_data_models.Projector.Tables.{
  is_completed, LedgerRow, TextPair, text_pair_key, EntityState, ActiveRun, ProjectorStore, init,
}
use smart_data_models.Projector.Store.{activate_run, activated, deactivated}

-- `SELECT DISTINCT simulation_run_id ... WHERE status = INACTIVE`, as a test.
unfoldable pub is_inactive_run : Dict TextPair ActiveRun → String → Bool
is_inactive_run [] run = false
is_inactive_run ((key, r) ∷ runs) run =
    (not r.is_active && r.simulation_run_id == run) || is_inactive_run runs run

unfoldable pub state_expired : Dict TextPair ActiveRun → ℕ → TextPair × EntityState → Bool
unfolding is_inactive_run
state_expired runs cut (key, e) = is_inactive_run runs key.0 && ltb e.last_applied_at cut

abbrev pub is_before : ℕ → Option ℕ → Bool
is_before cut none = false
is_before cut (some t) = ltb t cut

abbrev pub is_same_id : String → Option String → Bool
is_same_id id none = false
is_same_id id (some other) = other == id

-- A row that is not completed names the event as its replacement.
unfoldable pub is_replacement : Dict String LedgerRow → String → Bool
is_replacement [] id = false
is_replacement ((j, r) ∷ ledger) id =
    (not (is_completed r.status) && is_same_id id r.replacement_event_id)
    || is_replacement ledger id

abbrev pub is_within : ℕ → Option ℕ → Bool
is_within offset none = false
is_within offset (some committed) = leb offset committed

unfoldable pub row_expired : ProjectorStore → ℕ → String × LedgerRow → Bool
unfolding is_replacement get
row_expired s cut (id, r) =
    is_completed r.status
    && is_before cut r.completed_at
    && not (is_replacement s.ledger id)
    && is_within r.offset (get s.commits r.place)

-- The store without the expired rows, with the counts of the states and of the rows deleted.
unfoldable pub cleanup : ProjectorStore → ℕ → ℕ → ℕ → ProjectorStore × ℕ × ℕ
unfolding state_expired row_expired
cleanup s now state_retention ledger_retention =
    let entities = keep (λ p. not (state_expired s.runs (now - state_retention) p)) s.entities in
    let ledger = keep (λ p. not (row_expired s (now - ledger_retention) p)) s.ledger in
    (
      record s { entities = entities; ledger = ledger },
      length s.entities - length entities,
      length s.ledger - length ledger,
    )

some-some {ℓ} : {A : Type ℓ} {a b : A} → some a ≡ some b → a ≡ b
some-some e = cc e

same_pair {ℓ κ} :
    {A : Type ℓ} {B : Type κ} (test : A × B → Bool) (a a' : A) (b b' : B)
    → a ≡ a'
    → b ≡ b'
    → test (a, b) ≡ test (a', b')
same_pair test a a' b b' p q = cc (p, q)

get-keep {ℓ κ} :
    {K : Type ℓ} {V : Type κ} ⦃key : Key K⦄ (test : K × V → Bool) (d : Dict K V) (k : K) (v : V)
    → get d k ≡ some v
    → test (k, v) ≡ true
    → get (keep test d) k ≡ some v
unfolding get
get-keep test [] k v h t = cc h
get-keep ⦃key⦄ test ((j, w) ∷ d) k v h t = elim (Bool-cases (j == k)) [
  | inl here ↦
      let found : some w ≡ some v = rw here at h in
      let passes = same_pair test j k w v ((key.same_iff j k).0 here) (some-some found) ∙ t in
      ap (λ e. get e k) (if-true ((j, w) ∷ keep test d) (keep test d) passes)
      ∙ (if-true (some w) (get (keep test d) k) here ∙ found)
  | inr away ↦
      let rest = get-keep test d k v (rw away at h) t in
      if-elim (λ e. get e k ≡ some v) (test (j, w)) ((j, w) ∷ keep test d) (keep test d)
        (if-false (some w) (get (keep test d) k) away ∙ rest) rest
]

none_of_four : (a b c d : Bool) → (a ≡ false) ⊎ (d ≡ false) → (a && b && c && d) ≡ false
none_of_four a b c d h = ground (arith, h)

row_kept :
    (s : ProjectorStore) (cut : ℕ) (id : String) (r : LedgerRow)
    → (is_completed r.status ≡ false)
      ⊎ ((get s.commits r.place ≡ none)
          ⊎ ((committed : ℕ) × (get s.commits r.place ≡ some committed) × (committed < r.offset)))
    → row_expired s cut (id, r) ≡ false
unfolding row_expired
row_kept s cut id r h =
    none_of_four (is_completed r.status) (is_before cut r.completed_at)
      (not (is_replacement s.ledger id)) (is_within r.offset (get s.commits r.place))
      (elim h [
        | inl open' ↦ inl open'
        | inr (inl fresh) ↦ inr (ap (is_within r.offset) fresh)
        | inr (inr (committed, e, above)) ↦ inr (ap (is_within r.offset) e ∙ ground (arith, above))
      ])

-- A clean-up keeps every ledger row that is not completed, or that stands above the committed offset of
-- its partition, or whose partition has no committed offset.
pub get-cleanup :
    (s : ProjectorStore) (now state_retention ledger_retention : ℕ) (id : String) (r : LedgerRow)
    → get s.ledger id ≡ some r
    → (is_completed r.status ≡ false)
      ⊎ ((get s.commits r.place ≡ none)
          ⊎ ((committed : ℕ) × (get s.commits r.place ≡ some committed) × (committed < r.offset)))
    → get (cleanup s now state_retention ledger_retention).0.ledger id ≡ some r
unfolding cleanup
get-cleanup s now state_retention ledger_retention id r h why =
    get-keep (λ p. not (row_expired s (now - ledger_retention) p)) s.ledger id r h
      (ap not (row_kept s (now - ledger_retention) id r why))

-- A run that is activated.
pub record Activation : Type 0 where
  pub key : TextPair
  pub session : String
  pub run : String
  pub now : ℕ
  pub error : Option String

pub activate_all : ProjectorStore → List Activation → ProjectorStore
activate_all s [] = s
activate_all s (a ∷ as') = activate_all (activate_run s a.key a.session a.run a.now a.error).0 as'

abbrev IsAllActive : Dict TextPair ActiveRun → Type 0
IsAllActive = All (λ (p : TextPair × ActiveRun). p.1.is_active ≡ true)

put-put :
    (d : Dict TextPair ActiveRun) (k : TextPair) (v w : ActiveRun) → put (put d k v) k w ≡ put d k w
unfolding put
put-put [] k v w = if-true ((k, w) ∷ []) ((k, v) ∷ (k, w) ∷ []) (same_refl k)
put-put ((j, u) ∷ d) k v w = elim (Bool-cases (j == k)) [
  | inl here ↦ rw here (if-true ((j, w) ∷ d) ((j, v) ∷ put d k w) here)
  | inr away ↦
      ap (λ e. put e k w) (if-false ((j, v) ∷ d) ((j, u) ∷ put d k v) away)
      ∙ (if-false ((j, w) ∷ put d k v) ((j, u) ∷ put (put d k v) k w) away
          ∙ (ap (λ e. (j, u) ∷ e) (put-put d k v w)
              ∙ sym (if-false ((j, w) ∷ d) ((j, u) ∷ put d k w) away)))
]

put-deactivated :
    (runs : Dict TextPair ActiveRun) (k : TextPair) (o : Option ActiveRun) (w : ActiveRun)
    → put (deactivated runs k o) k w ≡ put runs k w
unfolding deactivated
put-deactivated runs k none w = refl
put-deactivated runs k (some r) w = put-put runs k (record r { is_active = false }) w

activate_run-IsAllActive :
    (s : ProjectorStore) (a : Activation)
    → IsAllActive s.runs
    → IsAllActive (activate_run s a.key a.session a.run a.now a.error).0.runs
activate_run-IsAllActive s a h = go a.error
  where
    new : ActiveRun
    new = record {
      producer_session_id = a.session;
      simulation_run_id = a.run;
      activated_at = a.now;
      is_active = true;
    }

    go : (e : Option String) → IsAllActive (activate_run s a.key a.session a.run a.now e).0.runs
    go (some e) = unfold activate_run in h
    go none =
        unfold activate_run activated in
        subst IsAllActive (sym (put-deactivated s.runs a.key (get s.runs a.key) new))
          (All-put (λ (p : TextPair × ActiveRun). p.1.is_active ≡ true) s.runs a.key new h refl)

activate_all-IsAllActive :
    (s : ProjectorStore) (as' : List Activation)
    → IsAllActive s.runs
    → IsAllActive (activate_all s as').runs
unfolding activate_all
activate_all-IsAllActive s [] h = h
activate_all-IsAllActive s (a ∷ as') h =
    activate_all-IsAllActive (activate_run s a.key a.session a.run a.now a.error).0 as'
      (activate_run-IsAllActive s a h)

is_inactive_run-false :
    (runs : Dict TextPair ActiveRun) (run : String)
    → IsAllActive runs
    → is_inactive_run runs run ≡ false
unfolding is_inactive_run
is_inactive_run-false [] run h = refl
is_inactive_run-false ((key, r) ∷ runs) run h =
    ground (arith, h.0, is_inactive_run-false runs run h.1)

keep_all :
    (runs : Dict TextPair ActiveRun) (cut : ℕ) (entities : Dict TextPair EntityState)
    → IsAllActive runs
    → keep (λ p. not (state_expired runs cut p)) entities ≡ entities
unfolding state_expired
keep_all runs cut [] h = refl
keep_all runs cut ((key, e) ∷ entities) h =
    rw (is_inactive_run-false runs key.0 h) (ap (λ d. (key, e) ∷ d) (keep_all runs cut entities h))

-- However many runs are activated, one after another, for whichever producers, the clean-up deletes no
-- entity state, at any time and for any retention: the activation of a run overwrites the row that it
-- has just made inactive, so that no run is ever inactive.
pub cleanup-activate_all :
    (entities : Dict TextPair EntityState) (as' : List Activation)
    (now state_retention ledger_retention : ℕ)
    → (cleanup
        (activate_all (record init { entities = entities }) as')
        now
        state_retention
        ledger_retention).0.entities
      ≡ (activate_all (record init { entities = entities }) as').entities
unfolding cleanup
cleanup-activate_all entities as' now state_retention ledger_retention =
    let s = activate_all (record init { entities = entities }) as' in
    keep_all s.runs (now - state_retention) s.entities
      (activate_all-IsAllActive (record init { entities = entities }) as' (unfold init in tt))
