-- ===== src/Projector/Core/Refusal.antt =====
-- Visualize/integration/projector/core.py: what a batch that Orion refuses for the moment leaves, and the
-- switch between the modes.
use smart_data_models.Prelude.{
  ℕ, String, Bool, true, false, ◌&&◌, Option, none, some, List, [], ◌∷◌, ◌++◌, ◌≡◌, ◌≢◌, ◌⊎◌, refl,
  ap, arith, inl, inr, Bool-cases,
}
use smart_data_models.Projector.Event.{BufferedEvent}
use smart_data_models.Projector.NodeBuffer.{NodeBuffer, pause}
use smart_data_models.Projector.Core.State.{
  ProjectorMode, normal, catch_up, RuntimePhase, phase_degraded, Core, Env, BatchUpsertResult,
  returned, gets, update, continue, ◌>>=◌, ◌>>◌,
}
use smart_data_models.Projector.Core.Apply.{
  is_empty, is_created, classify_batch_result, is_transient, degrade, fail_attempt, deliver,
}
use smart_data_models.Projector.Core.Recovery.{
  enters_catch_up, exits_catch_up, switch_mode, update_lag_probe,
}

-- The store, the tracker and the buffers that the manager holds are those of before, and the projector
-- is paused and degraded.
pub record IsRefused (c c' : Core) : Type 0 where
  pub store : c'.store ≡ c.store
  pub offsets : c'.offsets ≡ c.offsets
  pub nodes : c'.buffers.nodes ≡ c.buffers.nodes
  pub paused : c'.buffers.paused ≡ true
  pub phase : c'.runtime_phase ≡ phase_degraded

fail_attempt-IsRefused :
    (bes : List BufferedEvent) (v : Env) (c : Core)
    → ((fail_attempt bes v c).0 ≡ returned tt) × IsRefused c (fail_attempt bes v c).1
unfolding fail_attempt degrade update ◌>>◌ ◌>>=◌ continue pause
fail_attempt-IsRefused bes v c =
    (refl, record { store = refl; offsets = refl; nodes = refl; paused = refl; phase = refl })

-- Orion asks for a retry of some entities, or leaves some in doubt, other than by a 201 or a 204 that names
-- no entity.
abbrev pub IsUnsettled : BatchUpsertResult → Type 0
IsUnsettled r =
    ((id : String) × (ids : List String) × (r.retryable_error_ids ≡ id ∷ ids))
    ⊎ (((id : String) × (ids : List String) × (r.ambiguous_ids ≡ id ∷ ids))
        × (((id : String) × (ids : List String) × (r.success_ids ≡ id ∷ ids))
            ⊎ ((r.http_status ≢ some 201) × (r.http_status ≢ some 204))))

created_status : (o : Option ℕ) → is_created o ≡ true → (o ≡ some 201) ⊎ (o ≡ some 204)
created_status none h = absurd (cc h)
created_status (some n) h = ground (arith, h)

is_empty-append : (xs ys : List String) → is_empty (xs ++ ys) ≡ (is_empty xs && is_empty ys)
is_empty-append [] ys = refl
is_empty-append (x ∷ xs) ys = refl

named :
    (xs : List String)
    → ((id : String) × (ids : List String) × (xs ≡ id ∷ ids))
    → is_empty xs ≡ false
named xs (id, ids, e) = ap is_empty e

-- Where the reply says that the entities are created, and where it does not.
by_reply :
    (r : BatchUpsertResult)
    → ((is_empty r.success_ids && is_created r.http_status) ≡ true
        → is_empty r.retryable_error_ids ≡ false)
    → (is_empty r.retryable_error_ids && is_empty r.ambiguous_ids) ≡ false
    → is_transient (classify_batch_result r) ≡ true
unfolding is_transient classify_batch_result
by_reply r created some_id =
    elim (Bool-cases (is_empty r.success_ids && is_created r.http_status)) [
      | inl replied ↦ rw (replied, created replied) refl
      | inr other ↦ rw (other, is_empty-append r.retryable_error_ids r.ambiguous_ids, some_id) refl
    ]

unsettled-is_transient :
    (r : BatchUpsertResult) → IsUnsettled r → is_transient (classify_batch_result r) ≡ true
unsettled-is_transient r (inl h) =
    let retries = named r.retryable_error_ids h in by_reply r (λ _. retries) (rw retries refl)
unsettled-is_transient r (inr (h, other)) =
    by_reply r (λ created. absurd (not_created other created))
      (ground (arith, named r.ambiguous_ids h))
  where
    not_created :
        ((id : String) × (ids : List String) × (r.success_ids ≡ id ∷ ids))
          ⊎ ((r.http_status ≢ some 201) × (r.http_status ≢ some 204))
        → (is_empty r.success_ids && is_created r.http_status) ≡ true
        → ⊥
    not_created (inl sent) both = ground (arith, named r.success_ids sent, both)
    not_created (inr (first, second)) both =
        elim (created_status r.http_status (ground (arith, both))) [
          | inl e ↦ first e
          | inr e ↦ second e
        ]

-- A batch for which Orion asks for a retry of an entity, or leaves an entity in doubt (other than by a 201
-- or a 204 that names no entity), ends without an exception: nothing is written and no offset is marked,
-- the projector is paused and degraded, and the buffers that the manager holds are those it held, so that
-- a buffer that was taken out before is not put back.
pub deliver-IsRefused :
    (b : NodeBuffer) (partial : Bool) (bes : List BufferedEvent) (v : Env) (c : Core)
    → IsUnsettled (v.batch_upsert bes)
    → ((deliver b partial bes v c).0 ≡ returned tt) × IsRefused c (deliver b partial bes v c).1
unfolding deliver gets ◌>>=◌ continue
deliver-IsRefused b partial bes v c unsettled =
    rw (unsettled-is_transient (v.batch_upsert bes) unsettled) (fail_attempt-IsRefused bes v c)

no_exit :
    (lag : ℕ) (freshness : Option ℕ)
    → enters_catch_up lag freshness ≡ true
    → exits_catch_up lag freshness ≡ false
unfolding enters_catch_up exits_catch_up
no_exit lag none h = ground (arith, h)
no_exit lag (some t) h = ground (arith, h)

again :
    (mode : ProjectorMode) (p q : RuntimePhase) (lag : ℕ) (freshness : Option ℕ)
    → (switch_mode (switch_mode mode p lag freshness).0 q lag freshness).0
      ≡ (switch_mode mode p lag freshness).0
unfolding switch_mode
again normal p q lag freshness = ground (arith, no_exit lag freshness)
again catch_up p q lag freshness = ground (arith, no_exit lag freshness)

-- A probe that is repeated with the same lag and freshness leaves the mode that the first one has chosen:
-- the two thresholds never let the mode swing.
pub update_lag_probe-again :
    (lag max_partition_lag : ℕ) (freshness : Option ℕ) (c : Core)
    → (update_lag_probe lag max_partition_lag freshness
        (update_lag_probe lag max_partition_lag freshness c)).mode
      ≡ (update_lag_probe lag max_partition_lag freshness c).mode
unfolding update_lag_probe
update_lag_probe-again lag max_partition_lag freshness c =
    again c.mode c.runtime_phase _ lag freshness
