-- ===== src/Projector/Store/Recovery/Rewind.antt =====
-- That `set_runtime_state` and `reconcile_runtime_state_from_entities` of
-- Visualize/integration/projector/store.py never go back.
use smart_data_models.Prelude.{
  ◌≤◌, ◌<◌, String, true, ◌&&◌, ◌||◌, Option, none, some, ◌≡◌, refl, sym, subst, ◌⊎◌, ◌≢◌, inl, inr,
  arith, ltb, leb, eqb, if-split, Bool-cases, string_key, ◌==◌, topic_partition_key, same_refl,
}
use smart_data_models.Projector.Tables.{text_pair_key, EntityState, RuntimeState, ProjectorStore}
use smart_data_models.Projector.Store.{time_or_zero, takes_over, runtime_after, set_runtime_state}
use smart_data_models.Projector.Store.Recovery.{
  latest, reconciled, reconcile_runtime_state_from_entities,
}

-- The first state is of no run, or the second is of another run, or of a later cycle, or of the same
-- cycle and no earlier time.
abbrev pub IsNotRewound : RuntimeState → RuntimeState → Type 0
IsNotRewound old new =
    (old.simulation_run_id ≡ none)
    ⊎ ((new.simulation_run_id ≢ old.simulation_run_id)
        ⊎ ((old.last_applied_cycle < new.last_applied_cycle)
            ⊎ ((old.last_applied_cycle ≡ new.last_applied_cycle)
                × (old.simulation_time ≤ new.simulation_time))))

later_or_same :
    (old new : RuntimeState)
    → (ltb old.last_applied_cycle new.last_applied_cycle
        || (eqb new.last_applied_cycle old.last_applied_cycle
            && leb old.simulation_time new.simulation_time))
      ≡ true
    → IsNotRewound old new
later_or_same old new h = elim (Bool-cases (ltb old.last_applied_cycle new.last_applied_cycle)) [
  | inl later ↦ inr (inr (inl (ground (arith, later))))
  | inr same ↦ inr (inr (inr (ground (arith, h, same), ground (arith, h, same))))
]

takes_over-IsNotRewound :
    (old new : RuntimeState) → takes_over new old ≡ true → IsNotRewound old new
takes_over-IsNotRewound old new h = go old.simulation_run_id new.simulation_run_id refl refl
  where
    go :
        (o n : Option String)
        → old.simulation_run_id ≡ o
        → new.simulation_run_id ≡ n
        → IsNotRewound old new
    go none n e f = inl e
    go (some a) none e f = later_or_same old new (unfold takes_over in (rw (e, f) at h))
    go (some a) (some b) e f = elim (Bool-cases (a == b)) [
      | inl same ↦ later_or_same old new (unfold takes_over in (rw (e, f, same) at h))
      | inr other ↦ inr (inl λ p. cc (other, same_refl a, p, e, f))
    ]

IsNotRewound-refl : (r : RuntimeState) → IsNotRewound r r
IsNotRewound-refl r = inr (inr (inr (refl, omega arith)))

-- What is read after `set_runtime_state`.
runtime_after-IsNotRewound :
    (new old : RuntimeState) → IsNotRewound old (runtime_after new (some old))
unfolding runtime_after
runtime_after-IsNotRewound new old =
    if-split (IsNotRewound old) (takes_over new old) new old (takes_over-IsNotRewound old new)
      (λ _. IsNotRewound-refl old)

reconciled-IsNotRewound :
    (s : ProjectorStore) (run : String) (o : Option EntityState) (current : RuntimeState)
    → s.runtime ≡ some current
    → (next : RuntimeState) × ((reconciled s run o (some current)).runtime ≡ some next)
      × IsNotRewound current next
unfolding reconciled set_runtime_state
reconciled-IsNotRewound s run none current h = (current, h, IsNotRewound-refl current)
reconciled-IsNotRewound s run (some e) current h =
    let new = record current {
      simulation_run_id = some run;
      simulation_time = time_or_zero e.last_simulation_time;
      last_applied_cycle = e.last_cycle_sequence;
    } in
    (
      runtime_after new s.runtime,
      refl,
      subst (λ o. IsNotRewound current (runtime_after new o)) (sym h)
          (runtime_after-IsNotRewound new current),
    )

-- The runtime state that a restart reconciles with the entity states is there after the call as it was
-- before, and has not gone back: it was of no run, or is now of another one, or is of a later cycle, or
-- of the same cycle and no earlier time.
pub reconcile_runtime_state_from_entities-IsNotRewound :
    (s : ProjectorStore) (run : String) (current : RuntimeState)
    → s.runtime ≡ some current
    → (next : RuntimeState) × ((reconcile_runtime_state_from_entities s run).runtime ≡ some next)
      × IsNotRewound current next
unfolding reconcile_runtime_state_from_entities
reconcile_runtime_state_from_entities-IsNotRewound s run current h =
    subst
      (λ o.
        (next : RuntimeState) × ((reconciled s run (latest run s.entities none) o).runtime
          ≡ some next)
        × IsNotRewound current next)
      (sym h) (reconciled-IsNotRewound s run (latest run s.entities none) current h)
