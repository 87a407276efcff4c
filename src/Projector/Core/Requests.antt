-- ===== src/Projector/Core/Requests.antt =====
-- Visualize/integration/projector/core.py: any sequence of calls of `OrionProjector`, each with its own
-- readings of the clocks. An exception ends its call, and the next call goes on from the state it left.
use smart_data_models.Prelude.{
  ℕ, String, Bool, true, false, Option, none, some, List, [], ◌∷◌, ◌≡◌, refl, if-split, Dict,
  string_key, All, TopicPartition, topic_partition_key,
}
use smart_data_models.Projector.Tables.{EntityState, ActiveRun, RuntimeState, ProjectorStore}
use smart_data_models.Projector.Store.{
  set_runtime_state, set_committed_offset, get_committed_offset,
}
use smart_data_models.Projector.Store.Recovery.{
  rebuild_completed_offsets, reconcile_runtime_state_from_entities, reconciled, latest,
}
use smart_data_models.Projector.Store.Upserts.{IsOnward, IsOnward-refl, IsOnward-trans}
use smart_data_models.Projector.OffsetTracker.{passes, load_committed}
use smart_data_models.Projector.Core.State.{
  WriteMode, Core, Env, Answer, Call, pure, write, first_end,
}
use smart_data_models.Projector.Core.Marks.{can_commit_offsets}
use smart_data_models.Projector.Core.Tick.{tick}
use smart_data_models.Projector.Core.Recovery.{
  recover_at, recover_partition, reconcile_tx, reconcile_active, recover, update_lag_probe,
  set_write_mode, load_fence_manifest,
}
use smart_data_models.Projector.Core.RunStart.{Value, process_record}
use smart_data_models.Projector.Core.Poison.{RawRecord, consume}
use smart_data_models.Projector.Core.Advances.{
  Keeps, Keeps-pure, Keeps-update, keeps_rules, onward, Onward-write, IsHeld, IsSteady,
  IsSteady-refl, IsSteady-trans,
}
use smart_data_models.Projector.Core.Onward.{set_committed_offset-IsOnward}
use smart_data_models.Projector.Core.Loop.{tick-Advances, consume-Advances}
use smart_data_models.Projector.Core.Progress.{unchanged, process_record-Advances}

recover_at_onward : (place : TopicPartition) (o : Option ℕ) → Keeps onward (recover_at place o)
unfolding recover_at
recover_at_onward place none = record { at = λ v c. (Keeps-pure {r = onward} tt).at v c }
recover_at_onward place (some last) = record {
  at = λ v c.
      let loaded = record c { offsets = load_committed c.offsets place last } in
      if-split (λ (r : Answer Unit × Core). IsOnward c.store r.1.store)
        (passes (get_committed_offset c.store place) last)
        (write (λ v s e. set_committed_offset s place last e) v loaded) (pure tt v loaded)
        (λ h. unfold write in set_committed_offset-IsOnward c.store place last (first_end c.disk) h)
        (λ _. (Keeps-pure {r = onward} tt).at v loaded);
}

recover_partition_onward : (place : TopicPartition) → Keeps onward (recover_partition place)
unfolding recover_partition
recover_partition_onward place = record {
  at = λ v c.
      (recover_at_onward place
          (rebuild_completed_offsets c.store place (get_committed_offset c.store place))).at
        v c;
}

reconciled-IsOnward :
    (s : ProjectorStore) (run : String) (e : Option EntityState)
    → IsOnward s (reconciled s run e s.runtime)
reconciled-IsOnward s run e = go e s.runtime
  where
    go : (e : Option EntityState) (o : Option RuntimeState) → IsOnward s (reconciled s run e o)
    go none o = unfold reconciled in IsOnward-refl s
    go (some e) none = unfold reconciled in IsOnward-refl s
    go (some e) (some r) = unfold reconciled set_runtime_state in unchanged refl refl refl

reconcile_tx-IsOnward :
    (s : ProjectorStore) (run : String) (e : Option String) → IsOnward s (reconcile_tx s run e).0
unfolding reconcile_tx reconcile_runtime_state_from_entities
reconcile_tx-IsOnward s run none = reconciled-IsOnward s run (latest run s.entities none)
reconcile_tx-IsOnward s run (some e) = IsOnward-refl s

reconcile_active_onward : (o : Option ActiveRun) → Keeps onward (reconcile_active o)
unfolding reconcile_active
reconcile_active_onward none = Keeps-pure tt
reconcile_active_onward (some run) =
    Onward-write (λ v s e. reconcile_tx s run.simulation_run_id e)
      (λ v s e. reconcile_tx-IsOnward s run.simulation_run_id e)

unchanged_store : (c : Core) → IsOnward c.store c.store
unchanged_store c = IsOnward-refl c.store

recover_onward :
    (partitions : List TopicPartition) (producer : String)
    → Keeps onward (recover partitions producer)
unfolding recover
recover_onward partitions producer =
    search
      (
        keeps_rules, Keeps-update, unchanged_store, recover_partition_onward,
        reconcile_active_onward,
      )
      depth 14

-- A call, the clean-up of the retention apart.
pub data Request : Type 0 where
  process_request : Value → TopicPartition → ℕ → Request
  consume_request : RawRecord → Option String → Request
  tick_request : Bool → Bool → Request
  recover_request : List TopicPartition → String → Request
  lag_request : ℕ → ℕ → Option ℕ → Request
  mode_request : WriteMode → Request
  fence_request : String → Dict ℕ ℕ → Request

abbrev pub state_after : {A : Type 0} → Call A → Env → Core → Core
state_after m v c = (m v c).1

unfoldable pub serve : Request → Env → Core → Core
serve (process_request value place offset) v c = state_after (process_record value place offset) v c
serve (consume_request r published) v c = state_after (consume r published) v c
serve (tick_request allow_partial complete_cycles_only) v c =
    state_after (tick allow_partial complete_cycles_only) v c
serve (recover_request partitions producer) v c = state_after (recover partitions producer) v c
serve (lag_request lag max_partition_lag freshness) v c =
    update_lag_probe lag max_partition_lag freshness c
serve (mode_request mode) v c = set_write_mode mode c
serve (fence_request target fences) v c = load_fence_manifest target fences c

unfoldable pub serve_all : List (Env × Request) → Core → Core
unfolding serve
serve_all [] c = c
serve_all ((v, r) ∷ requests) c = serve_all requests (serve r v c)

serve-IsOnward : (r : Request) (v : Env) (c : Core) → IsOnward c.store (serve r v c).store
unfolding serve
serve-IsOnward (process_request value place offset) v c =
    ((process_record-Advances value place offset).at v c).onward
serve-IsOnward (consume_request r published) v c = ((consume-Advances r published).at v c).onward
serve-IsOnward (tick_request p q) v c = ((tick-Advances p q).at v c).onward
serve-IsOnward (recover_request partitions producer) v c =
    (recover_onward partitions producer).at v c
serve-IsOnward (lag_request lag most freshness) v c =
    unfold update_lag_probe in IsOnward-refl c.store
serve-IsOnward (mode_request mode) v c = unfold set_write_mode in IsOnward-refl c.store
serve-IsOnward (fence_request target fences) v c =
    unfold load_fence_manifest in IsOnward-refl c.store

-- Over any calls from any state, the clean-up of the retention apart, whatever they are given, whichever
-- of their writes fail and however Orion answers, no ledger row, no entity state and no commit is lost; a
-- ledger row keeps its event, its place and its payload hash; no entity state goes back to an earlier
-- cycle, nor within a cycle to an earlier time; and no commit goes back.
pub serve_all-IsOnward :
    (requests : List (Env × Request)) (c : Core) → IsOnward c.store (serve_all requests c).store
unfolding serve_all
serve_all-IsOnward [] c = IsOnward-refl c.store
serve_all-IsOnward ((v, r) ∷ requests) c =
    IsOnward-trans (serve-IsOnward r v c) (serve_all-IsOnward requests (serve r v c))

-- A record, or a flush of the buffers: what the consumer's loop calls.
abbrev pub is_loop : Request → Bool
is_loop (process_request value place offset) = true
is_loop (consume_request r published) = true
is_loop (tick_request p q) = true
is_loop _ = false

serve-IsSteady : (r : Request) (v : Env) (c : Core) → is_loop r ≡ true → IsSteady c (serve r v c)
unfolding serve
serve-IsSteady (process_request value place offset) v c h =
    (process_record-Advances value place offset).at v c
serve-IsSteady (consume_request r published) v c h = (consume-Advances r published).at v c
serve-IsSteady (tick_request p q) v c h = (tick-Advances p q).at v c
serve-IsSteady (recover_request partitions producer) v c h = absurd (cc h)
serve-IsSteady (lag_request lag most freshness) v c h = absurd (cc h)
serve-IsSteady (mode_request mode) v c h = absurd (cc h)
serve-IsSteady (fence_request target fences) v c h = absurd (cc h)

serve_all-IsSteady :
    (requests : List (Env × Request)) (c : Core)
    → All (λ (p : Env × Request). is_loop p.1 ≡ true) requests
    → IsSteady c (serve_all requests c)
unfolding serve_all
serve_all-IsSteady [] c h = IsSteady-refl c
serve_all-IsSteady ((v, r) ∷ requests) c h =
    IsSteady-trans (serve-IsSteady r v c h.0) (serve_all-IsSteady requests (serve r v c) h.1)

-- In another write mode than ACTIVE, over any records and any flushes, the mode stays, no commit is
-- persisted or moved, and no offset is marked.
pub serve_all-IsHeld :
    (requests : List (Env × Request)) (c : Core)
    → All (λ (p : Env × Request). is_loop p.1 ≡ true) requests
    → can_commit_offsets c ≡ false
    → IsHeld c (serve_all requests c)
serve_all-IsHeld requests c loop shut = (serve_all-IsSteady requests c loop).held shut
