-- ===== src/Projector/Core/State.antt =====
-- Visualize/integration/projector/core.py: the state of `OrionProjector` and the actions on it. What
-- was written before an exception stays written, so the state comes back beside the error too. The
-- metrics and the samples of the latencies, which no decision reads, are left out.
use smart_data_models.Prelude.{
  ℕ, String, Bool, Option, none, some, List, [], ◌∷◌, string_key, nat_key, Dict, TopicPartition,
}
use smart_data_models.Projector.Event.{BufferedEvent}
use smart_data_models.Projector.Tables.{TextPair, ActiveRun, LedgerRow, ProjectorStore}
use smart_data_models.Projector.Store.{EntityUpdate, apply_batch_tx}
use smart_data_models.Projector.OffsetTracker.{OffsetTracker}
use smart_data_models.Projector.NodeBuffer.{NodeBufferManager}
use smart_data_models.Projector.Retry.{RetryManager}
use smart_data_models.Projector.Core.Cache.{RuntimeCache}

pub data ProjectorMode : Type 0 where
  normal catch_up : ProjectorMode

pub data RuntimePhase : Type 0 where
  ready_idle phase_active phase_catch_up phase_degraded phase_faulted recovering : RuntimePhase

pub data WriteMode : Type 0 where
  disabled armed active : WriteMode

-- `disk` has the end of each write to SQLite that is to come: `some` error, or `none` where it
-- succeeds; past its end, every write succeeds. A target that is unset or empty is `none`.
pub record Core : Type 0 where
  pub store : ProjectorStore
  pub disk : List (Option String)
  pub source : String
  pub write_mode : WriteMode
  pub target_simulation_run_id : Option String
  pub fence_offsets : Dict ℕ ℕ
  pub armed_buffer_max : ℕ
  pub armed_buffer : List BufferedEvent
  pub partitions_paused : Bool
  pub defer_ready_until_idle : Bool
  pub runtime_cache : RuntimeCache
  pub retry_manager : RetryManager
  pub runtime_phase : RuntimePhase
  pub last_lag_events : ℕ
  pub last_max_partition_lag : ℕ
  pub lag_samples : List ℕ
  pub buffers : NodeBufferManager
  pub offsets : OffsetTracker
  pub mode : ProjectorMode
  pub awaiting_run_timeout_ms : ℕ
  pub awaiting_run : List BufferedEvent
  pub is_faulted : Bool
  pub fault_message : Option String
  pub active_run_cache : Dict TextPair ActiveRun

-- The reply of the Orion client to a batch (`BatchUpsertResult`, with the ids of `permanent_errors`).
pub record BatchUpsertResult : Type 0 where
  pub http_status : Option ℕ
  pub success_ids : List String
  pub retryable_error_ids : List String
  pub permanent_ids : List String
  pub ambiguous_ids : List String

-- The surroundings of a call: the readings of the clocks, one for the whole call (of the wall clock and
-- of the monotonic one in microseconds, of the monotonic one in milliseconds), the draw of the random
-- source, the id under which the mapper sends an entity, and the injected client.
pub record Env : Type 0 where
  pub now : ℕ
  pub clock_us : ℕ
  pub clock_ms : ℕ
  pub draw : ℕ
  pub sent_id : String → String
  pub batch_upsert : List BufferedEvent → BatchUpsertResult

pub data Answer (A : Type 0) : Type 0 where
  returned : A → Answer A
  raised : String → Answer A

abbrev pub Call : Type 0 → Type 0
Call A = Env → Core → Answer A × Core

module _ {A : Type 0} where
  unfoldable pub pure : A → Call A
  pure a v c = (returned a, c)

  unfoldable pub raise : String → Call A
  raise e v c = (raised e, c)

  -- What is read of the surroundings and of the state.
  unfoldable pub gets : (Env → Core → A) → Call A
  gets f v c = (returned (f v c), c)

  -- What is read of them, beside the state that the reading leaves.
  unfoldable pub modify : (Env → Core → A × Core) → Call A
  modify f v c = (returned (f v c).0, (f v c).1)

unfoldable pub update : (Env → Core → Core) → Call Unit
update f v c = (returned tt, f v c)

module _ {A B : Type 0} where
  unfoldable pub continue : Answer A → (A → Call B) → Call B
  continue (returned a) f v c = f a v c
  continue (raised e) f v c = (raised e, c)

  infixl 10 ◌>>=◌
  unfoldable pub ◌>>=◌ : Call A → (A → Call B) → Call B
  unfolding continue
  ◌>>=◌ m f v c = continue (m v c).0 f v (m v c).1

module _ {B : Type 0} where
  infixl 10 ◌>>◌
  unfoldable pub ◌>>◌ : Call Unit → Call B → Call B
  m >> n = m >>= λ _. n

-- `for x in xs: f(x)`
module _ {B : Type 0} where
  unfoldable pub for_each : (B → Call Unit) → List B → Call Unit
  for_each f [] = pure tt
  for_each f (x ∷ xs) = f x >> for_each f xs

unfoldable pub first_end : List (Option String) → Option String
first_end [] = none
first_end (e ∷ es) = e

unfoldable pub later_ends : List (Option String) → List (Option String)
later_ends [] = []
later_ends (e ∷ es) = es

unfoldable pub answer_of : Option String → Answer Unit
answer_of none = returned tt
answer_of (some e) = raised e

-- One transaction of the store, for a method that gives the store and its error.
unfoldable pub write :
    (Env → ProjectorStore → Option String → ProjectorStore × Option String) → Call Unit
write f v c =
    let (s, e) = f v c.store (first_end c.disk) in
    (answer_of e, record c { store = s; disk = later_ends c.disk })

-- The rows and the updates carry the time of the write.
unfoldable pub apply_batch : (ℕ → List LedgerRow) → (ℕ → List EntityUpdate) → Call Unit
apply_batch rows updates = write (λ v s e. apply_batch_tx s (rows v.now) (updates v.now) [] v.now e)

abbrev pub place_of : BufferedEvent → TopicPartition
place_of be = (be.topic, be.partition)
