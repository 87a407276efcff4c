-- ===== src/Projector/Core/Process.antt =====
-- Visualize/integration/projector/core.py: the way of an entity event
-- through `process_record`, and what it calls.
use smart_data_models.Prelude.{
  ℕ, ◌+◌, ◌*◌, ◌/◌, String, Bool, true, false, not, ◌&&◌, Option, none, some, [], ◌∷◌, ◌++◌, length,
  ltb, leb, if◌then◌else◌, string_key, nat_key, ◌==◌, get, put, remove,
}
use smart_data_models.Projector.Event.{EntityEvent, BufferedEvent}
use smart_data_models.Projector.Tables.{TextPair, text_pair_key, EntityState, ActiveRun}
use smart_data_models.Projector.Store.{get_active_run, get_entity_state}
use smart_data_models.Projector.NodeBuffer
use smart_data_models.Projector.NodeBuffer.{NodeBufferManager, Action, ready, buffered, quarantine}
use smart_data_models.Projector.Core.State.{
  WriteMode, disabled, armed, active, Core, Call, pure, raise, gets, modify, update, ◌>>=◌, ◌>>◌,
}
use smart_data_models.Projector.Core.Marks.{
  is_armed, mark_stale, mark_sim_time_regression, mark_quarantine, mark_fence_skipped,
}
use smart_data_models.Projector.Core.Apply.{apply_node_buffer}

pub data Label : Type 0 where
  disabled_skip ignored fence_skipped armed_buffer_full armed_buffered awaiting stale_skipped :
      Label
  time_regression_skipped quarantined node_ready_deferred node_applied node_buffered : Label
  run_started_duplicate run_started : Label

-- No target, or the target itself.
unfoldable pub is_target : Option String → String → Bool
is_target none run = true
is_target (some target) run = run == target

unfoldable pub is_fenced : Option ℕ → ℕ → Bool
is_fenced none offset = false
is_fenced (some low) offset = ltb offset low

unfoldable pub fence_allows : Core → ℕ → ℕ → String → Bool
fence_allows c partition offset run =
    is_target c.target_simulation_run_id run
    && not (is_fenced (get c.fence_offsets partition) offset)

-- A run that is not the target's counts as absent, and only one that is kept is cached.
unfoldable pub resolve_stored : Core → TextPair → Option ActiveRun → Option ActiveRun × Core
resolve_stored c key none = (none, c)
resolve_stored c key (some run) =
    if is_target c.target_simulation_run_id run.simulation_run_id
    then (some run, record c { active_run_cache = put c.active_run_cache key run })
    else (none, c)

unfoldable pub resolve_cached : Core → TextPair → Option ActiveRun → Option ActiveRun × Core
resolve_cached c key none = resolve_stored c key (get_active_run c.store key)
resolve_cached c key (some run) =
    if is_target c.target_simulation_run_id run.simulation_run_id
    then (some run, c)
    else resolve_stored (record c { active_run_cache = remove c.active_run_cache key }) key
        (get_active_run c.store key)

unfoldable pub resolve_active_run : String → Core → Option ActiveRun × Core
resolve_active_run producer c =
    let key : TextPair = (c.source, producer) in resolve_cached c key (get c.active_run_cache key)

-- `int(self.armed_buffer_max * 0.9)`
unfoldable pub nine_tenths : ℕ → ℕ
nine_tenths n = n * 9 / 10

unfoldable pub hold_armed : BufferedEvent → Core → Label × Core
hold_armed be c =
    let held = c.armed_buffer ++ be ∷ [] in
    (
      armed_buffered,
      record c {
        armed_buffer = held;
        partitions_paused =
            if leb (nine_tenths c.armed_buffer_max) (length held)
            then true
            else c.partitions_paused;
      },
    )

unfoldable pub buffer_armed : BufferedEvent → Core → Label × Core
buffer_armed be c =
    if leb c.armed_buffer_max (length c.armed_buffer)
    then (armed_buffer_full, record c { partitions_paused = true })
    else hold_armed be c

-- A time that is more than a nanosecond before the entity's.
unfoldable pub is_time_regression : Option EntityState → ℕ → Bool
is_time_regression none t = false
is_time_regression (some e) t = elim e.last_simulation_time [
  | none ↦ false
  | some last ↦ ltb (t + 1) last
]

unfoldable pub act_on : BufferedEvent → Action → Call Label
act_on be quarantine = mark_quarantine be >> pure quarantined
act_on be (buffered b) = pure node_buffered
act_on be (ready b) = do
  deferred ← gets (λ v c. c.defer_ready_until_idle)
  if deferred then pure node_ready_deferred else do apply_node_buffer b false; pure node_applied

unfoldable pub ingest_buffer : BufferedEvent → Call Action
ingest_buffer be = modify (λ v c.
    let (m, action) = NodeBuffer.ingest c.buffers be v.clock_ms in
    (action, record c { buffers = m }))

unfoldable pub ingest_active_entity : BufferedEvent → Call Label
ingest_active_entity be = do
  e ← gets (λ v c. get_entity_state c.store (be.event.simulation_run_id, be.event.entity_id))
  if is_time_regression e be.event.simulation_time
      then (do mark_sim_time_regression be; pure time_regression_skipped)
      else do action ← ingest_buffer be; act_on be action

unfoldable pub route : BufferedEvent → Option ActiveRun → Call Label
route be none =
    update (λ v c. record c { awaiting_run = c.awaiting_run ++ be ∷ [] }) >> pure awaiting
route be (some run) =
    if run.simulation_run_id == be.event.simulation_run_id
    then ingest_active_entity be
    else do mark_stale be; pure stale_skipped

-- `value.get("producerId") or "visualize-traci"`
unfoldable pub producer_of : EntityEvent → String
producer_of ev = elim ev.producer_id [
  | none ↦ "visualize-traci"
  | some id ↦ if id == "" then "visualize-traci" else id
]

unfoldable pub process_admitted : BufferedEvent → Call Label
process_admitted be = do
  is_held ← gets (λ v c. is_armed c.write_mode)
  if is_held
      then modify (λ v c. buffer_armed be c)
      else do run ← modify (λ v c. resolve_active_run (producer_of be.event) c); route be run

unfoldable pub process_entity : BufferedEvent → Call Label
process_entity be = do
  allowed ← gets (λ v c. fence_allows c be.partition be.offset be.event.simulation_run_id)
  if allowed then process_admitted be else do mark_fence_skipped be; pure fence_skipped

abbrev pub message_of : Option String → String
message_of none = "projector faulted"
message_of (some message) = message

abbrev pub is_disabled : WriteMode → Bool
is_disabled disabled = true
is_disabled armed = false
is_disabled active = false

-- The tests that stand before the event is read.
unfoldable pub unless_stopped : Call Label → Call Label
unless_stopped m = do
  is_faulted ← gets (λ v c. c.is_faulted)
  if is_faulted then (do message ← gets (λ v c. message_of c.fault_message); raise message) else do
    is_off ← gets (λ v c. is_disabled c.write_mode)
    if is_off then pure disabled_skip else m
