-- ===== src/Projector/Core/Progress.antt =====
-- That the handlers of Visualize/integration/projector/core.py move the store only on.
use smart_data_models.Prelude.{
  ℕ, ◌≤◌, String, Bool, true, Option, none, some, List, [], ◌∷◌, ◌≡◌, refl, if-elim, leb, length,
  remove, string_key, get, put, TopicPartition, topic_partition_key, Onward-refl,
}
use native.Mathlib.Nat.{le_refl}
use smart_data_models.Projector.Event.{BufferedEvent}
use smart_data_models.Projector.Tables.{
  ProjectorStore, RuntimeState, ActiveRun, TextPair, text_pair_key,
}
use smart_data_models.Projector.Store.{activate_run, activated, get_active_run, set_runtime_state}
use smart_data_models.Projector.Store.Upserts.{
  IsNotOlder, IsNotOlder-refl, IsSameEvent, IsSameEvent-refl, IsOnward, IsOnward-refl,
}
use smart_data_models.Projector.NodeBuffer.{NodeBuffer, Action, ready, buffered, quarantine}
use smart_data_models.Projector.Core.State.{Core, Call}
use smart_data_models.Projector.Core.Apply.{
  set_runtime, applied_whole, degrade, attempt_allowed, fail_attempt, Classified, note_applied,
  settle_batch, deliver, send, apply_active, apply_node_buffer,
}
use smart_data_models.Projector.Core.Process.{
  Label, armed_buffer_full, is_target, resolve_stored, resolve_cached, resolve_active_run,
  hold_armed, buffer_armed, act_on, ingest_buffer, ingest_active_entity, route, process_admitted,
  process_entity, unless_stopped,
}
use smart_data_models.Projector.Core.RunStart.{
  RunStarted, Value, run_started_value, entity_observed, other_value, process_again,
  drain_awaiting_run, drain_armed_buffer, fence_run, begin_run, admit_run, handle_run_started,
  process_value, process_record,
}
use smart_data_models.Projector.Core.Advances.{
  Keeps-update, Keeps-modify, Keeps-then, IsSteady, IsSteady-refl, IsSteady-trans, IsSteady-quiet,
  Advances, Steady-write,
}
use smart_data_models.Projector.Core.Onward.{
  core_rules, finish-Advances, mark_stale-Advances, mark_sim_time_regression-Advances,
  mark_quarantine-Advances, mark_fence_skipped-Advances, screen_all-Advances,
  drop_regressed-Advances, commit_places-Advances, pop_buffer-Advances,
}

pub unchanged :
    {s s' : ProjectorStore}
    → s'.ledger ≡ s.ledger
    → s'.entities ≡ s.entities
    → s'.commits ≡ s.commits
    → IsOnward s s'
unchanged {s} {s'} p q r = record {
  ledger = rw p (Onward-refl IsSameEvent s.ledger IsSameEvent-refl);
  entities = rw q (Onward-refl IsNotOlder s.entities IsNotOlder-refl);
  commits = rw r (Onward-refl ◌≤◌ s.commits (λ n. le_refl n));
}

set_runtime-IsOnward :
    (s : ProjectorStore) (new : RuntimeState) (e : Option String)
    → IsOnward s (set_runtime s new e).0
unfolding set_runtime set_runtime_state
set_runtime-IsOnward s new none = unchanged refl refl refl
set_runtime-IsOnward s new (some e) = IsOnward-refl s

activate_run-IsOnward :
    (s : ProjectorStore) (key : TextPair) (session run : String) (now : ℕ) (e : Option String)
    → IsOnward s (activate_run s key session run now e).0
unfolding activate_run activated
activate_run-IsOnward s key session run now none = unchanged refl refl refl
activate_run-IsOnward s key session run now (some e) = IsOnward-refl s

set_runtime-commits :
    (s : ProjectorStore) (new : RuntimeState) (e : Option String)
    → (set_runtime s new e).0.commits ≡ s.commits
unfolding set_runtime set_runtime_state
set_runtime-commits s new none = refl
set_runtime-commits s new (some e) = refl

activate_run-commits :
    (s : ProjectorStore) (key : TextPair) (session run : String) (now : ℕ) (e : Option String)
    → (activate_run s key session run now e).0.commits ≡ s.commits
unfolding activate_run activated
activate_run-commits s key session run now none = refl
activate_run-commits s key session run now (some e) = refl

ruleset apply_rules = (
  core_rules, Steady-write, set_runtime-IsOnward, set_runtime-commits, commit_places-Advances,
  pop_buffer-Advances, drop_regressed-Advances, screen_all-Advances,
)

note_applied-Advances : (b : NodeBuffer) (bes : List BufferedEvent) → Advances (note_applied b bes)
unfolding note_applied applied_whole
note_applied-Advances b bes = search apply_rules

settle_batch-Advances :
    (b : NodeBuffer) (partial : Bool) (bes : List BufferedEvent) (sent_id : String → String)
    (r : Classified)
    → Advances (settle_batch b partial bes sent_id r)
unfolding settle_batch
settle_batch-Advances b partial bes sent_id r = search (apply_rules, note_applied-Advances) depth 12

degrade-Advances : Advances degrade
unfolding degrade
degrade-Advances = Keeps-update _ (λ v c. IsSteady-quiet refl refl (λ _. refl))

fail_attempt-Advances : (bes : List BufferedEvent) → Advances (fail_attempt bes)
unfolding fail_attempt
fail_attempt-Advances bes =
    Keeps-then _ degrade (Keeps-update _ (λ v c. IsSteady-quiet refl refl (λ _. refl)))
      degrade-Advances

deliver-Advances :
    (b : NodeBuffer) (partial : Bool) (bes : List BufferedEvent) → Advances (deliver b partial bes)
unfolding deliver
deliver-Advances b partial bes =
    search (apply_rules, fail_attempt-Advances, settle_batch-Advances) depth 10

attempt_allowed-Advances : Advances attempt_allowed
unfolding attempt_allowed
attempt_allowed-Advances = Keeps-modify _ (λ v c. IsSteady-quiet refl refl (λ _. refl))

send-Advances :
    (b : NodeBuffer) (partial : Bool) (bes : List BufferedEvent) → Advances (send b partial bes)
unfolding send
send-Advances b partial [] = search apply_rules
send-Advances b partial (be ∷ bes) =
    search (apply_rules, attempt_allowed-Advances, deliver-Advances, degrade-Advances)

pub apply_node_buffer-Advances :
    (b : NodeBuffer) (partial : Bool) → Advances (apply_node_buffer b partial)
unfolding apply_node_buffer apply_active
apply_node_buffer-Advances b partial = search (apply_rules, send-Advances) depth 12

resolve_stored-IsSteady :
    (c : Core) (key : TextPair) (o : Option ActiveRun) → IsSteady c (resolve_stored c key o).1
unfolding resolve_stored
resolve_stored-IsSteady c key none = IsSteady-refl c
resolve_stored-IsSteady c key (some run) =
    if-elim (λ (r : Option ActiveRun × Core). IsSteady c r.1)
      (is_target c.target_simulation_run_id run.simulation_run_id)
      (some run, record c { active_run_cache = put c.active_run_cache key run }) (none, c)
      (IsSteady-quiet refl refl (λ _. refl)) (IsSteady-refl c)

resolve_cached-IsSteady :
    (c : Core) (key : TextPair) (o : Option ActiveRun) → IsSteady c (resolve_cached c key o).1
unfolding resolve_cached
resolve_cached-IsSteady c key none = resolve_stored-IsSteady c key (get_active_run c.store key)
resolve_cached-IsSteady c key (some run) =
    let dropped = record c { active_run_cache = remove c.active_run_cache key } in
    if-elim (λ (r : Option ActiveRun × Core). IsSteady c r.1)
      (is_target c.target_simulation_run_id run.simulation_run_id) (some run, c)
      (resolve_stored dropped key (get_active_run c.store key)) (IsSteady-refl c)
      (IsSteady-trans {b = dropped} (IsSteady-quiet refl refl (λ _. refl))
        (resolve_stored-IsSteady dropped key (get_active_run c.store key)))

resolve_active_run-IsSteady :
    (producer : String) (c : Core) → IsSteady c (resolve_active_run producer c).1
unfolding resolve_active_run
resolve_active_run-IsSteady producer c =
    resolve_cached-IsSteady c (c.source, producer) (get c.active_run_cache (c.source, producer))

buffer_armed-IsSteady : (be : BufferedEvent) (c : Core) → IsSteady c (buffer_armed be c).1
unfolding buffer_armed hold_armed
buffer_armed-IsSteady be c =
    if-elim (λ (r : Label × Core). IsSteady c r.1) (leb c.armed_buffer_max (length c.armed_buffer))
      (armed_buffer_full, record c { partitions_paused = true }) (hold_armed be c)
      (IsSteady-quiet refl refl (λ _. refl)) (IsSteady-quiet refl refl (λ _. refl))

ingest_buffer-Advances : (be : BufferedEvent) → Advances (ingest_buffer be)
unfolding ingest_buffer
ingest_buffer-Advances be = Keeps-modify _ (λ v c. IsSteady-quiet refl refl (λ _. refl))

ruleset process_rules = (
  core_rules, apply_node_buffer-Advances, finish-Advances, mark_stale-Advances,
  mark_sim_time_regression-Advances, mark_quarantine-Advances, mark_fence_skipped-Advances,
  ingest_buffer-Advances, resolve_active_run-IsSteady, buffer_armed-IsSteady,
)

act_on-Advances : (be : BufferedEvent) (a : Action) → Advances (act_on be a)
unfolding act_on
act_on-Advances be quarantine = search process_rules
act_on-Advances be (buffered b) = search process_rules
act_on-Advances be (ready b) = search process_rules depth 10

ingest_active_entity-Advances : (be : BufferedEvent) → Advances (ingest_active_entity be)
unfolding ingest_active_entity
ingest_active_entity-Advances be = search (process_rules, act_on-Advances) depth 10

route-Advances : (be : BufferedEvent) (o : Option ActiveRun) → Advances (route be o)
unfolding route
route-Advances be none = search process_rules
route-Advances be (some run) = search (process_rules, ingest_active_entity-Advances)

process_admitted-Advances : (be : BufferedEvent) → Advances (process_admitted be)
unfolding process_admitted
process_admitted-Advances be = search (process_rules, route-Advances) depth 10

process_entity-Advances : (be : BufferedEvent) → Advances (process_entity be)
unfolding process_entity
process_entity-Advances be = search (process_rules, process_admitted-Advances) depth 10

unless_stopped-Advances : (m : Call Label) → Advances m → Advances (unless_stopped m)
unfolding unless_stopped
unless_stopped-Advances m p = search process_rules depth 12

process_again-Advances : (be : BufferedEvent) → Advances (process_again be)
unfolding process_again
process_again-Advances be =
    search (process_rules, unless_stopped-Advances, process_entity-Advances) depth 10

drain_awaiting_run-Advances : Advances drain_awaiting_run
unfolding drain_awaiting_run
drain_awaiting_run-Advances = search (process_rules, process_again-Advances)

drain_armed_buffer-Advances : Advances drain_armed_buffer
unfolding drain_armed_buffer
drain_armed_buffer-Advances = search (process_rules, process_again-Advances)

fence_run-Advances :
    (r : RunStarted) (place : TopicPartition) (offset : ℕ) → Advances (fence_run r place offset)
unfolding fence_run
fence_run-Advances r place offset = search process_rules

begin_run-Advances :
    (r : RunStarted) (place : TopicPartition) (offset : ℕ) → Advances (begin_run r place offset)
unfolding begin_run
begin_run-Advances r place offset =
    search
      (
        process_rules, Steady-write, activate_run-IsOnward, activate_run-commits,
        drain_awaiting_run-Advances, drain_armed_buffer-Advances,
      )
      depth 14

handle_run_started-Advances :
    (r : RunStarted) (place : TopicPartition) (offset : ℕ)
    → Advances (handle_run_started r place offset)
unfolding handle_run_started admit_run
handle_run_started-Advances r place offset =
    search (process_rules, begin_run-Advances, fence_run-Advances) depth 14

process_value-Advances :
    (value : Value) (place : TopicPartition) (offset : ℕ)
    → Advances (process_value value place offset)
unfolding process_value
process_value-Advances (run_started_value r) place offset =
    handle_run_started-Advances r place offset
process_value-Advances (entity_observed ev) place offset =
    search (process_rules, process_entity-Advances)
process_value-Advances other_value place offset = search process_rules

pub process_record-Advances :
    (value : Value) (place : TopicPartition) (offset : ℕ)
    → Advances (process_record value place offset)
unfolding process_record
process_record-Advances value place offset =
    unless_stopped-Advances (process_value value place offset)
      (process_value-Advances value place offset)
