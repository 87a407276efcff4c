-- ===== src/Projector/Core/Loop.antt =====
-- That the calls of the loop of Visualize/tools/projector_live_consumer.py, a flush of the buffers
-- (`tick` of core.py) and a record, move the store only on.
use smart_data_models.Prelude.{
  ℕ, String, Bool, false, Option, none, some, List, [], ◌∷◌, refl, if◌then◌else◌, if-elim,
  string_key, topic_partition_key,
}
use smart_data_models.Projector.Event.{BufferedEvent}
use smart_data_models.Projector.NodeBuffer.{NodeBuffer}
use smart_data_models.Projector.Retry.{has_pending, circuit_allows_attempt}
use smart_data_models.Projector.Core.State.{Core}
use smart_data_models.Projector.Core.Tick.{
  flush_awaiting_run_timeouts, write_superseded, supersede_cycle, apply_group, resumed,
  take_buffers, flush_partial, tick,
}
use smart_data_models.Projector.Core.Poison.{
  Defect, Verdict, sound, poison, RawRecord, Disposition, poison_terminal, poison_unpublished,
  classify_raw_record, disposition_poison, note_disposition, consume_verdict, consume,
}
use smart_data_models.Projector.Core.Advances.{IsSteady, IsSteady-refl, IsSteady-quiet, Advances}
use smart_data_models.Projector.Core.Onward.{
  core_rules, mark_stale-Advances, commit_places-Advances, pop_buffer-Advances,
}
use smart_data_models.Projector.Core.Progress.{apply_node_buffer-Advances, process_record-Advances}

ruleset tick_rules = (
  core_rules, mark_stale-Advances, commit_places-Advances, pop_buffer-Advances,
  apply_node_buffer-Advances,
)

flush_awaiting_run_timeouts-Advances : Advances flush_awaiting_run_timeouts
unfolding flush_awaiting_run_timeouts
flush_awaiting_run_timeouts-Advances = search tick_rules depth 10

write_superseded-Advances :
    (bs : List NodeBuffer) (bes : List BufferedEvent) → Advances (write_superseded bs bes)
unfolding write_superseded
write_superseded-Advances bs [] = search tick_rules
write_superseded-Advances bs (be ∷ bes) = search tick_rules

supersede_cycle-Advances : (bs : List NodeBuffer) → Advances (supersede_cycle bs)
unfolding supersede_cycle
supersede_cycle-Advances bs = search (tick_rules, write_superseded-Advances) depth 10

apply_group-Advances : (bs : List NodeBuffer) → Advances (apply_group bs)
unfolding apply_group
apply_group-Advances [] = search tick_rules
apply_group-Advances (b ∷ []) = search tick_rules
apply_group-Advances (b ∷ b' ∷ bs) = search tick_rules

resumed-IsSteady : (clock : ℕ) (c : Core) → IsSteady c (resumed clock c)
unfolding resumed
resumed-IsSteady clock c =
    let m = circuit_allows_attempt c.retry_manager none clock in
    let waiting = record c { retry_manager = m.0 } in
    let going = record c {
      retry_manager = m.0;
      buffers = record c.buffers { paused = false };
      partitions_paused = false;
    } in
    if-elim (IsSteady c) (has_pending c.retry_manager) (if m.1 then going else waiting) c
      (if-elim (IsSteady c) m.1 going waiting (IsSteady-quiet refl refl (λ _. refl))
        (IsSteady-quiet refl refl (λ _. refl)))
      (IsSteady-refl c)

flush_partial-Advances : Advances flush_partial
unfolding flush_partial
flush_partial-Advances = search tick_rules depth 10

take_buffers-IsSteady : (b : Bool) (c : Core) → IsSteady c (take_buffers b c).1
unfolding take_buffers
take_buffers-IsSteady b c = IsSteady-quiet refl refl (λ _. refl)

pub tick-Advances :
    (allow_partial complete_cycles_only : Bool) → Advances (tick allow_partial complete_cycles_only)
unfolding tick
tick-Advances allow_partial complete_cycles_only =
    search
      (
        tick_rules, resumed-IsSteady, flush_awaiting_run_timeouts-Advances, take_buffers-IsSteady,
        supersede_cycle-Advances, apply_group-Advances, flush_partial-Advances,
      )
      depth 14

disposition_poison-Advances :
    (r : RawRecord) (defect : Defect) (run : String) (published : Option String)
    → Advances (disposition_poison r defect run published)
unfolding disposition_poison
disposition_poison-Advances r defect run none = search core_rules depth 10
disposition_poison-Advances r defect run (some e) = search core_rules depth 10

note_disposition-Advances : (d : Disposition) → Advances (note_disposition d)
unfolding note_disposition
note_disposition-Advances poison_terminal = search core_rules
note_disposition-Advances poison_unpublished = search core_rules

consume_verdict-Advances :
    (r : RawRecord) (published : Option String) (verdict : Verdict)
    → Advances (consume_verdict r published verdict)
unfolding consume_verdict
consume_verdict-Advances r published (sound value) =
    search (core_rules, process_record-Advances, tick-Advances) depth 10
consume_verdict-Advances r published (poison defect run) =
    search (core_rules, disposition_poison-Advances, note_disposition-Advances) depth 10

pub consume-Advances : (r : RawRecord) (published : Option String) → Advances (consume r published)
unfolding consume
consume-Advances r published = consume_verdict-Advances r published (classify_raw_record r.decoded)
