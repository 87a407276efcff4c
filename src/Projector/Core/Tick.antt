-- ===== src/Projector/Core/Tick.antt =====
-- Visualize/integration/projector/core.py: `tick`, which flushes the buffers, and what it calls.
use smart_data_models.Prelude.{
  Key, pair_key, nat_key, ℕ, ◌-◌, min, String, Bool, true, false, not, ◌&&◌, ◌||◌, none, some, List,
  [], ◌∷◌, ◌++◌, map, length, ltb, leb, if◌then◌else◌, string_key, ◌==◌, keep, Dict, get, put,
}
use smart_data_models.Projector.Event.{BufferedEvent}
use smart_data_models.Projector.Tables.{coalesced_superseded, LedgerRow}
use smart_data_models.Projector.NodeBuffer.{
  NodeBuffer, take_complete, take_complete_cycles, flush_timed_out, CycleKey,
}
use smart_data_models.Projector.Retry.{has_pending, circuit_allows_attempt}
use smart_data_models.Projector.Core.State.{
  ProjectorMode, normal, catch_up, Core, Call, pure, gets, modify, update, ◌>>=◌, ◌>>◌, for_each,
  apply_batch,
}
use smart_data_models.Projector.Core.Marks.{mark_stale}
use smart_data_models.Projector.Core.Screen.{events_of, mark_all, row_in, commit_places, pop_buffer}
use smart_data_models.Projector.Core.Apply.{apply_node_buffer}

-- `take_complete_cycles` groups by the same key.
instance unfoldable pub cycle_key : Key CycleKey
unfolding pair_key
cycle_key = pair_key string_key nat_key

-- Held events that are old enough are marked stale, and the others stay.
unfoldable pub is_overdue : ℕ → ℕ → BufferedEvent → Bool
is_overdue timeout clock be = leb timeout (clock - be.received_at)

unfoldable pub flush_awaiting_run_timeouts : Call Unit
flush_awaiting_run_timeouts = do
  overdue ← gets (λ v c. keep (is_overdue c.awaiting_run_timeout_ms v.clock_ms) c.awaiting_run)
  for_each mark_stale overdue
  update (λ v c. record c {
    awaiting_run =
        keep (λ be. not (is_overdue c.awaiting_run_timeout_ms v.clock_ms be)) c.awaiting_run;
  })

unfoldable pub events_of_all : List NodeBuffer → List BufferedEvent
events_of_all [] = []
events_of_all (b ∷ bs) = events_of b ++ events_of_all bs

unfoldable pub superseded_rows : List NodeBuffer → ℕ → List LedgerRow
superseded_rows [] now = []
superseded_rows (b ∷ bs) now =
    map (row_in b b.cycle_sequence coalesced_superseded now) (events_of b) ++ superseded_rows bs now

unfoldable pub write_superseded : List NodeBuffer → List BufferedEvent → Call Unit
write_superseded bs [] = pure tt
write_superseded bs (be ∷ bes) = do
  apply_batch (superseded_rows bs) (λ _. [])
  commit_places (be ∷ bes)

unfoldable pub supersede_cycle : List NodeBuffer → Call Unit
supersede_cycle bs = do
  update (λ v c. mark_all (events_of_all bs) c)
  write_superseded bs (events_of_all bs)
  for_each pop_buffer bs

-- `grouped.setdefault((run, cycle), []).append(buf)`
unfoldable pub group :
    List NodeBuffer → Dict CycleKey (List NodeBuffer) → Dict CycleKey (List NodeBuffer)
group [] acc = acc
group (b ∷ bs) acc =
    let key : CycleKey = (b.simulation_run_id, b.cycle_sequence) in
    group bs (put acc key (elim (get acc key) [ none ↦ b ∷ [] | some found ↦ found ++ b ∷ [] ]))

-- Some group of the run has a later cycle.
unfoldable pub has_later : Dict CycleKey (List NodeBuffer) → CycleKey → Bool
has_later [] key = false
has_later ((other, bs) ∷ groups) key =
    (other.0 == key.0 && ltb key.1 other.1) || has_later groups key

unfoldable pub is_superseded : Dict CycleKey (List NodeBuffer) → CycleKey × List NodeBuffer → Bool
is_superseded groups (key, bs) = has_later groups key

abbrev pub is_catching_up : ProjectorMode → Bool
is_catching_up normal = false
is_catching_up catch_up = true

-- Catching up, the cycles that a later one of their run supersedes. The source goes through them in no
-- stated order.
unfoldable pub superseded_groups :
    ProjectorMode → Dict CycleKey (List NodeBuffer) → Dict CycleKey (List NodeBuffer)
superseded_groups mode groups =
    if is_catching_up mode then keep (is_superseded groups) groups else []

unfoldable pub remaining_groups :
    ProjectorMode → Dict CycleKey (List NodeBuffer) → Dict CycleKey (List NodeBuffer)
remaining_groups mode groups =
    if is_catching_up mode then keep (λ g. not (is_superseded groups g)) groups else groups

-- `events.update(node_buf.events)`
unfoldable pub put_events :
    Dict String BufferedEvent → Dict String BufferedEvent → Dict String BufferedEvent
put_events d [] = d
put_events d ((id, be) ∷ events) = put_events (put d id be) events

unfoldable pub merged_events :
    List NodeBuffer → Dict String BufferedEvent → Dict String BufferedEvent
merged_events [] d = d
merged_events (b ∷ bs) d = merged_events bs (put_events d b.events)

unfoldable pub first_seen : ℕ → List NodeBuffer → ℕ
first_seen t [] = t
first_seen t (b ∷ bs) = first_seen (min t b.first_seen_at) bs

unfoldable pub merged : NodeBuffer → List NodeBuffer → NodeBuffer
merged b bs =
    let events = merged_events (b ∷ bs) [] in
    record b {
      node_id = "__cycle__";
      node_entity_count = length events;
      events = events;
      first_seen_at = first_seen b.first_seen_at bs;
    }

unfoldable pub apply_group : List NodeBuffer → Call Unit
apply_group [] = pure tt
apply_group (b ∷ []) = apply_node_buffer b false
apply_group (b ∷ b' ∷ bs) = apply_node_buffer (merged b (b' ∷ bs)) false

-- A retry that is due lets the partitions on. `has_pending` is tested first.
unfoldable pub resumed : ℕ → Core → Core
resumed clock c =
    let (m, allowed) = circuit_allows_attempt c.retry_manager none clock in
    if has_pending c.retry_manager
    then (if allowed
        then record c {
          retry_manager = m;
          buffers = record c.buffers { paused = false };
          partitions_paused = false;
        }
        else record c { retry_manager = m })
    else c

unfoldable pub take_buffers : Bool → Core → List NodeBuffer × Core
take_buffers complete_cycles_only c =
    let (m, taken) =
      (if complete_cycles_only then take_complete_cycles c.buffers else take_complete c.buffers) in
    (taken, record c { buffers = m })

unfoldable pub flush_partial : Call Unit
flush_partial = do
  expired ← modify (λ v c.
      let (m, out) = flush_timed_out c.buffers v.clock_ms in (out, record c { buffers = m }))
  for_each (λ b. apply_node_buffer b true) expired

unfoldable pub tick : Bool → Bool → Call Unit
tick allow_partial complete_cycles_only = do
  update (λ v c. resumed v.clock_us c)
  flush_awaiting_run_timeouts
  taken ← modify (λ v c. take_buffers complete_cycles_only c)
  mode ← gets (λ v c. c.mode)
  for_each (λ g. supersede_cycle g.1) (superseded_groups mode (group taken []))
  for_each (λ g. apply_group g.1) (remaining_groups mode (group taken []))
  if allow_partial then flush_partial else pure tt
