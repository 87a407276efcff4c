-- ===== src/Projector/NodeBuffer.antt =====
-- Visualize/integration/projector/node_buffer.py: the micro-batch buffers of the nodes. The clock's
-- reading is an argument of what reads it.
pub mod Validity
pub mod Ingest
pub mod Popping
pub mod Flush
use smart_data_models.Prelude.{
  ℕ, zero, suc, ◌+◌, ◌-◌, String, Bool, true, false, not, ◌&&◌, ◌||◌, Option, none, some, List, [],
  ◌∷◌, ◌++◌, map, leb, eqb, if◌then◌else◌, is_some, length, all_by, sum_by, string_key, nat_key,
  ◌==◌, topic_partition_key, Dict, get, put, remove, sum_values,
}
use smart_data_models.Projector.Event.{EntityEvent, BufferedEvent, NodeKey, node_key_eq}

pub record NodeBuffer : Type 0 where
  pub simulation_run_id : String
  pub cycle_sequence : ℕ
  pub node_id : String
  pub node_entity_count : ℕ
  pub events : Dict String BufferedEvent
  pub first_seen_at : ℕ

abbrev pub key_of : NodeBuffer → NodeKey
key_of b = (b.simulation_run_id, b.cycle_sequence, b.node_id)

pub data Reason : Type 0 where
  missing_count count_drift node_drift duplicate_entity exceeds_count : Reason

-- The buffer after the call, and the reason where the event is refused.
unfoldable pub add_counted : NodeBuffer → BufferedEvent → ℕ → NodeBuffer × Option Reason
add_counted b be count =
    if not (eqb count b.node_entity_count)
    then (b, some count_drift)
    else if not (be.event.node_id == b.node_id)
    then (b, some node_drift)
    else if is_some (get b.events be.event.entity_id)
    then (b, some duplicate_entity)
    else if leb b.node_entity_count (length b.events)
    then (b, some exceeds_count)
    else (record b { events = put b.events be.event.entity_id be }, none)

unfoldable pub add : NodeBuffer → BufferedEvent → NodeBuffer × Option Reason
unfolding add_counted
add b be = elim be.event.node_entity_count [
  | none ↦ (b, some missing_count)
  | some count ↦ add_counted b be count
]

unfoldable pub is_complete : NodeBuffer → Bool
is_complete b = leb b.node_entity_count (length b.events)

unfoldable pub age_ms : NodeBuffer → ℕ → ℕ
age_ms b clock = clock - b.first_seen_at

pub record NodeBufferManager : Type 0 where
  pub timeout_ms : ℕ
  pub max_buffered_events : ℕ
  pub max_buffered_cycles : ℕ
  pub nodes : Dict NodeKey NodeBuffer
  pub paused : Bool
  pub node_partial_count : ℕ
  pub quarantine_count : ℕ

unfoldable pub init : ℕ → ℕ → ℕ → NodeBufferManager
init timeout events cycles = record {
  timeout_ms = timeout;
  max_buffered_events = events;
  max_buffered_cycles = cycles;
  nodes = [];
  paused = false;
  node_partial_count = 0;
  quarantine_count = 0;
}

unfoldable pub buffered_events : Dict NodeKey NodeBuffer → ℕ
buffered_events nodes = sum_values (λ b. length b.events) nodes

unfoldable pub buffered_event_count : NodeBufferManager → ℕ
unfolding buffered_events
buffered_event_count m = buffered_events m.nodes

abbrev pub CycleKey : Type 0
CycleKey = String × ℕ

-- The set of the cycles, as a dictionary to their buffers (`setdefault(...).append(buf)`).
unfoldable pub by_cycle :
    Dict NodeKey NodeBuffer → Dict CycleKey (List NodeBuffer) → Dict CycleKey (List NodeBuffer)
by_cycle [] acc = acc
by_cycle ((key, b) ∷ nodes) acc =
    let cycle : CycleKey = (b.simulation_run_id, b.cycle_sequence) in
    by_cycle nodes (put acc cycle (elim (get acc cycle) [ none ↦ b ∷ [] | some bs ↦ bs ++ b ∷ [] ]))

-- `len({(k[0], k[1]) for k in self._nodes})`
unfoldable pub cycles :
    Dict NodeKey NodeBuffer → Dict CycleKey (Unit {0}) → Dict CycleKey (Unit {0})
cycles [] acc = acc
cycles ((key, b) ∷ nodes) acc = cycles nodes (put acc (key.0, key.1) tt)

unfoldable pub buffered_cycle_count : NodeBufferManager → ℕ
unfolding cycles
buffered_cycle_count m = length (cycles m.nodes [])

unfoldable pub should_pause : NodeBufferManager → Bool
unfolding buffered_event_count buffered_cycle_count
should_pause m =
    leb m.max_buffered_events (buffered_event_count m)
    || leb m.max_buffered_cycles (buffered_cycle_count m)

unfoldable pub repause : NodeBufferManager → NodeBufferManager
unfolding should_pause
repause m = record m { paused = should_pause m }

pub data Action : Type 0 where
  ready : NodeBuffer → Action
  buffered : NodeBuffer → Action
  quarantine : Action

-- The rest of `ingest` once the buffer has taken or refused the event.
unfoldable pub settle : NodeBufferManager → NodeBuffer → Option Reason → NodeBufferManager × Action
unfolding repause is_complete
settle m b (some reason) = (record m { quarantine_count = m.quarantine_count + 1 }, quarantine)
settle m b none = (repause m, if is_complete b then ready b else buffered b)

-- The buffer found or made stands in the dictionary, and takes the event in place.
unfoldable pub offer :
    NodeBufferManager → NodeKey → NodeBuffer → BufferedEvent → NodeBufferManager × Action
unfolding add settle
offer m key b be =
    let (b', refused) = add b be in settle (record m { nodes = put m.nodes key b' }) b' refused

unfoldable pub new_buffer : EntityEvent → ℕ → ℕ → NodeBuffer
new_buffer ev count clock = record {
  simulation_run_id = ev.simulation_run_id;
  cycle_sequence = ev.cycle_sequence;
  node_id = ev.node_id;
  node_entity_count = count;
  events = [];
  first_seen_at = clock;
}

abbrev pub key_of_event : EntityEvent → NodeKey
key_of_event ev = (ev.simulation_run_id, ev.cycle_sequence, ev.node_id)

abbrev pub found_or_new : Option NodeBuffer → EntityEvent → ℕ → ℕ → NodeBuffer
found_or_new none ev count clock = new_buffer ev count clock
found_or_new (some b) ev count clock = b

unfoldable pub ingest_counted :
    NodeBufferManager → BufferedEvent → ℕ → Option ℕ → NodeBufferManager × Action
unfolding new_buffer offer
ingest_counted m be clock none =
    (record m { quarantine_count = m.quarantine_count + 1 }, quarantine)
ingest_counted m be clock (some count) =
    let key = key_of_event be.event in
    offer m key (found_or_new (get m.nodes key) be.event count clock) be

unfoldable pub ingest : NodeBufferManager → BufferedEvent → ℕ → NodeBufferManager × Action
unfolding ingest_counted
ingest m be clock = ingest_counted m be clock be.event.node_entity_count

-- `self._nodes.pop(key, None)`
unfoldable pub pop_ready : NodeBufferManager → NodeKey → NodeBufferManager × Option NodeBuffer
pop_ready m key = (record m { nodes = remove m.nodes key }, get m.nodes key)

unfoldable pub pop_found :
    Dict NodeKey NodeBuffer
    → List NodeBuffer
    → NodeKey
    → Option NodeBuffer
    → Dict NodeKey NodeBuffer × List NodeBuffer
pop_found nodes out key none = (nodes, out)
pop_found nodes out key (some b) = (remove nodes key, out ++ b ∷ [])

-- `out.append(self._nodes.pop(key))`, on the dictionary and the list
unfoldable pub pop_into :
    Dict NodeKey NodeBuffer × List NodeBuffer → NodeKey → Dict NodeKey NodeBuffer × List NodeBuffer
unfolding pop_found
pop_into st key = pop_found st.0 st.1 key (get st.0 key)

-- The loop over a snapshot of the items, for a test of the buffer.
unfoldable pub pop_where :
    (NodeBuffer → Bool)
    → Dict NodeKey NodeBuffer
    → Dict NodeKey NodeBuffer × List NodeBuffer
    → Dict NodeKey NodeBuffer × List NodeBuffer
unfolding pop_into
pop_where test [] st = st
pop_where test ((key, b) ∷ items) st = pop_where test items (if test b then pop_into st key else st)

unfoldable pub take_complete : NodeBufferManager → NodeBufferManager × List NodeBuffer
unfolding pop_where repause is_complete
take_complete m =
    let (nodes, out) = pop_where is_complete m.nodes (m.nodes, []) in
    (repause (record m { nodes = nodes }), out)

-- The first event of each buffer that has one.
unfoldable pub first_events : List NodeBuffer → List EntityEvent
first_events [] = []
first_events (b ∷ bs) =
    let rest = first_events bs in elim b.events [ [] ↦ rest | p ∷ es ↦ p.1.event ∷ rest ]

-- `int(event.get("cycleEntityCount") or 0)`
abbrev pub expected_count : EntityEvent → ℕ
expected_count ev = elim ev.cycle_entity_count [ none ↦ 0 | some n ↦ n ]

abbrev pub buffered_in : List NodeBuffer → ℕ
buffered_in bs = sum_by (λ (b : NodeBuffer). length b.events) bs

-- One expected count in all the buffers, and as many events as it says.
unfoldable pub agrees : List EntityEvent → ℕ → Bool
agrees [] actual = false
agrees (ev ∷ evs) actual =
    all_by (λ (other : EntityEvent). eqb (expected_count other) (expected_count ev)) evs
    && eqb actual (expected_count ev)

unfoldable pub is_whole_cycle : List NodeBuffer → Bool
unfolding is_complete agrees first_events
is_whole_cycle [] = false
is_whole_cycle (b ∷ bs) =
    all_by is_complete (b ∷ bs) && agrees (first_events (b ∷ bs)) (buffered_in (b ∷ bs))

unfoldable pub pop_all :
    List NodeBuffer
    → Dict NodeKey NodeBuffer × List NodeBuffer
    → Dict NodeKey NodeBuffer × List NodeBuffer
unfolding pop_into
pop_all [] st = st
pop_all (b ∷ bs) st = pop_all bs (pop_into st (key_of b))

unfoldable pub pop_whole_cycles :
    Dict CycleKey (List NodeBuffer)
    → Dict NodeKey NodeBuffer × List NodeBuffer
    → Dict NodeKey NodeBuffer × List NodeBuffer
unfolding pop_all is_whole_cycle
pop_whole_cycles [] st = st
pop_whole_cycles ((cycle, bs) ∷ rest) st =
    pop_whole_cycles rest (if is_whole_cycle bs then pop_all bs st else st)

unfoldable pub take_complete_cycles : NodeBufferManager → NodeBufferManager × List NodeBuffer
unfolding pop_whole_cycles by_cycle repause
take_complete_cycles m =
    let (nodes, out) = pop_whole_cycles (by_cycle m.nodes []) (m.nodes, []) in
    (repause (record m { nodes = nodes }), out)

unfoldable pub is_timed_out : ℕ → ℕ → NodeBuffer → Bool
unfolding is_complete age_ms
is_timed_out timeout clock b =
    not (is_complete b) && leb timeout (age_ms b clock) && not (eqb (length b.events) 0)

unfoldable pub flush_timed_out : NodeBufferManager → ℕ → NodeBufferManager × List NodeBuffer
unfolding pop_where repause is_timed_out
flush_timed_out m clock =
    let (nodes, out) = pop_where (is_timed_out m.timeout_ms clock) m.nodes (m.nodes, []) in
    (
      repause (record m { nodes = nodes; node_partial_count = m.node_partial_count + length out }),
      out,
    )

unfoldable pub pause : NodeBufferManager → NodeBufferManager
pause m = record m { paused = true }

unfoldable pub discard_all : NodeBufferManager → NodeBufferManager
discard_all m = record m { nodes = []; paused = false }
