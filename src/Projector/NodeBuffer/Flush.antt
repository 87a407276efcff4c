-- ===== src/Projector/NodeBuffer/Flush.antt =====
-- What the flushing calls of Visualize/integration/projector/node_buffer.py take out and leave.
use smart_data_models.Prelude.{
  ℕ, ◌+◌, ◌-◌, ◌≤◌, ◌<◌, ◌⊎◌, Bool, true, false, Option, none, some, List, [], ◌∷◌, ◌≡◌, refl, sym,
  subst, arith, leb, inl, inr, Bool-cases, if-true, if-false, length, get, Dict, Distinct,
}
use smart_data_models.Projector.Event.{NodeKey, node_key_eq}
use smart_data_models.Projector.NodeBuffer.{
  NodeBuffer, is_complete, age_ms, NodeBufferManager, buffered_events, buffered_in, pop_where,
  take_complete, flush_timed_out, is_timed_out, repause,
}
use smart_data_models.Projector.NodeBuffer.Validity.{IsValid}
use smart_data_models.Projector.NodeBuffer.Popping.{
  left_at, get-pop_where, pop_where-IsKept, values_where, taken-pop_where_self,
}

-- The list holds the buffers that are due, in the order of the dictionary, each once.
abbrev pub Takes : (NodeBuffer → Type 0) → Dict NodeKey NodeBuffer → List NodeBuffer → Type 0
Takes IsDue [] out = out ≡ []
Takes IsDue ((key, b) ∷ nodes) out =
    (IsDue b × ((rest : List NodeBuffer) × (out ≡ b ∷ rest) × Takes IsDue nodes rest))
    ⊎ ((¬ IsDue b) × Takes IsDue nodes out)

-- What is left at a key: nothing of a buffer that is due, and a buffer that is not due as it was.
abbrev pub Leaves : (NodeBuffer → Type 0) → Option NodeBuffer → Option NodeBuffer → Type 0
Leaves IsDue none left = left ≡ none
Leaves IsDue (some b) left = (IsDue b × (left ≡ none)) ⊎ ((¬ IsDue b) × (left ≡ some b))

-- The buffers that are due are in the list, the others are in the dictionary, and every event is in one
-- of the two.
pub record IsSplit (IsDue : NodeBuffer → Type 0) (nodes left : Dict NodeKey NodeBuffer)
    (out : List NodeBuffer) : Type 0 where
  pub kept : (k : NodeKey) → Leaves IsDue (get nodes k) (get left k)
  pub taken : Takes IsDue nodes out
  pub events : buffered_events left + buffered_in out ≡ buffered_events nodes

-- The test answers whether the buffer is due.
abbrev Decides : (NodeBuffer → Type 0) → (NodeBuffer → Bool) → NodeBuffer → Type 0
Decides IsDue test b = ((test b ≡ true) × IsDue b) ⊎ ((test b ≡ false) × (¬ IsDue b))

module _ (IsDue : NodeBuffer → Type 0) (test : NodeBuffer → Bool)
    (decides : (b : NodeBuffer) → Decides IsDue test b) where
  values_where-Takes :
      (nodes : Dict NodeKey NodeBuffer) → Takes IsDue nodes (values_where test nodes)
  values_where-Takes [] = refl
  values_where-Takes ((key, b) ∷ nodes) = elim (decides b) [
    | inl (passes, due) ↦
        inl (due, (values_where test nodes, if-true _ _ passes, values_where-Takes nodes))
    | inr (fails, early) ↦
        inr (early, subst (Takes IsDue nodes) (sym (if-false _ _ fails)) (values_where-Takes nodes))
  ]

  left_at-Leaves : (o : Option NodeBuffer) → Leaves IsDue o (left_at test o o)
  left_at-Leaves none = refl
  left_at-Leaves (some b) = elim (decides b) [
    | inl (passes, due) ↦ inl (due, if-true _ _ passes)
    | inr (fails, early) ↦ inr (early, if-false _ _ fails)
  ]

  pop_where-IsSplit :
      (nodes : Dict NodeKey NodeBuffer)
      → Distinct nodes
      → let (left, out) = pop_where test nodes (nodes, []) in IsSplit IsDue nodes left out
  pop_where-IsSplit nodes d = record {
    kept = λ k.
        subst (Leaves IsDue (get nodes k)) (sym (get-pop_where test nodes (nodes, []) k d))
          (left_at-Leaves (get nodes k));
    taken =
        subst (Takes IsDue nodes) (sym (taken-pop_where_self test nodes d))
          (values_where-Takes nodes);
    events = omega (arith, (pop_where-IsKept test nodes (nodes, []) d).events);
  }

-- The buffer holds as many events as its node announces, or more.
abbrev pub IsFull : NodeBuffer → Type 0
IsFull b = b.node_entity_count ≤ length b.events

is_complete-Decides : (b : NodeBuffer) → Decides IsFull is_complete b
unfolding is_complete
is_complete-Decides b = elim (Bool-cases (leb b.node_entity_count (length b.events))) [
  | inl full ↦ inl (full, ground (arith, full))
  | inr short ↦ inr (short, λ h. ground (arith, short, h))
]

-- `take_complete` on valid buffers answers with the buffers that hold as many events as their node
-- announces, in their order and each once, leaves the others as they were, loses no event, and leaves
-- valid buffers.
pub take_complete-IsSplit :
    (m : NodeBufferManager)
    → IsValid m
    → IsSplit IsFull m.nodes (take_complete m).0.nodes (take_complete m).1
      × IsValid (take_complete m).0
unfolding take_complete repause
take_complete-IsSplit m v =
    let kept = pop_where-IsKept is_complete m.nodes (m.nodes, []) v.keys in
    (
      pop_where-IsSplit IsFull is_complete is_complete-Decides m.nodes v.keys,
      record { keys = kept.keys; buffers = kept.valid v.buffers },
    )

-- The buffer lacks an event, holds one, and is as old as the timeout.
abbrev pub IsOverdue : ℕ → ℕ → NodeBuffer → Type 0
IsOverdue timeout clock b =
    (length b.events < b.node_entity_count)
    × (1 ≤ length b.events)
    × (timeout ≤ clock - b.first_seen_at)

is_timed_out-Decides :
    (timeout clock : ℕ) (b : NodeBuffer)
    → Decides (IsOverdue timeout clock) (is_timed_out timeout clock) b
unfolding is_timed_out is_complete age_ms
is_timed_out-Decides timeout clock b = elim (Bool-cases (is_timed_out timeout clock b)) [
  | inl due ↦ inl (due, ground (arith, due))
  | inr early ↦ inr (early, λ h. ground (arith, early, h.0, h.1, h.2))
]

-- `flush_timed_out` on valid buffers answers with the buffers that lack an event, hold one, and are as
-- old as the timeout, in their order and each once, counts them, leaves the others as they were, loses
-- no event, and leaves valid buffers.
pub flush_timed_out-IsSplit :
    (m : NodeBufferManager) (clock : ℕ)
    → IsValid m
    → IsSplit
        (IsOverdue m.timeout_ms clock)
        m.nodes
        (flush_timed_out m clock).0.nodes
        (flush_timed_out m clock).1
      × IsValid (flush_timed_out m clock).0
      × ((flush_timed_out m clock).0.node_partial_count
          ≡ m.node_partial_count + length (flush_timed_out m clock).1)
unfolding flush_timed_out repause
flush_timed_out-IsSplit m clock v =
    let test = is_timed_out m.timeout_ms clock in
    let kept = pop_where-IsKept test m.nodes (m.nodes, []) v.keys in
    (
      pop_where-IsSplit (IsOverdue m.timeout_ms clock) test
          (is_timed_out-Decides m.timeout_ms clock) m.nodes v.keys,
      record { keys = kept.keys; buffers = kept.valid v.buffers },
      refl,
    )
