-- ===== src/Projector/Event.antt =====
-- The entity event and its buffered form (`BufferedEvent` of
-- Visualize/integration/projector/node_buffer.py). The event dictionary is a record of the fields
-- that the projector reads; a field that the code reads by `.get` is optional.
use smart_data_models.Prelude.{
  ℕ, String, Bool, Option, ◌≡◌, ◌↔◌, ◌&&◌, true, arith, Key, string_key, nat_key,
}

pub record EntityEvent : Type 0 where
  pub event_id : String
  pub simulation_run_id : String
  pub cycle_sequence : ℕ
  pub node_id : String
  pub node_entity_count : Option ℕ
  pub cycle_entity_count : Option ℕ
  pub entity_id : String
  pub payload_hash : String
  pub simulation_time : ℕ
  pub producer_id : Option String
  pub scenario_id : Option String

-- Times are whole milliseconds of the monotonic clock.
pub record BufferedEvent : Type 0 where
  pub event : EntityEvent
  pub topic : String
  pub partition : ℕ
  pub offset : ℕ
  pub received_at : ℕ

-- (simulation_run_id, cycle_sequence, node_id)
abbrev pub NodeKey : Type 0
NodeKey = String × ℕ × String

node_key_beq : NodeKey → NodeKey → Bool
node_key_beq p q =
    string_key.is_same p.0 q.0 && nat_key.is_same p.1 q.1 && string_key.is_same p.2 q.2

node_key_beq_iff : (p q : NodeKey) → (node_key_beq p q ≡ true) ↔ (p ≡ q)
unfolding node_key_beq
node_key_beq_iff (a, b, c) (x, y, z) =
    ground (arith, string_key.same_iff a x, nat_key.same_iff b y, string_key.same_iff c z)

instance unfoldable pub node_key_eq : Key NodeKey
unfolding node_key_beq node_key_beq_iff
node_key_eq = record { is_same = node_key_beq; same_iff = node_key_beq_iff }
