-- ===== src/Control/Naming.antt =====
-- `_legacy_enqueue_name` of Visualize/control/command_intake.py: the name and the arguments under which
-- the simulation knows a command. The look-ups of configuration/config.py (the scenarios and the
-- demand profiles) are parameters; the intersections and the phases are its constants.
use smart_data_models.Prelude.{
  ℕ, zero, suc, String, pos, negsuc, Bool, true, false, not, ◌||◌, Option, none, some, List, [],
  ◌∷◌, ltb, if◌then◌else◌, string_key, ◌==◌,
}
use smart_data_models.Control.Command.{
  force_phase, set_green_duration, set_scenario, set_demand_profile, add_overlay, remove_overlay,
  set_control_mode, emergency_preemption, Value, absent, other, flag, int, text,
  ControlCommandEnvelope,
}

pub record CommandIntakeError : Type 0 where
  pub http_status : ℕ
  pub code : String

abbrev pub refused : ℕ → String → CommandIntakeError
refused http code = record { http_status = http; code = code }

-- What a name becomes: a command for the queue, a refusal, or another exception.
pub data Named : Type 0 where
  named : String → List (String × Value) → Named
  unnamed : CommandIntakeError → Named
  broken : String → Named

-- What a look-up of the configuration gives: a canonical id, that there is none, or an exception.
pub data Looked : Type 0 where
  known : String → Looked
  unknown_id : Looked
  raised : String → Looked

pub data Profile : Type 0 where
  profile : String → Profile
  no_profile : String → Profile

-- The second field is the demand profile of `payload.get("profile") or ""`.
pub record Catalogue : Type 0 where
  pub scenario : Value → Looked
  pub demand_profile : Value → Profile

-- `cfg.NODE_TO_TLS` and `cfg.PHASE_SEQUENCE`
abbrev pub is_node : String → Bool
is_node id = id == "A" || id == "B" || id == "C" || id == "D"

unfoldable pub is_phase : Value → Bool
is_phase (text s) = s == "NS_GREEN" || s == "NS_YELLOW" || s == "EW_GREEN" || s == "EW_YELLOW"
is_phase _ = false

unfoldable pub is_target : Option String → Bool
is_target none = false
is_target (some id) = is_node id

-- `isinstance(seconds, int)` holds of a flag as well, which is 0 or 1.
unfoldable pub is_duration : Value → Bool
is_duration (int (pos n)) = not (ltb n 10 || ltb 120 n)
is_duration _ = false

unfoldable pub value_of : Option String → Value
value_of none = absent
value_of (some s) = text s

-- `payload.get("direction") or target.direction`
unfoldable pub or_text : Value → Option String → Value
unfolding value_of
or_text absent default = value_of default
or_text (text s) default = if s == "" then value_of default else text s
or_text (flag false) default = value_of default
or_text (flag true) default = flag true
or_text (int (pos zero)) default = value_of default
or_text (int (pos (suc n))) default = int (pos (suc n))
or_text (int (negsuc n)) default = int (negsuc n)
or_text other default = other

unfoldable pub name_scenario : ControlCommandEnvelope → Looked → Named
unfolding value_of
name_scenario env (known id) = named "set_scenario" (
    ("scenario", text id)
    ∷ ("target_intersection", value_of env.target.intersection_id)
    ∷ ("target_direction", value_of env.target.direction)
    ∷ [])
name_scenario env unknown_id = unnamed (refused 400 "INVALID_SCENARIO")
name_scenario env (raised e) = broken e

unfoldable pub name_profile : Profile → Named
name_profile (profile id) = named "set_demand_profile" (("profile", text id) ∷ [])
name_profile (no_profile e) = broken e

unfoldable pub legacy_enqueue_name : Catalogue → ControlCommandEnvelope → Named
unfolding is_phase is_target is_duration value_of or_text name_scenario name_profile
legacy_enqueue_name cfg env =
    let node = value_of env.target.intersection_id in
    elim env.command_type [
      | force_phase ↦
          if not (is_phase (env.payload "phase"))
          then unnamed (refused 400 "INVALID_PHASE")
          else if not (is_target env.target.intersection_id)
          then unnamed (refused 400 "INVALID_TARGET")
          else named "force_phase" (("node_id", node) ∷ ("phase", env.payload "phase") ∷ [])
      | set_green_duration ↦
          if not (is_target env.target.intersection_id)
          then unnamed (refused 400 "INVALID_TARGET")
          else if not (is_duration (env.payload "seconds"))
          then unnamed (refused 400 "INVALID_DURATION")
          else named "set_green_duration"
              (("node_id", node) ∷ ("seconds", env.payload "seconds") ∷ [])
      | set_scenario ↦ name_scenario env (cfg.scenario (env.payload "scenario"))
      | set_demand_profile ↦ name_profile (cfg.demand_profile (env.payload "profile"))
      | add_overlay ↦ named "add_overlay" (
          ("overlay_type", env.payload "overlayType")
          ∷ ("intersection_id", node)
          ∷ ("direction", or_text (env.payload "direction") env.target.direction)
          ∷ [])
      | remove_overlay ↦ named "remove_overlay" (("overlay_id", env.payload "overlayId") ∷ [])
      | set_control_mode ↦ named "set_control_mode" (("mode", env.payload "mode") ∷ [])
      | emergency_preemption ↦ named "set_control_mode" (("mode", text "PREEMPTION_ENABLED") ∷ [])
    ]
