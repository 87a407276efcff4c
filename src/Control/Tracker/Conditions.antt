-- ===== src/Control/Tracker/Conditions.antt =====
-- What the signal of a command shows, in the words of Visualize/control/command_executor.py.
use text.Mathlib.TextEquality.{eq_iff}
use smart_data_models.Prelude.{
  ℕ, ◌<◌, String, Bool, true, false, not, ◌&&◌, Option, none, some, ◌≡◌, ◌≢◌, refl, sym, subst, ap,
  ◌∙◌, ◌⊎◌, inl, inr, Bool-cases, if◌then◌else◌, ltb, arith, string_key, ◌==◌,
}
use smart_data_models.Control.Tracker.{
  ActiveExecution, Signal, Sight, run_text, signal_of, is_pending_target,
}
use smart_data_models.Control.Tracker.Ticking.{
  Finding, waiting, timed_out, reached, is_past, find_signal, find,
}

-- The signal has still to reach a phase.
abbrev pub HasTarget : Signal → Type 0
HasTarget signal = (t : String) × (signal.pending_target ≡ some t) × (t ≢ "")

abbrev pub HasNoTarget : Signal → Type 0
HasNoTarget signal = (signal.pending_target ≡ none) ⊎ (signal.pending_target ≡ some "")

abbrev pub IsLate : Sight → ActiveExecution → Type 0
IsLate s a = (d : ℕ) × (a.deadline ≡ some d) × (d < s.simulation_time)

-- The command forces the phase at the signal, and the engine can read it.
pub record IsForcing (s : Sight) (a : ActiveExecution) (target : String) (signal : Signal)
    : Type 0 where
  pub forces : a.command_type ≡ "force_phase"
  pub aims : a.target_phase ≡ some target
  pub named : target ≢ ""
  pub seen : s.signals (run_text a.node_id) ≡ some signal
  pub readable : s.has_traci ≡ true

-- The deadline is past; or the signal has nothing more to reach, and shows the phase.
abbrev pub Ends : Sight → ActiveExecution → Type 0
Ends s a =
    (target : String) × (signal : Signal) × IsForcing s a target signal
    × (IsLate s a ⊎ (HasNoTarget signal × (signal.current_phase ≡ target)))

pub differs : (x y : String) → (x == y) ≡ false → x ≢ y
differs x y h e = cc ((eq_iff x y).1 e, h)

pub is_pending_target-cases :
    (signal : Signal)
    → ((is_pending_target (some signal) ≡ true) × HasTarget signal)
      ⊎ ((is_pending_target (some signal) ≡ false) × HasNoTarget signal)
unfolding is_pending_target
is_pending_target-cases signal = go signal.pending_target refl
  where
    is_set : Option String → Bool
    is_set none = false
    is_set (some t) = not (t == "")

    go :
        (o : Option String)
        → signal.pending_target ≡ o
        → ((is_pending_target (some signal) ≡ true) × HasTarget signal)
          ⊎ ((is_pending_target (some signal) ≡ false) × HasNoTarget signal)
    go none e = inr (ap is_set e, inl e)
    go (some t) e = elim (Bool-cases (t == "")) [
      | inl empty ↦ inr (ap is_set e ∙ ap not empty, inr (e ∙ ap some ((eq_iff t "").0 empty)))
      | inr set ↦ inl (ap is_set e ∙ ap not set, (t, e, differs t "" set))
    ]

is_past-cases :
    (s : Sight) (a : ActiveExecution)
    → ((is_past s.simulation_time a.deadline ≡ true) × IsLate s a)
      ⊎ ((is_past s.simulation_time a.deadline ≡ false) × (¬ IsLate s a))
is_past-cases s a = go a.deadline refl
  where
    not_late :
        (d' : ℕ) {d : ℕ}
        → some d' ≡ some d
        → d' < s.simulation_time
        → ltb d s.simulation_time ≡ false
        → ⊥
    not_late d' same before ahead = ground (arith, before, ahead, same)

    go :
        (o : Option ℕ)
        → a.deadline ≡ o
        → ((is_past s.simulation_time a.deadline ≡ true) × IsLate s a)
          ⊎ ((is_past s.simulation_time a.deadline ≡ false) × (¬ IsLate s a))
    go none e = inr (ap (is_past s.simulation_time) e, λ late. cc (late.1, e))
    go (some d) e = elim (Bool-cases (ltb d s.simulation_time)) [
      | inl past ↦ inl (ap (is_past s.simulation_time) e ∙ past, (d, e, ground (arith, past)))
      | inr ahead ↦ inr (
        ap (is_past s.simulation_time) e ∙ ahead,
        λ late. not_late late.0 (cc (late.1, e)) late.2 ahead,
      )
    ]

-- The rest of the test, of a signal that is there.
Shows : Sight → ActiveExecution → String → Signal → Type 0
Shows s a target signal =
    (s.has_traci ≡ true) × (IsLate s a ⊎ (HasNoTarget signal × (signal.current_phase ≡ target)))

-- The tests of `find_signal`, by their answers.
abbrev choose : Bool → Bool → Bool → Bool → Finding
choose traci past pending shown =
    if not traci
    then waiting
    else if past
    then timed_out
    else if pending
    then waiting
    else if shown
    then reached
    else waiting

find_signal-choose :
    (s : Sight) (a : ActiveExecution) (target : String) (signal : Signal)
    → find_signal s a target (some signal)
      ≡ choose s.has_traci
          (is_past s.simulation_time a.deadline)
          (is_pending_target (some signal))
          (signal.current_phase == target)
unfolding find_signal
find_signal-choose s a target signal = refl

still : (signal : Signal) → HasTarget signal → HasNoTarget signal → ⊥
still signal has (inl unset) = cc (has.1, unset)
still signal has (inr empty) = has.2 (cc (has.1, empty))

-- What a tick finds of the command, where the signal is there.
data Found (s : Sight) (a : ActiveExecution) (target : String) (signal : Signal) (f : Finding)
    : Type 0 where
  stays : f ≡ waiting → ¬ Shows s a target signal → Found s a target signal f
  leaves : (f ≡ timed_out) ⊎ (f ≡ reached) → Shows s a target signal → Found s a target signal f

find_signal-Found :
    (s : Sight) (a : ActiveExecution) (target : String) (signal : Signal)
    → Found s a target signal (find_signal s a target (some signal))
unfolding Shows
find_signal-Found s a target signal =
    let past = is_past s.simulation_time a.deadline in
    let pending = is_pending_target (some signal) in
    let shown = signal.current_phase == target in
    let start = find_signal-choose s a target signal in
    elim (Bool-cases s.has_traci) [
      | inr blind ↦
          stays (start ∙ ap (λ b. choose b past pending shown) blind) (λ h. cc (h.0, blind))
      | inl reads ↦
          let second = start ∙ ap (λ b. choose b past pending shown) reads in
          elim (is_past-cases s a) [
            | inl (late, is_late) ↦
                leaves (inl (second ∙ ap (λ b. choose true b pending shown) late))
                  (reads, inl is_late)
            | inr (early, is_early) ↦
                let third = second ∙ ap (λ b. choose true b pending shown) early in
                elim (is_pending_target-cases signal) [
                  | inl (waits, has) ↦
                      stays (third ∙ ap (λ b. choose true false b shown) waits) (λ h.
                        shows_not (λ late. is_early late) (λ lacks _. still signal has lacks) h.1)
                  | inr (free, lacks) ↦
                      let fourth = third ∙ ap (λ b. choose true false b shown) free in
                      elim (Bool-cases shown) [
                        | inl same ↦
                            leaves (inr (fourth ∙ ap (λ b. choose true false false b) same))
                              (reads, inr (lacks, (eq_iff signal.current_phase target).0 same))
                        | inr other ↦
                            stays (fourth ∙ ap (λ b. choose true false false b) other) (λ h.
                              shows_not (λ late. is_early late)
                                (λ _ same. differs signal.current_phase target other same) h.1)
                      ]
                ]
          ]
    ]
  where
    shows_not :
        (IsLate s a → ⊥)
        → (HasNoTarget signal → signal.current_phase ≡ target → ⊥)
        → IsLate s a ⊎ (HasNoTarget signal × (signal.current_phase ≡ target))
        → ⊥
    shows_not f g (inl late) = f late
    shows_not f g (inr (lacks, same)) = g lacks same

-- `find`, by the target and the signal.
abbrev find_at : Sight → ActiveExecution → Option String → Option Signal → Finding
find_at s a target o = elim target [
  | none ↦ waiting
  | some t ↦
      if a.command_type == "force_phase" && not (t == "") then find_signal s a t o else waiting
]

find-find_at :
    (s : Sight) (a : ActiveExecution)
    → find s a ≡ find_at s a a.target_phase (s.signals (run_text a.node_id))
unfolding find signal_of
find-find_at s a = refl

-- Either the command ends, or it waits.
abbrev pub IsDecided : Sight → ActiveExecution → Finding → Type 0
IsDecided s a f = (((f ≡ timed_out) ⊎ (f ≡ reached)) × Ends s a) ⊎ ((f ≡ waiting) × (¬ Ends s a))

IsOver : Sight → ActiveExecution → String → Signal → Type 0
IsOver s a t signal = IsLate s a ⊎ (HasNoTarget signal × (signal.current_phase ≡ t))

moved-IsOver :
    (s : Sight) (a : ActiveExecution) (t u : String) (signal other : Signal)
    → some u ≡ some t
    → some other ≡ some signal
    → IsOver s a u other
    → IsOver s a t signal
moved-IsOver s a t u signal other same same_signal h =
    let same_text : u ≡ t = cc same in
    let shown_signal : other ≡ signal = cc same_signal in
    subst (λ x. IsOver s a x signal) same_text (subst (IsOver s a u) shown_signal h)

at_signal :
    (s : Sight) (a : ActiveExecution) (t : String) (o : Option Signal)
    → a.target_phase ≡ some t
    → a.command_type ≡ "force_phase"
    → t ≢ ""
    → s.signals (run_text a.node_id) ≡ o
    → IsDecided s a (find_signal s a t o)
unfolding Shows IsOver find_signal
at_signal s a t none aims forces named e = inr (refl, λ h. cc (e, h.2.seen))
at_signal s a t (some signal) aims forces named e = elim (find_signal-Found s a t signal) [
  | leaves how shows ↦ inl (
    how,
    (
      t,
      signal,
      record { forces = forces; aims = aims; named = named; seen = e; readable = shows.0 },
      shows.1,
    ),
  )
  | stays how hidden ↦ inr (
    how,
    λ h. hidden (
      h.2.readable,
      moved-IsOver s a t h.0 signal h.1 (cc (h.2.aims, aims)) (cc (h.2.seen, e)) h.3,
    ),
  )
]

-- A tick finds that a command is late or has reached its phase exactly where it ends.
pub find-IsDecided : (s : Sight) (a : ActiveExecution) → IsDecided s a (find s a)
find-IsDecided s a = subst (IsDecided s a) (sym (find-find_at s a)) (go a.target_phase refl)
  where
    go :
        (o : Option String)
        → a.target_phase ≡ o
        → IsDecided s a (find_at s a o (s.signals (run_text a.node_id)))
    go none e = inr (refl, λ h. cc (h.2.aims, e))
    go (some t) e = elim (Bool-cases (a.command_type == "force_phase")) [
      | inr away ↦ rw away (inr (refl, λ h. differs a.command_type "force_phase" away h.2.forces))
      | inl forces ↦ elim (Bool-cases (t == "")) [
        | inl empty ↦
            rw (forces, empty)
              (inr (refl, λ h. h.2.named (cc (h.2.aims, e, (eq_iff t "").0 empty))))
        | inr set ↦
            rw (forces, set)
              (at_signal s a t (s.signals (run_text a.node_id)) e
                ((eq_iff a.command_type "force_phase").0 forces) (differs t "" set) refl)
      ]
    ]
