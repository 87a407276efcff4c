-- ===== src/Gold/Windows.antt =====
-- de/gold_runtime/window_scheduler.py. Times and window sizes are whole numbers in one unit (a
-- millisecond, say), where the source has floats of seconds. The watermark's delay and the allowed
-- lateness, which the contract fixes at 0, are left out; so is the window's id, a hash of the other
-- fields.
pub mod Watermark
pub mod State
pub mod Candidates
pub mod Order
use smart_data_models.Prelude.{
  ℕ, zero, suc, ◌+◌, ◌-◌, ◌*◌, ◌/◌, min, max, String, Bool, true, false, not, ◌&&◌, ◌||◌, Option,
  none, some, List, [], ◌∷◌, ◌++◌, ltb, leb, eqb, if◌then◌else◌, length, take, Dict, get, nat_key,
}

pub data OutputFamily : Type 0 where
  traffic intersection signal network : OutputFamily

pub record StreamMaxima : Type 0 where
  pub traffic : Option ℕ
  pub intersection : Option ℕ
  pub signal : Option ℕ
  pub camera : Option ℕ

unfoldable pub later : Option ℕ → Option ℕ → Option ℕ
later none right = right
later (some l) none = some l
later (some l) (some r) = some (max l r)

unfoldable pub merge : StreamMaxima → StreamMaxima → StreamMaxima
unfolding later
merge a b = record {
  traffic = later a.traffic b.traffic;
  intersection = later a.intersection b.intersection;
  signal = later a.signal b.signal;
  camera = later a.camera b.camera;
}

-- `[maxima.get(stream) for stream in REQUIRED_STREAMS[family]]`
unfoldable pub required : OutputFamily → StreamMaxima → List (Option ℕ)
required traffic m = m.traffic ∷ []
required intersection m = m.traffic ∷ m.intersection ∷ []
required signal m = m.signal ∷ []
required network m = m.traffic ∷ m.intersection ∷ m.signal ∷ []

-- The least value of a list of known ones; `none` where one is missing.
unfoldable pub earlier : Option ℕ → Option ℕ → Option ℕ
earlier none right = none
earlier (some l) none = none
earlier (some l) (some r) = some (min l r)

unfoldable pub least_known : Option ℕ → List (Option ℕ) → Option ℕ
unfolding earlier
least_known v [] = v
least_known v (w ∷ ws) = earlier v (least_known w ws)

unfoldable pub least_of : List (Option ℕ) → Option ℕ
unfolding least_known
least_of [] = none
least_of (v ∷ vs) = least_known v vs

unfoldable pub watermark : OutputFamily → StreamMaxima → Option ℕ
unfolding required least_of
watermark family m = least_of (required family m)

unfoldable pub runtime_watermark : StreamMaxima → Option ℕ
unfolding watermark
runtime_watermark m = watermark network m

unfoldable pub is_eligible : ℕ → Option ℕ → Bool
is_eligible window_end none = false
is_eligible window_end (some mark) = ltb window_end mark

pub record WindowIdentity : Type 0 where
  pub namespace : String
  pub simulation_run_id : String
  pub scenario_id : String
  pub window_size : ℕ
  pub window_start : ℕ
  pub window_end : ℕ

unfoldable pub make_window_identity : String → String → String → ℕ → ℕ → WindowIdentity
make_window_identity namespace run scenario size start = record {
  namespace = namespace;
  simulation_run_id = run;
  scenario_id = scenario;
  window_size = size;
  window_start = start;
  window_end = start + size;
}

unfoldable pub window_start_for : ℕ → ℕ → ℕ
window_start_for time size = time / size * size

-- The windows of one run.
pub record Run : Type 0 where
  pub namespace : String
  pub simulation_run_id : String
  pub scenario_id : String

unfoldable pub window_at : Run → ℕ → ℕ → WindowIdentity
unfolding make_window_identity
window_at r size start =
    make_window_identity r.namespace r.simulation_run_id r.scenario_id size start

-- `while True`: `count` candidates are there already, and the loop ends once more than `most` are.
unfoldable pub scan : ℕ → Run → ℕ → ℕ → ℕ → ℕ → ℕ → ℕ → List WindowIdentity
unfolding window_at is_eligible
scan zero r size floor mark most count start = []
scan (suc fuel) r size floor mark most count start =
    let skipped = scan fuel r size floor mark most count (start + size) in
    let more = scan fuel r size floor mark most (count + 1) (start + size) in
    let window = window_at r size start in
    if leb window.window_end floor
    then skipped
    else if not (is_eligible window.window_end (some mark))
    then []
    else window ∷ (if ltb most (count + 1) then [] else more)

-- A round for each window that ends up to the watermark, and two more.
unfoldable pub rounds : ℕ → ℕ → ℕ
rounds size mark = mark / size + 2

abbrev pub floor_of : Dict ℕ ℕ → ℕ → ℕ
floor_of floors size = elim (get floors size) [ none ↦ 0 | some floor ↦ floor ]

unfoldable pub scan_size : Run → Dict ℕ ℕ → ℕ → ℕ → ℕ → ℕ → List WindowIdentity
unfolding scan window_start_for rounds get
scan_size r floors mark most count size =
    let floor = floor_of floors size in
    scan (rounds size mark) r size floor mark most count (window_start_for floor size)

unfoldable pub scan_sizes :
    Run → Dict ℕ ℕ → ℕ → ℕ → List WindowIdentity → List ℕ → List WindowIdentity
unfolding scan_size
scan_sizes r floors mark most found [] = found
scan_sizes r floors mark most found (size ∷ sizes) =
    scan_sizes r floors mark most (found ++ scan_size r floors mark most (length found) size) sizes

-- The order of `queue_key` within one run, where an end and a size determine the window.
unfoldable pub comes_first : WindowIdentity → WindowIdentity → Bool
comes_first v w =
    ltb v.window_end w.window_end
    || (eqb v.window_end w.window_end && leb v.window_size w.window_size)

unfoldable pub enqueue_window : WindowIdentity → List WindowIdentity → List WindowIdentity
unfolding comes_first
enqueue_window w [] = w ∷ []
enqueue_window w (v ∷ vs) =
    let rest = enqueue_window w vs in if comes_first w v then w ∷ v ∷ vs else v ∷ rest

unfoldable pub queue_order : List WindowIdentity → List WindowIdentity
unfolding enqueue_window
queue_order [] = []
queue_order (w ∷ ws) = enqueue_window w (queue_order ws)

unfoldable pub candidates_at : Run → List ℕ → Dict ℕ ℕ → ℕ → Option ℕ → List WindowIdentity
unfolding scan_sizes queue_order
candidates_at r sizes floors limit none = []
candidates_at r sizes floors limit (some mark) =
    take limit (queue_order (scan_sizes r floors mark (limit * length sizes + limit) [] sizes))

unfoldable pub candidate_windows : Run → StreamMaxima → List ℕ → Dict ℕ ℕ → ℕ → List WindowIdentity
unfolding candidates_at runtime_watermark
candidate_windows r m sizes floors limit = candidates_at r sizes floors limit (runtime_watermark m)

unfoldable pub lag_of : Option ℕ → ℕ → ℕ
lag_of none window_end = 0
lag_of (some t) window_end = window_end - t

-- The lags of traffic, intersection, signal and camera.
unfoldable pub source_lag : StreamMaxima → ℕ → ℕ × ℕ × ℕ × ℕ
unfolding lag_of
source_lag m window_end = (
  lag_of m.traffic window_end,
  lag_of m.intersection window_end,
  lag_of m.signal window_end,
  lag_of m.camera window_end,
)
