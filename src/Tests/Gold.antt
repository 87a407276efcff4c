-- ===== src/Tests/Gold.antt =====
-- Tests of Gold: the windows of one run, and their states.
use smart_data_models.Prelude.{
  ℕ, ◌≤◌, true, none, some, [], ◌∷◌, ◌≡◌, refl, arith, Dict, get, All, length,
}
use smart_data_models.Gold.Windows.{
  StreamMaxima, network, merge, required, earlier, least_known, least_of, watermark,
  runtime_watermark, is_eligible, Run, scan, rounds, window_start_for, candidate_windows,
  candidates_at,
}
use smart_data_models.Gold.Windows.Watermark.{is_eligible-merge}
use smart_data_models.Gold.Windows.Order.{IsQueued, candidate_windows-IsQueued}
use smart_data_models.Gold.Windows.Candidates.{IsReady, candidate_windows-IsReady, scan-rounds}

abbrev maxima : StreamMaxima
maxima = record { traffic = some 700; intersection = some 650; signal = some 900; camera = none }

abbrev earlier_maxima : StreamMaxima
earlier_maxima = record { traffic = some 10; intersection = none; signal = none; camera = some 3 }

is_eligible-merge_example : is_eligible 600 (watermark network (merge maxima earlier_maxima)) ≡ true
is_eligible-merge_example =
    is_eligible-merge network maxima earlier_maxima 600
      (unfold watermark required least_of least_known earlier is_eligible in refl)

abbrev simulation : Run
simulation = record { namespace = "live"; simulation_run_id = "run"; scenario_id = "normal" }

abbrev floors : Dict ℕ ℕ
floors = (300, 300) ∷ []

candidate_windows-IsReady_example :
    All (IsReady floors 650) (candidate_windows simulation maxima (60 ∷ 300 ∷ []) floors 3)
    × (length (candidate_windows simulation maxima (60 ∷ 300 ∷ []) floors 3) ≤ 3)
candidate_windows-IsReady_example =
    candidate_windows-IsReady simulation maxima (60 ∷ 300 ∷ []) floors 3 650
      (unfold runtime_watermark watermark required least_of least_known earlier in refl)

scan-rounds_example :
    scan 20 simulation 60 100 650 7 0 (window_start_for 100 60)
    ≡ scan (rounds 60 650) simulation 60 100 650 7 0 (window_start_for 100 60)
scan-rounds_example =
    scan-rounds 20 simulation 60 100 650 7 0 (omega arith) (unfold rounds in omega arith)

-- Two windows of 300 end before 700, and the first of them is closed already.
one_left : length (candidate_windows simulation maxima (300 ∷ []) floors 3) ≡ 1
unfolding candidate_windows candidates_at get
one_left = refl

candidate_windows-IsQueued_example :
    IsQueued (candidate_windows simulation maxima (60 ∷ 300 ∷ []) floors 3)
candidate_windows-IsQueued_example =
    candidate_windows-IsQueued simulation maxima (60 ∷ 300 ∷ []) floors 3
