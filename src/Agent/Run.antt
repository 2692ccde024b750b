-- ===== src/Agent/Run.antt =====
-- A run of the tuning loop from its calibration to its result, the gate on a change, and the choice of the
-- planners in scripts/agent.py: `run_loop`, `validate_pr`, `main`. The unit tests of the engine and the
-- files of the baseline are read outside.
pub mod Outcomes
use recserve.Prelude.{
  ℕ, suc, ◌+◌, String, Bool, true, false, not, Option, none, some, List, [], ◌∷◌, ◌++◌, count, max,
  ◌==◌, if◌then◌else◌,
}
use recserve.Agent.Space.{Knob, Setting, Config, default_config, same_config, update}
use recserve.Agent.Diagnosis.{Real, Snapshot, fraction}
use recserve.Agent.Gate.{is_zero, Gate, is_improved, verify, Calibration, calibrate, gate_of}
use recserve.Agent.Loop.{
  Entry, Point, State, Planner, heuristic, llm, random, grid, Environment, iterations,
}

-- the arguments of `run_loop` that decide
pub record Options (F : Type 0) : Type 0 where
  pub planner : Planner
  pub iterations : ℕ
  pub recall_floor_frac : F
  pub rss_slack : F
  pub confirm_repeats : ℕ
  pub calibrate_repeats : ℕ
  pub start_config : List (Knob × Setting)

pub record Result (F : Type 0) : Type 0 where
  pub baseline_p99_us : F
  pub baseline_recall : F
  pub best_p99_us : F
  pub best_recall : F
  pub first_baseline_p99_us : F
  pub final_confirmed : Bool
  pub start_config : Config
  pub best_config : Config
  pub improvement_frac : F
  pub accepted : ℕ
  pub rejected : ℕ
  pub gate : Gate F
  pub calibration : Calibration F
  pub history : List (Entry F)
  pub trace : List (Point F)

-- what `validate_pr` finds at its baseline's path
pub record Baseline (F : Type 0) : Type 0 where
  pub p99_mean_us : F
  pub response_recall : F

pub data Regression : Type 0 where
  unit_tests p99_regressed recall_dropped : Regression

abbrev pub reason_if : Bool → Regression → List Regression
reason_if b r = if b then r ∷ [] else []

module _ {F : Type 0} (real : Real F) (env : Environment F) where
  open real.floats use {less, sub, div, of_ℕ}

  -- the state before the first iteration: the baseline is measured after the calibration
  unfoldable pub started : Options F → State F
  started o =
      let cfg = update default_config o.start_config in
      let at = max 2 o.calibrate_repeats in
      let baseline = env.observe at cfg in
      record {
        measured = suc at;
        best = baseline;
        best_cfg = cfg;
        history = [];
        trace =
            record {
              iteration = 0;
              p99_mean_us = baseline.p99_mean_us;
              incumbent_p99_us = none;
              response_recall = baseline.response_recall;
              retrieve_recall = baseline.retrieve_recall;
              accepted = true;
              config = cfg;
            }
            ∷ [];
      }

  unfoldable pub gate_for : Options F → Gate F
  gate_for o =
      gate_of real o.recall_floor_frac o.rss_slack (started o).best
        (calibrate real env.observe o.calibrate_repeats)

  -- the state after the last iteration
  unfoldable pub finished : Options F → State F
  finished o =
      iterations real env o.planner (gate_for o) o.confirm_repeats o.iterations 1 (started o)

  -- the final comparison and the result, from the last state
  unfoldable pub report : Options F → State F → Result F
  report o s =
      let start_cfg = update default_config o.start_config in
      let final_base = env.observe s.measured start_cfg in
      let final_best = env.observe (suc s.measured) s.best_cfg in
      let unchanged = same_config s.best_cfg start_cfg in
      record {
        baseline_p99_us = final_base.p99_mean_us;
        baseline_recall = final_base.response_recall;
        best_p99_us = final_best.p99_mean_us;
        best_recall = final_best.response_recall;
        first_baseline_p99_us = (started o).best.p99_mean_us;
        final_confirmed =
            if unchanged
            then true
            else is_improved (verify real final_base final_best (gate_for o));
        start_config = start_cfg;
        best_config = s.best_cfg;
        improvement_frac =
            if unchanged
            then of_ℕ 0
            else div (sub final_base.p99_mean_us final_best.p99_mean_us) final_base.p99_mean_us;
        accepted = count (λ e. e.accepted) s.history;
        rejected = count (λ e. not e.accepted) s.history;
        gate = gate_for o;
        calibration = calibrate real env.observe o.calibrate_repeats;
        history = s.history;
        trace = s.trace;
      }

  -- `run_loop`
  unfoldable pub run_loop : Options F → Result F
  run_loop o = report o (finished o)

  -- the reasons of `validate_pr`, in their order
  unfoldable pub regressions : F → Bool → Snapshot F → Baseline F → List Regression
  regressions max_ratio tests_passed snap base =
      reason_if (not tests_passed) unit_tests
      ++ (reason_if (less max_ratio (div snap.p99_mean_us base.p99_mean_us)) p99_regressed
          ++ reason_if (less (fraction real 1 100) (sub base.response_recall snap.response_recall))
              recall_dropped)

  -- `validate_pr`: its exit code, from that of the unit tests. A baseline of zero is a ZeroDivisionError, with
  -- which the process exits with 1.
  unfoldable pub validate_pr : F → ℕ → Option (Baseline F) → ℕ
  validate_pr max_ratio returncode none = 2
  validate_pr max_ratio returncode (some base) =
      if is_zero real base.p99_mean_us
      then 1
      else elim (regressions max_ratio (returncode == 0) (env.observe 0 default_config) base) [
        | [] ↦ 0
        | r ∷ rs ↦ 2
      ]

-- the planners that `main` runs: with --compare all, but the last without a key
unfoldable pub planners : Bool → Bool → Planner → List Planner
planners compare has_key planner =
    if not compare
    then planner ∷ []
    else heuristic ∷ random ∷ grid ∷ (if has_key then llm ∷ [] else [])
