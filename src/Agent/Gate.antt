-- ===== src/Agent/Gate.antt =====
-- Calibration and the verification gate of scripts/agent.py. A benchmark run is a parameter: the
-- snapshot that the measurement with a given number reports for a configuration.
use recserve.Prelude.{ℕ, zero, suc, Bool, true, false, ◌&&◌, List, [], ◌∷◌, max, if◌then◌else◌}
use recserve.Agent.Space.{Config, default_config}
use recserve.Agent.Diagnosis.{Real, Snapshot}

pub record Gate (F : Type 0) : Type 0 where
  pub recall_floor : F
  pub rss_budget_mib : F
  pub sigma_us : F
  pub sigma_multiple : F

-- why `verify` refuses a candidate, or that it accepts it
pub data Verdict : Type 0 where
  low_recall over_budget within_noise improved : Verdict

abbrev pub is_improved : Verdict → Bool
is_improved improved = true
is_improved _ = false

-- what calibration reports, besides the samples
pub record Calibration (F : Type 0) : Type 0 where
  pub p99_mean_us : F
  pub p99_sd_us : F
  pub cv : F
  pub detect_floor_frac : F

module _ {F : Type 0} (real : Real F) where
  open real.floats use {less, sub, mul, div, of_ℕ}

  -- `gate.sigma_multiple * math.sqrt(2.0) * gate.sigma_us`
  abbrev pub noise_band : Gate F → F
  noise_band gate = mul (mul gate.sigma_multiple (real.sqrt (of_ℕ 2))) gate.sigma_us

  -- `verify`
  unfoldable pub verify : Snapshot F → Snapshot F → Gate F → Verdict
  verify best cand gate =
      if less cand.response_recall gate.recall_floor
      then low_recall
      else if less gate.rss_budget_mib cand.rss_mib
      then over_budget
      else if real.less_eq (sub best.p99_mean_us cand.p99_mean_us) (noise_band gate)
      then within_noise
      else improved

  -- the p99 of the default configuration, measured n times
  unfoldable pub samples : (ℕ → Config → Snapshot F) → ℕ → ℕ → List F
  samples observe at zero = []
  samples observe at (suc n) = (observe at default_config).p99_mean_us ∷ samples observe (suc at) n

  -- a float that is false as a condition
  abbrev pub is_zero : F → Bool
  is_zero x = real.less_eq x (of_ℕ 0) && real.less_eq (of_ℕ 0) x

  -- `calibrate`, from the measurement number 0 on
  unfoldable pub calibrate : (ℕ → Config → Snapshot F) → ℕ → Calibration F
  calibrate observe repeats =
      let xs = samples observe 0 (max 2 repeats) in
      let mean = real.mean xs in
      let sd = real.stdev xs in
      record {
        p99_mean_us = mean;
        p99_sd_us = sd;
        cv = if is_zero mean then of_ℕ 0 else div sd mean;
        detect_floor_frac =
            if is_zero mean then of_ℕ 0 else div (mul (mul (of_ℕ 2) (real.sqrt (of_ℕ 2))) sd) mean;
      }

-- `Gate(...)` in `run_loop`, from the baseline
unfoldable pub gate_of : {F : Type 0} → Real F → F → F → Snapshot F → Calibration F → Gate F
gate_of real recall_floor_frac rss_slack baseline cal = record {
  recall_floor = real.floats.mul baseline.response_recall recall_floor_frac;
  rss_budget_mib = real.floats.mul baseline.rss_mib rss_slack;
  sigma_us = cal.p99_sd_us;
  sigma_multiple = real.floats.of_ℕ 2;
}
