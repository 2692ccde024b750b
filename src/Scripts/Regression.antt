-- ===== src/Scripts/Regression.antt =====
-- The comparisons of benchmark runs: `verdict` and the order of the runs of scripts/regression_gate.py, and
-- scripts/perf_ci.py. Measurements and the statistics of a list are parameters.
pub mod Fair
use recserve.Prelude.{
  ℕ, zero, suc, ◌%◌, String, Bool, true, false, ◌&&◌, ◌||◌, not, Option, none, some, List, [], ◌∷◌,
  ◌++◌, any, map, length, ltb, ◌==◌, if◌then◌else◌,
}
use recserve.Pilot.Model.{Floats}

pub record Statistics (F : Type 0) : Type 0 where
  pub floats : Floats F
  pub is_finite : F → Bool
  pub median : List F → F
  pub mean : List F → F

-- a row of a benchmark, where a field may be missing
pub record Row (F : Type 0) : Type 0 where
  pub p99_mean_us : Option F
  pub response_recall : Option F
  pub qps_mean : Option F

pub record Measured (F : Type 0) : Type 0 where
  pub p99_mean_us : F
  pub response_recall : F
  pub qps_mean : F

pub data Reason : Type 0 where
  missing_or_nonfinite invalid_measurement p99_regression recall_regression : Reason

module _ {F : Type 0} (stats : Statistics F) where
  open stats.floats use {less, sub, mul, div, of_ℕ}

  -- a field that is there and finite
  abbrev finite : Option F → Option F
  finite none = none
  finite (some x) = if stats.is_finite x then some x else none

  -- a row with all its fields
  unfoldable pub complete : Row F → Option (Measured F)
  complete row = elim (finite row.p99_mean_us) [
    | none ↦ none
    | some p99 ↦ elim (finite row.response_recall) [
      | none ↦ none
      | some recall ↦ elim (finite row.qps_mean) [
        | none ↦ none
        | some qps ↦ some (record { p99_mean_us = p99; response_recall = recall; qps_mean = qps })
      ]
    ]
  ]

  unfoldable pub complete_all : List (Row F) → Option (List (Measured F))
  complete_all [] = some []
  complete_all (row ∷ rows) = elim (complete row) [
    | none ↦ none
    | some r ↦ elim (complete_all rows) [ none ↦ none | some rs ↦ some (r ∷ rs) ]
  ]

  -- on finite numbers, `a <= b` is that b is not below a
  abbrev pub is_valid_row : Measured F → Bool
  is_valid_row r =
      less (of_ℕ 0) r.p99_mean_us
      && (less (of_ℕ 0) r.qps_mean
          && (not (less r.response_recall (of_ℕ 0)) && not (less (of_ℕ 1) r.response_recall)))

  -- the tests of the rows of one side
  unfoldable pub read_side : List (Row F) → Option (List (Measured F)) × List Reason
  read_side rows =
      if length rows == 0 then (none, missing_or_nonfinite ∷ []) else elim (complete_all rows) [
        | none ↦ (none, missing_or_nonfinite ∷ [])
        | some rs ↦
            if any (λ r. not (is_valid_row r)) rs
            then (none, invalid_measurement ∷ [])
            else (some rs, [])
      ]

  -- the reasons of a comparison of valid rows
  unfoldable pub compare_sides : F → F → List (Measured F) → List (Measured F) → List Reason
  compare_sides max_ratio max_recall_drop base candidate =
      let ratio =
        div (stats.median (map (λ r. r.p99_mean_us) candidate))
          (stats.median (map (λ r. r.p99_mean_us) base)) in
      let drop =
        sub (stats.mean (map (λ r. r.response_recall) base))
          (stats.mean (map (λ r. r.response_recall) candidate)) in
      (if less max_ratio ratio then p99_regression ∷ [] else [])
      ++ (if less max_recall_drop drop then recall_regression ∷ [] else [])

  -- `verdict`: the reasons; it passes if there are none
  unfoldable pub verdict : F → F → List (Row F) → List (Row F) → List Reason
  verdict max_ratio max_recall_drop base candidate = elim (read_side base).0 [
    | none ↦ (read_side base).1
    | some bs ↦ elim (read_side candidate).0 [
      | none ↦ (read_side candidate).1
      | some cs ↦ compare_sides max_ratio max_recall_drop bs cs
    ]
  ]

  -- the exit code of perf_ci.py from its measurement and the baseline file; a raised SystemExit with a
  -- text ends with code 1
  unfoldable pub perf_ci : F → Bool → Option F → F → ℕ
  perf_ci max_ratio writes_baseline baseline p99 =
      if not (stats.is_finite p99) || not (less (of_ℕ 0) p99)
      then 1
      else if writes_baseline
      then 0
      else elim baseline [ none ↦ 1 | some base ↦ if less (mul base max_ratio) p99 then 2 else 0 ]

pub data Side : Type 0 where
  base candidate : Side

-- the sides in the order of the runs: n more pairs, from the pair number `i`
unfoldable pub schedule : ℕ → ℕ → List Side
schedule zero i = []
schedule (suc n) i =
    let rest = schedule n (suc i) in
    if i % 2 == 0 then base ∷ candidate ∷ rest else candidate ∷ base ∷ rest
