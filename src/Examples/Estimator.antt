-- ===== src/Examples/Estimator.antt =====
-- The estimator theorems at four samples of the reader.
use sertay_thesis.Prelude.{ℕ, ◌^◌, ◌≡◌, ◌<◌, refl, true, none, some, List, [], ◌∷◌, arith}
use sertay_thesis.Prelude.Int.{ℤ, pos}
use sertay_thesis.Prelude.Text.{text_eq_iff, trim_space}
use sertay_thesis.Prelude.Maps.{string_eq, lookup}
use sertay_thesis.Deadline.Cost.{IsRealistic}
use sertay_thesis.Estimator.Sample.{
  DeadlineTelemetrySample, DeadlineProfile, DeadlineTelemetryEstimator,
}
use sertay_thesis.Estimator.Percentile.{stage_values, estimate_deadline_percentile}
use sertay_thesis.Estimator.Snapshot.{estimate_of_profile, estimate}
use sertay_thesis.Estimator.Rank.{IsNearestRank, estimate-IsNearestRank}
use sertay_thesis.Estimator.Realistic.{IsPlausible, ArePlausible, estimate-IsRealistic}
use sertay_thesis.Examples.Data.{reader}

abbrev sample : ℤ → DeadlineTelemetrySample
sample execution = record {
  sampled_at = 1000;
  local_execution_ms = some execution;
  local_queue_delay_ms = none;
  resource_wake_ms = none;
  edge_execution_ms = none;
  network_round_trip_ms = none;
  resource_collection_ms = none;
  output_application_ms = none;
}

abbrev samples : List DeadlineTelemetrySample
samples = sample (pos 30) ∷ sample (pos 10) ∷ sample (pos 40) ∷ sample (pos 20) ∷ []

estimate-IsNearestRank_example :
    IsNearestRank 75
      (stage_values (λ s. s.local_execution_ms) samples)
      (estimate_deadline_percentile samples (λ s. s.local_execution_ms) (pos 3) (pos 75) (pos 5))
unfolding stage_values
estimate-IsNearestRank_example =
    estimate-IsNearestRank samples (λ s. s.local_execution_ms) (pos 3) (pos 5) 75 (omega arith)
      (omega arith) (omega arith) (omega arith)

abbrev profile : DeadlineProfile
profile = record {
  local_execution_ms = pos 120;
  local_queue_delay_ms = pos 5;
  resource_wake_ms = pos 5;
  edge_execution_ms = pos 30;
  network_round_trip_ms = pos 60;
  resource_collection_ms = pos 20;
  output_application_ms = pos 10;
}

abbrev estimator : DeadlineTelemetryEstimator
estimator = record {
  samples = ("default/reader/dht-reader/local", samples) ∷ [];
  profiles = ("dht-reader", profile) ∷ [];
}

profile-IsRealistic : IsRealistic (estimate_of_profile reader profile)
unfolding estimate_of_profile
profile-IsRealistic = record {
  local_execution = omega arith;
  local_queue_delay = omega arith;
  resource_wake = omega arith;
  edge_execution = omega arith;
  network_round_trip = omega arith;
  resource_collection = omega arith;
  output_application = omega arith;
}

sample-IsPlausible : (n : ℕ) → n < 2 ^ 28 → IsPlausible (sample (pos n))
sample-IsPlausible n h = record {
  local_execution = h;
  local_queue_delay = tt;
  resource_wake = tt;
  edge_execution = tt;
  network_round_trip = tt;
  resource_collection = tt;
  output_application = tt;
}

samples-ArePlausible : ArePlausible estimator.samples
samples-ArePlausible = (
  (
    sample-IsPlausible 30 (omega arith),
    (
      sample-IsPlausible 10 (omega arith),
      (sample-IsPlausible 40 (omega arith), (sample-IsPlausible 20 (omega arith), tt)),
    ),
  ),
  tt,
)

estimate-IsRealistic_example :
    ((estimate (some estimator) reader).available ≡ true)
    × IsRealistic (estimate (some estimator) reader)
unfolding trim_space lookup
estimate-IsRealistic_example =
    estimate-IsRealistic estimator reader {profile = profile}
      (ground (arith, text_eq_iff "dht-reader" "")) refl profile-IsRealistic samples-ArePlausible
