-- ===== src/Examples/Data.antt =====
-- The concrete data of the examples: a resource with a local sensor reader, its estimates, and the
-- environment of a run.
use sertay_thesis.Prelude.{true, false, none, some, [], ◌∷◌}
use sertay_thesis.Prelude.Int.{ℤ, pos}
use sertay_thesis.Prelude.Text.{String}
use sertay_thesis.Api.{WasmFunction}
use sertay_thesis.Api.Spec.{ResourceContractSpec, DeviceSpec, PlacementSpec, WasmFunctionSpec}
use sertay_thesis.Api.Status.{WasmFunctionStatus, empty_status}
use sertay_thesis.Deadline.{DeadlineEstimateSnapshot}
use sertay_thesis.Placement.{PlacementDecision, no_evaluation}
use sertay_thesis.Artifact.Reconcile.{ArtifactDecision, no_artifact}
use sertay_thesis.Control.Exec.{Control, Env}

abbrev pub digest : String
digest = "aaaaaaaaaaaaaaaaaaaaaaaaaaaaaaaaaaaaaaaaaaaaaaaaaaaaaaaaaaaaaaaa"

abbrev pub dht_contract : ResourceContractSpec
dht_contract = record {
  inputs =
      record {
        name = "DHT";
        locality = "device";
        keys = record { name = "temperature"; type = "f32" } ∷ [];
      }
      ∷ [];
  outputs = [];
}

abbrev pub device : DeviceSpec
device = record {
  id = "esp32";
  control_topic = "sif/esp32/control";
  telemetry_topic = "sif/esp32/telemetry";
  operator_wasm_url = "http://artifacts/dht.wasm";
  artifact_url = "http://device/dht.wasm";
  battery_simulation = record {
    enabled = some true;
    local_drain_percent = some (pos 4);
    edge_recover_percent = none;
  };
}

-- Automatic placement with the battery between 20 and 80 percent, and 500 ms to finish.
abbrev pub placement : PlacementSpec
placement = record {
  mode = "auto";
  battery_percent = none;
  low_battery_threshold = pos 20;
  high_battery_threshold = pos 80;
  battery_threshold = record { enabled = some true };
  deadline = record {
    enabled = some true;
    target_ms = some (pos 500);
    min_slack_ms = pos 10;
    safety_margin_ms = pos 20;
    estimator = record {
      window_seconds = pos 60;
      min_samples = pos 3;
      percentile = pos 95;
      fallback_local_execution_ms = pos 0;
      fallback_edge_execution_ms = pos 0;
      fallback_network_round_trip_ms = pos 0;
      fallback_resource_collection_ms = pos 0;
    };
  };
  battery_delta = record {
    enabled = some false;
    window_seconds = pos 0;
    max_drain_percent = pos 0;
    risky_windows_to_offload = pos 0;
  };
}

abbrev pub spec : WasmFunctionSpec
spec = record {
  image = "";
  wasm_path = "";
  replicas = none;
  port = pos 8080;
  env = [];
  device = device;
  placement = placement;
  release = record {
    generation = pos 5;
    artifact_digest = digest;
    function_identity = "dht-reader";
    resource_contract = dht_contract;
  };
}

-- A function that runs locally, with the battery at the given percentage.
abbrev pub local_at : ℤ → WasmFunctionStatus
local_at battery = record empty_status {
  desired_placement = "local";
  observed_battery_percent = some battery;
}

abbrev pub reader : WasmFunction
reader = record {
  namespace = "default";
  name = "reader";
  generation = pos 1;
  spec = spec;
  status = local_at (pos 15);
}

abbrev pub estimates : DeadlineEstimateSnapshot
estimates = record {
  identity_known = true;
  available = true;
  local_execution_ms = pos 100;
  local_queue_delay_ms = pos 10;
  resource_wake_ms = pos 5;
  edge_execution_ms = pos 20;
  network_round_trip_ms = pos 80;
  resource_collection_ms = pos 30;
  output_application_ms = pos 15;
  hybrid_round_trip_ms = pos 0;
  sample_count = pos 3;
}

-- The reader on the edge host, placed back on the device.
abbrev pub moving_local : PlacementDecision
moving_local = record {
  enabled = true;
  current = "edge";
  proposal = "local";
  candidate = "local";
  desired = "local";
  runtime_mode = "local";
  reason = "";
  readiness_reason = "";
  proposal_source = "manual";
  hard = false;
  transition = true;
  battery_percent = none;
  low_threshold = pos 20;
  high_threshold = pos 80;
  battery_threshold_enabled = true;
  deadline = record no_evaluation { accepted = true };
}

-- The host holds the declared release as its active one.
abbrev pub hosted : ArtifactDecision
hosted = record no_artifact {
  enabled = true;
  desired_digest = digest;
  host_digest = digest;
  host_active_generation = pos 5;
  host_active_function = "dht-reader";
}

-- The device reports the declared release.
abbrev pub staged_reader : WasmFunction
staged_reader = record reader {
  status = record (local_at (pos 15)) {
    observed_artifact_digest = digest;
    observed_function = "dht-reader";
    acknowledged_release_generation = pos 5;
    device_staged_artifact_digest = digest;
    staged_release_generation = pos 5;
  };
}

abbrev pub control : Control
control = record { wf = reader; stage_sends = []; activation_sends = []; sent = [] }

abbrev pub env : Env
env = record { now = 1000000000000; publish_error = λ _. none; activate_error = none }
