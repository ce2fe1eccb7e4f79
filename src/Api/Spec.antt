-- ===== src/Api/Spec.antt =====
-- The declared part of a WasmFunction (edge/operator/api/v1alpha1/wasmfunction_types.go).
use sertay_thesis.Prelude.{Bool, List, Option}
use sertay_thesis.Prelude.Int.{ℤ}
use sertay_thesis.Prelude.Text.{String}

-- One typed value collected from a resource.
pub record ResourceInputKeySpec : Type 0 where
  pub name : String
  pub type : String

pub record ResourceInputSpec : Type 0 where
  pub name : String
  pub locality : String
  pub keys : List ResourceInputKeySpec

pub record ResourceOutputSpec : Type 0 where
  pub name : String
  pub type : String
  pub locality : String

pub record ResourceContractSpec : Type 0 where
  pub inputs : List ResourceInputSpec
  pub outputs : List ResourceOutputSpec

pub record ReleaseSpec : Type 0 where
  pub generation : ℤ  -- int64
  pub artifact_digest : String
  pub function_identity : String
  pub resource_contract : ResourceContractSpec

pub record EnvVar : Type 0 where
  pub name : String
  pub value : String

pub record BatterySimulationSpec : Type 0 where
  pub enabled : Option Bool
  pub local_drain_percent : Option ℤ  -- *int32
  pub edge_recover_percent : Option ℤ  -- *int32

pub record DeviceSpec : Type 0 where
  pub id : String
  pub control_topic : String
  pub telemetry_topic : String
  pub operator_wasm_url : String
  pub artifact_url : String
  pub battery_simulation : BatterySimulationSpec

pub record BatteryThresholdPolicySpec : Type 0 where
  pub enabled : Option Bool

pub record DeadlineEstimatorSpec : Type 0 where
  pub window_seconds : ℤ  -- int32, and so all below
  pub min_samples : ℤ
  pub percentile : ℤ
  pub fallback_local_execution_ms : ℤ
  pub fallback_edge_execution_ms : ℤ
  pub fallback_network_round_trip_ms : ℤ
  pub fallback_resource_collection_ms : ℤ

pub record DeadlinePolicySpec : Type 0 where
  pub enabled : Option Bool
  pub target_ms : Option ℤ  -- *int32
  pub min_slack_ms : ℤ  -- int32
  pub safety_margin_ms : ℤ  -- int32
  pub estimator : DeadlineEstimatorSpec

pub record BatteryDeltaPolicySpec : Type 0 where
  pub enabled : Option Bool
  pub window_seconds : ℤ  -- int32, and so all below
  pub max_drain_percent : ℤ
  pub risky_windows_to_offload : ℤ

pub record PlacementSpec : Type 0 where
  pub mode : String
  pub battery_percent : Option ℤ  -- *int32
  pub low_battery_threshold : ℤ  -- int32
  pub high_battery_threshold : ℤ  -- int32
  pub battery_threshold : BatteryThresholdPolicySpec
  pub deadline : DeadlinePolicySpec
  pub battery_delta : BatteryDeltaPolicySpec

pub record WasmFunctionSpec : Type 0 where
  pub image : String
  pub wasm_path : String
  pub replicas : Option ℤ  -- *int32
  pub port : ℤ  -- int32
  pub env : List EnvVar
  pub device : DeviceSpec
  pub placement : PlacementSpec
  pub release : ReleaseSpec
