-- ===== src/Lib.antt =====
-- A model of the serverless IoT framework of this repository: the Kubernetes operator that places
-- WebAssembly functions on a device, on an edge host or on both (edge/operator), and the edge host
-- that holds and runs their releases (edge/host).
--
-- The operator reconciles one WasmFunction at a time. A reconcile brings the declared release to
-- the edge host (Artifact), resolves where the function should run from the mode, the battery and the
-- deadline (Placement, Deadline, Policy), holds a move back until its destination is ready
-- (Readiness), and sends commands to the device over MQTT (Control); Reconcile composes these parts with
-- the workload in the cluster. The device answers by telemetry, which the bridge writes to the status
-- of the resource (Telemetry), with the drain of the battery, and to the deadline estimator
-- (Estimator), from which the next reconcile takes its estimates. The edge host keeps an active and a
-- staged release, and runs requests against the active one (Host).
--
-- Prelude     shared types, tests, lists, integers, texts, maps and times
-- Api         edge/operator/api/v1alpha1/wasmfunction_types.go: WasmFunction, its spec and status
-- Policy      the effective* functions of edge/operator/internal/controller
-- Deadline    deadline_placement.go: evaluateDeadlineAdmission is `evaluate_deadline_admission`;
--             Cost and Admission say when its int32 arithmetic is exact, Overflow what else it does
-- Locality    wasmfunction_controller.go: the current placement, resource locality, the thresholds
-- Placement   wasmfunction_controller.go: resolvePlacementWithEstimates; Resolve and Domain have its
--             cases and values, Battery and Hysteresis what the thresholds do
-- Release     digests (mqtt_telemetry.go, artifact_sync.go), release matching, command identifiers,
--             and the retry delay (wasmfunction_controller.go)
-- Artifact    artifact_sync.go: Http has the requests, Reconcile has reconcileArtifact, which returns
--             its decision, its error and the PUT requests that it made
-- Readiness   wasmfunction_controller.go: applyDestinationReadiness
-- Control     wasmfunction_controller.go: applyPlacement and the commands it sends; Exec is the monad
--             of the maps of the reconciler, the status, the messages sent and an error; a publication
--             fails before its message is written or after that (mqtt_publisher.go)
-- Host        edge/host/main.go and hal.go: State, Upload and Activate have the release slots, Serve the
--             module that is served and its first load, Process, Hal and Execution the execution of a
--             request
-- Reconcile   wasmfunction_controller.go: Reconcile is `reconcile`; Workload has the Deployment and the
--             Service, Ensure the calls for them, Status updateStatus, Requeue the delays, and Run the
--             run that composes all parts
-- Window      the samples of a sliding window, as Estimator and Telemetry keep them
-- Telemetry   mqtt_telemetry.go: the loop of consumeTelemetry (Session), applyBatteryTelemetry and
--             updateObservedTelemetry (Update), and the drain tracker (Drain), of which Drain/Spec says
--             what it is to report
-- Estimator   deadline_estimator.go: samples, percentiles, snapshots (Sample, Percentile, Snapshot,
--             Record)
-- Mqtt        mqtt_publisher.go and mqtt_telemetry.go: the packets that are written and read
-- Examples    concrete resources and hosts to which the theorems are applied
--
-- An operation is a function of the same name in snake case. A handler that changes state takes the
-- state and returns it; an error is the constructor `err` of Outcome, with its message. A pointer is an
-- Option, an int32 or int64 is an integer, and int32 sums wrap (`add32`, `sub32`). A time is the
-- number of nanoseconds since Go's zero time. One reconcile reads the clock once. The upload handler of
-- the host takes its lock twice, so it is two steps, `check_generation` and `stage`, and `Host.Race`
-- interleaves them.
--
-- Bounds: `format_nat` of n runs on n + 1 rounds, more than n has digits, and the loop that writes the
-- remaining length n of a packet on n + 1 rounds, more than it has bytes. The loop of the retry delay
-- runs on as many rounds as attempts. RetryOnConflict runs its closure once for each element of a list
-- of attempts, and an empty list is its last conflict. Everything else is structural recursion.
--
-- Parameters: the replies of HTTP servers and of the MQTT broker, SHA-256, the decoding of JSON, the
-- file system's errors, the answers of the API server with the conflicts that RetryOnConflict meets, the
-- two functions on conditions of the Kubernetes client, the compilation and instantiation by wasmtime,
-- and what a guest does. A float32 is a type with the conversions that the host uses.
--
-- Not modelled: logs, URLs that do not parse, the transition times of conditions, letters beyond ASCII
-- in lower-casing, the reconnection loop Start of the telemetry bridge, the entry points, the
-- generated deep copies, the firmware of the device (C++), the guests (Rust) and the tools. The
-- mutexes of the drain tracker and of the estimator are not modelled, since the bridge handles one
-- report at a time.
pub mod Prelude
pub mod Api
pub mod Policy
pub mod Deadline
pub mod Locality
pub mod Placement
pub mod Release
pub mod Artifact
pub mod Readiness
pub mod Control
pub mod Reconcile
pub mod Host
pub mod Window
pub mod Telemetry
pub mod Estimator
pub mod Mqtt
pub mod Examples
