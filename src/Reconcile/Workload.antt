-- ===== src/Reconcile/Workload.antt =====
-- The Deployment and the Service of a resource (effectiveImage, desiredDeployment, desiredService,
-- deploymentNeedsUpdate and serviceNeedsUpdate of
-- edge/operator/internal/controller/wasmfunction_controller.go). The objects have the fields that
-- the operator sets; resource quantities are the strings that it parses.
use sertay_thesis.Prelude.{
  Bool, not, ◌||◌, Option, none, some, List, [], ◌∷◌, map, refl, if◌then◌else◌,
}
use sertay_thesis.Prelude.Int.{ℤ, pos}
use sertay_thesis.Prelude.Text.{String, text_eq, trim_space, format_int}
use sertay_thesis.Prelude.Maps.{Eq, string_eq}
use sertay_thesis.Prelude.Equality.{int_eq, pair_eq, list_eq, coded_eq}
use sertay_thesis.Api.{WasmFunction}
use sertay_thesis.Api.Spec.{EnvVar}
use sertay_thesis.Artifact.Http.{effective_port}

abbrev pub Labels : Type 0
Labels = List (String × String)

-- A liveness or readiness probe with an HTTP request.
pub record Probe : Type 0 where
  pub path : String
  pub port : ℤ
  pub initial_delay_seconds : ℤ
  pub period_seconds : ℤ

pub record Container : Type 0 where
  pub name : String
  pub image : String
  pub ports : List (ℤ × String)  -- containerPort, protocol
  pub env : List (String × String)
  pub requests : List (String × String)
  pub limits : List (String × String)
  pub liveness_probe : Probe
  pub readiness_probe : Probe

pub record PodTemplate : Type 0 where
  pub labels : Labels
  pub containers : List Container

pub record Deployment : Type 0 where
  pub name : String
  pub namespace : String
  pub labels : Labels
  pub replicas : ℤ
  pub selector : Labels
  pub template : PodTemplate

pub record Service : Type 0 where
  pub name : String
  pub namespace : String
  pub labels : Labels
  pub type : String
  pub selector : Labels
  pub ports : List ((ℤ × ℤ) × String)  -- port, targetPort, protocol

unfoldable pub effective_image : WasmFunction → String
effective_image wf =
    if not (text_eq (trim_space wf.spec.image) "")
    then wf.spec.image
    else "localhost:30500/sif-edge-host:latest"

abbrev pub host_labels : WasmFunction → Labels
host_labels wf =
    ("app.kubernetes.io/name", "sif-edge-host")
    ∷ ("app.kubernetes.io/instance", wf.name)
    ∷ ("app.kubernetes.io/managed-by", "sif-operator")
    ∷ []

abbrev pub replicas_or_one : Option ℤ → ℤ
replicas_or_one none = pos 1
replicas_or_one (some n) = n

abbrev pub health_probe : ℤ → ℤ → ℤ → Probe
health_probe port delay period = record {
  path = "/health";
  port = port;
  initial_delay_seconds = delay;
  period_seconds = period;
}

unfoldable pub host_container : WasmFunction → Container
host_container wf =
    let port = effective_port wf in
    record {
      name = "wasm-host";
      image = effective_image wf;
      ports = (port, "TCP") ∷ [];
      env =
          (
            "WASM_PATH",
            if text_eq wf.spec.wasm_path "" then "/app/dht_reader.wasm" else wf.spec.wasm_path,
          )
          ∷ ("PORT", format_int port)
          ∷ map (λ (e : EnvVar). (e.name, e.value)) wf.spec.env;
      requests = ("memory", "64Mi") ∷ ("cpu", "50m") ∷ [];
      limits = ("memory", "128Mi") ∷ ("cpu", "200m") ∷ [];
      liveness_probe = health_probe port (pos 5) (pos 10);
      readiness_probe = health_probe port (pos 3) (pos 5);
    }

unfoldable pub desired_deployment : WasmFunction → Deployment
desired_deployment wf = record {
  name = wf.name;
  namespace = wf.namespace;
  labels = host_labels wf;
  replicas = replicas_or_one wf.spec.replicas;
  selector = host_labels wf;
  template = record { labels = host_labels wf; containers = host_container wf ∷ [] };
}

unfoldable pub desired_service : WasmFunction → Service
desired_service wf =
    let port = effective_port wf in
    record {
      name = wf.name;
      namespace = wf.namespace;
      labels = host_labels wf;
      type = "NodePort";
      selector = host_labels wf;
      ports = ((port, port), "TCP") ∷ [];
    }

instance abbrev pub probe_eq : Eq Probe
probe_eq =
    coded_eq (pair_eq {A = String × ℤ} {B = ℤ × ℤ})
      (λ p. ((p.path, p.port), (p.initial_delay_seconds, p.period_seconds)))
      (λ c. record {
        path = c.0.0;
        port = c.0.1;
        initial_delay_seconds = c.1.0;
        period_seconds = c.1.1;
      })
      (λ p. refl)

instance abbrev pub container_eq : Eq Container
container_eq =
    coded_eq
      (pair_eq {A = ((String × String) × (List (ℤ × String) × List (String × String)))}
        {B = ((List (String × String) × List (String × String)) × (Probe × Probe))})
      (λ c. (
        ((c.name, c.image), (c.ports, c.env)),
        ((c.requests, c.limits), (c.liveness_probe, c.readiness_probe)),
      ))
      (λ c. record {
        name = c.0.0.0;
        image = c.0.0.1;
        ports = c.0.1.0;
        env = c.0.1.1;
        requests = c.1.0.0;
        limits = c.1.0.1;
        liveness_probe = c.1.1.0;
        readiness_probe = c.1.1.1;
      })
      (λ c. refl)

instance abbrev pub template_eq : Eq PodTemplate
template_eq =
    coded_eq (pair_eq {A = Labels} {B = List Container}) (λ t. (t.labels, t.containers))
      (λ c. record { labels = c.0; containers = c.1 }) (λ t. refl)

-- reflect.DeepEqual
abbrev pub deep_equal : {A : Type 0} ⦃e : Eq A⦄ → A → A → Bool
deep_equal ⦃e⦄ a b = e.beq a b

unfoldable pub deployment_needs_update : Deployment → Deployment → Bool
deployment_needs_update found desired =
    not (deep_equal found.template desired.template)
    || not (deep_equal found.replicas desired.replicas)

unfoldable pub service_needs_update : Service → Service → Bool
service_needs_update found desired =
    not (deep_equal found.ports desired.ports) || not (deep_equal found.selector desired.selector)

-- foundDeploy.Spec = deploy.Spec, and the same for a Service.
unfoldable pub put_deployment_spec : Deployment → Deployment → Deployment
put_deployment_spec found desired = record found {
  replicas = desired.replicas;
  selector = desired.selector;
  template = desired.template;
}

unfoldable pub put_service_spec : Service → Service → Service
put_service_spec found desired = record found {
  type = desired.type;
  selector = desired.selector;
  ports = desired.ports;
}
