-- ===== src/Startup.antt =====
-- operator/cmd/main.go: the flags, the registered backends, the choice of the cloud provider and
-- the reconciler that is built from them. `getenv` is os.Getenv, `dial` the connection of gke.New.
pub mod Contract
pub mod Accepts
pub mod Placement
pub mod Sizes
pub mod Polling
pub mod Assembled
pub mod Servers
pub mod Process
pub mod Main
use praktikum.Prelude.{
  ℤ, pos, to_int32, String, Bool, true, false, Option, none, some, is_empty, or_default, str_eq,
  if◌then◌else◌, ◌<>◌,
}
use praktikum.Runtime.{Runtime, Result, ok, err, errorf, ◌>>=◌, with_context}
use praktikum.Api.{BackendType}
use praktikum.System.{Cluster, Provider, JobBackend, Reconciler}
use praktikum.Backend.Reads.{Reads}
use praktikum.Backend.Pytorch.Manifest as PytorchManifest
use praktikum.Backend.Pytorch.Status as PytorchStatus
use praktikum.Backend.Pytorch.Results as PytorchResults
use praktikum.Backend.Spark.Manifest as SparkManifest
use praktikum.Backend.Spark.Status as SparkStatus
use praktikum.Backend.Spark.Results as SparkResults
use praktikum.Cloud.Gke.{GkeClient, GkeCluster, gke_provider}

-- The command line flags; an `int` is an integer.
pub record Flags : Type 0 where
  pub metrics_addr : String
  pub metrics_cert_path : String
  pub metrics_cert_name : String
  pub metrics_cert_key : String
  pub webhook_cert_path : String
  pub webhook_cert_name : String
  pub webhook_cert_key : String
  pub enable_leader_election : Bool
  pub probe_addr : String
  pub secure_metrics : Bool
  pub enable_http2 : Bool
  pub cloud_provider : String
  pub default_cpu_machine_type : String
  pub default_gpu_machine_type : String
  pub default_disk_size_gb : ℤ
  pub default_calibration_nodes : ℤ
  pub machine_costs_config_map_name : String
  pub machine_costs_config_map_namespace : String
  pub node_service_account : String
  pub gcp_project : String
  pub gcp_location : String
  pub cluster_name : String

abbrev pub default_flags : Flags
default_flags = record {
  metrics_addr = "0";
  metrics_cert_path = "";
  metrics_cert_name = "tls.crt";
  metrics_cert_key = "tls.key";
  webhook_cert_path = "";
  webhook_cert_name = "tls.crt";
  webhook_cert_key = "tls.key";
  enable_leader_election = false;
  probe_addr = ":8081";
  secure_metrics = true;
  enable_http2 = false;
  cloud_provider = "gke";
  default_cpu_machine_type = "e2-standard-4";
  default_gpu_machine_type = "n1-standard-4";
  default_disk_size_gb = pos 50;
  default_calibration_nodes = pos 2;
  machine_costs_config_map_name = "machine-costs";
  machine_costs_config_map_namespace = "distributed-training-system";
  node_service_account = "";
  gcp_project = "";
  gcp_location = "us-east1";
  cluster_name = "";
}

module _ {rt : Runtime} (reads : Reads rt) where
  abbrev pub pytorch_backend : JobBackend rt
  pytorch_backend = record {
    generate_manifest = PytorchManifest.generate_manifest;
    backend_job_name = PytorchManifest.job_name;
    phase_of = PytorchStatus.get_phase reads;
    start_time_of = PytorchStatus.get_start_time reads;
    end_time_of = PytorchStatus.get_end_time reads;
    results_of = PytorchResults.collect_results reads;
  }

  abbrev pub spark_backend : JobBackend rt
  spark_backend = record {
    generate_manifest = SparkManifest.generate_manifest;
    backend_job_name = SparkManifest.job_name;
    phase_of = SparkStatus.get_phase reads;
    start_time_of = SparkStatus.get_start_time reads;
    end_time_of = SparkStatus.get_end_time reads;
    results_of = SparkResults.collect_results reads;
  }

  -- The map of the registered backends.
  unfoldable pub backends : BackendType → Option (JobBackend rt)
  backends BackendType.pytorch = some pytorch_backend
  backends BackendType.spark = some spark_backend
  backends _ = none

module _ {rt : Runtime} (getenv : String → String) (dial : GkeCluster → Result (GkeClient rt)) where
  -- gke.New
  new_gke : String → String → String → Result (Provider rt)
  new_gke project location cluster =
      let p : GkeCluster = record { project = project; location = location; cluster = cluster } in
      do
        client ← with_context "creating GKE ClusterManagerClient" (dial p)
        ok (gke_provider p client)

  unfoldable pub build_provider : String → String → String → String → Result (Provider rt)
  unfolding new_gke
  build_provider name project location cluster =
      if str_eq name "gke"
      then (let p = or_default project (getenv "GCP_PROJECT") in
          if is_empty p
          then err (errorf "--gcp-project or GCP_PROJECT env var is required for the gke provider")
          else new_gke p location cluster)
      else err (errorf ("unsupported cloud provider " <> (rt.quote name <> " — supported: gke")))

  -- The provider that `main` builds.
  abbrev pub provider_of : Flags → Result (Provider rt)
  provider_of flags =
      build_provider flags.cloud_provider flags.gcp_project flags.gcp_location flags.cluster_name

module _ {rt : Runtime} where
  -- NewDistributedTrainingReconciler. The client, the recorder and the ConfigMap of machine costs
  -- are in `cluster`; the scheme is used for nothing.
  unfoldable pub new_distributed_training_reconciler :
      Cluster rt
      → Provider rt
      → (BackendType → Option (JobBackend rt))
      → (cpu gpu : String) → (disk nodes : ℤ) → (service_account : String) → Reconciler rt
  new_distributed_training_reconciler cluster provider backends cpu gpu disk nodes account =
      record {
        cluster = cluster;
        cloud = provider;
        backends = backends;
        default_cpu_machine_type = cpu;
        default_gpu_machine_type = gpu;
        default_disk_size_gb = disk;
        default_calibration_nodes = nodes;
        node_service_account = account;
      }

  -- The reconciler that `main` sets up.
  unfoldable pub new_reconciler : Cluster rt → Reads rt → Flags → Provider rt → Reconciler rt
  unfolding new_distributed_training_reconciler backends
  new_reconciler cluster reads flags provider =
      new_distributed_training_reconciler cluster provider (backends reads)
        flags.default_cpu_machine_type flags.default_gpu_machine_type
        (to_int32 flags.default_disk_size_gb) (to_int32 flags.default_calibration_nodes)
        flags.node_service_account
