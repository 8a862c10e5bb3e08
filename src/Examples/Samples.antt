-- ===== src/Examples/Samples.antt =====
-- A small runtime on the natural numbers, a cluster that accepts each write, and a job.
use praktikum.Prelude.{
  ℕ, ◌+◌, ◌-◌, ◌*◌, ◌/◌, ℤ, pos, pos_part, zero_ℤ, one_ℤ, String, true, false, none, some, [], ◌∷◌,
  ltb, leb, ◌==◌, if◌then◌else◌, str_eq, show_int,
}
use praktikum.Runtime.{Runtime, Result, ok, err, errorf}
use praktikum.Api.{
  BackendType, HardwareType, MixedPrecision, Phase, PytorchSpec, ObjectiveSpec,
  DistributedTrainingSpec, DistributedTraining, no_status, no_results,
}
use praktikum.System.{World, Reconciler, Cluster, Provider, JobBackend, Manifest, no_fields}

abbrev at_most_once : ℕ → ℕ → ℕ
at_most_once n m = if m == 0 then 0 else n / m

abbrev parse_small : String → Result ℕ
parse_small s = if str_eq s "4" then ok 4 else err (errorf "no number")

abbrev parse_time : String → Result ℤ
parse_time s = if str_eq s "20m" then ok (pos 1200000000000) else err (errorf "no duration")

abbrev pub small_runtime : Runtime
small_runtime = record {
  Float = ℕ;
  Quantity = ℕ;
  of_int = pos_part;
  literal = λ m k. if k == 0 then m else 0;
  max_float64 = 1000000000;
  add = λ a b. a + b;
  sub = λ a b. a - b;
  mul = λ a b. a * b;
  div = at_most_once;
  max = λ a b. if ltb a b then b else a;
  abs = λ a. a;
  exp = λ a. a;
  lt = ltb;
  le = leb;
  eq = λ a b. a == b;
  parse_float = parse_small;
  format_fixed = λ k a. show_int (pos a);
  parse_duration = parse_time;
  duration_text = show_int;
  seconds = λ d. pos_part d / 1000000000;
  to_duration = pos;
  quantity_value = λ q. q;
  quantity_of = λ f. f;
  quote = λ s. s;
  sha256_hex = λ s. s;
}

abbrev pub accepting_cluster : Cluster small_runtime
accepting_cluster = record {
  now = λ t. 5000000000;
  status_patch = λ t s. none;
  metadata_patch = λ t. none;
  nodes_with_label = λ t k v. ok ((("Ready", "True") ∷ []) ∷ []);
  cost_map = λ t. ok [];
  history = λ t n h. ok [];
  create_entry = λ t e. none;
  delete_entry = λ t n. none;
  marshal = λ m. none;
  apply = λ t m. none;
}

abbrev pub quick_cloud : Provider small_runtime
quick_cloud = record {
  provider_name = "gke";
  node_pool_label_key = "cloud.google.com/gke-nodepool";
  create = λ t p c. ok "create-1";
  delete = λ t p. ok "delete-1";
  is_operation_done = λ t o. ok true;
}

abbrev empty_manifest : Manifest
empty_manifest = record {
  api_version = "v1";
  kind = "Job";
  name = "tune";
  namespace = "ml";
  labels = [];
  owner = none;
  spec = no_fields;
}

abbrev pub done_backend : JobBackend small_runtime
done_backend = record {
  generate_manifest = λ job. ok empty_manifest;
  backend_job_name = λ job. job.name;
  phase_of = λ t n s. ok ("Succeeded", "");
  start_time_of = λ t n s. ok 3000000000;
  end_time_of = λ t n s. ok 4000000000;
  results_of = λ t job. ok no_results;
}

abbrev pub small_reconciler : Reconciler small_runtime
small_reconciler = record {
  cluster = accepting_cluster;
  cloud = quick_cloud;
  backends = λ b. some done_backend;
  default_cpu_machine_type = "e2-standard-8";
  default_gpu_machine_type = "g2-standard-8";
  default_disk_size_gb = pos 100;
  default_calibration_nodes = pos 2;
  node_service_account = "";
}

abbrev pub small_pytorch : PytorchSpec
small_pytorch = record {
  master_replicas = one_ℤ;
  image = "trainer:1";
  command = [];
  limits = [];
  requests = [];
  env = [];
}

abbrev pub small_spec : DistributedTrainingSpec
small_spec = record {
  backend = BackendType.pytorch;
  pytorch_spec = some small_pytorch;
  spark_spec = none;
  model = none;
  dataset = none;
  hardware = record {
    hw_type = HardwareType.cpu;
    node_pool_name = "";
    machine_type = "";
    gpu_type = "";
    gpu_count = zero_ℤ;
    disk_size_gb = zero_ℤ;
  };
  topology = record { nodes = one_ℤ; processes_per_node = one_ℤ };
  optimization = record {
    mixed_precision = MixedPrecision.unset;
    lora = record {
      enabled = false;
      rank = zero_ℤ;
      alpha = zero_ℤ;
      dropout = "";
      target_modules = [];
    };
    bf16_full_eval = false;
  };
  training = none;
  output_pvc_name = "";
  objective = none;
  resume_from_checkpoint = "";
  restart_policy = "";
}

-- The job in a phase, with the finalizer.
abbrev pub job_in : Phase → DistributedTraining
job_in p = record {
  name = "tune";
  namespace = "ml";
  uid = "u-1";
  deleted = false;
  finalizers = "training.distributedtraining.io/cleanup" ∷ [];
  spec = small_spec;
  status = record no_status { phase = p };
}

abbrev pub world_in : Phase → World small_runtime
world_in p = record { job = job_in p; stored = job_in p; trace = [] }

-- The same object once its deletion is asked for.
abbrev pub deleted_in : Phase → World small_runtime
deleted_in p = record {
  job = record (job_in p) { deleted = true };
  stored = record (job_in p) { deleted = true };
  trace = [];
}

abbrev pub small_objective : ObjectiveSpec
small_objective = record { target_time = "20m"; max_cost = "4"; max_nodes = pos 8 }
