-- ===== src/Examples/Backends.antt =====
-- Concrete instances of what is proved of the backends, the provider and their assembly.
use praktikum.Prelude.{pos, ◌+ℤ◌, true, none, some, [], ◌≡◌, refl, ◌↔◌, ◌⊎◌, inl, arith}
use praktikum.Runtime.{ok}
use praktikum.Api.{BackendType, Phase}
use praktikum.System.{World}
use praktikum.Backend.Contract.{IsBackend}
use praktikum.Backend.Collect.{from_pvc_file, reader_name, reader_pod}
use praktikum.Backend.Collect.Cleanup.{AsksToDelete, Refused, from_pvc_file-AsksToDelete}
use praktikum.Backend.Pytorch.Command.{has_gpu, has_gpu_from_spec}
use praktikum.Backend.Pytorch.Manifest.{replica_split}
use praktikum.Backend.Pytorch.Manifest.Replicas.{replica_split-explicit}
use praktikum.Backend.Pytorch.Manifest as PytorchManifest
use praktikum.Backend.Pytorch.Status.{phase_of_conditions}
use praktikum.Backend.Pytorch.Status.Phases.{AllUndecided, IsFinal, phase_of_conditions-exact}
use praktikum.Backend.Spark.Manifest as SparkManifest
use praktikum.Cloud.Gke.{Operation, operation_name, is_operation_done}
use praktikum.Cloud.Gke.Operations.{HasSucceeded, is_operation_done-exact}
use praktikum.Controller.Defaults.{
  hardware_type, is_gpu, node_pool_config, node_pool_name, get_backend,
}
use praktikum.Controller.Defaults.Gpu.{IsConsistent, has_gpu_from_spec-agrees}
use praktikum.Controller.Ready.{with_pool_name}
use praktikum.Controller.Validate.{validate_spec}
use praktikum.Solver.Search.{min_loop, max_loop}
use praktikum.Solver.Search.Terminates.{MinRuns, MaxRuns, searches-terminate}
use praktikum.Startup.{backends, pytorch_backend}
use praktikum.Startup.Accepts.{Generates, validate_spec-Generates}
use praktikum.Startup.Contract.{backends-IsBackend}
use praktikum.Startup.Placement.{Places, pytorch_pods, spark_pods, pods-Admits}
use praktikum.Examples.Samples.{small_runtime, small_reconciler, small_pytorch, job_in}
use praktikum.Examples.Services.{two_conditions, small_reads, small_cluster, done_client, assembled}

backends-IsBackend_example : IsBackend (pytorch_backend small_reads)
unfolding backends
backends-IsBackend_example =
    backends-IsBackend small_reads BackendType.pytorch (pytorch_backend small_reads) refl

validate_spec-Generates_example :
    (b : _) × (get_backend (assembled done_client) (job_in Phase.ready) ≡ ok b)
    × Generates small_reads (job_in Phase.ready) b
unfolding validate_spec
validate_spec-Generates_example =
    validate_spec-Generates small_reads (assembled done_client) (λ t. refl) (job_in Phase.ready)
      refl refl

abbrev job_world : World small_runtime
job_world =
    let job = record (job_in Phase.ready) {
      spec = record (job_in Phase.ready).spec { backend = BackendType.job };
    } in
    record { job = job; stored = job; trace = [] }

replica_split-explicit_example :
    (replica_split small_pytorch (job_in Phase.ready)).0
      +ℤ (replica_split small_pytorch (job_in Phase.ready)).1
    ≡ (node_pool_config small_reconciler (job_in Phase.ready)).node_count
replica_split-explicit_example =
    replica_split-explicit small_reconciler (job_in Phase.ready) small_pytorch 1 1 refl refl refl
      (inl (omega arith))

pods-Admits_example :
    Places
      (node_pool_name (job_in Phase.ready))
      (node_pool_config small_reconciler (job_in Phase.ready))
      pytorch_pods
      (PytorchManifest.generate_manifest (with_pool_name (job_in Phase.ready)))
    × Places
        (node_pool_name (job_in Phase.ready))
        (node_pool_config small_reconciler (job_in Phase.ready))
        spark_pods
        (SparkManifest.generate_manifest (with_pool_name (job_in Phase.ready)))
pods-Admits_example =
    pods-Admits (job_in Phase.ready) (node_pool_config small_reconciler (job_in Phase.ready))

from_pvc_file-AsksToDelete_example :
    ((small_reads.create_reader [] (reader_pod (reader_name small_reads []) "ml" "out") ≡ none)
      × AsksToDelete
          (reader_name small_reads [])
          (from_pvc_file small_reads [] "ml" "out" "r.json").0)
    ⊎ Refused (reader_name small_reads []) (from_pvc_file small_reads [] "ml" "out" "r.json")
from_pvc_file-AsksToDelete_example = from_pvc_file-AsksToDelete small_reads [] "ml" "out" "r.json"

is_operation_done-exact_example :
    (is_operation_done small_cluster done_client [] "operation-1" ≡ ok true) ↔ (
      (op : Operation) × (done_client.get_operation [] (operation_name small_cluster "operation-1")
        ≡ ok op)
      × HasSucceeded op)
is_operation_done-exact_example = is_operation_done-exact small_cluster done_client [] "operation-1"

-- A job whose node pool is being created, since the time 1.
abbrev waiting : World small_runtime
waiting =
    let job = record (job_in Phase.provisioning) {
      status = record (job_in Phase.provisioning).status {
        gke_operation_id = "operation-1";
        provisioning_start_time = some 1;
      };
    } in
    record { job = job; stored = job; trace = [] }

has_gpu_from_spec-agrees_example :
    (has_gpu_from_spec (some small_pytorch) (job_in Phase.ready).spec.hardware
      ≡ is_gpu (hardware_type (job_in Phase.ready)))
    ↔ IsConsistent (job_in Phase.ready).spec.hardware.hw_type (has_gpu (some small_pytorch))
has_gpu_from_spec-agrees_example =
    has_gpu_from_spec-agrees (job_in Phase.ready) small_pytorch refl refl

searches-terminate_example :
    MinRuns (λ n. true) (pos 2) (pos 9) (min_loop (λ n. true) 32 (pos 2) (pos 9))
    × MaxRuns (λ n. true) (pos 2) (pos 9) (max_loop (λ n. true) 32 (pos 2) (pos 9))
searches-terminate_example = searches-terminate (λ n. true) 2 9 (omega arith) (omega arith)

phase_of_conditions-exact_example :
    (((phase_of_conditions small_reads.print_other two_conditions).0 ≡ "Running")
      ↔ AllUndecided two_conditions)
    × (AllUndecided two_conditions
        ⊎ IsFinal (phase_of_conditions small_reads.print_other two_conditions).0)
phase_of_conditions-exact_example = phase_of_conditions-exact small_reads.print_other two_conditions
