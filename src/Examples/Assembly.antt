-- ===== src/Examples/Assembly.antt =====
-- The program put together on the samples: sizes, the reconciler of `main`, an entry of the
-- history.
use praktikum.Prelude.{
  pos, one_ℤ, none, some, List, [], ◌∷◌, ◌≡◌, refl, arith, lookup, show_int, Option,
}
use praktikum.Runtime.{Error}
use praktikum.Api.{HardwareType, Phase, DistributedTraining, JobResults, no_status, no_results}
use praktikum.System.{Provider, Reconciler, ◌>>=◌}
use praktikum.Backend.Pytorch.Manifest as PytorchManifest
use praktikum.Backend.Pytorch.Manifest.{replica_split}
use praktikum.Backend.Pytorch.Status as PytorchStatus
use praktikum.Backend.Pytorch.Results as PytorchResults
use praktikum.Cloud.Gke.{gke_provider, create_node_pool, delete_node_pool, is_operation_done}
use praktikum.Controller.Costs.{get_machine_cost}
use praktikum.Controller.Collecting.{reconcile_collecting}
use praktikum.Controller.Defaults.{effective_machine_type, node_pool_config, get_backend}
use praktikum.Controller.Pending.{reconcile_pending}
use praktikum.Controller.Provisioning.{reconcile_provisioning, count_ready}
use praktikum.Controller.Ready.{reconcile_ready, apply_job, with_pool_name}
use praktikum.Controller.Reconcile.{reconcile, reconcile_job, handle_phase}
use praktikum.Controller.Running.{reconcile_running}
use praktikum.Controller.Runs.{passes}
use praktikum.Controller.Transitions.{set_phase}
use praktikum.Controller.Validate.{validate_spec}
use praktikum.History.Hash.{compute_config_hash}
use praktikum.History.Hash.Hardware.{on_hardware, compute_config_hash-hardware}
use praktikum.History.Throughput.{extract_throughput, node_count_for_history}
use praktikum.History.Write.{write_history_entry, history_entry, entry_spec}
use praktikum.History.Write.Usable.{IsUsable, history_entry-IsUsable}
use praktikum.Solver.Branches.Bounds.{IsSolved}
use praktikum.Solver.Formulas.{round_second}
use praktikum.Startup.{
  Flags, default_flags, backends, new_reconciler, new_distributed_training_reconciler,
}
use praktikum.Solver.Run.{calibration_topology, run_solver, load_history}
use praktikum.Startup.Sizes.{IsFilled, with_topology, run_solver-IsFilled}
use praktikum.Examples.Samples.{
  small_runtime, small_reconciler, small_pytorch, small_objective, job_in, world_in,
  accepting_cluster,
}
use praktikum.Examples.Services.{small_reads, done_client}

-- A PyTorch job whose topology the solver has answered with.
abbrev solved_job : DistributedTraining
solved_job = record (job_in Phase.provisioning) {
  spec = record (job_in Phase.provisioning).spec { objective = some small_objective };
  status = record no_status {
    phase = Phase.provisioning;
    resolved_topology = record {
      nodes = pos 4;
      master_replicas = one_ℤ;
      worker_replicas = pos 3;
      estimated_time = "";
      estimated_cost = "";
    };
  };
}

solved_job-IsSolved : IsSolved solved_job 8 solved_job.status.resolved_topology
solved_job-IsSolved = record {
  nodes = (4, refl, omega arith, omega arith);
  replicas = λ e. (refl, refl);
}

run_solver-IsFilled_example :
    IsFilled small_reconciler small_pytorch
      (with_topology (calibration_topology small_reconciler) solved_job)
unfolding run_solver load_history ◌>>=◌
run_solver-IsFilled_example =
    run_solver-IsFilled small_reconciler solved_job small_objective small_pytorch refl 8 refl
      (omega arith) (omega arith) refl 2 refl (omega arith) (omega arith)
      (world_in Phase.provisioning) (calibration_topology small_reconciler) refl

abbrev four_results : JobResults
four_results = record no_results { training_time = "20m"; metrics = ("samplesPerSecond", "4") ∷ [] }

history_entry-IsUsable_example :
    IsUsable small_reconciler
      (job_in Phase.collecting)
      four_results
      (entry_spec small_reconciler (job_in Phase.collecting) four_results 1200 4)
unfolding history_entry extract_throughput node_count_for_history lookup
history_entry-IsUsable_example =
    history_entry-IsUsable small_reconciler (job_in Phase.collecting) four_results
      (entry_spec small_reconciler (job_in Phase.collecting) four_results 1200 4) refl

compute_config_hash-hardware_example :
    (effective_machine_type small_reconciler (on_hardware HardwareType.cpu (job_in Phase.ready))
      ≡ small_reconciler.default_cpu_machine_type)
    × (effective_machine_type small_reconciler (on_hardware HardwareType.gpu (job_in Phase.ready))
        ≡ small_reconciler.default_gpu_machine_type)
    × (compute_config_hash small_runtime.sha256_hex
          (on_hardware HardwareType.cpu (job_in Phase.ready))
        ≡ compute_config_hash small_runtime.sha256_hex
            (on_hardware HardwareType.gpu (job_in Phase.ready)))
compute_config_hash-hardware_example =
    compute_config_hash-hardware small_reconciler (job_in Phase.ready) refl

abbrev gcp_flags : Flags
gcp_flags = record default_flags { gcp_project = "p" }

abbrev gcp_provider : Provider small_runtime
gcp_provider =
    gke_provider (record { project = "p"; location = "us-east1"; cluster = "" }) done_client

abbrev started : Reconciler small_runtime
started = new_reconciler accepting_cluster small_reads gcp_flags gcp_provider

abbrev six_passes : List (Reconciler small_runtime × Option Error)
six_passes =
    (started, none)
    ∷ (started, none)
    ∷ (started, none)
    ∷ (started, none)
    ∷ (started, none)
    ∷ (started, none)
    ∷ []

-- The program put together takes a new job to Succeeded.
six_passes_end : (passes six_passes (world_in Phase.unset)).stored.status.phase ≡ Phase.succeeded
unfolding passes reconcile reconcile_job ◌>>=◌ handle_phase reconcile_pending validate_spec
    set_phase reconcile_provisioning count_ready node_pool_config reconcile_ready get_backend
    apply_job reconcile_running reconcile_collecting get_machine_cost lookup show_int round_second
    write_history_entry backends with_pool_name PytorchManifest.generate_manifest
    PytorchStatus.get_phase PytorchResults.collect_results create_node_pool delete_node_pool
    is_operation_done PytorchManifest.job_name PytorchStatus.parse_pytorch_job_phase
    PytorchStatus.status_time new_reconciler new_distributed_training_reconciler
six_passes_end = refl
