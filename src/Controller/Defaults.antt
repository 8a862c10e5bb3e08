-- ===== src/Controller/Defaults.antt =====
-- What the controller derives from a spec and from its own flags: the `Helpers shared across phase
-- handlers` of operator/internal/controller/distributedtraining_controller.go, and getBackend.
pub mod Machines
pub mod Registered
pub mod Gpu
use praktikum.Prelude.{
  zero_ℤ, one_ℤ, ltb_ℤ, eq_ℤ, String, Bool, true, false, ◌&&◌, not, Option, none, some, [], ◌∷◌,
  ltb, is_empty, has_key, if◌then◌else◌, ◌<>◌,
}
use Prim.Native.String.{len, slice}
use praktikum.Runtime.{Runtime, Result, ok, err, errorf}
use praktikum.Api.{BackendType, HardwareType, Phase, PytorchSpec, HardwareSpec, DistributedTraining}
use praktikum.System.{Reconciler, JobBackend, NodePoolConfig}

abbrev pub backend_text : BackendType → String
backend_text BackendType.unset = ""
backend_text BackendType.pytorch = "pytorch"
backend_text BackendType.spark = "spark"
backend_text BackendType.job = "job"
backend_text (BackendType.other s) = s

abbrev pub phase_text : Phase → String
phase_text Phase.unset = ""
phase_text Phase.pending = "Pending"
phase_text Phase.provisioning = "Provisioning"
phase_text Phase.ready = "Ready"
phase_text Phase.running = "Running"
phase_text Phase.collecting = "Collecting"
phase_text Phase.succeeded = "Succeeded"
phase_text Phase.failed = "Failed"
phase_text (Phase.other s) = s

-- backend := job.Spec.Backend; if backend == "" { backend = BackendPyTorch }
abbrev pub effective_backend : BackendType → BackendType
effective_backend BackendType.unset = BackendType.pytorch
effective_backend b = b

abbrev pub is_pytorch : BackendType → Bool
is_pytorch BackendType.pytorch = true
is_pytorch _ = false

abbrev pub is_spark : BackendType → Bool
is_spark BackendType.spark = true
is_spark _ = false

abbrev pub is_job : BackendType → Bool
is_job BackendType.job = true
is_job _ = false

abbrev pub is_gpu : HardwareType → Bool
is_gpu HardwareType.gpu = true
is_gpu _ = false

-- The pytorchSpec that hardware is inferred from:
-- (Backend == BackendPyTorch || Backend == "") && PytorchSpec != nil
abbrev pytorch_spec_of : BackendType → Option PytorchSpec → Option PytorchSpec
pytorch_spec_of b ps = if is_pytorch (effective_backend b) then ps else none

infer_hardware_type : PytorchSpec → HardwareSpec → HardwareType
infer_hardware_type ps hw =
    if is_gpu hw.hw_type
    then HardwareType.gpu
    else if has_key "nvidia.com/gpu" ps.limits
    then HardwareType.gpu
    else HardwareType.cpu

-- if hwType == "" { hwType = inferHardwareType(ps, hw) }
resolve_hardware_type : HardwareType → Option PytorchSpec → HardwareSpec → HardwareType
unfolding infer_hardware_type
resolve_hardware_type HardwareType.unset (some ps) hw = infer_hardware_type ps hw
resolve_hardware_type t _ _ = t

-- The hardware type that both nodePoolConfig and effectiveMachineType arrive at.
unfoldable pub hardware_type : DistributedTraining → HardwareType
unfolding resolve_hardware_type
hardware_type job =
    resolve_hardware_type job.spec.hardware.hw_type
      (pytorch_spec_of job.spec.backend job.spec.pytorch_spec) job.spec.hardware

unfoldable pub node_pool_name : DistributedTraining → String
node_pool_name job =
    let name = "dj-" <> job.name in
    if not (is_empty job.spec.hardware.node_pool_name)
    then job.spec.hardware.node_pool_name
    else if ltb 40 (len name)
    then slice name 0 40
    else name

module _ {rt : Runtime} where
  unfoldable pub get_backend : Reconciler rt → DistributedTraining → Result (JobBackend rt)
  get_backend r job =
      let key = effective_backend job.spec.backend in
      elim (r.backends key) [
        | some b ↦ ok b
        | none ↦ err (errorf ("no backend registered for " <> rt.quote (backend_text key)))
      ]

  unfoldable pub effective_machine_type : Reconciler rt → DistributedTraining → String
  unfolding hardware_type
  effective_machine_type r job =
      if not (is_empty job.spec.hardware.machine_type)
      then job.spec.hardware.machine_type
      else if is_gpu (hardware_type job)
      then r.default_gpu_machine_type
      else r.default_cpu_machine_type

  unfoldable pub node_pool_config : Reconciler rt → DistributedTraining → NodePoolConfig
  unfolding hardware_type
  node_pool_config r job =
      let hw = job.spec.hardware in
      let with_gpu = is_gpu (hardware_type job) && not (is_empty hw.gpu_type) in
      record {
        machine_type =
            if is_empty hw.machine_type
            then (if is_gpu (hardware_type job)
                then r.default_gpu_machine_type
                else r.default_cpu_machine_type)
            else hw.machine_type;
        node_count = if eq_ℤ job.spec.topology.nodes zero_ℤ then one_ℤ else job.spec.topology.nodes;
        accelerator_type = if with_gpu then hw.gpu_type else "";
        accelerator_count = if with_gpu then hw.gpu_count else zero_ℤ;
        labels =
            ("managed-by", "distributed-training-operator")
            ∷ ("job-name", job.name)
            ∷ ("namespace", job.namespace)
            ∷ [];
        disk_size_gb =
            if ltb_ℤ zero_ℤ hw.disk_size_gb then hw.disk_size_gb else r.default_disk_size_gb;
        node_service_account = r.node_service_account;
      }
