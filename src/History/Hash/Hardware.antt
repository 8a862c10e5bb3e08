-- ===== src/History/Hash/Hardware.antt =====
-- The configuration hash does not see the hardware type.
use praktikum.Prelude.{String, true, ◌≡◌, refl, ap, is_empty, join, ltb, if◌then◌else◌}
use Prim.Native.String.{len, slice}
use praktikum.Runtime.{Runtime}
use praktikum.Api.{BackendType, HardwareType, DistributedTraining}
use praktikum.System.{Reconciler}
use praktikum.Controller.Defaults.{effective_backend, effective_machine_type, hardware_type}
use praktikum.History.Hash.{hash_parts_of, hash_parts, compute_config_hash}

abbrev pub on_hardware : HardwareType → DistributedTraining → DistributedTraining
on_hardware t job = record job {
  spec = record job.spec { hardware = record job.spec.hardware { hw_type = t } };
}

parts_same :
    (sha : String → String) (b : BackendType) (job : DistributedTraining)
    → hash_parts_of sha b (on_hardware HardwareType.cpu job).spec
      ≡ hash_parts_of sha b (on_hardware HardwareType.gpu job).spec
unfolding hash_parts_of
parts_same sha BackendType.pytorch job = refl
parts_same sha BackendType.spark job = refl
parts_same sha BackendType.job job = refl
parts_same sha BackendType.unset job = refl
parts_same sha (BackendType.other s) job = refl

module _ {rt : Runtime} (r : Reconciler rt) (job : DistributedTraining) where
  -- Of a job without a machine type, the variants for CPUs and for GPUs run on the two default
  -- machine types, but their histories have the same configuration hash.
  pub compute_config_hash-hardware :
      is_empty job.spec.hardware.machine_type ≡ true
      → (effective_machine_type r (on_hardware HardwareType.cpu job) ≡ r.default_cpu_machine_type)
        × (effective_machine_type r (on_hardware HardwareType.gpu job) ≡ r.default_gpu_machine_type)
        × (compute_config_hash rt.sha256_hex (on_hardware HardwareType.cpu job)
            ≡ compute_config_hash rt.sha256_hex (on_hardware HardwareType.gpu job))
  unfolding effective_machine_type hardware_type compute_config_hash hash_parts
  compute_config_hash-hardware e = (
    rw e refl,
    rw e refl,
    ap
        (λ parts.
          let full = rt.sha256_hex (join "|" parts) in
          if ltb 63 (len full) then slice full 0 63 else full)
        (parts_same rt.sha256_hex (effective_backend job.spec.backend) job),
  )
