-- ===== src/Controller/Defaults/Gpu.antt =====
-- GPUs by the controller, which chooses the machines, and by the PyTorch backend, which sets up the
-- pods.
use mathlib.Core.Path.{subst}
use praktikum.Prelude.{
  Bool, true, false, ◌||◌, Option, some, ◌≡◌, refl, sym, ap, ◌∙◌, ◌↔◌, has_key, if◌then◌else◌,
}
use praktikum.Api.{BackendType, HardwareType, PytorchSpec, HardwareSpec, DistributedTraining}
use praktikum.Backend.Pytorch.Command.{has_gpu, has_gpu_from_spec}
use praktikum.Controller.Defaults.{
  is_gpu, is_pytorch, effective_backend, pytorch_spec_of, infer_hardware_type,
  resolve_hardware_type, hardware_type,
}

-- The type is `gpu` or left open, or no GPU is among the limits.
abbrev pub IsConsistent : HardwareType → Bool → Type 0
IsConsistent HardwareType.gpu limit = Unit {0}
IsConsistent HardwareType.unset limit = Unit {0}
IsConsistent _ limit = limit ≡ false

-- The two answers, for a type and whether a GPU is among the limits.
abbrev by_limits : HardwareType → Bool → HardwareType
by_limits HardwareType.unset limit = if limit then HardwareType.gpu else HardwareType.cpu
by_limits t limit = t

agreement :
    (t : HardwareType) (limit : Bool)
    → ((is_gpu t || limit) ≡ is_gpu (by_limits t limit)) ↔ IsConsistent t limit
agreement HardwareType.gpu limit = (λ e. tt, λ u. refl)
agreement HardwareType.unset true = (λ e. tt, λ u. refl)
agreement HardwareType.unset false = (λ e. tt, λ u. refl)
agreement HardwareType.cpu limit = (λ e. e, λ u. u)
agreement (HardwareType.other s) limit = (λ e. e, λ u. u)

resolved :
    (t : HardwareType) (ps : PytorchSpec) (hw : HardwareSpec)
    → hw.hw_type ≡ t
    → resolve_hardware_type t (some ps) hw ≡ by_limits t (has_key "nvidia.com/gpu" ps.limits)
unfolding resolve_hardware_type infer_hardware_type
resolved HardwareType.unset ps hw e = rw e refl
resolved HardwareType.gpu ps hw e = refl
resolved HardwareType.cpu ps hw e = refl
resolved (HardwareType.other s) ps hw e = refl

section_of :
    (b : BackendType) (o : Option PytorchSpec) (ps : PytorchSpec)
    → is_pytorch (effective_backend b) ≡ true
    → o ≡ some ps
    → pytorch_spec_of b o ≡ some ps
section_of b o ps e f = rw e f

-- Of a job with the PyTorch backend and its section: the controller takes its hardware for GPU
-- hardware just as the backend does, exactly if the hardware type of the spec is `gpu` or left
-- open, or no GPU is among the limits.
pub has_gpu_from_spec-agrees :
    (job : DistributedTraining) (ps : PytorchSpec)
    → is_pytorch (effective_backend job.spec.backend) ≡ true
    → job.spec.pytorch_spec ≡ some ps
    → (has_gpu_from_spec (some ps) job.spec.hardware ≡ is_gpu (hardware_type job))
      ↔ IsConsistent job.spec.hardware.hw_type (has_gpu (some ps))
unfolding has_gpu_from_spec has_gpu hardware_type
has_gpu_from_spec-agrees job ps b p =
    subst
      (λ t.
        (has_gpu_from_spec (some ps) job.spec.hardware ≡ is_gpu t)
        ↔ IsConsistent job.spec.hardware.hw_type (has_gpu (some ps)))
      (sym (
        ap (λ o. resolve_hardware_type job.spec.hardware.hw_type o job.spec.hardware)
          (section_of job.spec.backend job.spec.pytorch_spec ps b p)
        ∙ resolved job.spec.hardware.hw_type ps job.spec.hardware refl))
      (agreement job.spec.hardware.hw_type (has_key "nvidia.com/gpu" ps.limits))
