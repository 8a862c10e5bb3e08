-- ===== src/History/Hash.antt =====
-- computeConfigHash of operator/internal/controller/history.go: the text that is hashed, and the
-- hash.
pub mod Hardware
use Prim.Native.String.{len, slice}
use praktikum.Prelude.{
  String, Option, none, some, List, [], ◌∷◌, ltb, show_int, join, if◌then◌else◌,
}
use praktikum.Api.{
  BackendType, ModelSpec, DatasetSpec, TrainingSpec, SparkSpec, DistributedTraining,
  DistributedTrainingSpec,
}
use praktikum.Controller.Defaults.{effective_backend, backend_text}

abbrev model_name : Option ModelSpec → String
model_name none = ""
model_name (some m) = m.name

abbrev dataset_parts : Option DatasetSpec → List String
dataset_parts none = "" ∷ "" ∷ []
dataset_parts (some d) = d.name ∷ d.split ∷ []

abbrev training_parts : Option TrainingSpec → List String
training_parts none = "0" ∷ "0" ∷ "0" ∷ "" ∷ []
training_parts (some t) =
    show_int t.batch_size
    ∷ show_int t.grad_accumulation_steps
    ∷ show_int t.epochs
    ∷ t.validation_split
    ∷ []

abbrev spark_parts : (String → String) → Option SparkSpec → List String
spark_parts sha256_hex none = "" ∷ "" ∷ "" ∷ []
spark_parts sha256_hex (some s) =
    s.image ∷ s.main_application_file ∷ sha256_hex (join "|" s.arguments) ∷ []

abbrev append_texts : List String → List String → List String
append_texts [] ys = ys
append_texts (x ∷ xs) ys = x ∷ append_texts xs ys

hash_parts_of : (String → String) → BackendType → DistributedTrainingSpec → List String
hash_parts_of sha256_hex BackendType.pytorch spec =
    "pytorch"
    ∷ spec.hardware.machine_type
    ∷ model_name spec.model
    ∷ append_texts (dataset_parts spec.dataset) (training_parts spec.training)
hash_parts_of sha256_hex BackendType.spark spec =
    "spark" ∷ spec.hardware.machine_type ∷ spark_parts sha256_hex spec.spark_spec
hash_parts_of sha256_hex b spec = backend_text b ∷ spec.hardware.machine_type ∷ []

-- The parts that identify a "same job" configuration.
unfoldable pub hash_parts : (String → String) → DistributedTraining → List String
unfolding hash_parts_of
hash_parts sha256_hex job = hash_parts_of sha256_hex (effective_backend job.spec.backend) job.spec

-- `sha256_hex` is `%x` of sha256.Sum256; a label value has at most 63 characters.
unfoldable pub compute_config_hash : (String → String) → DistributedTraining → String
unfolding hash_parts
compute_config_hash sha256_hex job =
    let full = sha256_hex (join "|" (hash_parts sha256_hex job)) in
    if ltb 63 (len full) then slice full 0 63 else full
