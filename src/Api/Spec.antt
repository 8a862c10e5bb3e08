-- ===== src/Api/Spec.antt =====
-- The spec of a DistributedTraining: operator/api/v1/distributedtraining_types.go, lines 28 to 491.
-- An `int32` field is an integer, an optional pointer is an `Option`, a map is an association list.
use praktikum.Prelude.{ℤ, String, Bool, Option, List}

pub data BackendType : Type 0 where
  unset pytorch spark job : BackendType
  other : String → BackendType

pub data Phase : Type 0 where
  unset pending provisioning ready running collecting succeeded failed : Phase
  other : String → Phase

pub data HardwareType : Type 0 where
  unset cpu gpu : HardwareType
  other : String → HardwareType

pub data MixedPrecision : Type 0 where
  unset bf16 fp32 : MixedPrecision
  other : String → MixedPrecision

-- `limits` and `requests` of corev1.ResourceRequirements, each quantity by its text.
pub record PytorchSpec : Type 0 where
  pub master_replicas : ℤ
  pub image : String
  pub command : List String
  pub limits : List (String × String)
  pub requests : List (String × String)
  pub env : List (String × String)

-- `hf_token_secret` is the name and the key of the secret reference.
pub record ModelSpec : Type 0 where
  pub name : String
  pub hf_token_secret : Option (String × String)
  pub cache_dir : String
  pub training_script : String

pub record DatasetSpec : Type 0 where
  pub name : String
  pub split : String
  pub cache_directory : String
  pub prompt_with_input : String
  pub prompt_without_input : String

pub record HardwareSpec : Type 0 where
  pub hw_type : HardwareType
  pub node_pool_name : String
  pub machine_type : String
  pub gpu_type : String
  pub gpu_count : ℤ
  pub disk_size_gb : ℤ

pub record TopologySpec : Type 0 where
  pub nodes : ℤ
  pub processes_per_node : ℤ

pub record LoraSpec : Type 0 where
  pub enabled : Bool
  pub rank : ℤ
  pub alpha : ℤ
  pub dropout : String
  pub target_modules : List String

pub record OptimizationSpec : Type 0 where
  pub mixed_precision : MixedPrecision
  pub lora : LoraSpec
  pub bf16_full_eval : Bool

pub record TrainingSpec : Type 0 where
  pub batch_size : ℤ
  pub learning_rate : String
  pub epochs : ℤ
  pub grad_accumulation_steps : ℤ
  pub validation_split : String
  pub warmup_steps : ℤ
  pub max_steps : ℤ
  pub max_grad_norm : String
  pub logging_steps : ℤ
  pub save_total_limit : ℤ
  pub save_strategy : String
  pub eval_batch_size : ℤ
  pub ddp_backend : String
  pub ddp_find_unused_parameters : Option Bool
  pub overwrite_output_dir : Bool
  pub use_fast_tokenizer : Option Bool

pub record SparkSpec : Type 0 where
  pub app_type : String
  pub spark_version : String
  pub image : String
  pub main_application_file : String
  pub arguments : List String
  pub driver_service_account : String
  pub driver_memory : String
  pub executor_memory : String

pub record ObjectiveSpec : Type 0 where
  pub target_time : String
  pub max_cost : String
  pub max_nodes : ℤ

pub record DistributedTrainingSpec : Type 0 where
  pub backend : BackendType
  pub pytorch_spec : Option PytorchSpec
  pub spark_spec : Option SparkSpec
  pub model : Option ModelSpec
  pub dataset : Option DatasetSpec
  pub hardware : HardwareSpec
  pub topology : TopologySpec
  pub optimization : OptimizationSpec
  pub training : Option TrainingSpec
  pub output_pvc_name : String
  pub objective : Option ObjectiveSpec
  pub resume_from_checkpoint : String
  pub restart_policy : String
