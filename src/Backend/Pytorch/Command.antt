-- ===== src/Backend/Pytorch/Command.antt =====
-- buildCommandAndArgs and buildTorchrunArgs of operator/internal/backend/pytorch/pytorch.go, and
-- the test for GPU hardware.
use praktikum.Prelude.{
  ℤ, zero_ℤ, one_ℤ, eq_ℤ, ltb_ℤ, String, Bool, false, not, ◌||◌, Option, none, some, List, [], ◌∷◌,
  ◌++◌, map, get_or, is_empty, or_default, has_key, show_int, if◌then◌else◌, ◌<>◌,
}
use praktikum.Api.{
  PytorchSpec, ModelSpec, DatasetSpec, TrainingSpec, LoraSpec, MixedPrecision, HardwareSpec,
  DistributedTrainingSpec,
}
use praktikum.Controller.Defaults.{is_gpu}

-- if b { args = append(args, ...) }
abbrev pub given : Bool → List String → List String
given b args = if b then args else []

-- if s != "" { args = append(args, flag + s) }
abbrev text_flag : String → String → List String
text_flag flag s = given (not (is_empty s)) ((flag <> s) ∷ [])

-- if n > 0 { args = append(args, flag + n) }
abbrev count_flag : String → ℤ → List String
count_flag flag n = given (ltb_ℤ zero_ℤ n) ((flag <> show_int n) ∷ [])

abbrev pub no_training : TrainingSpec
no_training = record {
  batch_size = zero_ℤ;
  learning_rate = "";
  epochs = zero_ℤ;
  grad_accumulation_steps = zero_ℤ;
  validation_split = "";
  warmup_steps = zero_ℤ;
  max_steps = zero_ℤ;
  max_grad_norm = "";
  logging_steps = zero_ℤ;
  save_total_limit = zero_ℤ;
  save_strategy = "";
  eval_batch_size = zero_ℤ;
  ddp_backend = "";
  ddp_find_unused_parameters = none;
  overwrite_output_dir = false;
  use_fast_tokenizer = none;
}

unfoldable pub has_gpu : Option PytorchSpec → Bool
has_gpu none = false
has_gpu (some ps) = has_key "nvidia.com/gpu" ps.limits

unfoldable pub has_gpu_from_spec : Option PytorchSpec → HardwareSpec → Bool
unfolding has_gpu
has_gpu_from_spec ps hw = is_gpu hw.hw_type || has_gpu ps

abbrev default_script : String
default_script = "/workspace/finetune.py"

abbrev script_of : Option ModelSpec → String
script_of none = default_script
script_of (some m) = or_default m.training_script default_script

abbrev default_cache : String
default_cache = "/mnt/output/hf-cache"

abbrev cache_base : Option ModelSpec → String
cache_base none = default_cache
cache_base (some m) = or_default m.cache_dir default_cache

-- The five arguments of torchrun itself, and the script.
launcher_args : ℤ → Option ModelSpec → List String
launcher_args processes model =
    ("--nproc_per_node=" <> show_int (if ltb_ℤ zero_ℤ processes then processes else one_ℤ))
    ∷ "--nnodes=$(WORLD_SIZE)"
    ∷ "--node_rank=$(RANK)"
    ∷ "--master_addr=$(MASTER_ADDR)"
    ∷ "--master_port=23456"
    ∷ script_of model
    ∷ []

model_args : Option ModelSpec → List String
model_args none = []
model_args (some m) = text_flag "--model_name_or_path=" m.name

dataset_args : Option ModelSpec → Option DatasetSpec → List String
dataset_args model none = []
dataset_args model (some d) = given (not (is_empty d.name)) (
    ("--dataset_name=" <> d.name)
    ∷ (text_flag "--dataset_split=" d.split
        ++ (("--dataset_cache_directory="
              <> or_default d.cache_directory (cache_base model <> "/datasets"))
            ∷ (text_flag "--prompt_with_input=" d.prompt_with_input
                ++ text_flag "--prompt_without_input=" d.prompt_without_input))))

training_args : TrainingSpec → List String
training_args t =
    count_flag "--per_device_train_batch_size=" t.batch_size
    ++ (count_flag "--per_device_eval_batch_size="
          (if eq_ℤ t.eval_batch_size zero_ℤ then t.batch_size else t.eval_batch_size)
        ++ (text_flag "--learning_rate=" t.learning_rate
            ++ (count_flag "--num_train_epochs=" t.epochs
                ++ (("--max_steps=" <> show_int t.max_steps)
                    ∷ (count_flag "--gradient_accumulation_steps=" t.grad_accumulation_steps
                        ++ (text_flag "--max_grad_norm=" t.max_grad_norm
                            ++ (text_flag "--validation_split_percentage=" t.validation_split
                                ++ (count_flag "--warmup_steps=" t.warmup_steps
                                    ++ (count_flag "--logging_steps=" t.logging_steps
                                        ++ (count_flag "--save_total_limit=" t.save_total_limit
                                            ++ (text_flag "--save_strategy=" t.save_strategy
                                                ++ given t.overwrite_output_dir
                                                    ("--overwrite_output_dir=True" ∷ []))))))))))))

-- The `switch spec.Optimization.MixedPrecision`.
precision_args : MixedPrecision → Bool → List String
precision_args MixedPrecision.bf16 full_eval =
    "--bf16=True" ∷ given full_eval ("--bf16_full_eval=True" ∷ [])
precision_args MixedPrecision.fp32 full_eval = "--bf16=False" ∷ "--fp16=False" ∷ []
precision_args _ full_eval = []

lora_args : LoraSpec → List String
lora_args lora = given lora.enabled (
    "--use_lora=True"
    ∷ ("--lora_rank=" <> show_int lora.rank)
    ∷ ("--lora_alpha=" <> show_int lora.alpha)
    ∷ ("--lora_dropout=" <> lora.dropout)
    ∷ map (λ m. "--lora_target_modules=" <> m) lora.target_modules)

-- --no_cuda and --ddp_backend: an explicit backend, or nccl with a GPU and gloo without.
device_args : Bool → String → List String
device_args gpu ddp =
    (if gpu then "--no_cuda=False" else "--no_cuda=True")
    ∷ ("--ddp_backend=" <> or_default ddp (if gpu then "nccl" else "gloo"))
    ∷ []

bool_flag : String → Option Bool → List String
bool_flag flag none = []
bool_flag flag (some b) = (flag <> (if b then "True" else "False")) ∷ []

unfoldable pub build_torchrun_args : Option PytorchSpec → DistributedTrainingSpec → List String
unfolding launcher_args model_args dataset_args training_args precision_args lora_args device_args
    bool_flag has_gpu_from_spec
build_torchrun_args ps spec =
    let t = get_or spec.training no_training in
    launcher_args spec.topology.processes_per_node spec.model
    ++ (model_args spec.model
        ++ (dataset_args spec.model spec.dataset
            ++ ("--output_dir=/mnt/output/checkpoints"
                ∷ (training_args t
                    ++ ("--do_train=True"
                        ∷ "--do_eval=True"
                        ∷ (precision_args spec.optimization.mixed_precision
                              spec.optimization.bf16_full_eval
                            ++ (lora_args spec.optimization.lora
                                ++ (device_args (has_gpu_from_spec ps spec.hardware) t.ddp_backend
                                    ++ (bool_flag "--ddp_find_unused_parameters="
                                          t.ddp_find_unused_parameters
                                        ++ (bool_flag "--use_fast_tokenizer=" t.use_fast_tokenizer
                                            ++ text_flag "--resume_from_checkpoint="
                                                spec.resume_from_checkpoint))))))))))

-- The command and its arguments: those of the spec, or torchrun's.
command_from : PytorchSpec → DistributedTrainingSpec → List String → List String × List String
unfolding build_torchrun_args
command_from ps spec [] = ("torchrun" ∷ [], build_torchrun_args (some ps) spec)
command_from ps spec (c ∷ args) = (c ∷ [], args)

unfoldable pub build_command_and_args :
    PytorchSpec → DistributedTrainingSpec → List String × List String
unfolding command_from
build_command_and_args ps spec = command_from ps spec ps.command
