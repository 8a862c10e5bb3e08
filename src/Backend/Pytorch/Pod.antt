-- ===== src/Backend/Pytorch/Pod.antt =====
-- The parts of the pod of a replica in operator/internal/backend/pytorch/pytorch.go: environment,
-- volumes, resources and node selection, and the replica template.
use praktikum.Prelude.{
  zero_ℤ, one_ℤ, eq_ℤ, ltb, String, false, ◌||◌, Option, none, some, List, [], ◌∷◌, length,
  is_empty, or_default, show_int, if◌then◌else◌,
}
use praktikum.Api.{PytorchSpec, ModelSpec, HardwareSpec, DistributedTrainingSpec}
use praktikum.System.{
  Json, text, bool, array, object, Items, no_items, item, Fields, no_fields, field, texts,
  append_items,
}
use praktikum.Controller.Defaults.{is_gpu}
use praktikum.Backend.Pytorch.Command.{has_gpu_from_spec}

-- The reference to the secret with the token of Hugging Face.
token_vars : Option ModelSpec → Items
token_vars none = no_items
token_vars (some m) = elim m.hf_token_secret [
  | none ↦ no_items
  | some secret ↦
      item
        (object (
          field "name" (text "HF_TOKEN") (
            field "valueFrom"
              (object (
                field "secretKeyRef"
                  (object (field "name" (text secret.0) (field "key" (text secret.1) no_fields)))
                  no_fields))
              no_fields)))
        no_items
]

user_vars : List (String × String) → Items
user_vars [] = no_items
user_vars ((name, value) ∷ env) =
    item (object (field "name" (text name) (field "value" (text value) no_fields))) (user_vars env)

unfoldable pub build_env_vars : PytorchSpec → DistributedTrainingSpec → Items
unfolding token_vars user_vars
build_env_vars ps spec = append_items (token_vars spec.model) (user_vars ps.env)

-- The volumes, and the mounts of the container.
unfoldable pub build_volumes : DistributedTrainingSpec → Items × Items
build_volumes spec =
    let volume = object (
      field "name" (text "dshm")
        (field "emptyDir" (object (field "medium" (text "Memory") no_fields)) no_fields)) in
    let mount =
      object (field "name" (text "dshm") (field "mountPath" (text "/dev/shm") no_fields)) in
    if is_empty spec.output_pvc_name then (item volume no_items, item mount no_items) else (
      item volume (
          item
            (object (
              field "name" (text "output") (
                field "persistentVolumeClaim"
                  (object (field "claimName" (text spec.output_pvc_name) no_fields)) no_fields)))
            no_items),
      item mount (
          item
            (object
              (field "name" (text "output") (field "mountPath" (text "/mnt/output") no_fields)))
            no_items),
    )

text_fields : List (String × String) → Fields
text_fields [] = no_fields
text_fields ((k, v) ∷ m) = field k (text v) (text_fields m)

-- if len(m) > 0 { res[name] = m }
quantities : String → List (String × String) → Fields → Fields
quantities name [] rest = rest
quantities name (q ∷ qs) rest = field name (object (text_fields (q ∷ qs))) rest

abbrev default_resources : HardwareSpec → Fields
default_resources hw =
    if is_gpu hw.hw_type
    then field "limits"
        (object (
          field "nvidia.com/gpu"
            (text (show_int (if eq_ℤ hw.gpu_count zero_ℤ then one_ℤ else hw.gpu_count))) no_fields))
        no_fields
    else no_fields

unfoldable pub build_resources : PytorchSpec → DistributedTrainingSpec → Fields
unfolding quantities text_fields
build_resources ps spec =
    if ltb 0 (length ps.limits) || ltb 0 (length ps.requests)
    then quantities "limits" ps.limits (quantities "requests" ps.requests no_fields)
    else default_resources spec.hardware

-- The toleration of the taint of a pool that the operator creates.
abbrev pub reserved_toleration : Json
reserved_toleration = object (
    field "key" (text "reserved-pool") (
      field "operator" (text "Equal")
        (field "value" (text "true") (field "effect" (text "NoSchedule") no_fields))))

abbrev pub gpu_toleration : Json
gpu_toleration = object (
    field "key" (text "nvidia.com/gpu")
      (field "operator" (text "Exists") (field "effect" (text "NoSchedule") no_fields)))

-- The node selector and the tolerations.
unfoldable pub build_node_selector : PytorchSpec → DistributedTrainingSpec → Fields × Items
unfolding has_gpu_from_spec
build_node_selector ps spec =
    let gpu = has_gpu_from_spec (some ps) spec.hardware in
    let pool = or_default spec.hardware.node_pool_name (if gpu then "gpu-pool" else "cpu-pool") in
    (
      field "cloud.google.com/gke-nodepool" (text pool) no_fields,
      item reserved_toleration (if gpu then item gpu_toleration no_items else no_items),
    )

-- What the template of a replica is built from.
pub record PodParts : Type 0 where
  pub image : String
  pub command : List String
  pub args : List String
  pub env_vars : Items
  pub volumes : Items
  pub volume_mounts : Items
  pub resources : Fields
  pub node_selector : Fields
  pub tolerations : Items

unfoldable pub replica_template : PodParts → Json
replica_template p = object (
    field "spec"
      (object (
        field "restartPolicy" (text "Never") (
          field "nodeSelector" (object p.node_selector) (
            field "tolerations" (array p.tolerations) (
              field "volumes" (array p.volumes) (
                field "containers"
                  (array (
                    item
                      (object (
                        field "name" (text "pytorch") (
                          field "image" (text p.image) (
                            field "imagePullPolicy" (text "Always") (
                              field "command" (array (texts p.command)) (
                                field "args" (array (texts p.args)) (
                                  field "env" (array p.env_vars) (
                                    field "volumeMounts" (array p.volume_mounts) (
                                      field "resources" (object p.resources) (
                                        field "securityContext"
                                          (object (
                                            field "allowPrivilegeEscalation" (bool false)
                                              no_fields))
                                          no_fields))))))))))
                      no_items))
                  no_fields))))))
      no_fields)
