-- ===== src/Backend/Pytorch/Manifest.antt =====
-- JobName, GenerateManifest and buildReplicaSpecs of operator/internal/backend/pytorch/pytorch.go.
pub mod Describes
pub mod Replicas
use praktikum.Prelude.{
  ℤ, zero_ℤ, one_ℤ, eq_ℤ, ltb_ℤ, ◌-ℤ◌, String, Option, none, some, [], ◌∷◌, if◌then◌else◌, ◌<>◌,
}
use praktikum.Runtime.{Result, ok, err, errorf}
use praktikum.Api.{PytorchSpec, ObjectiveSpec, DistributedTraining}
use praktikum.System.{Manifest, Json, text, int, object, Fields, no_fields, field}
use praktikum.Backend.Pytorch.Command.{build_command_and_args}
use praktikum.Backend.Pytorch.Pod.{
  build_env_vars, build_volumes, build_resources, build_node_selector, PodParts, replica_template,
}

unfoldable pub job_name : DistributedTraining → String
job_name job = "pj-" <> job.name

-- The numbers of masters and of workers, as `int64`: no sum of two `int32` numbers overflows there.
split_of : Option ObjectiveSpec → PytorchSpec → DistributedTraining → ℤ × ℤ
split_of (some _) ps job =
    (job.status.resolved_topology.master_replicas, job.status.resolved_topology.worker_replicas)
split_of none ps job =
    let master = if eq_ℤ ps.master_replicas zero_ℤ then one_ℤ else ps.master_replicas in
    (
      master,
      if ltb_ℤ one_ℤ job.spec.topology.nodes then job.spec.topology.nodes -ℤ master else zero_ℤ,
    )

unfoldable pub replica_split : PytorchSpec → DistributedTraining → ℤ × ℤ
unfolding split_of
replica_split ps job = split_of job.spec.objective ps job

replica_spec : ℤ → PodParts → Json
unfolding replica_template
replica_spec replicas parts = object (
    field "replicas" (int replicas) (
      field "restartPolicy" (text "OnFailure")
        (field "template" (replica_template parts) no_fields)))

unfoldable pub build_replica_specs : ℤ → ℤ → PodParts → Fields
unfolding replica_spec
build_replica_specs masters workers parts = field "Master" (replica_spec masters parts) (
    if ltb_ℤ zero_ℤ workers
    then field "Worker" (replica_spec workers parts) no_fields
    else no_fields)

unfoldable pub pod_parts : PytorchSpec → DistributedTraining → PodParts
unfolding build_command_and_args build_env_vars build_volumes build_resources build_node_selector
pod_parts ps job =
    let command = build_command_and_args ps job.spec in
    let volumes = build_volumes job.spec in
    let selector = build_node_selector ps job.spec in
    record {
      image = ps.image;
      command = command.0;
      args = command.1;
      env_vars = build_env_vars ps job.spec;
      volumes = volumes.0;
      volume_mounts = volumes.1;
      resources = build_resources ps job.spec;
      node_selector = selector.0;
      tolerations = selector.1;
    }

manifest_from : Option PytorchSpec → DistributedTraining → Result Manifest
unfolding replica_split build_replica_specs pod_parts
manifest_from none job = err (errorf "pytorchSpec is required for pytorch backend")
manifest_from (some ps) job =
    let split = replica_split ps job in
    ok (record {
      api_version = "kubeflow.org/v1";
      kind = "PyTorchJob";
      name = job_name job;
      namespace = job.namespace;
      labels = ("app", job_name job) ∷ ("training.distributedtraining.io/job", job.name) ∷ [];
      owner = none;
      spec =
          field "pytorchReplicaSpecs"
            (object (build_replica_specs split.0 split.1 (pod_parts ps job))) no_fields;
    })

unfoldable pub generate_manifest : DistributedTraining → Result Manifest
unfolding manifest_from
generate_manifest job = manifest_from job.spec.pytorch_spec job
