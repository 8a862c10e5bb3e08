-- ===== src/Backend/Spark/Manifest.antt =====
-- JobName, GenerateManifest and its helpers in operator/internal/backend/spark/spark.go.
pub mod Describes
use praktikum.Prelude.{
  ℤ, zero_ℤ, one_ℤ, eq_ℤ, String, Option, none, some, List, [], ◌∷◌, is_empty, or_default,
  if◌then◌else◌, ◌<>◌,
}
use praktikum.Runtime.{Result, ok, err, errorf}
use praktikum.Api.{SparkSpec, ObjectiveSpec, DistributedTrainingSpec, DistributedTraining}
use praktikum.System.{
  Manifest, Json, text, int, array, object, Items, no_items, item, Fields, no_fields, field, texts,
}
use praktikum.Controller.Defaults.{is_gpu}

unfoldable pub job_name : DistributedTraining → String
job_name job = "spark-" <> job.name

-- The copy with its defaults.
unfoldable pub resolve_spark_spec : Option SparkSpec → Result SparkSpec
resolve_spark_spec none = err (errorf "sparkSpec is required when backend is spark")
resolve_spark_spec (some s) = ok (record s {
  app_type = or_default s.app_type "Python";
  spark_version = or_default s.spark_version "3.5.0";
})

-- if n == 0 { n = 1 }
abbrev at_least_one : ℤ → ℤ
at_least_one n = if eq_ℤ n zero_ℤ then one_ℤ else n

instances_of : Option ObjectiveSpec → DistributedTraining → ℤ
instances_of (some _) job = job.status.resolved_topology.nodes
instances_of none job = job.spec.topology.nodes

-- The cores of the driver and of an executor, and the executors.
pub record SparkTopology : Type 0 where
  pub driver_cores : ℤ
  pub executor_cores : ℤ
  pub executor_instances : ℤ

unfoldable pub resolve_topology : DistributedTraining → SparkTopology
unfolding instances_of
resolve_topology job = record {
  driver_cores = one_ℤ;
  executor_cores = at_least_one job.spec.topology.processes_per_node;
  executor_instances = at_least_one (instances_of job.spec.objective job);
}

resolve_memory : SparkSpec → String × String
resolve_memory s = (or_default s.driver_memory "2g", or_default s.executor_memory "4g")

build_volume_mounts : DistributedTrainingSpec → Items
build_volume_mounts spec =
    if is_empty spec.output_pvc_name
    then no_items
    else item
        (object (field "name" (text "output") (field "mountPath" (text "/mnt/output") no_fields)))
        no_items

build_volumes : DistributedTrainingSpec → Items
build_volumes spec =
    if is_empty spec.output_pvc_name
    then no_items
    else item
        (object (
          field "name" (text "output") (
            field "persistentVolumeClaim"
              (object (field "claimName" (text spec.output_pvc_name) no_fields)) no_fields)))
        no_items

unfoldable pub build_node_selector : DistributedTrainingSpec → Fields × Items
build_node_selector spec =
    let hw = spec.hardware in
    let pool =
      or_default hw.node_pool_name (if is_gpu hw.hw_type then "gpu-pool" else "cpu-pool") in
    (
      field "cloud.google.com/gke-nodepool" (text pool) no_fields,
      item
          (object (
            field "key" (text "reserved-pool") (
              field "operator" (text "Equal")
                (field "value" (text "true") (field "effect" (text "NoSchedule") no_fields)))))
          no_items,
    )

-- if len(Arguments) > 0 { appSpec["arguments"] = … }
argument_fields : List String → Fields
argument_fields [] = no_fields
argument_fields (a ∷ more) = field "arguments" (array (texts (a ∷ more))) no_fields

driver : SparkSpec → DistributedTraining → Json
unfolding resolve_memory build_volume_mounts build_node_selector
driver s job =
    let topology = resolve_topology job in
    let selector = build_node_selector job.spec in
    object (
      field "cores" (int topology.driver_cores) (
        field "memory" (text (resolve_memory s).0) (
          field "nodeSelector" (object selector.0) (
            field "tolerations" (array selector.1) (
              field "serviceAccount" (text s.driver_service_account)
                (field "volumeMounts" (array (build_volume_mounts job.spec)) no_fields))))))

executor : SparkSpec → DistributedTraining → Json
unfolding resolve_memory build_volume_mounts build_node_selector
executor s job =
    let topology = resolve_topology job in
    let selector = build_node_selector job.spec in
    object (
      field "cores" (int topology.executor_cores) (
        field "instances" (int topology.executor_instances) (
          field "memory" (text (resolve_memory s).1) (
            field "nodeSelector" (object selector.0) (
              field "tolerations" (array selector.1)
                (field "volumeMounts" (array (build_volume_mounts job.spec)) no_fields))))))

unfoldable pub app_spec : SparkSpec → DistributedTraining → Fields
unfolding resolve_topology driver executor build_volumes argument_fields
app_spec s job = field "type" (text s.app_type) (
    field "sparkVersion" (text s.spark_version) (
      field "mode" (text "cluster") (
        field "image" (text s.image) (
          field "imagePullPolicy" (text "Always") (
            field "mainApplicationFile" (text s.main_application_file) (
              field "restartPolicy" (object (field "type" (text "Never") no_fields)) (
                field "driver" (driver s job) (
                  field "executor" (executor s job) (
                    field "volumes" (array (build_volumes job.spec))
                      (argument_fields s.arguments))))))))))

manifest_from : Result SparkSpec → DistributedTraining → Result Manifest
unfolding app_spec
manifest_from (err e) job = err e
manifest_from (ok s) job = ok (record {
  api_version = "sparkoperator.k8s.io/v1beta2";
  kind = "SparkApplication";
  name = job_name job;
  namespace = job.namespace;
  labels = ("app", job_name job) ∷ ("training.distributedtraining.io/job", job.name) ∷ [];
  owner = none;
  spec = app_spec s job;
})

unfoldable pub generate_manifest : DistributedTraining → Result Manifest
unfolding manifest_from resolve_spark_spec
generate_manifest job = manifest_from (resolve_spark_spec job.spec.spark_spec) job
