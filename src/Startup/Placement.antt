-- ===== src/Startup/Placement.antt =====
-- Where the pods of a job may run: the node selector and the tolerations of both manifests against
-- the node pool that is created for the job.
use praktikum.Prelude.{
  ℤ, zero_ℤ, ltb_ℤ, String, Bool, true, false, Option, none, some, List, [], ◌∷◌, All, ◌≡◌, refl,
  ap, ◌∙◌, ◌&&◌, ◌||◌, is_empty, or_default, str_eq, if◌then◌else◌,
}
use praktikum.Runtime.{Result, ok, err}
use praktikum.Api.{PytorchSpec, SparkSpec, DistributedTraining}
use praktikum.System.{
  Json, text, array, object, Items, no_items, item, Fields, no_fields, field, Manifest,
  NodePoolConfig,
}
use praktikum.Backend.Reads.{get_field}
use praktikum.Backend.Pytorch.Pod as PytorchPod
use praktikum.Backend.Pytorch.Manifest as PytorchManifest
use praktikum.Backend.Spark.Manifest as SparkManifest
use praktikum.Controller.Defaults.{node_pool_name}
use praktikum.Controller.Ready.{with_pool_name}
use praktikum.Controller.Ready.PoolName.{with_pool_name-name, with_pool_name-nonempty}
use praktikum.Cloud.Gke.{NodeTaint, node_pool, node_pool_label_key}

-- The rules of the Kubernetes scheduler for a taint of the kind that the provider sets: the key,
-- the operator `Equal` with the value, and the effect by the name that a pod uses for it.
says : String → Option Json → Bool
says s (some (text t)) = str_eq t s
says s _ = false

abbrev effect_name : String → String
effect_name e = if str_eq e "NO_SCHEDULE" then "NoSchedule" else e

pub tolerates : NodeTaint → Json → Bool
unfolding says
tolerates taint (object t) =
    says taint.key (get_field "key" t)
    && (says "Equal" (get_field "operator" t)
        && (says taint.value (get_field "value" t)
            && says (effect_name taint.effect) (get_field "effect" t)))
tolerates taint _ = false

abbrev pub any_tolerates : NodeTaint → Items → Bool
any_tolerates taint no_items = false
any_tolerates taint (item t ts) = tolerates taint t || any_tolerates taint ts

-- A field of a JSON object, and the elements of a JSON array.
abbrev pub child : String → Option Json → Option Json
child key (some (object fs)) = get_field key fs
child key _ = none

abbrev pub elements : Option Json → Items
elements (some (array ts)) = ts
elements _ = no_items

-- A pod of this specification may run on the nodes of this pool, and on those of no other.
abbrev pub Admits : String → NodePoolConfig → Option Json → Type 0
Admits pool cfg pod =
    (child node_pool_label_key (child "nodeSelector" pod) ≡ some (text pool))
    × All (λ taint. any_tolerates taint (elements (child "tolerations" pod)) ≡ true)
        (node_pool pool cfg).taints

-- The pods that the training operator makes of a PyTorchJob, one for each replica type, and the
-- Spark operator of a SparkApplication.
abbrev replica_pods : Fields → List (Option Json)
replica_pods no_fields = []
replica_pods (field role v fs) = child "spec" (child "template" (some v)) ∷ replica_pods fs

abbrev fields_of : Option Json → Fields
fields_of (some (object fs)) = fs
fields_of _ = no_fields

abbrev pub pytorch_pods : Manifest → List (Option Json)
pytorch_pods m = replica_pods (fields_of (get_field "pytorchReplicaSpecs" m.spec))

abbrev pub spark_pods : Manifest → List (Option Json)
spark_pods m = get_field "driver" m.spec ∷ get_field "executor" m.spec ∷ []

-- There is a pod, and each one may run on the pool.
abbrev pub AllAdmit : String → NodePoolConfig → List (Option Json) → Type 0
AllAdmit pool cfg [] = ⊥
AllAdmit pool cfg (pod ∷ pods) = Admits pool cfg pod × All (Admits pool cfg) pods

-- A manifest that is generated has such pods.
abbrev pub Places :
    String → NodePoolConfig → (Manifest → List (Option Json)) → Result Manifest → Type 0
Places pool cfg pods (ok m) = AllAdmit pool cfg (pods m)
Places pool cfg pods (err e) = Unit {0}

or_default-nonempty : (s d : String) → is_empty s ≡ false → or_default s d ≡ s
or_default-nonempty s d e = rw e refl

-- The pool that a manifest names for its pods.
abbrev Selects : String → DistributedTraining → Type 0
Selects pool job = (d : String) → or_default job.spec.hardware.node_pool_name d ≡ pool

module _ (pool : String) (cfg : NodePoolConfig) (job : DistributedTraining)
    (selects : Selects pool job) where
  replica-Admits :
      (ps : PytorchSpec)
      → Admits pool cfg
          (child "spec" (some (PytorchPod.replica_template (PytorchManifest.pod_parts ps job))))
  unfolding PytorchPod.replica_template PytorchManifest.pod_parts PytorchPod.build_node_selector
      get_field node_pool tolerates
  replica-Admits ps = (ap (λ s. some (text s)) (selects _), (refl, tt))

  more-All :
      (b : Bool) (v : Json)
      → Admits pool cfg (child "spec" (child "template" (some v)))
      → All (Admits pool cfg) (replica_pods (if b then field "Worker" v no_fields else no_fields))
  more-All true v a = (a, tt)
  more-All false v a = tt

  replicas-AllAdmit :
      (ps : PytorchSpec) (masters workers : ℤ)
      → AllAdmit pool cfg (
          replica_pods (
            PytorchManifest.build_replica_specs masters workers (PytorchManifest.pod_parts ps job)))
  unfolding PytorchManifest.build_replica_specs get_field
  replicas-AllAdmit ps masters workers =
      (replica-Admits ps, more-All (ltb_ℤ zero_ℤ workers) _ (replica-Admits ps))

  pytorch-Places :
      (o : Option PytorchSpec)
      → job.spec.pytorch_spec ≡ o
      → Places pool cfg pytorch_pods (PytorchManifest.generate_manifest job)
  unfolding PytorchManifest.generate_manifest get_field
  pytorch-Places none e = simp (e) tt
  pytorch-Places (some ps) e = simp (e) (
      replicas-AllAdmit ps (PytorchManifest.replica_split ps job).0
        (PytorchManifest.replica_split ps job).1)

  spark-AllAdmit :
      (sp : SparkSpec)
      → Admits pool cfg (get_field "driver" (SparkManifest.app_spec sp job))
        × All (Admits pool cfg) (get_field "executor" (SparkManifest.app_spec sp job) ∷ [])
  unfolding SparkManifest.app_spec SparkManifest.build_node_selector get_field node_pool tolerates
  spark-AllAdmit sp =
      let selected = ap (λ s. some (text s)) (selects _) in
      ((selected, (refl, tt)), ((selected, (refl, tt)), tt))

  spark-Places :
      (o : Option SparkSpec)
      → job.spec.spark_spec ≡ o
      → Places pool cfg spark_pods (SparkManifest.generate_manifest job)
  unfolding SparkManifest.generate_manifest SparkManifest.resolve_spark_spec get_field
  spark-Places none e = simp (e) tt
  spark-Places (some sp) e = simp (e) (
      spark-AllAdmit (record sp {
        app_type = or_default sp.app_type "Python";
        spark_version = or_default sp.spark_version "3.5.0";
      }))

module _ (job : DistributedTraining) (cfg : NodePoolConfig) where
  pool_selected : Selects (node_pool_name job) (with_pool_name job)
  pool_selected d =
      or_default-nonempty (with_pool_name job).spec.hardware.node_pool_name d
        (with_pool_name-nonempty job)
      ∙ with_pool_name-name job

  -- For every job, with the pool name that reconcileReady fills in: if the PyTorch backend
  -- generates a manifest, the pod templates of its replicas, and if the Spark backend generates one,
  -- its driver and its executor, select the nodes of the job's node pool by its label and tolerate
  -- the taints that the GKE provider creates this pool with.
  pub pods-Admits :
      Places
        (node_pool_name job)
        cfg
        pytorch_pods
        (PytorchManifest.generate_manifest (with_pool_name job))
      × Places
          (node_pool_name job)
          cfg
          spark_pods
          (SparkManifest.generate_manifest (with_pool_name job))
  pods-Admits =
      let k = with_pool_name job in
      (
        pytorch-Places (node_pool_name job) cfg k pool_selected k.spec.pytorch_spec refl,
        spark-Places (node_pool_name job) cfg k pool_selected k.spec.spark_spec refl,
      )
