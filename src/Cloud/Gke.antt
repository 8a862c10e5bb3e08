-- ===== src/Cloud/Gke.antt =====
-- The GKE provider: operator/internal/cloud/gke/gke.go. The client of the container API is a
-- parameter.
pub mod Operations
use text.Mathlib.Text.{starts_with}
use praktikum.Prelude.{
  ℤ, String, Bool, true, false, Option, none, some, List, [], ◌∷◌, is_empty, get_or, if◌then◌else◌,
  ◌<>◌,
}
use praktikum.Runtime.{Runtime, Result, ok, err, errorf, ◌>>=◌, with_context}
use praktikum.System.{Trace, NodePoolConfig, Provider}

-- Of containerpb, what the provider fills in and reads.
pub record NodeTaint : Type 0 where
  pub key : String
  pub value : String
  pub effect : String

pub record NodePool : Type 0 where
  pub name : String
  pub machine_type : String
  pub labels : List (String × String)
  pub disk_size_gb : ℤ
  pub service_account : String
  pub taints : List NodeTaint
  pub accelerators : List (String × ℤ)
  pub initial_node_count : ℤ

pub data OperationStatus : Type 0 where
  done aborting other : OperationStatus

-- The status, and the message of the error if there is one.
pub record Operation : Type 0 where
  pub status : OperationStatus
  pub error : Option String

-- container.ClusterManagerClient: the answers of its methods, an operation by its name.
pub record GkeClient (rt : Runtime) : Type 0 where
  pub create_node_pool : Trace rt → String → NodePool → Result String
  pub delete_node_pool : Trace rt → String → Result String
  pub get_operation : Trace rt → String → Result Operation

-- The other fields of the provider.
pub record GkeCluster : Type 0 where
  pub project : String
  pub location : String
  pub cluster : String

abbrev pub node_pool_label_key : String
node_pool_label_key = "cloud.google.com/gke-nodepool"

abbrev pub reserved_taint : NodeTaint
reserved_taint = record { key = "reserved-pool"; value = "true"; effect = "NO_SCHEDULE" }

unfoldable pub node_pool : String → NodePoolConfig → NodePool
node_pool pool_name cfg = record {
  name = pool_name;
  machine_type = cfg.machine_type;
  labels = cfg.labels;
  disk_size_gb = cfg.disk_size_gb;
  service_account = cfg.node_service_account;
  taints = reserved_taint ∷ [];
  accelerators =
      if is_empty cfg.accelerator_type
      then []
      else (cfg.accelerator_type, cfg.accelerator_count) ∷ [];
  initial_node_count = cfg.node_count;
}

module _ (p : GkeCluster) where
  unfoldable pub cluster_fqn : String
  cluster_fqn =
      "projects/" <> (p.project <> ("/locations/" <> (p.location <> ("/clusters/" <> p.cluster))))

  unfoldable pub node_pool_fqn : String → String
  unfolding cluster_fqn
  node_pool_fqn pool_name = cluster_fqn <> ("/nodePools/" <> pool_name)

  -- The fully qualified name of an operation that may be given by its short name.
  unfoldable pub operation_name : String → String
  operation_name id =
      if starts_with id "projects/"
      then id
      else "projects/" <> (p.project <> ("/locations/" <> (p.location <> ("/operations/" <> id))))

-- The `switch op.GetStatus()`.
unfoldable pub operation_result : Operation → Result Bool
operation_result op = elim op.status [
  | OperationStatus.done ↦ elim op.error [
    | none ↦ ok true
    | some message ↦ err (errorf ("operation failed: " <> message))
  ]
  | OperationStatus.aborting ↦ err (errorf ("operation aborted: " <> get_or op.error ""))
  | OperationStatus.other ↦ ok false
]

module _ {rt : Runtime} (p : GkeCluster) (client : GkeClient rt) where
  unfoldable pub create_node_pool : Trace rt → String → NodePoolConfig → Result String
  unfolding node_pool cluster_fqn
  create_node_pool trace pool_name cfg =
      with_context ("CreateNodePool " <> rt.quote pool_name)
        (client.create_node_pool trace (cluster_fqn p) (node_pool pool_name cfg))

  unfoldable pub delete_node_pool : Trace rt → String → Result String
  unfolding node_pool_fqn
  delete_node_pool trace pool_name =
      with_context ("DeleteNodePool " <> rt.quote pool_name)
        (client.delete_node_pool trace (node_pool_fqn p pool_name))

  unfoldable pub is_operation_done : Trace rt → String → Result Bool
  unfolding operation_name operation_result
  is_operation_done trace id = do
    op ←
        with_context ("polling operation " <> rt.quote id)
          (client.get_operation trace (operation_name p id))
    operation_result op

  abbrev pub gke_provider : Provider rt
  gke_provider = record {
    provider_name = "gke";
    node_pool_label_key = node_pool_label_key;
    create = create_node_pool;
    delete = delete_node_pool;
    is_operation_done = is_operation_done;
  }
