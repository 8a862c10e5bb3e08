-- ===== src/Startup/Assembled.antt =====
-- The reconciler that `main` sets up.
use praktikum.Prelude.{
  String, Bool, true, false, ◌≡◌, refl, sym, is_empty, or_default, str_eq, eq_iff, if◌then◌else◌,
}
use praktikum.Runtime.{Runtime, Error, Result, ok, err, ok-injective, with_context, ◌>>=◌}
use praktikum.Api.{BackendType}
use praktikum.System.{Cluster, Provider, Reconciler}
use praktikum.Backend.Reads.{Reads}
use praktikum.Cloud.Gke.{GkeClient, GkeCluster, gke_provider}
use praktikum.Startup.{
  Flags, backends, new_gke, build_provider, provider_of, new_distributed_training_reconciler,
  new_reconciler,
}

module _ {rt : Runtime} (getenv : String → String) (dial : GkeCluster → Result (GkeClient rt)) where
  -- The provider is GKE's, over a client that was dialled for a cluster with a project.
  pub record IsGke (provider : Provider rt) : Type 0 where
    pub cluster : GkeCluster
    pub client : GkeClient rt
    pub dialled : dial cluster ≡ ok client
    pub has_project : is_empty cluster.project ≡ false
    pub is_gke : provider ≡ gke_provider cluster client

  dialled-IsGke :
      (c : GkeCluster) (x : Result (GkeClient rt)) (prefix : String) (provider : Provider rt)
      → is_empty c.project ≡ false
      → dial c ≡ x
      → (with_context prefix x >>= λ client. ok (gke_provider c client)) ≡ ok provider
      → IsGke provider
  dialled-IsGke c (err e) prefix provider n d h = cc
  dialled-IsGke c (ok client) prefix provider n d h = record {
    cluster = c;
    client = client;
    dialled = d;
    has_project = n;
    is_gke = sym (ok-injective h);
  }

  new_gke-IsGke :
      (project location cluster : String) (provider : Provider rt)
      → is_empty project ≡ false
      → new_gke getenv dial project location cluster ≡ ok provider
      → IsGke provider
  unfolding new_gke
  new_gke-IsGke project location cluster provider n h =
      dialled-IsGke (record { project = project; location = location; cluster = cluster })
        (dial (record { project = project; location = location; cluster = cluster }))
        "creating GKE ClusterManagerClient" provider n refl h

  chosen-IsGke :
      (named empty : Bool) (project location cluster : String) (e f : Error)
      (provider : Provider rt)
      → is_empty project ≡ empty
      → (if named
          then (if empty then err e else new_gke getenv dial project location cluster)
          else err f)
        ≡ ok provider
      → (named ≡ true) × IsGke provider
  chosen-IsGke false empty project location cluster e f provider n h = cc
  chosen-IsGke true true project location cluster e f provider n h = cc
  chosen-IsGke true false project location cluster e f provider n h =
      (refl, new_gke-IsGke project location cluster provider n h)

  build_provider-IsGke :
      (name project location cluster : String) (provider : Provider rt)
      → build_provider getenv dial name project location cluster ≡ ok provider
      → (name ≡ "gke") × IsGke provider
  unfolding build_provider
  build_provider-IsGke name project location cluster provider h =
      let (named, gke) =
        chosen-IsGke (str_eq name "gke") _ (or_default project (getenv "GCP_PROJECT")) location
          cluster _ _ provider refl h in
      ((eq_iff name "gke").0 named, gke)

  -- What the theorems on the assembled program ask of a reconciler.
  pub record IsAssembled (reads : Reads rt) (r : Reconciler rt) : Type 0 where
    pub provider : IsGke r.cloud
    pub registered : (t : BackendType) → r.backends t ≡ backends reads t

  -- Let `main` build a provider by its flags. The reconciler that it sets up has the GKE provider,
  -- over a client that was dialled for a cluster whose project is not empty, and the backends that
  -- are registered; and the flag for the provider says `gke`.
  pub new_reconciler-IsAssembled :
      (cluster : Cluster rt) (reads : Reads rt) (flags : Flags) (provider : Provider rt)
      → provider_of getenv dial flags ≡ ok provider
      → (flags.cloud_provider ≡ "gke")
        × IsAssembled reads (new_reconciler cluster reads flags provider)
  unfolding new_reconciler new_distributed_training_reconciler
  new_reconciler-IsAssembled cluster reads flags provider h =
      let (named, gke) =
        build_provider-IsGke flags.cloud_provider flags.gcp_project flags.gcp_location
          flags.cluster_name provider h in
      (named, record { provider = gke; registered = λ t. refl })
