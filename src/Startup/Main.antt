-- ===== src/Startup/Main.antt =====
-- main of operator/cmd/main.go after the flags are parsed. The manager is controller-runtime's; the
-- configuration of the cluster that it is made from, the logger and the signal handler are left out.
pub mod Starts
use praktikum.Prelude.{ℕ, String, Option, none, some, List, []}
use praktikum.Runtime.{Runtime, Error, Result}
use praktikum.System.{Cluster, Provider, Reconciler}
use praktikum.Backend.Reads.{Reads}
use praktikum.Cloud.Gke.{GkeClient, GkeCluster}
use praktikum.Startup.{Flags, provider_of, new_reconciler}
use praktikum.Startup.Servers.{
  ManagerOptions, manager_options, ControllerOptions, controller_options,
}
use praktikum.Startup.Process.{
  Step, Process, new_manager, set_up, add_healthz_check, add_readyz_check, start, ◌>>=◌, ◌>>◌,
  perform, exit_on, value_or_exit,
}

-- controller-runtime, and what the process runs on. `M` stands for its manager, and the client of
-- a manager and the ConfigMap of machine costs, by its name and namespace, make up a cluster.
pub record Platform (rt : Runtime) (M : Type 0) : Type 0 where
  pub getenv : String → String
  pub dial : GkeCluster → Result (GkeClient rt)
  pub reads : Reads rt
  pub manager : ManagerOptions → Result M
  pub cluster : M → (name namespace : String) → Cluster rt
  pub complete : M → ControllerOptions → Reconciler rt → Option Error
  pub healthz : M → String → Option Error
  pub readyz : M → String → Option Error
  pub run : M → Option Error

module _ {rt : Runtime} {M : Type 0} (p : Platform rt M) where
  setup_with_manager : Reconciler rt → M → Process rt (Unit {0})
  setup_with_manager r mgr = do
    perform (set_up controller_options r)
    exit_on (p.complete mgr controller_options r)

  -- What follows the manager's creation.
  run_manager : Reconciler rt → M → Process rt (Unit {0})
  unfolding setup_with_manager
  run_manager r mgr = do
    setup_with_manager r mgr
    perform (add_healthz_check "healthz")
    exit_on (p.healthz mgr "healthz")
    perform (add_readyz_check "readyz")
    exit_on (p.readyz mgr "readyz")
    perform start
    exit_on (p.run mgr)

  abbrev pub reconciler_of : Flags → M → Provider rt → Reconciler rt
  reconciler_of flags mgr provider =
      new_reconciler
        (p.cluster mgr flags.machine_costs_config_map_name flags.machine_costs_config_map_namespace)
        p.reads flags provider

  -- What follows buildProvider.
  main_of : Flags → Result (Provider rt) → Process rt (Unit {0})
  unfolding run_manager
  main_of flags built = do
    provider ← value_or_exit built
    perform (new_manager (manager_options flags))
    mgr ← value_or_exit (p.manager (manager_options flags))
    run_manager (reconciler_of flags mgr provider) mgr

  unfoldable pub main_process : Flags → Process rt (Unit {0})
  unfolding main_of
  main_process flags = main_of flags (provider_of p.getenv p.dial flags)

  abbrev pub exit_code : Option (Unit {0}) → ℕ
  exit_code (some u) = 0
  exit_code none = 1

  -- The exit code and the calls made.
  abbrev pub main : Flags → ℕ × List (Step rt)
  main flags = let (end, steps) = main_process flags [] in (exit_code end, steps)
