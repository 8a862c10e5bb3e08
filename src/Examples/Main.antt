-- ===== src/Examples/Main.antt =====
-- main on a platform where all goes well.
use praktikum.Prelude.{refl, none, some, true}
use praktikum.Runtime.{ok, errorf}
use praktikum.System.{Provider}
use praktikum.Cloud.Gke.{gke_provider}
use praktikum.Startup.{Flags, default_flags, build_provider}
use praktikum.Startup.Servers.{manager_options}
use praktikum.Startup.Servers.Secure.{IsSecure, manager_options-IsSecure}
use praktikum.Startup.Process.{◌>>=◌}
use praktikum.Startup.Main.{Platform, main, main_process}
use praktikum.Startup.Main.Starts.{IsStarted, main-IsStarted}
use praktikum.Examples.Samples.{small_runtime, accepting_cluster}
use praktikum.Examples.Services.{small_reads, done_client}

-- A platform with one manager.
abbrev small_platform : Platform small_runtime (Unit {0})
small_platform = record {
  getenv = λ name. "p";
  dial = λ c. ok done_client;
  reads = small_reads;
  manager = λ o. ok tt;
  cluster = λ m n s. accepting_cluster;
  complete = λ m o r. none;
  healthz = λ m n. none;
  readyz = λ m n. none;
  run = λ m. some (errorf "leader election lost");
}

abbrev env_provider : Provider small_runtime
env_provider =
    gke_provider (record { project = "p"; location = "us-east1"; cluster = "" }) done_client

-- The project is the one of the environment; the manager ends with an error.
main-IsStarted_example :
    IsStarted small_platform default_flags
      (main small_platform default_flags).0
      (main small_platform default_flags).1
unfolding main_process build_provider ◌>>=◌
main-IsStarted_example = main-IsStarted small_platform default_flags refl

abbrev http2_flags : Flags
http2_flags = record default_flags { enable_http2 = true; metrics_cert_path = "/certs" }

manager_options-IsSecure_example : IsSecure http2_flags (manager_options http2_flags)
manager_options-IsSecure_example = manager_options-IsSecure http2_flags
