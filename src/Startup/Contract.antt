-- ===== src/Startup/Contract.antt =====
-- The registered backends deliver what the controller expects of a backend.
use praktikum.Prelude.{some, ◌≡◌, ap, get_or, sym}
use praktikum.Runtime.{Runtime}
use praktikum.Api.{BackendType}
use praktikum.System.{JobBackend}
use praktikum.Backend.Contract.{IsBackend}
use praktikum.Backend.Reads.{Reads}
use praktikum.Backend.Pytorch.Manifest.Describes as PytorchManifest
use praktikum.Backend.Pytorch.Status.Phases as PytorchPhases
use praktikum.Backend.Spark.Manifest.Describes as SparkManifest
use praktikum.Backend.Spark.Status.Phases as SparkPhases
use praktikum.Startup.{pytorch_backend, spark_backend, backends}

module _ {rt : Runtime} (reads : Reads rt) where
  pytorch-IsBackend : IsBackend (pytorch_backend reads)
  pytorch-IsBackend = record {
    describes = PytorchManifest.generate_manifest-Describes;
    reports = PytorchPhases.get_phase-IsPhase reads;
  }

  spark-IsBackend : IsBackend (spark_backend reads)
  spark-IsBackend = record {
    describes = SparkManifest.generate_manifest-Describes;
    reports = SparkPhases.get_phase-IsPhase reads;
  }

  -- Of every registered backend: a manifest has the name under which the backend is later asked for
  -- the job, the job's namespace and its label, and a phase that GetPhase reports is Succeeded,
  -- Failed or Running.
  pub backends-IsBackend :
      (t : BackendType) (b : JobBackend rt) → backends reads t ≡ some b → IsBackend b
  unfolding backends
  backends-IsBackend BackendType.pytorch b e = rw (ap (λ o. get_or o b) (sym e)) pytorch-IsBackend
  backends-IsBackend BackendType.spark b e = rw (ap (λ o. get_or o b) (sym e)) spark-IsBackend
  backends-IsBackend BackendType.job b e = cc
  backends-IsBackend BackendType.unset b e = cc
  backends-IsBackend (BackendType.other s) b e = cc
