-- ===== src/Backend/Spark/Manifest/Describes.antt =====
-- The manifest describes its job.
use mathlib.Core.Path.{subst}
use praktikum.Prelude.{some, ◌≡◌, refl, sym, ap, lookup}
use praktikum.Runtime.{Result, ok, err, ok-injective}
use praktikum.Api.{SparkSpec, DistributedTraining}
use praktikum.System.{Manifest}
use praktikum.Backend.Contract.{Describes, job_label}
use praktikum.Backend.Spark.Manifest.{
  job_name, manifest_from, generate_manifest, resolve_spark_spec,
}

module _ (job : DistributedTraining) (m : Manifest) where
  manifest_from-Describes :
      (s : Result SparkSpec) → manifest_from s job ≡ ok m → Describes job (job_name job) m
  unfolding manifest_from lookup
  manifest_from-Describes (err e') e = cc
  manifest_from-Describes (ok s) e =
      let q = ok-injective e in
      (
        ap (λ x. x.name) (sym q),
        ap (λ x. x.namespace) (sym q),
        ap (λ x. lookup job_label x.labels) (sym q),
      )

  pub generate_manifest-Describes : generate_manifest job ≡ ok m → Describes job (job_name job) m
  unfolding generate_manifest
  generate_manifest-Describes e = manifest_from-Describes (resolve_spark_spec job.spec.spark_spec) e

total :
    (job : DistributedTraining) (s : SparkSpec)
    → (m : Manifest) × (manifest_from (resolve_spark_spec (some s)) job ≡ ok m)
unfolding manifest_from resolve_spark_spec
total job s = (_, refl)

pub generate_manifest-total :
    (job : DistributedTraining) (s : SparkSpec)
    → job.spec.spark_spec ≡ some s
    → (m : Manifest) × (generate_manifest job ≡ ok m)
unfolding generate_manifest
generate_manifest-total job s e =
    subst (λ p. (m : Manifest) × (manifest_from (resolve_spark_spec p) job ≡ ok m)) (sym e)
      (total job s)
