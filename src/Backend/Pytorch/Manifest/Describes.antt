-- ===== src/Backend/Pytorch/Manifest/Describes.antt =====
-- The manifest describes its job.
use mathlib.Core.Path.{subst}
use praktikum.Prelude.{Option, none, some, ◌≡◌, refl, sym, ap, lookup}
use praktikum.Runtime.{ok, ok-injective}
use praktikum.Api.{PytorchSpec, DistributedTraining}
use praktikum.System.{Manifest}
use praktikum.Backend.Contract.{Describes, job_label}
use praktikum.Backend.Pytorch.Manifest.{job_name, manifest_from, generate_manifest}

module _ (job : DistributedTraining) (m : Manifest) where
  manifest_from-Describes :
      (s : Option PytorchSpec) → manifest_from s job ≡ ok m → Describes job (job_name job) m
  unfolding manifest_from lookup
  manifest_from-Describes none e = cc
  manifest_from-Describes (some s) e =
      let q = ok-injective e in
      (
        ap (λ x. x.name) (sym q),
        ap (λ x. x.namespace) (sym q),
        ap (λ x. lookup job_label x.labels) (sym q),
      )

  pub generate_manifest-Describes : generate_manifest job ≡ ok m → Describes job (job_name job) m
  unfolding generate_manifest
  generate_manifest-Describes e = manifest_from-Describes job.spec.pytorch_spec e

total :
    (job : DistributedTraining) (ps : PytorchSpec)
    → (m : Manifest) × (manifest_from (some ps) job ≡ ok m)
unfolding manifest_from
total job ps = (_, refl)

pub generate_manifest-total :
    (job : DistributedTraining) (ps : PytorchSpec)
    → job.spec.pytorch_spec ≡ some ps
    → (m : Manifest) × (generate_manifest job ≡ ok m)
unfolding generate_manifest
generate_manifest-total job ps e =
    subst (λ p. (m : Manifest) × (manifest_from p job ≡ ok m)) (sym e) (total job ps)
