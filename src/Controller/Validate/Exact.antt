-- ===== src/Controller/Validate/Exact.antt =====
-- Which specs validateSpec accepts, by a description without its order of checks.
use praktikum.Prelude.{
  ℤ, one_ℤ, two_ℤ, zero_ℤ, String, true, false, ◌&&◌, Option, none, some, is_empty, ◌≡◌, refl,
  arith, ◌≤ℤ◌, Bool-cases, ◌⊎◌, inl, inr, ◌↔◌,
}
use praktikum.Runtime.{Error}
use praktikum.Api.{
  BackendType, PytorchSpec, SparkSpec, ObjectiveSpec, DistributedTraining, DistributedTrainingSpec,
}
use praktikum.Controller.Defaults.{effective_backend, is_spark}
use praktikum.Controller.Validate.{
  validate_objective, validate_pytorch, validate_backend, validate_spec,
}

-- An objective constrains the time or the cost, allows two nodes at least, and leaves the node
-- count of a Spark job open.
abbrev pub ObjectiveAllows : Option ObjectiveSpec → BackendType → ℤ → Type 0
ObjectiveAllows none b nodes = Unit {0}
ObjectiveAllows (some o) b nodes =
    (is_empty o.target_time && is_empty o.max_cost ≡ false)
    × (two_ℤ ≤ℤ o.max_nodes)
    × (is_spark b ≡ true → nodes ≤ℤ zero_ℤ)

abbrev pub PytorchAllows : Option PytorchSpec → Type 0
PytorchAllows none = ⊥
PytorchAllows (some ps) = is_empty ps.image ≡ false

abbrev pub SparkAllows : Option SparkSpec → Option ObjectiveSpec → ℤ → Type 0
SparkAllows none o nodes = ⊥
SparkAllows (some _) none nodes = one_ℤ ≤ℤ nodes
SparkAllows (some _) (some _) nodes = Unit {0}

-- What each backend needs: PyTorch an image, Spark its own section and a node count unless the
-- solver chooses it.
abbrev pub BackendAllows : BackendType → DistributedTrainingSpec → Type 0
BackendAllows BackendType.pytorch spec = PytorchAllows spec.pytorch_spec
BackendAllows BackendType.spark spec =
    SparkAllows spec.spark_spec spec.objective spec.topology.nodes
BackendAllows BackendType.job spec = Unit {0}
BackendAllows BackendType.unset spec = ⊥
BackendAllows (BackendType.other s) spec = ⊥

abbrev pub IsValid : DistributedTrainingSpec → Type 0
IsValid spec =
    let b = effective_backend spec.backend in
    ObjectiveAllows spec.objective b spec.topology.nodes × BackendAllows b spec

objective-accepts :
    (o : ObjectiveSpec) (b : BackendType) (n : ℤ)
    → is_empty o.target_time && is_empty o.max_cost ≡ false
    → two_ℤ ≤ℤ o.max_nodes
    → (is_spark b ≡ true) ⊎ (is_spark b ≡ false)
    → (is_spark b ≡ true → n ≤ℤ zero_ℤ)
    → validate_objective (some o) b n ≡ none
unfolding validate_objective
objective-accepts o b n p q (inl e) r = let small = r e in ground arith
objective-accepts o b n p q (inr e) r = ground arith

objective-exact :
    (o : Option ObjectiveSpec) (b : BackendType) (n : ℤ)
    → (validate_objective o b n ≡ none) ↔ ObjectiveAllows o b n
unfolding validate_objective
objective-exact none b n = (λ e. tt, λ u. refl)
objective-exact (some o) b n = (
  λ e. (ground arith, ground arith, λ s. ground arith),
  λ u. objective-accepts o b n u.0 u.1 (Bool-cases (is_spark b)) u.2,
)

pytorch-exact : (p : Option PytorchSpec) → (validate_pytorch p ≡ none) ↔ PytorchAllows p
unfolding validate_pytorch
pytorch-exact none = (λ e. cc, λ u. elim u [ ])
pytorch-exact (some ps) = (λ e. ground arith, λ u. rw u refl)

both :
    {x y : Option Error} {P Q : Type 0}
    → (x ≡ none) ↔ P
    → (y ≡ none) ↔ Q
    → ((elim x as (λ _. Option Error) [ some e ↦ some e | none ↦ y ]) ≡ none) ↔ P × Q
both {x = none} p q = (λ e. (p.0 refl, q.0 e), λ u. q.1 u.1)
both {x = some e} p q = (λ f. cc, λ u. p.1 u.0)

spark-exact :
    (quote : String → String) (spec : DistributedTrainingSpec) (p : Option SparkSpec)
    (o : Option ObjectiveSpec)
    → spec.spark_spec ≡ p
    → spec.objective ≡ o
    → (validate_backend quote BackendType.spark spec ≡ none) ↔ SparkAllows p o spec.topology.nodes
unfolding validate_backend
spark-exact quote spec none o e f = (λ v. ground arith, λ u. elim u [ ])
spark-exact quote spec (some p) none e f = (λ v. ground arith, λ u. ground arith)
spark-exact quote spec (some p) (some o) e f = (λ v. tt, λ u. ground arith)

backend-exact :
    (quote : String → String) (b : BackendType) (spec : DistributedTrainingSpec)
    → (validate_backend quote b spec ≡ none) ↔ BackendAllows b spec
unfolding validate_backend
backend-exact quote BackendType.pytorch spec = pytorch-exact spec.pytorch_spec
backend-exact quote BackendType.spark spec =
    spark-exact quote spec spec.spark_spec spec.objective refl refl
backend-exact quote BackendType.job spec = (λ e. tt, λ u. refl)
backend-exact quote BackendType.unset spec = (λ e. cc, λ u. elim u [ ])
backend-exact quote (BackendType.other s) spec = (λ e. cc, λ u. elim u [ ])

-- validateSpec finds no error exactly in the specs that are valid: an objective constrains the time
-- or the cost, allows two nodes or more, and comes with no positive node count if the backend is
-- Spark; the PyTorch backend (the default) has its section with an image, the Spark backend its
-- section and, without an objective, a node count of at least one; and the backend is one of the
-- three that are known.
pub validate_spec-exact :
    (quote : String → String) (job : DistributedTraining)
    → (validate_spec quote job ≡ none) ↔ IsValid job.spec
unfolding validate_spec
validate_spec-exact quote job =
    let b = effective_backend job.spec.backend in
    both (objective-exact job.spec.objective b job.spec.topology.nodes)
      (backend-exact quote b job.spec)
