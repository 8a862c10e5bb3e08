-- ===== src/Controller/Pending/Ends.antt =====
-- reconcilePending comes to an end: the job is accepted or rejected.
use praktikum.Prelude.{ℕ, Option, none, some, ◌≡◌, ◌⊎◌, inl, inr, eq_ℤ, zero_ℤ, on_option}
use praktikum.Runtime.{Runtime, Error, Result, ok, err}
use praktikum.Api.{
  Phase, DistributedTraining, DistributedTrainingStatus, ObjectiveSpec, ResolvedTopology,
}
use praktikum.System.{Reconciler, pure}
use praktikum.System.Answers.{GoesOn, answers_rules}
use praktikum.System.Accepts.{AcceptsPatches, MayEnd-patch, current-GoesOn}
use praktikum.System.Ends.{
  Ends, MayEnd, Ends-bind, MayEnd-bind, MayEnd-GoesOn, MayEnd-if, MayEnd-Ends,
}
use praktikum.Controller.Transitions.{set_failed}
use praktikum.Controller.Transitions.Ends.{set_phase-Ends, set_failed-Ends}
use praktikum.Controller.Validate.{validate_spec}
use praktikum.Solver.Run.{run_solver}
use praktikum.Controller.Pending.{
  warn_resume, set_start_time, use_topology, resolve_topology, accept_spec, reconcile_pending,
}

abbrev pub IsDecided : DistributedTrainingStatus → Type 0
IsDecided s = (s.phase ≡ Phase.provisioning) ⊎ (s.phase ≡ Phase.failed)

module _ {rt : Runtime} (r : Reconciler rt) (accepts : AcceptsPatches r) where
  pub warn_resume-GoesOn : (job : DistributedTraining) → GoesOn (warn_resume r job)
  unfolding warn_resume
  warn_resume-GoesOn job = search (answers_rules)

  pub set_start_time-MayEnd :
      {Q : DistributedTrainingStatus → Type 0} (t : Option ℕ) → MayEnd Q (set_start_time r t)
  unfolding set_start_time
  set_start_time-MayEnd (some t) = MayEnd-GoesOn _ (search (answers_rules))
  set_start_time-MayEnd none =
      MayEnd-bind _ _ (MayEnd-GoesOn _ (search (answers_rules)))
        (λ time. MayEnd-patch r accepts _ _)

module _ {rt : Runtime} (r : Reconciler rt) (accepts : AcceptsPatches r)
    (solves : (job : DistributedTraining) (obj : ObjectiveSpec)
      → GoesOn (run_solver r job obj)) where
  use_topology-MayEnd : (x : Result ResolvedTopology) → MayEnd IsDecided (use_topology r x)
  unfolding use_topology
  use_topology-MayEnd (err e) = MayEnd-Ends _ (set_failed-Ends r accepts _ _ (λ s h. inr h))
  use_topology-MayEnd (ok t) = MayEnd-patch r accepts _ _

  resolve_topology-MayEnd :
      (job : DistributedTraining) (o : Option ObjectiveSpec)
      → MayEnd IsDecided (resolve_topology r job o)
  unfolding resolve_topology
  resolve_topology-MayEnd job none = MayEnd-GoesOn _ (search (answers_rules))
  resolve_topology-MayEnd job (some o) =
      MayEnd-if (eq_ℤ job.status.resolved_topology.nodes zero_ℤ) _ (pure tt)
        (MayEnd-bind _ _ (MayEnd-GoesOn _ (solves job o)) (λ x. use_topology-MayEnd x))
        (MayEnd-GoesOn _ (search (answers_rules)))

  accept_spec-Ends : (job : DistributedTraining) → Ends IsDecided (accept_spec r job)
  unfolding accept_spec
  accept_spec-Ends job = Ends-bind _ _ (MayEnd-GoesOn _ (warn_resume-GoesOn r accepts job)) (λ u.
      Ends-bind _ _ (set_start_time-MayEnd r accepts job.status.start_time) (λ u.
        Ends-bind _ _ (resolve_topology-MayEnd job job.spec.objective)
          (λ u. set_phase-Ends r accepts _ _ (λ s h. inl h))))

  decided :
      (job : DistributedTraining) (o : Option Error)
      → Ends IsDecided (on_option o (accept_spec r job) (λ e. set_failed r "invalid spec" (some e)))
  decided job none = accept_spec-Ends job
  decided job (some e) = set_failed-Ends r accepts _ _ (λ s h. inr h)

  pub reconcile_pending-Ends : Ends IsDecided (reconcile_pending r)
  unfolding reconcile_pending
  reconcile_pending-Ends =
      Ends-bind _ _ (MayEnd-GoesOn _ current-GoesOn)
        (λ job. decided job (validate_spec rt.quote job))
