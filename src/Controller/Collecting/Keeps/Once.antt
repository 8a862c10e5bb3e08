-- ===== src/Controller/Collecting/Keeps/Once.antt =====
-- reconcileCollecting asks once for the deletion of the node pool.
use praktikum.Prelude.{ℕ, suc, String, Option, none, some, ◌≡◌, refl, ap, ◌∷◌, ◌∙◌}
use praktikum.Runtime.{Runtime}
use praktikum.Api.{DistributedTraining, DistributedTrainingStatus}
use praktikum.System.{World, Reconciler, JobBackend, Handler, ◌>>=◌, ◌>>◌, delete_node_pool}
use praktikum.System.Keeps.{Keeps, Inv, Quiet, Keeps-bind}
use praktikum.System.Answers.{GoesOn, GoesOn-bind, answers_rules}
use praktikum.Controller.Defaults.{node_pool_name, get_backend}
use praktikum.Controller.Pools.{deletions, deletions-Quiet}
use praktikum.Controller.Collecting.{
  backend_or_nil, end_time, training_time, store_deletion, start_deletion, finish_collection,
  reconcile_collecting,
}
use praktikum.Controller.Collecting.Keeps.{
  Allows, Keeps-training_time, Keeps-store_deletion, Keeps-finish_collection,
}

AnyStatus : DistributedTrainingStatus → Type 0
AnyStatus s = Unit {0}

anything : Allows AnyStatus
unfolding AnyStatus
anything = record { to_succeeded = λ _ _ _. tt; deletes = λ _ _ _. tt; stores = λ _ _ _ _. tt }

module _ {rt : Runtime} (r : Reconciler rt) where
  end_time-GoesOn :
      (job : DistributedTraining) (b : Option (JobBackend rt)) (t : ℕ) → GoesOn (end_time r job b t)
  unfolding end_time
  end_time-GoesOn job none t = search (answers_rules)
  end_time-GoesOn job (some b) t = search (answers_rules)

  training_time-GoesOn :
      (job : DistributedTraining) (b : Option (JobBackend rt)) (o : Option ℕ)
      → GoesOn (training_time r job b o)
  unfolding training_time
  training_time-GoesOn job b none = search (answers_rules)
  training_time-GoesOn job b (some t) = search (answers_rules, end_time-GoesOn) depth 7

  after_training :
      DistributedTraining → Option (JobBackend rt) → String → Handler (World rt) (Unit {0})
  after_training job b trained = start_deletion r job >> finish_collection r job b trained

  after_training-deletes :
      (job : DistributedTraining) (b : Option (JobBackend rt)) (trained : String) (w : World rt)
      → deletions (after_training job b trained w).1.trace ≡ suc (deletions w.trace)
  unfolding after_training start_deletion ◌>>=◌ deletions AnyStatus
  after_training-deletes job b trained w =
      (kept.at (record w { trace = delete_node_pool (node_pool_name job) ∷ w.trace })
        (record { status = tt; calls = refl })).calls
    where
      quiet : Quiet {rt = rt} (λ t. deletions t ≡ suc (deletions w.trace))
      quiet = deletions-Quiet (suc (deletions w.trace))

      kept : Keeps (Inv {rt = rt} AnyStatus (λ t. deletions t ≡ suc (deletions w.trace))) (
          store_deletion r (r.cloud.delete w.trace (node_pool_name job))
          >> finish_collection r job b trained)
      kept =
          Keeps-bind _ _ (Keeps-store_deletion quiet anything r _)
            (λ _. Keeps-finish_collection quiet anything r job b trained)

  -- A pass of reconcileCollecting asks the cloud exactly once to delete the node pool, whatever the
  -- services answer.
  pub reconcile_collecting-deletes :
      (w : World rt) → deletions (reconcile_collecting r w).1.trace ≡ suc (deletions w.trace)
  unfolding reconcile_collecting ◌>>=◌ AnyStatus after_training
  reconcile_collecting-deletes w =
      let job = w.job in
      let b = backend_or_nil (get_backend r job) in
      let train = training_time r job b job.status.training_start_time in
      GoesOn-bind (λ m. deletions m.1.trace ≡ suc (deletions w.trace)) train (after_training job b)
        w (training_time-GoesOn job b job.status.training_start_time)
        (λ trained.
          after_training-deletes job b trained (train w).1
          ∙ ap suc
              ((Keeps-training_time (deletions-Quiet (deletions w.trace)) anything r job b
                  job.status.training_start_time).at
                w (record { status = tt; calls = refl })).calls)
