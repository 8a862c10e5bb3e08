-- ===== src/Controller/Progress.antt =====
-- A job whose passes are served gets on: each pass of Reconcile brings it nearer to its end.
pub mod Finish
use praktikum.Prelude.{
  ℕ, zero, suc, ◌≤◌, ◌<◌, Bool, true, false, Option, none, some, List, [], ◌∷◌, ◌≡◌, ◌⊎◌, inl, inr,
  refl, sym, is_empty, if◌then◌else◌, length, ◌∙◌, arith,
}
use praktikum.Runtime.{Runtime, Error}
use praktikum.Api.{Phase, DistributedTraining, DistributedTrainingStatus, ObjectiveSpec}
use praktikum.System.{World, Reconciler, ◌>>=◌}
use praktikum.System.Accepts.{AcceptsPatches}
use praktikum.System.Answers.{GoesOn}
use praktikum.Solver.Run.{run_solver}
use praktikum.Solver.Run.Goes.{run_solver-GoesOn}
use praktikum.Controller.Defaults.{get_backend}
use praktikum.Controller.Transitions.Ends.{set_phase-Ends}
use praktikum.Controller.Pending.Ends.{IsDecided, reconcile_pending-Ends}
use praktikum.Controller.Provisioning.Ends.{
  IsBegun, IsProvided, Provides, NodesReady, reconcile_provisioning-begins,
  reconcile_provisioning-provides,
}
use praktikum.Controller.Ready.Ends.{IsSubmitted, Applies, reconcile_ready-Ends}
use praktikum.Controller.Running.Ends.{IsOver, ReportsOver, reconcile_running-ends}
use praktikum.Controller.Collecting.Ends.{IsSucceeded, reconcile_collecting-Ends}
use praktikum.Controller.Delete.{contains, finalizer_name}
use praktikum.Controller.Reconcile.{handle_phase, reconcile_job, reconcile, fetched}
use praktikum.Controller.Lifecycle.{Edge, reconcile-Edge}
use praktikum.Controller.Runs.{rank, passes, passes-final}

-- The passes that a job still needs; `idle` says that no creation of its pool has begun.
abbrev pub left_in : Phase → (idle : Bool) → ℕ
left_in (Phase.other s) idle = 7
left_in Phase.unset idle = 6
left_in Phase.pending idle = 6
left_in Phase.provisioning true = 5
left_in Phase.provisioning false = 4
left_in Phase.ready idle = 3
left_in Phase.running idle = 2
left_in Phase.collecting idle = 1
left_in Phase.succeeded idle = 0
left_in Phase.failed idle = 0

abbrev pub left : DistributedTrainingStatus → ℕ
left s = left_in s.phase (is_empty s.gke_operation_id)

-- Which steps the conclusions of the handlers allow.
provisioning-left : (idle : Bool) → left_in Phase.provisioning idle < 6
provisioning-left true = omega arith
provisioning-left false = omega arith

IsDecided-left : (s : DistributedTrainingStatus) → IsDecided s → left s < 6
IsDecided-left s (inl e) = rw e (provisioning-left (is_empty s.gke_operation_id))
IsDecided-left s (inr e) = rw e (omega arith)

begun-left : (p : Phase) → Edge Phase.provisioning p → left_in p false < 5
begun-left Phase.provisioning step = omega arith
begun-left Phase.ready step = omega arith
begun-left Phase.failed step = omega arith
begun-left Phase.unset step = elim step [ ]
begun-left Phase.pending step = elim step [ ]
begun-left Phase.running step = elim step [ ]
begun-left Phase.collecting step = elim step [ ]
begun-left Phase.succeeded step = elim step [ ]
begun-left (Phase.other s) step = elim step [ ]

Edge-from : {p q x : Phase} → p ≡ q → Edge p x → Edge q x
Edge-from e step = rw (sym e) step

IsBegun-left :
    (s : DistributedTrainingStatus) → IsBegun s → Edge Phase.provisioning s.phase → left s < 5
IsBegun-left s (inl e) step = rw e (begun-left s.phase step)
IsBegun-left s (inr e) step = rw e (omega arith)

IsProvided-left : (s : DistributedTrainingStatus) → IsProvided s → left s < 4
IsProvided-left s (inl e) = rw e (omega arith)
IsProvided-left s (inr e) = rw e (omega arith)

IsSubmitted-left : (s : DistributedTrainingStatus) → IsSubmitted s → left s < 3
IsSubmitted-left s (inl e) = rw e (omega arith)
IsSubmitted-left s (inr e) = rw e (omega arith)

IsOver-left : (s : DistributedTrainingStatus) → IsOver s → left s < 2
IsOver-left s (inl e) = rw e (omega arith)
IsOver-left s (inr e) = rw e (omega arith)

abbrev IsPending : DistributedTrainingStatus → Type 0
IsPending s = s.phase ≡ Phase.pending

IsSucceeded-left : (s : DistributedTrainingStatus) → IsSucceeded s → left s < 1
IsSucceeded-left s e = rw e (omega arith)

IsPending-left : (s : DistributedTrainingStatus) → IsPending s → left s < 7
IsPending-left s e = rw e (omega arith)

pub left-final :
    (s : DistributedTrainingStatus)
    → left s ≤ 0
    → (s.phase ≡ Phase.succeeded) ⊎ (s.phase ≡ Phase.failed)
left-final s h = final s.phase (is_empty s.gke_operation_id) h
  where
    final :
        (p : Phase) (idle : Bool) → left_in p idle ≤ 0 → (p ≡ Phase.succeeded) ⊎ (p ≡ Phase.failed)
    final Phase.succeeded idle h = inl refl
    final Phase.failed idle h = inr refl
    final (Phase.other s) idle h = absurd (omega arith)
    final Phase.unset idle h = absurd (omega arith)
    final Phase.pending idle h = absurd (omega arith)
    final Phase.provisioning true h = absurd (omega arith)
    final Phase.provisioning false h = absurd (omega arith)
    final Phase.ready idle h = absurd (omega arith)
    final Phase.running idle h = absurd (omega arith)
    final Phase.collecting idle h = absurd (omega arith)

-- A pass over a job that is not being deleted and has its finalizer, by services that work: the API
-- server accepts each patch and answers each apply for good, the cloud's operations are over and
-- the nodes of the pool are ready, and the backend reports that the job is over.
pub record Serves {rt : Runtime} (r : Reconciler rt) (w : World rt) : Type 0 where
  pub live : w.stored.deleted ≡ false
  pub finalizer : contains finalizer_name w.stored.finalizers ≡ true
  pub accepts : AcceptsPatches r
  pub applies : Applies r
  pub provides : Provides r
  pub nodes : w.stored.status.phase ≡ Phase.provisioning → NodesReady r w.stored
  pub reports : w.stored.status.phase ≡ Phase.running → ReportsOver (get_backend r w.stored)

module _ {rt : Runtime} (r : Reconciler rt) (w : World rt) (serves : Serves r w) where
  -- Such a pass runs the handler of the stored phase.
  reconcile-handles :
      (p : Phase)
      → w.stored.status.phase ≡ p
      → (reconcile r none w).1 ≡ (handle_phase r p (fetched r w)).1
  unfolding reconcile reconcile_job ◌>>=◌
  reconcile-handles p e = simp (serves.live, serves.finalizer, e) refl

  solves : (job : DistributedTraining) (obj : ObjectiveSpec) → GoesOn (run_solver r job obj)
  solves job obj = run_solver-GoesOn r job obj

  ended-left :
      (Q : DistributedTrainingStatus → Type 0) (n : ℕ)
      → ((s : DistributedTrainingStatus) → Q s → left s < n)
      → (p : Phase) → w.stored.status.phase ≡ p
      → Q (handle_phase r p (fetched r w)).1.stored.status
      → left (reconcile r none w).1.stored.status < n
  ended-left Q n bound p e q =
      rw (reconcile-handles p e) (bound (handle_phase r p (fetched r w)).1.stored.status q)

  -- It leaves less to do, unless the job is at its end.
  reconcile_in-left :
      (p : Phase) (idle : Bool)
      → w.stored.status.phase ≡ p
      → is_empty w.stored.status.gke_operation_id ≡ idle
      → 1 ≤ left_in p idle
      → left (reconcile r none w).1.stored.status < left_in p idle
  unfolding handle_phase
  reconcile_in-left Phase.unset idle e o h =
      (ended-left IsDecided 6 IsDecided-left Phase.unset e
        ((reconcile_pending-Ends r serves.accepts solves).at (fetched r w)))
  reconcile_in-left Phase.pending idle e o h =
      (ended-left IsDecided 6 IsDecided-left Phase.pending e
        ((reconcile_pending-Ends r serves.accepts solves).at (fetched r w)))
  reconcile_in-left Phase.provisioning true e o h =
      IsBegun-left (reconcile r none w).1.stored.status
        (rw (reconcile-handles Phase.provisioning e)
          (reconcile_provisioning-begins r serves.accepts serves.provides (fetched r w) o))
        (Edge-from e (reconcile-Edge r none w))
  reconcile_in-left Phase.provisioning false e o h =
      (ended-left IsProvided 4 IsProvided-left Phase.provisioning e (
        reconcile_provisioning-provides r serves.accepts serves.provides (fetched r w) o
          (serves.nodes e)))
  reconcile_in-left Phase.ready idle e o h =
      (ended-left IsSubmitted 3 IsSubmitted-left Phase.ready e
        ((reconcile_ready-Ends r serves.accepts serves.applies).at (fetched r w)))
  reconcile_in-left Phase.running idle e o h =
      (ended-left IsOver 2 IsOver-left Phase.running e
        (reconcile_running-ends r serves.accepts (fetched r w) (serves.reports e)))
  reconcile_in-left Phase.collecting idle e o h =
      (ended-left IsSucceeded 1 IsSucceeded-left Phase.collecting e
        ((reconcile_collecting-Ends r serves.accepts).at (fetched r w)))
  reconcile_in-left (Phase.other s) idle e o h =
      (ended-left IsPending 7 IsPending-left (Phase.other s) e
        ((set_phase-Ends r serves.accepts Phase.pending _ (λ s h. h)).at (fetched r w)))
  reconcile_in-left Phase.succeeded idle e o h = absurd (omega arith)
  reconcile_in-left Phase.failed idle e o h = absurd (omega arith)

  -- A served pass over a job that is not at its end leaves it fewer passes to go.
  pub reconcile-left :
      1 ≤ left w.stored.status → left (reconcile r none w).1.stored.status < left w.stored.status
  reconcile-left h =
      reconcile_in-left w.stored.status.phase (is_empty w.stored.status.gke_operation_id) refl refl
        h
