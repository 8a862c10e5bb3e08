-- ===== src/System/Monad.antt =====
-- The world of one reconcile pass: the object in memory, the object that the API server stores, and
-- the calls made so far. A handler runs until it returns an outcome, as a Go method does.
use praktikum.Prelude.{ℕ, String, Bool, true, false, Option, none, some, ◌∷◌}
use praktikum.Api.{DistributedTraining, DistributedTrainingStatus}
use praktikum.Runtime.{Error, Runtime, wrap}
use praktikum.System.Calls.{Call, Trace, EventType, Reconciler, patch_status, read_clock, event}

pub record World (rt : Runtime) : Type 0 where
  pub job : DistributedTraining
  pub stored : DistributedTraining
  pub trace : Trace rt

-- `ctrl.Result` and the error; `requeue_after` is in seconds.
pub record Outcome : Type 0 where
  pub requeue : Bool
  pub requeue_after : ℕ
  pub error : Option Error

-- return ctrl.Result{}, nil
abbrev pub finished : Outcome
finished = record { requeue = false; requeue_after = 0; error = none }

-- return ctrl.Result{RequeueAfter: s}, nil
abbrev pub again_after : ℕ → Outcome
again_after s = record { requeue = false; requeue_after = s; error = none }

-- return ctrl.Result{}, err
abbrev pub fail_with : Error → Outcome
fail_with e = record { requeue = false; requeue_after = 0; error = some e }

pub data Flow (A : Type 0) : Type 0 where
  next : A → Flow A
  returned : Outcome → Flow A

abbrev pub Handler : Type 0 → Type 0 → Type 0
Handler W A = W → Flow A × W

module _ {W : Type 0} where
  unfoldable pub pure : {A : Type 0} → A → Handler W A
  pure a w = (next a, w)

  -- return
  unfoldable pub give : {A : Type 0} → Outcome → Handler W A
  give o w = (returned o, w)

  -- if err != nil { return ctrl.Result{}, fmt.Errorf("prefix: %w", err) }
  unfoldable pub must : String → Option Error → Handler W (Unit {0})
  must prefix none w = (next tt, w)
  must prefix (some e) w = (returned (fail_with (wrap prefix e)), w)

  -- if err != nil { return ctrl.Result{}, err }
  unfoldable pub must_not : Option Error → Handler W (Unit {0})
  must_not none w = (next tt, w)
  must_not (some e) w = (returned (fail_with e), w)

abbrev pub set_status :
    (DistributedTrainingStatus → DistributedTrainingStatus)
    → DistributedTraining
    → DistributedTraining
set_status f job = record job { status = f job.status }

module _ {rt : Runtime} where
  unfoldable pub current : Handler (World rt) DistributedTraining
  current w = (next w.job, w)

  -- A change of the object in memory alone.
  unfoldable pub change_memory :
      (DistributedTraining → DistributedTraining) → Handler (World rt) (Unit {0})
  change_memory f w = (next tt, record w { job = f w.job })

  -- A call whose answer is not needed.
  unfoldable pub emit : Call rt → Handler (World rt) (Unit {0})
  emit c w = (next tt, record w { trace = c ∷ w.trace })

  -- A call and its answer, which may depend on the calls before it.
  unfoldable pub ask : {A : Type 0} → Call rt → (Trace rt → A) → Handler (World rt) A
  ask c answer w = (next (answer w.trace), record w { trace = c ∷ w.trace })

  -- The world after an accepted, and after a refused patch of the status.
  abbrev pub accepted :
      (DistributedTrainingStatus → DistributedTrainingStatus) → World rt → World rt
  accepted f w = record {
    job = set_status f w.job;
    stored = set_status f w.stored;
    trace = patch_status true ∷ w.trace;
  }

  abbrev pub refused : (DistributedTrainingStatus → DistributedTrainingStatus) → World rt → World rt
  refused f w = record {
    job = set_status f w.job;
    stored = w.stored;
    trace = patch_status false ∷ w.trace;
  }

  abbrev pub settle :
      (DistributedTrainingStatus → DistributedTrainingStatus) → Option Error → World rt → World rt
  settle f none w = accepted f w
  settle f (some e) w = refused f w

  -- patch := client.MergeFrom(job.DeepCopy()); the change; err := r.Status().Patch(ctx, job,
  -- patch). A merge patch carries just the fields that the change sets.
  unfoldable pub change_status :
      Reconciler rt
      → (DistributedTrainingStatus → DistributedTrainingStatus)
      → Handler (World rt) (Option Error)
  change_status r f w =
      let reply = r.cluster.status_patch w.trace (f w.job.status) in (next reply, settle f reply w)

  -- metav1.Now(), time.Now()
  abbrev pub now : Reconciler rt → Handler (World rt) ℕ
  now r = ask read_clock r.cluster.now

  -- r.Recorder.Event(job, type, reason, message)
  abbrev pub record_event : EventType → String → String → Handler (World rt) (Unit {0})
  record_event t reason message = emit (event t reason message)

module _ {W : Type 0} where
  abbrev resume : {A B : Type 0} → (A → Handler W B) → Flow A × W → Flow B × W
  resume f (next a, w) = f a w
  resume f (returned o, w) = (returned o, w)

  -- Opening this opens the primitives too.
  infixl 5 ◌>>=◌ ◌>>◌
  unfoldable pub ◌>>=◌ : {A B : Type 0} → Handler W A → (A → Handler W B) → Handler W B
  unfolding pure give must must_not current change_memory emit ask change_status
  ◌>>=◌ m f w = resume f (m w)

  abbrev pub ◌>>◌ : {A B : Type 0} → Handler W A → Handler W B → Handler W B
  m >> n = m >>= λ _. n
