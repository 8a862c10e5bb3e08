-- ===== src/System/Accepts.antt =====
-- Handlers on an API server that accepts each status patch.
use praktikum.Prelude.{◌≡◌, Option, none, some, String}
use praktikum.Runtime.{Runtime, Error}
use praktikum.Api.{DistributedTraining, DistributedTrainingStatus}
use praktikum.System.Calls.{Trace, Reconciler}
use praktikum.System.Monad.{World, ◌>>=◌, current, must, must_not, change_status, change_memory}
use praktikum.System.Answers.{Answers, GoesOn, Answers-weaken, Answers-bind}
use praktikum.System.Ends.{MayEnd, MayEnd-known, MayEnd-GoesOn}

-- No status patch is refused.
pub record AcceptsPatches {rt : Runtime} (r : Reconciler rt) : Type 0 where
  pub patches : (t : Trace rt) (s : DistributedTrainingStatus) → r.cluster.status_patch t s ≡ none

abbrev pub IsAccepted : Option Error → Type 0
IsAccepted o = o ≡ none

module _ {rt : Runtime} (r : Reconciler rt) (accepts : AcceptsPatches r) where
  pub change_status-IsAccepted :
      (f : DistributedTrainingStatus → DistributedTrainingStatus)
      → Answers IsAccepted (change_status r f)
  unfolding change_status
  change_status-IsAccepted f = record { at = λ w. accepts.patches w.trace (f w.job.status) }

module _ {rt : Runtime} where
  pub must-GoesOn :
      (prefix : String) (o : Option Error) → IsAccepted o → GoesOn {W = World rt} (must prefix o)
  unfolding must
  must-GoesOn prefix none e = record { at = λ w. tt }
  must-GoesOn prefix (some x) e = cc

  pub must_not-GoesOn : (o : Option Error) → IsAccepted o → GoesOn {W = World rt} (must_not o)
  unfolding must_not
  must_not-GoesOn none e = record { at = λ w. tt }
  must_not-GoesOn (some x) e = cc

  pub current-GoesOn : GoesOn {W = World rt} current
  unfolding current
  current-GoesOn = record { at = λ w. tt }

module _ {rt : Runtime} (r : Reconciler rt) (accepts : AcceptsPatches r)
    {Q : DistributedTrainingStatus → Type 0} where
  -- A patch whose refusal ends the pass.
  pub MayEnd-patch :
      (f : DistributedTrainingStatus → DistributedTrainingStatus) (prefix : String)
      → MayEnd Q (change_status r f >>= λ reply. must prefix reply)
  MayEnd-patch f prefix =
      MayEnd-known _ _ (change_status-IsAccepted r accepts f)
        (λ reply e. MayEnd-GoesOn _ (must-GoesOn prefix reply e))

module _ {rt : Runtime} (r : Reconciler rt) (accepts : AcceptsPatches r) where
  -- A patch whose refusal is only logged.
  pub change_status-GoesOn :
      (f : DistributedTrainingStatus → DistributedTrainingStatus) → GoesOn (change_status r f)
  change_status-GoesOn f = Answers-weaken (λ o e. tt) (change_status-IsAccepted r accepts f)

  pub patch_not-GoesOn :
      (f : DistributedTrainingStatus → DistributedTrainingStatus)
      → GoesOn (change_status r f >>= λ reply. must_not reply)
  patch_not-GoesOn f =
      Answers-bind _ _ (change_status-IsAccepted r accepts f) (λ reply e. must_not-GoesOn reply e)

module _ {rt : Runtime} where
  pub change_memory-GoesOn :
      (f : DistributedTraining → DistributedTraining) → GoesOn {W = World rt} (change_memory f)
  unfolding change_memory
  change_memory-GoesOn f = record { at = λ w. tt }
