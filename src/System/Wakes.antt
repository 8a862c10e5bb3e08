-- ===== src/System/Wakes.antt =====
-- Handlers that do not let a job go to sleep: one rule for each way to build a handler. A pass that
-- returns asks to be called again, or it has failed the job.
use praktikum.Prelude.{
  ℕ, ◌≤◌, ◌≡◌, ◌⊎◌, inl, inr, refl, Bool, true, false, Option, none, some, String, if◌then◌else◌,
  on_option,
}
use praktikum.Runtime.{Runtime, Error, Result, ok, err, on_result}
use praktikum.Api.{Phase, DistributedTraining, DistributedTrainingStatus}
use praktikum.System.Calls.{Call, Trace, Reconciler}
use praktikum.System.Monad.{
  World, Handler, Flow, Outcome, next, returned, ◌>>=◌, pure, give, must, must_not, current,
  change_memory, emit, ask, change_status, again_after, fail_with,
}
use praktikum.System.Answers.{GoesOn, OnNext}

-- The outcome makes controller-runtime call Reconcile again.
abbrev pub AsksAgain : Outcome → Type 0
AsksAgain o = (o.requeue ≡ true) ⊎ (1 ≤ o.requeue_after) ⊎ ((e : Error) × (o.error ≡ some e))

abbrev pub IsAwake : Outcome → DistributedTrainingStatus → Type 0
IsAwake o s = AsksAgain o ⊎ (s.phase ≡ Phase.failed)

module _ {rt : Runtime} where
  abbrev pub OnFlow : {A : Type 0} → (ends : Bool) → Flow A × World rt → Type 0
  OnFlow ends (next a, w) = ends ≡ false
  OnFlow ends (returned o, w) = IsAwake o w.stored.status

  -- Where `m` returns, the job is awake; if `ends`, it always returns.
  pub record Wakes {A : Type 0} (ends : Bool) (m : Handler (World rt) A) : Type 0 where
    pub at : (w : World rt) → OnFlow ends (m w)

module _ {rt : Runtime} {A B : Type 0} {ends : Bool} where
  resume-Wakes :
      (f : A → Handler (World rt) B) (x : Flow A × World rt)
      → OnFlow false x
      → ((a : A) → Wakes ends (f a))
      → (n : Handler (World rt) A) (w : World rt) → n w ≡ x
      → OnFlow ends (◌>>=◌ n f w)
  unfolding ◌>>=◌
  resume-Wakes f (next a, v) h k n w e = rw e ((k a).at v)
  resume-Wakes f (returned o, v) h k n w e = rw e h

  pub Wakes-bind :
      (m : Handler (World rt) A) (f : A → Handler (World rt) B)
      → Wakes false m
      → ((a : A) → Wakes ends (f a))
      → Wakes ends (m >>= f)
  Wakes-bind m f p k = record { at = λ w. resume-Wakes f (m w) (p.at w) k m w refl }

module _ {rt : Runtime} {A : Type 0} {ends : Bool} where
  pub Wakes-give : (o : Outcome) → AsksAgain o → Wakes {rt = rt} {A = A} ends (give o)
  unfolding give
  Wakes-give o h = record { at = λ w. inl h }

  pub Wakes-again_after : (s : ℕ) → 1 ≤ s → Wakes {rt = rt} {A = A} ends (give (again_after s))
  Wakes-again_after s h = Wakes-give (again_after s) (inr (inl h))

  pub Wakes-fail_with : (e : Error) → Wakes {rt = rt} {A = A} ends (give (fail_with e))
  Wakes-fail_with e = Wakes-give (fail_with e) (inr (inr (e, refl)))

  pub Wakes-if :
      (b : Bool) (m n : Handler (World rt) A)
      → Wakes ends m
      → Wakes ends n
      → Wakes ends (if b then m else n)
  Wakes-if true m n p q = p
  Wakes-if false m n p q = q

  pub Wakes-on_result :
      {B : Type 0} (x : Result B) (f : B → Handler (World rt) A) (g : Error → Handler (World rt) A)
      → ((b : B) → Wakes ends (f b))
      → ((e : Error) → Wakes ends (g e))
      → Wakes ends (on_result x f g)
  Wakes-on_result (ok b) f g p q = p b
  Wakes-on_result (err e) f g p q = q e

  pub Wakes-on_option :
      {B : Type 0} (x : Option B) (n : Handler (World rt) A) (f : B → Handler (World rt) A)
      → Wakes ends n
      → ((b : B) → Wakes ends (f b))
      → Wakes ends (on_option x n f)
  Wakes-on_option none n f p q = p
  Wakes-on_option (some b) n f p q = q b

module _ {rt : Runtime} {A : Type 0} where
  pub Wakes-pure : (a : A) → Wakes {rt = rt} false (pure a)
  unfolding pure
  Wakes-pure a = record { at = λ w. refl }

  pub Wakes-ask : (c : Call rt) (answer : Trace rt → A) → Wakes false (ask c answer)
  unfolding ask
  Wakes-ask c answer = record { at = λ w. refl }

  OnNext-OnFlow : (x : Flow A × World rt) → OnNext (λ a. Unit {0}) x.0 → OnFlow false x
  OnNext-OnFlow (next a, w) u = refl
  OnNext-OnFlow (returned o, w) u = elim u [ ]

  pub Wakes-GoesOn : (m : Handler (World rt) A) → GoesOn m → Wakes false m
  Wakes-GoesOn m g = record { at = λ w. OnNext-OnFlow (m w) (g.at w) }

  OnFlow-weaken : (x : Flow A × World rt) → OnFlow true x → OnFlow false x
  OnFlow-weaken (next a, w) u = refl
  OnFlow-weaken (returned o, w) u = u

  pub Wakes-weaken : (m : Handler (World rt) A) → Wakes true m → Wakes false m
  Wakes-weaken m p = record { at = λ w. OnFlow-weaken (m w) (p.at w) }

module _ {rt : Runtime} where
  pub Wakes-must : (prefix : String) (o : Option Error) → Wakes {rt = rt} false (must prefix o)
  unfolding must
  Wakes-must prefix none = record { at = λ w. refl }
  Wakes-must prefix (some e) = record { at = λ w. inl (inr (inr (_, refl))) }

  pub Wakes-must_not : (o : Option Error) → Wakes {rt = rt} false (must_not o)
  unfolding must_not
  Wakes-must_not none = record { at = λ w. refl }
  Wakes-must_not (some e) = record { at = λ w. inl (inr (inr (_, refl))) }

  pub Wakes-current : Wakes {rt = rt} false current
  unfolding current
  Wakes-current = record { at = λ w. refl }

  pub Wakes-change_memory :
      (f : DistributedTraining → DistributedTraining) → Wakes {rt = rt} false (change_memory f)
  unfolding change_memory
  Wakes-change_memory f = record { at = λ w. refl }

  pub Wakes-emit : (c : Call rt) → Wakes false (emit c)
  unfolding emit
  Wakes-emit c = record { at = λ w. refl }

  pub Wakes-change_status :
      (r : Reconciler rt) (f : DistributedTrainingStatus → DistributedTrainingStatus)
      → Wakes false (change_status r f)
  unfolding change_status
  Wakes-change_status r f = record { at = λ w. refl }

pub ruleset wakes_rules = (
  Wakes-fail_with, Wakes-if, Wakes-on_result, Wakes-on_option, Wakes-bind, Wakes-pure, Wakes-ask,
  Wakes-must, Wakes-must_not, Wakes-current, Wakes-change_memory, Wakes-emit, Wakes-change_status,
)
