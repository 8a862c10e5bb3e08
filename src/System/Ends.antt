-- ===== src/System/Ends.antt =====
-- How a handler ends, by the status that is stored when it returns: one rule for each way to build a
-- handler.
use praktikum.Prelude.{◌≡◌, refl, Bool, true, false, if◌then◌else◌}
use praktikum.Runtime.{Runtime}
use praktikum.Api.{DistributedTrainingStatus}
use praktikum.System.Calls.{Call, Trace}
use praktikum.System.Monad.{World, Handler, Flow, next, returned, ◌>>=◌, pure, ask}
use praktikum.System.Answers.{Answers, GoesOn, OnNext}

module _ {rt : Runtime} where
  abbrev OnReturn : {A : Type 0} → (DistributedTrainingStatus → Type 0) → Flow A × World rt → Type 0
  OnReturn Q (next a, w) = Unit {0}
  OnReturn Q (returned o, w) = Q w.stored.status

  -- Where `m` returns, the stored status has `Q`; it may also go on.
  pub record MayEnd {A : Type 0} (Q : DistributedTrainingStatus → Type 0) (m : Handler (World rt) A)
      : Type 0 where
    pub at : (w : World rt) → OnReturn Q (m w)

  -- However `m` comes to its end, the stored status has `Q`.
  pub record Ends {A : Type 0} (Q : DistributedTrainingStatus → Type 0) (m : Handler (World rt) A)
      : Type 0 where
    pub at : (w : World rt) → Q (m w).1.stored.status

module _ {rt : Runtime} {A B : Type 0} {Q : DistributedTrainingStatus → Type 0} where
  resume-Ends :
      (f : A → Handler (World rt) B) (x : Flow A × World rt)
      → OnReturn Q x
      → ((a : A) → Ends Q (f a))
      → (n : Handler (World rt) A) (w : World rt) → n w ≡ x
      → Q (◌>>=◌ n f w).1.stored.status
  unfolding ◌>>=◌
  resume-Ends f (next a, v) q k n w e = rw e ((k a).at v)
  resume-Ends f (returned o, v) q k n w e = rw e q

  pub Ends-bind :
      (m : Handler (World rt) A) (f : A → Handler (World rt) B)
      → MayEnd Q m
      → ((a : A) → Ends Q (f a))
      → Ends Q (m >>= f)
  Ends-bind m f p k = record { at = λ w. resume-Ends f (m w) (p.at w) k m w refl }

  resume-MayEnd :
      (f : A → Handler (World rt) B) (x : Flow A × World rt)
      → OnReturn Q x
      → ((a : A) → MayEnd Q (f a))
      → (n : Handler (World rt) A) (w : World rt) → n w ≡ x
      → OnReturn Q (◌>>=◌ n f w)
  unfolding ◌>>=◌
  resume-MayEnd f (next a, v) q k n w e = rw e ((k a).at v)
  resume-MayEnd f (returned o, v) q k n w e = rw e q

  pub MayEnd-bind :
      (m : Handler (World rt) A) (f : A → Handler (World rt) B)
      → MayEnd Q m
      → ((a : A) → MayEnd Q (f a))
      → MayEnd Q (m >>= f)
  MayEnd-bind m f p k = record { at = λ w. resume-MayEnd f (m w) (p.at w) k m w refl }

  -- The same after a handler whose answer is known to some extent.
  resume-known :
      {P : A → Type 0} (f : A → Handler (World rt) B) (x : Flow A × World rt)
      → OnNext P x.0
      → ((a : A) → P a → Ends Q (f a))
      → (n : Handler (World rt) A) (w : World rt) → n w ≡ x
      → Q (◌>>=◌ n f w).1.stored.status
  unfolding ◌>>=◌
  resume-known f (next a, v) q k n w e = rw e ((k a q).at v)
  resume-known f (returned o, v) q k n w e = elim q [ ]

  pub Ends-known :
      {P : A → Type 0} (m : Handler (World rt) A) (f : A → Handler (World rt) B)
      → Answers P m
      → ((a : A) → P a → Ends Q (f a))
      → Ends Q (m >>= f)
  Ends-known m f p k = record { at = λ w. resume-known f (m w) (p.at w) k m w refl }

  resume_on-known :
      {P : A → Type 0} (f : A → Handler (World rt) B) (x : Flow A × World rt)
      → OnNext P x.0
      → ((a : A) → P a → MayEnd Q (f a))
      → (n : Handler (World rt) A) (w : World rt) → n w ≡ x
      → OnReturn Q (◌>>=◌ n f w)
  unfolding ◌>>=◌
  resume_on-known f (next a, v) q k n w e = rw e ((k a q).at v)
  resume_on-known f (returned o, v) q k n w e = elim q [ ]

  pub MayEnd-known :
      {P : A → Type 0} (m : Handler (World rt) A) (f : A → Handler (World rt) B)
      → Answers P m
      → ((a : A) → P a → MayEnd Q (f a))
      → MayEnd Q (m >>= f)
  MayEnd-known m f p k = record { at = λ w. resume_on-known f (m w) (p.at w) k m w refl }

module _ {rt : Runtime} {A : Type 0} where
  OnNext-OnReturn :
      (Q : DistributedTrainingStatus → Type 0) (x : Flow A × World rt)
      → OnNext (λ a. Unit {0}) x.0
      → OnReturn Q x
  OnNext-OnReturn Q (next a, w) u = tt
  OnNext-OnReturn Q (returned o, w) u = elim u [ ]

  OnReturn-weaken :
      (Q : DistributedTrainingStatus → Type 0) (x : Flow A × World rt)
      → Q x.1.stored.status
      → OnReturn Q x
  OnReturn-weaken Q (next a, w) q = tt
  OnReturn-weaken Q (returned o, w) q = q

module _ {rt : Runtime} {A : Type 0} {Q : DistributedTrainingStatus → Type 0} where
  pub MayEnd-GoesOn : (m : Handler (World rt) A) → GoesOn m → MayEnd Q m
  MayEnd-GoesOn m g = record { at = λ w. OnNext-OnReturn Q (m w) (g.at w) }

  pub MayEnd-if :
      (b : Bool) (m n : Handler (World rt) A)
      → MayEnd Q m
      → MayEnd Q n
      → MayEnd Q (if b then m else n)
  MayEnd-if true m n p q = p
  MayEnd-if false m n p q = q

  pub Ends-if :
      (b : Bool) (m n : Handler (World rt) A) → Ends Q m → Ends Q n → Ends Q (if b then m else n)
  Ends-if true m n p q = p
  Ends-if false m n p q = q

  -- The branch that is taken, where it is known.
  pub Ends-then :
      {b : Bool} (m n : Handler (World rt) A) → b ≡ true → Ends Q m → Ends Q (if b then m else n)
  Ends-then m n e p = rw e p

  pub Ends-else :
      {b : Bool} (m n : Handler (World rt) A) → b ≡ false → Ends Q n → Ends Q (if b then m else n)
  Ends-else m n e p = rw e p

  pub MayEnd-Ends : (m : Handler (World rt) A) → Ends Q m → MayEnd Q m
  MayEnd-Ends m e = record { at = λ w. OnReturn-weaken Q (m w) (e.at w) }

module _ {rt : Runtime} {A : Type 0} {P : A → Type 0} where
  pub Answers-ask :
      (c : Call rt) (answer : Trace rt → A)
      → ((t : Trace rt) → P (answer t))
      → Answers P (ask c answer)
  unfolding ask
  Answers-ask c answer h = record { at = λ w. h w.trace }

module _ {rt : Runtime} {A B : Type 0} {Q : DistributedTrainingStatus → Type 0} where
  resume_with :
      (a : A) (k : A → Handler (World rt) (Unit {0})) (x : Flow B × World rt)
      → OnReturn Q x
      → Ends Q (k a)
      → (n : Handler (World rt) B) (w : World rt) → n w ≡ x
      → Q (◌>>=◌ (◌>>=◌ n (λ b. pure a)) k w).1.stored.status
  unfolding pure ◌>>=◌
  resume_with a k (next b, v) u q n w e = rw e (q.at v)
  resume_with a k (returned o, v) u q n w e = rw e u

  -- A handler that ends the pass or goes on with the answer `a`.
  pub Ends-answer :
      (m : Handler (World rt) B) (a : A) (k : A → Handler (World rt) (Unit {0}))
      → MayEnd Q m
      → Ends Q (k a)
      → Ends Q ((m >>= λ b. pure a) >>= k)
  Ends-answer m a k p q = record { at = λ w. resume_with a k (m w) (p.at w) q m w refl }

module _ {rt : Runtime} {A B C : Type 0} where
  resume_assoc :
      (Q : DistributedTrainingStatus → Type 0) (f : A → Handler (World rt) B)
      (g : B → Handler (World rt) C) (x : Flow A × World rt) (n : Handler (World rt) A)
      (w : World rt)
      → n w ≡ x
      → Q (◌>>=◌ n (λ a. ◌>>=◌ (f a) g) w).1.stored.status
      → Q (◌>>=◌ (◌>>=◌ n f) g w).1.stored.status
  unfolding ◌>>=◌
  resume_assoc Q f g (next a, v) n w e q = rw e (rw e at q)
  resume_assoc Q f g (returned o, v) n w e q = rw e (rw e at q)

  pub Ends-assoc :
      {Q : DistributedTrainingStatus → Type 0} (m : Handler (World rt) A)
      (f : A → Handler (World rt) B) (g : B → Handler (World rt) C)
      → Ends Q (m >>= λ a. f a >>= g)
      → Ends Q ((m >>= f) >>= g)
  Ends-assoc {Q = Q} m f g e = record { at = λ w. resume_assoc Q f g (m w) m w refl (e.at w) }
