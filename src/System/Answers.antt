-- ===== src/System/Answers.antt =====
-- Handlers that always go on with an answer of some kind, one rule for each way to build a handler.
use praktikum.Prelude.{◌≡◌, refl, Bool, true, false, if◌then◌else◌}
use praktikum.Runtime.{Runtime, Error, Result, ok, err, on_result}
use praktikum.System.Calls.{Call, Trace}
use praktikum.System.Monad.{Handler, Flow, next, returned, ◌>>=◌, pure, emit, ask}

abbrev pub OnNext : {A : Type 0} → (A → Type 0) → Flow A → Type 0
OnNext Q (next a) = Q a
OnNext Q (returned o) = ⊥

OnNext-answer :
    {A : Type 0} {Q : A → Type 0} (f : Flow A) → OnNext Q f → (a : A) × (f ≡ next a) × Q a
OnNext-answer (next a) q = (a, refl, q)
OnNext-answer (returned o) q = elim q [ ]

OnNext-weaken :
    {A : Type 0} {Q R : A → Type 0} → ((a : A) → Q a → R a) → (f : Flow A) → OnNext Q f → OnNext R f
OnNext-weaken weaken (next a) q = weaken a q
OnNext-weaken weaken (returned o) q = elim q [ ]

-- In every world `m` goes on, and its answer satisfies `Q`.
pub record Answers {W A : Type 0} (Q : A → Type 0) (m : Handler W A) : Type 0 where
  pub at : (w : W) → OnNext Q (m w).0

-- A handler that always goes on.
abbrev pub GoesOn : {W A : Type 0} → Handler W A → Type 0
GoesOn m = Answers (λ a. Unit {0}) m

module _ {W A : Type 0} {Q : A → Type 0} where
  pub Answers-pure : (a : A) → Q a → Answers {W = W} Q (pure a)
  unfolding pure
  Answers-pure a q = record { at = λ w. q }

  pub Answers-if :
      (b : Bool) (m n : Handler W A) → Answers Q m → Answers Q n → Answers Q (if b then m else n)
  Answers-if true m n p q = p
  Answers-if false m n p q = q

  -- A test whose outcome the two branches may use.
  pub Answers-if_known :
      (b : Bool) (m n : Handler W A)
      → (b ≡ true → Answers Q m)
      → (b ≡ false → Answers Q n)
      → Answers Q (if b then m else n)
  Answers-if_known true m n p q = p refl
  Answers-if_known false m n p q = q refl

  pub Answers-on_result :
      {B : Type 0} (x : Result B) (f : B → Handler W A) (g : Error → Handler W A)
      → ((b : B) → Answers Q (f b))
      → ((e : Error) → Answers Q (g e))
      → Answers Q (on_result x f g)
  Answers-on_result (ok b) f g p q = p b
  Answers-on_result (err e) f g p q = q e

  -- The answer, as a value.
  pub Answers-value : {m : Handler W A} → Answers Q m → (w : W) → (a : A) × ((m w).0 ≡ next a) × Q a
  Answers-value {m = m} p w = OnNext-answer (m w).0 (p.at w)

module _ {W A : Type 0} {Q R : A → Type 0} (weaken : (a : A) → Q a → R a) where
  pub Answers-weaken : {m : Handler W A} → Answers Q m → Answers R m
  Answers-weaken {m = m} p = record { at = λ w. OnNext-weaken weaken (m w).0 (p.at w) }

module _ {rt : Runtime} where
  pub GoesOn-emit : (c : Call rt) → GoesOn (emit c)
  unfolding emit
  GoesOn-emit c = record { at = λ w. tt }

  pub GoesOn-ask : {A : Type 0} (c : Call rt) (answer : Trace rt → A) → GoesOn (ask c answer)
  unfolding ask
  GoesOn-ask c answer = record { at = λ w. tt }

module _ {W A B : Type 0} {Q : A → Type 0} {R : B → Type 0} where
  resume-Answers :
      (f : A → Handler W B) (m : Flow A × W)
      → ((a : A) → Q a → Answers R (f a))
      → OnNext Q m.0
      → (n : Handler W A) (w : W) → n w ≡ m
      → OnNext R (◌>>=◌ n f w).0
  unfolding ◌>>=◌
  resume-Answers f (next a, v) k h n w e = rw e ((k a h).at v)
  resume-Answers f (returned o, v) k h n w e = elim h [ ]

  pub Answers-bind :
      (m : Handler W A) (f : A → Handler W B)
      → Answers Q m
      → ((a : A) → Q a → Answers R (f a))
      → Answers R (m >>= f)
  Answers-bind m f p k = record { at = λ w. resume-Answers f (m w) k (p.at w) m w refl }

module _ {W A B : Type 0} {R : B → Type 0} where
  -- The usual case: nothing is needed of the first answer.
  pub Answers-then :
      (m : Handler W A) (f : A → Handler W B)
      → GoesOn m
      → ((a : A) → Answers R (f a))
      → Answers R (m >>= f)
  Answers-then m f p k = Answers-bind m f p (λ a u. k a)

-- Of a handler that goes on, what follows runs in the world that it leaves.
module _ {W A B : Type 0} (R : Flow B × W → Type 0) where
  resume-after :
      (f : A → Handler W B) (x : Flow A × W)
      → OnNext (λ a. Unit {0}) x.0
      → ((a : A) → R (f a x.1))
      → (n : Handler W A) (w : W) → n w ≡ x
      → R (◌>>=◌ n f w)
  unfolding ◌>>=◌
  resume-after f (next a, v) g k n w e = rw e (k a)
  resume-after f (returned o, v) g k n w e = elim g [ ]

  pub GoesOn-bind :
      (m : Handler W A) (f : A → Handler W B) (w : W)
      → GoesOn m
      → ((a : A) → R (f a (m w).1))
      → R ((m >>= f) w)
  GoesOn-bind m f w g k = resume-after f (m w) (g.at w) k m w refl

pub ruleset answers_rules =
    (Answers-pure, Answers-if, Answers-on_result, GoesOn-emit, GoesOn-ask, Answers-then)
