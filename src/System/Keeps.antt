-- ===== src/System/Keeps.antt =====
-- Invariants of handlers, one rule for each way to build a handler.
use praktikum.Prelude.{
  String, Bool, true, false, Option, none, some, ◌∷◌, ◌≡◌, refl, if◌then◌else◌, on_option,
}
use praktikum.Runtime.{Runtime, Error, Result, ok, err, on_result}
use praktikum.Api.{DistributedTraining, DistributedTrainingStatus}
use praktikum.System.Calls.{
  Call, Trace, Reconciler, create_node_pool, delete_node_pool, patch_status,
}
use praktikum.System.Monad.{
  World, Handler, Flow, next, returned, Outcome, ◌>>=◌, pure, give, must, must_not, current,
  change_memory, emit, ask, change_status, settle,
}

-- `m` keeps `P`, whether it goes on or returns.
pub record Keeps {W A : Type 0} (P : W → Type 0) (m : Handler W A) : Type 0 where
  pub at : (w : W) → P w → P (m w).1

module _ {W A : Type 0} {P : W → Type 0} where
  pub Keeps-pure : (a : A) → Keeps P (pure a)
  unfolding pure
  Keeps-pure a = record { at = λ w h. h }

  pub Keeps-give : (o : Outcome) → Keeps P (give {A = A} o)
  unfolding give
  Keeps-give o = record { at = λ w h. h }

  pub Keeps-if :
      (b : Bool) (m n : Handler W A) → Keeps P m → Keeps P n → Keeps P (if b then m else n)
  Keeps-if true m n km kn = km
  Keeps-if false m n km kn = kn

  pub Keeps-on_result :
      {B : Type 0} (x : Result B) (f : B → Handler W A) (g : Error → Handler W A)
      → ((b : B) → Keeps P (f b))
      → ((e : Error) → Keeps P (g e))
      → Keeps P (on_result x f g)
  Keeps-on_result (ok b) f g kf kg = kf b
  Keeps-on_result (err e) f g kf kg = kg e

  pub Keeps-on_option :
      {B : Type 0} (x : Option B) (n : Handler W A) (f : B → Handler W A)
      → Keeps P n
      → ((b : B) → Keeps P (f b))
      → Keeps P (on_option x n f)
  Keeps-on_option none n f kn kf = kn
  Keeps-on_option (some b) n f kn kf = kf b

module _ {W : Type 0} {P : W → Type 0} where
  pub Keeps-must : (prefix : String) (o : Option Error) → Keeps P (must prefix o)
  unfolding must
  Keeps-must prefix none = record { at = λ w h. h }
  Keeps-must prefix (some e) = record { at = λ w h. h }

  pub Keeps-must_not : (o : Option Error) → Keeps P (must_not o)
  unfolding must_not
  Keeps-must_not none = record { at = λ w h. h }
  Keeps-must_not (some e) = record { at = λ w h. h }

module _ {W A B : Type 0} {P : W → Type 0} where
  resume-keeps :
      (f : A → Handler W B) (m : Flow A × W)
      → ((a : A) → Keeps P (f a))
      → P m.1
      → (n : Handler W A) → (w : W) → n w ≡ m
      → P (◌>>=◌ n f w).1
  unfolding ◌>>=◌
  resume-keeps f (next a, v) kf h n w e = rw e ((kf a).at v h)
  resume-keeps f (returned o, v) kf h n w e = rw e h

  pub Keeps-bind :
      (m : Handler W A) (f : A → Handler W B)
      → Keeps P m
      → ((a : A) → Keeps P (f a))
      → Keeps P (m >>= f)
  Keeps-bind m f km kf = record { at = λ w h. resume-keeps f (m w) kf (km.at w h) m w refl }

-- The calls that create or delete a node pool.
abbrev pub touches_pool : {rt : Runtime} → Call rt → Bool
touches_pool (create_node_pool _ _) = true
touches_pool (delete_node_pool _) = true
touches_pool _ = false

-- `T` is kept by every call that touches no pool.
pub record Quiet {rt : Runtime} (T : Trace rt → Type 0) : Type 0 where
  pub step : (c : Call rt) → touches_pool c ≡ false → (t : Trace rt) → T t → T (c ∷ t)

-- A property of the stored status together with one of the calls made.
pub record Inv {rt : Runtime} (S : DistributedTrainingStatus → Type 0) (T : Trace rt → Type 0)
    (w : World rt) : Type 0 where
  pub status : S w.stored.status
  pub calls : T w.trace

module _ {rt : Runtime} {S : DistributedTrainingStatus → Type 0} {T : Trace rt → Type 0} where
  pub Keeps-current : Keeps (Inv S T) current
  unfolding current
  Keeps-current = record { at = λ w h. h }

  pub Keeps-change_memory :
      (f : DistributedTraining → DistributedTraining) → Keeps (Inv S T) (change_memory f)
  unfolding change_memory
  Keeps-change_memory f = record { at = λ w h. record { status = h.status; calls = h.calls } }

  pub Keeps-emit : (c : Call rt) → ((t : Trace rt) → T t → T (c ∷ t)) → Keeps (Inv S T) (emit c)
  unfolding emit
  Keeps-emit c k = record { at = λ w h. record { status = h.status; calls = k w.trace h.calls } }

  pub Keeps-ask :
      {A : Type 0} (c : Call rt) (answer : Trace rt → A)
      → ((t : Trace rt) → T t → T (c ∷ t))
      → Keeps (Inv S T) (ask c answer)
  unfolding ask
  Keeps-ask c answer k = record {
    at = λ w h. record { status = h.status; calls = k w.trace h.calls };
  }

  settle-Inv :
      Quiet T
      → (f : DistributedTrainingStatus → DistributedTrainingStatus)
      → ((s : DistributedTrainingStatus) → S s → S (f s))
      → (o : Option Error) (w : World rt) → Inv S T w
      → Inv S T (settle f o w)
  settle-Inv q f k none w h = record {
    status = k w.stored.status h.status;
    calls = q.step (patch_status true) refl w.trace h.calls;
  }
  settle-Inv q f k (some e) w h = record {
    status = h.status;
    calls = q.step (patch_status false) refl w.trace h.calls;
  }

  pub Keeps-change_status :
      Quiet T
      → (r : Reconciler rt) (f : DistributedTrainingStatus → DistributedTrainingStatus)
      → ((s : DistributedTrainingStatus) → S s → S (f s))
      → Keeps (Inv S T) (change_status r f)
  unfolding change_status
  Keeps-change_status q r f k = record {
    at = λ w h. settle-Inv q f k (r.cluster.status_patch w.trace (f w.job.status)) w h;
  }

pub ruleset keeps_rules = (
  Keeps-pure, Keeps-give, Keeps-if, Keeps-on_result, Keeps-on_option, Keeps-must, Keeps-must_not,
  Keeps-bind, Keeps-current, Keeps-change_memory, Keeps-emit, Keeps-ask, Keeps-change_status,
)
