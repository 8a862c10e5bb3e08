-- ===== src/Controller/Runs.antt =====
-- Sequences of passes over one object, as controller-runtime makes them. Each pass has its own
-- services, whose answers may differ, and its own answer to the Get.
use praktikum.Prelude.{ℕ, ◌≤◌, ◌≡◌, refl, Option, List, [], ◌∷◌, arith, ◌∙◌}
use praktikum.Runtime.{Runtime, Error}
use praktikum.Api.{Phase}
use praktikum.System.{World, Reconciler}
use praktikum.Controller.Reconcile.{reconcile}
use praktikum.Controller.Lifecycle.{
  Edge, stays, first_accepted, first_rejected, accepted, rejected, provisioned, not_provisioned,
  submitted, not_submitted, completed, broken, collected, reset, reconcile-Edge,
}

-- How far a phase is; a phase that is not known starts over.
abbrev pub rank : Phase → ℕ
rank Phase.provisioning = 1
rank Phase.ready = 2
rank Phase.running = 3
rank Phase.collecting = 4
rank Phase.succeeded = 5
rank Phase.failed = 6
rank _ = 0

Edge-rank : {p q : Phase} → Edge p q → rank p ≤ rank q
Edge-rank stays = omega arith
Edge-rank first_accepted = omega arith
Edge-rank first_rejected = omega arith
Edge-rank accepted = omega arith
Edge-rank rejected = omega arith
Edge-rank provisioned = omega arith
Edge-rank not_provisioned = omega arith
Edge-rank submitted = omega arith
Edge-rank not_submitted = omega arith
Edge-rank completed = omega arith
Edge-rank broken = omega arith
Edge-rank collected = omega arith
Edge-rank reset = omega arith

-- From a final phase there is no way on.
final-Edge : {p q : Phase} → Edge p q → 5 ≤ rank p → q ≡ p
final-Edge stays h = refl
final-Edge first_accepted h = absurd (omega arith)
final-Edge first_rejected h = absurd (omega arith)
final-Edge accepted h = absurd (omega arith)
final-Edge rejected h = absurd (omega arith)
final-Edge provisioned h = absurd (omega arith)
final-Edge not_provisioned h = absurd (omega arith)
final-Edge submitted h = absurd (omega arith)
final-Edge not_submitted h = absurd (omega arith)
final-Edge completed h = absurd (omega arith)
final-Edge broken h = absurd (omega arith)
final-Edge collected h = absurd (omega arith)
final-Edge reset h = absurd (omega arith)

module _ {rt : Runtime} where
  unfoldable pub passes : List (Reconciler rt × Option Error) → World rt → World rt
  unfolding reconcile
  passes [] w = w
  passes ((r, found) ∷ ps) w = passes ps (reconcile r found w).1

  -- Over any sequence of passes the stored phase never falls back: Pending, Provisioning, Ready,
  -- Running, Collecting, Succeeded and Failed come in this order, and an empty or unknown phase
  -- counts as Pending.
  pub passes-rank :
      (ps : List (Reconciler rt × Option Error)) (w : World rt)
      → rank w.stored.status.phase ≤ rank (passes ps w).stored.status.phase
  unfolding passes
  passes-rank [] w = omega arith
  passes-rank ((r, found) ∷ ps) w =
      omega (arith, Edge-rank (reconcile-Edge r found w), passes-rank ps (reconcile r found w).1)

  -- Over any sequence of passes a stored phase of Succeeded or Failed is kept.
  pub passes-final :
      (ps : List (Reconciler rt × Option Error)) (w : World rt)
      → 5 ≤ rank w.stored.status.phase
      → (passes ps w).stored.status.phase ≡ w.stored.status.phase
  unfolding passes
  passes-final [] w h = refl
  passes-final ((r, found) ∷ ps) w h =
      let same = final-Edge (reconcile-Edge r found w) h in
      passes-final ps (reconcile r found w).1 (rw same h) ∙ same
