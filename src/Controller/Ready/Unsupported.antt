-- ===== src/Controller/Ready/Unsupported.antt =====
-- reconcileReady without a backend.
use praktikum.Prelude.{some, ◌≡◌, refl}
use praktikum.Runtime.{Runtime, Error, err}
use praktikum.System.{World, Reconciler, ◌>>=◌}
use praktikum.Controller.Defaults.{get_backend}
use praktikum.Controller.Transitions.{set_failed}
use praktikum.Controller.Ready.{generate, reconcile_ready}

module _ {rt : Runtime} (r : Reconciler rt) where
  pub reconcile_ready-unsupported :
      (w : World rt) (e : Error)
      → get_backend r w.job ≡ err e
      → reconcile_ready r w ≡ set_failed r "unsupported backend" (some e) w
  unfolding reconcile_ready generate ◌>>=◌
  reconcile_ready-unsupported w e h = rw h refl
