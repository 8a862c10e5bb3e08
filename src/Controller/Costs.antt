-- ===== src/Controller/Costs.antt =====
-- getMachineCost of operator/internal/controller/solver.go: the hourly rate of a machine type,
-- `none` if the ConfigMap or its entry is missing.
use praktikum.Prelude.{String, Option, none, some, List, lookup, ◌<>◌, if◌then◌else◌}
use praktikum.Runtime.{Runtime, Result, ok, err, wrap}
use praktikum.System.{World, Handler, ◌>>=◌, pure, ask, Reconciler, read_cost_map}

module _ (rt : Runtime) where
  read_cost : String → Option String → Result (Option rt.Float)
  read_cost machine_type none = ok none
  read_cost machine_type (some val) = elim (rt.parse_float val) [
    | ok cost ↦ ok (some cost)
    | err e ↦ err (wrap ("parsing cost for " <> (rt.quote machine_type <> " in ConfigMap")) e)
  ]

  cost_in_map : String → Result (List (String × String)) → Result (Option rt.Float)
  unfolding read_cost
  cost_in_map machine_type (err e) = if e.is_not_found then ok none else err e
  cost_in_map machine_type (ok m) = read_cost machine_type (lookup machine_type m)

module _ {rt : Runtime} where
  unfoldable pub get_machine_cost :
      Reconciler rt → String → Handler (World rt) (Result (Option rt.Float))
  unfolding cost_in_map
  get_machine_cost r machine_type = do
    m ← ask read_cost_map r.cluster.cost_map
    pure (cost_in_map rt machine_type m)
