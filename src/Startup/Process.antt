-- ===== src/Startup/Process.antt =====
-- A process: it runs on, or it exits with status 1, and it has made some calls of
-- controller-runtime, oldest first.
use praktikum.Prelude.{String, Option, none, some, List, [], ◌∷◌, ◌++◌}
use praktikum.Runtime.{Runtime, Error, Result, ok, err}
use praktikum.System.{Reconciler}
use praktikum.Startup.Servers.{ManagerOptions, ControllerOptions}

pub data Step (rt : Runtime) : Type 0 where
  new_manager : ManagerOptions → Step rt
  set_up : ControllerOptions → Reconciler rt → Step rt
  add_healthz_check : String → Step rt
  add_readyz_check : String → Step rt
  start : Step rt

-- `none` is an exit.
abbrev pub Process : Runtime → Type 0 → Type 0
Process rt A = List (Step rt) → Option A × List (Step rt)

module _ {rt : Runtime} where
  abbrev resume :
      {A B : Type 0} → (A → Process rt B) → Option A × List (Step rt) → Option B × List (Step rt)
  resume f (some a, steps) = f a steps
  resume f (none, steps) = (none, steps)

  infixl 5 ◌>>=◌ ◌>>◌
  unfoldable pub ◌>>=◌ : {A B : Type 0} → Process rt A → (A → Process rt B) → Process rt B
  ◌>>=◌ m f steps = resume f (m steps)

  abbrev pub ◌>>◌ : {A B : Type 0} → Process rt A → Process rt B → Process rt B
  m >> n = m >>= λ _. n

  abbrev pub perform : Step rt → Process rt (Unit {0})
  perform s steps = (some tt, steps ++ s ∷ [])

  -- if err != nil { os.Exit(1) }
  abbrev pub exit_on : Option Error → Process rt (Unit {0})
  exit_on none steps = (some tt, steps)
  exit_on (some e) steps = (none, steps)

  abbrev pub value_or_exit : {A : Type 0} → Result A → Process rt A
  value_or_exit (ok a) steps = (some a, steps)
  value_or_exit (err e) steps = (none, steps)
