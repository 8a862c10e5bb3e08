-- ===== src/Startup/Main/Starts.antt =====
-- When main starts the manager, and what it has done before.
use praktikum.Prelude.{ℕ, Bool, true, false, Option, none, some, List, [], ◌∷◌, ◌≡◌, refl}
use praktikum.Runtime.{Runtime, Error, Result, ok, err}
use praktikum.System.{Provider, Reconciler}
use praktikum.Startup.{Flags, provider_of}
use praktikum.Startup.Assembled.{IsAssembled, new_reconciler-IsAssembled}
use praktikum.Startup.Servers.{manager_options, controller_options}
use praktikum.Startup.Process.{
  Step, Process, new_manager, set_up, add_healthz_check, add_readyz_check, start, ◌>>=◌, ◌>>◌,
  perform, exit_on, value_or_exit,
}
use praktikum.Startup.Main.{
  Platform, setup_with_manager, run_manager, reconciler_of, main_of, main_process, exit_code, main,
}

module _ {rt : Runtime} where
  -- Whether the manager has been started.
  abbrev pub has_start : List (Step rt) → Bool
  has_start [] = false
  has_start (start ∷ steps) = true
  has_start (_ ∷ steps) = has_start steps

-- The exit code by the error of mgr.Start.
abbrev pub run_code : Option Error → ℕ
run_code none = 0
run_code (some e) = 1

module _ {rt : Runtime} {M : Type 0} (p : Platform rt M) (flags : Flags) where
  -- A provider and a manager with which all that comes before the start has succeeded, the calls
  -- that main makes, and its exit code.
  pub record IsStarted (code : ℕ) (steps : List (Step rt)) : Type 0 where
    pub provider : Provider rt
    pub manager : M
    pub built : provider_of p.getenv p.dial flags ≡ ok provider
    pub made : p.manager (manager_options flags) ≡ ok manager
    pub completed :
        p.complete manager controller_options (reconciler_of p flags manager provider) ≡ none
    pub healthy : p.healthz manager "healthz" ≡ none
    pub ready : p.readyz manager "readyz" ≡ none
    pub in_order :
        steps
        ≡ new_manager (manager_options flags)
          ∷ set_up controller_options (reconciler_of p flags manager provider)
          ∷ add_healthz_check "healthz"
          ∷ add_readyz_check "readyz"
          ∷ start
          ∷ []
    pub assembled : IsAssembled p.getenv p.dial p.reads (reconciler_of p flags manager provider)
    pub code_of_run : code ≡ run_code (p.run manager)

  -- run_manager by the answers that it gets.
  abbrev answered : Reconciler rt → (a b c d : Option Error) → Process rt (Unit {0})
  answered r a b c d = do
    do perform (set_up controller_options r); exit_on a
    perform (add_healthz_check "healthz")
    exit_on b
    perform (add_readyz_check "readyz")
    exit_on c
    perform start
    exit_on d

  -- The calls before those of run_manager.
  abbrev before : List (Step rt)
  before = new_manager (manager_options flags) ∷ []

  -- The calls of a main in which nothing has failed.
  abbrev pub all_steps : Provider rt → M → List (Step rt)
  all_steps provider mgr =
      new_manager (manager_options flags)
      ∷ set_up controller_options (reconciler_of p flags mgr provider)
      ∷ add_healthz_check "healthz"
      ∷ add_readyz_check "readyz"
      ∷ start
      ∷ []

  done-IsStarted :
      (provider : Provider rt) (mgr : M) (code : ℕ)
      → provider_of p.getenv p.dial flags ≡ ok provider
      → p.manager (manager_options flags) ≡ ok mgr
      → p.complete mgr controller_options (reconciler_of p flags mgr provider) ≡ none
      → p.healthz mgr "healthz" ≡ none
      → p.readyz mgr "readyz" ≡ none
      → code ≡ run_code (p.run mgr)
      → IsStarted code (all_steps provider mgr)
  done-IsStarted provider mgr code x y i j k l = record {
    provider = provider;
    manager = mgr;
    built = x;
    made = y;
    completed = i;
    healthy = j;
    ready = k;
    in_order = refl;
    assembled =
        (new_reconciler-IsAssembled p.getenv p.dial
          (p.cluster mgr flags.machine_costs_config_map_name
            flags.machine_costs_config_map_namespace)
          p.reads flags provider x).1;
    code_of_run = l;
  }

  answered-IsStarted :
      (provider : Provider rt) (mgr : M) (a b c d : Option Error)
      → provider_of p.getenv p.dial flags ≡ ok provider
      → p.manager (manager_options flags) ≡ ok mgr
      → p.complete mgr controller_options (reconciler_of p flags mgr provider) ≡ a
      → p.healthz mgr "healthz" ≡ b
      → p.readyz mgr "readyz" ≡ c
      → p.run mgr ≡ d
      → has_start (answered (reconciler_of p flags mgr provider) a b c d before).1 ≡ true
      → IsStarted
          (exit_code p (answered (reconciler_of p flags mgr provider) a b c d before).0)
          (answered (reconciler_of p flags mgr provider) a b c d before).1
  unfolding ◌>>=◌
  answered-IsStarted provider mgr (some e) b c d x y i j k l h = cc
  answered-IsStarted provider mgr none (some e) c d x y i j k l h = cc
  answered-IsStarted provider mgr none none (some e) d x y i j k l h = cc
  answered-IsStarted provider mgr none none none none x y i j k l h =
      done-IsStarted provider mgr 0 x y i j k (rw l refl)
  answered-IsStarted provider mgr none none none (some e) x y i j k l h =
      done-IsStarted provider mgr 1 x y i j k (rw l refl)

  made-IsStarted :
      (provider : Provider rt) (y : Result M)
      → provider_of p.getenv p.dial flags ≡ ok provider
      → p.manager (manager_options flags) ≡ y
      → has_start
          ((value_or_exit y >>= λ mgr. run_manager p (reconciler_of p flags mgr provider) mgr)
            before).1
        ≡ true
      → IsStarted
          (exit_code p
            ((value_or_exit y >>= λ mgr. run_manager p (reconciler_of p flags mgr provider) mgr)
              before).0)
          ((value_or_exit y >>= λ mgr. run_manager p (reconciler_of p flags mgr provider) mgr)
            before).1
  unfolding ◌>>=◌ run_manager setup_with_manager
  made-IsStarted provider (err e) x y h = cc
  made-IsStarted provider (ok mgr) x y h =
      answered-IsStarted provider mgr
        (p.complete mgr controller_options (reconciler_of p flags mgr provider))
        (p.healthz mgr "healthz") (p.readyz mgr "readyz") (p.run mgr) x y refl refl refl refl h

  built-IsStarted :
      (x : Result (Provider rt))
      → provider_of p.getenv p.dial flags ≡ x
      → has_start (main_of p flags x []).1 ≡ true
      → IsStarted (exit_code p (main_of p flags x []).0) (main_of p flags x []).1
  unfolding ◌>>=◌ main_of
  built-IsStarted (err e) x h = cc
  built-IsStarted (ok provider) x h =
      made-IsStarted provider (p.manager (manager_options flags)) x refl h

  -- Where main starts the manager, the provider has been built and the manager made, the controller
  -- has been set up with a reconciler of the GKE provider and the registered backends, and the
  -- health check and the ready check have been added, in this order and without an error; and the
  -- exit code is 0 exactly if the manager ends without an error.
  pub main-IsStarted :
      has_start (main p flags).1 ≡ true → IsStarted (main p flags).0 (main p flags).1
  unfolding main_process
  main-IsStarted h = built-IsStarted (provider_of p.getenv p.dial flags) refl h

  exit-run_code :
      (d : Option Error) (steps : List (Step rt))
      → ◌≡◌ {A = ℕ × List (Step rt)}
          (exit_code p (exit_on d steps).0, (exit_on d steps).1)
          (run_code d, steps)
  exit-run_code none steps = refl
  exit-run_code (some e) steps = refl

  -- Let the provider be built and the manager made, and let the set-up of the controller and both
  -- checks succeed. Then main starts the manager as its fifth call and exits with the status 0 if
  -- the manager ends without an error, and with 1 if it ends with one.
  pub main-starts :
      (provider : Provider rt) (mgr : M)
      → provider_of p.getenv p.dial flags ≡ ok provider
      → p.manager (manager_options flags) ≡ ok mgr
      → p.complete mgr controller_options (reconciler_of p flags mgr provider) ≡ none
      → p.healthz mgr "healthz" ≡ none
      → p.readyz mgr "readyz" ≡ none
      → main p flags ≡ (run_code (p.run mgr), all_steps provider mgr)
  unfolding main_process main_of run_manager setup_with_manager ◌>>=◌
  main-starts provider mgr x y i j k =
      simp (x, y, i, j, k) (exit-run_code (p.run mgr) (all_steps provider mgr))
