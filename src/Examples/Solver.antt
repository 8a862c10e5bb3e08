-- ===== src/Examples/Solver.antt =====
-- The solver, the history and the validation on samples, with the searches on a model whose time
-- falls as 3600 / n and whose cost rises with n.
use praktikum.Prelude.{
  ◌↔◌, none, List, [], ◌∷◌, ℕ, ℤ, ◌≤◌, ◌≡◌, refl, pos, Bool, true, false, arith, ◌⊎◌, inl, inr,
}
use praktikum.Solver.Formulas.{ModelParams, pred_t, pred_cost, pred_p, eta}
use praktikum.Solver.Search.{binary_search_min_n, binary_search_max_n}
use praktikum.Solver.Search.Results.{in_time, in_budget}
use praktikum.Solver.Search.Optimal.{
  IsRising, IsFalling, IsLeast, IsGreatest, binary_search_min_n-IsLeast,
  binary_search_max_n-IsGreatest,
}
use praktikum.Api.{BackendType, Phase, ResolvedTopology, HistorySpec, HistoryEntry}
use praktikum.Runtime.{Result}
use praktikum.System.{next}
use praktikum.Solver.Estimate.{estimate_model}
use praktikum.Solver.Estimate.Baseline.{IsBaseline, estimate_model-IsBaseline}
use praktikum.Solver.Run.{run_solver}
use praktikum.Solver.Run.Bounds.{Fits, run_solver-answers}
use praktikum.Controller.Validate.{validate_spec}
use praktikum.Controller.Validate.Exact.{IsValid, validate_spec-exact}
use praktikum.History.Prune.Oldest.{Division, expired-Division}
use praktikum.Solver.Branches.{solve_cost_only, solve_both}
use praktikum.Solver.Branches.Bounds.Budget.{
  AffordableAnswer, solve_cost_only-affordable, solve_both-affordable,
}
use praktikum.Examples.Samples.{small_runtime, small_reconciler, small_objective, job_in, world_in}

abbrev pub small_model : ModelParams small_runtime
small_model = record { alpha = 0; p_baseline = 10; w = 36000; t_prov_avg = 3600 }

two_to_four : (n : ℕ) → 2 ≤ n → n ≤ 4 → (n ≡ 2) ⊎ (n ≡ 3) ⊎ (n ≡ 4)
two_to_four n p q = grind arith

same : (a b : ℕ) → a ≤ b → b ≤ a → a ≡ b
same a b p q = omega arith

module _ (fits : ℤ → Bool) where
  rising : fits (pos 2) ≡ false → fits (pos 3) ≡ true → fits (pos 4) ≡ true → IsRising fits 2 4
  rising p2 p3 p4 a b l ab h t = elim (two_to_four b (omega arith) h) [
    | inl e2 ↦ rw (← same a b ab (omega arith)) t
    | inr (inl e3) ↦ rw e3 p3
    | inr (inr e4) ↦ rw e4 p4
  ]

  falling : fits (pos 2) ≡ true → fits (pos 3) ≡ true → fits (pos 4) ≡ false → IsFalling fits 2 4
  falling p2 p3 p4 a b l ab h t = elim (two_to_four a l (omega arith)) [
    | inl e2 ↦ rw e2 p2
    | inr (inl e3) ↦ rw e3 p3
    | inr (inr e4) ↦ rw (same a b ab (omega arith)) t
  ]

binary_search_min_n-IsLeast_example :
    (n : ℕ) × (binary_search_min_n small_runtime (pos 2) (pos 4) 1200 small_model ≡ pos n)
    × IsLeast (in_time small_runtime small_model 1200) 2 4 n
unfolding pred_t pred_p eta
binary_search_min_n-IsLeast_example =
    binary_search_min_n-IsLeast small_runtime small_model 2 4 1200 (omega arith) (omega arith) refl
      (rising (in_time small_runtime small_model 1200) refl refl refl) refl

binary_search_max_n-IsGreatest_example :
    (n : ℕ) × (binary_search_max_n small_runtime (pos 2) (pos 4) 4 small_model 1 ≡ pos n)
    × IsGreatest (in_budget small_runtime small_model 1 4) 2 4 n
unfolding pred_t pred_p eta pred_cost
binary_search_max_n-IsGreatest_example =
    binary_search_max_n-IsGreatest small_runtime small_model 2 4 4 1 (omega arith) (omega arith)
      refl (falling (in_budget small_runtime small_model 1 4) refl refl refl) refl

run_solver-answers_example :
    (x : Result ResolvedTopology) × ((run_solver small_reconciler
        (job_in Phase.pending)
        small_objective
        (world_in Phase.pending)).0
      ≡ next x)
    × Fits small_reconciler
        (job_in Phase.pending)
        small_objective
        8
        refl
        (omega arith)
        (omega arith)
        x
run_solver-answers_example =
    run_solver-answers small_reconciler (job_in Phase.pending) small_objective 8 refl (omega arith)
      (omega arith) (world_in Phase.pending)

abbrev run_with : ℕ → ℕ → HistorySpec ℕ
run_with n p = record {
  backend = BackendType.pytorch;
  machine_type = "e2-standard-8";
  config_hash = "h";
  nodes = pos n;
  throughput = p;
  training_seconds = 100;
  total_work = 36000;
  provisioning_seconds = 60;
  actual_cost_usd = "";
}

abbrev three_runs : List (HistorySpec ℕ)
three_runs = run_with 4 30 ∷ run_with 2 18 ∷ run_with 2 22 ∷ []

estimate_model-IsBaseline_example :
    IsBaseline small_runtime three_runs (estimate_model small_runtime three_runs)
estimate_model-IsBaseline_example =
    estimate_model-IsBaseline small_runtime (run_with 4 30) (run_with 2 18 ∷ run_with 2 22 ∷ [])

validate_spec-exact_example :
    (validate_spec (λ s. s) (job_in Phase.pending) ≡ none) ↔ IsValid (job_in Phase.pending).spec
validate_spec-exact_example = validate_spec-exact (λ s. s) (job_in Phase.pending)

abbrev made_at : ℕ → HistoryEntry ℕ
made_at t = record { name = "e"; created = t; spec = run_with 2 18 }

abbrev ten_entries : List (HistoryEntry ℕ)
ten_entries =
    made_at 5
    ∷ made_at 3
    ∷ made_at 9
    ∷ made_at 1
    ∷ made_at 7
    ∷ made_at 2
    ∷ made_at 8
    ∷ made_at 4
    ∷ made_at 6
    ∷ made_at 10
    ∷ []

expired-Division_example : Division ten_entries
expired-Division_example = expired-Division ten_entries

solve_cost_only-affordable_example :
    (x : Result ResolvedTopology) × ((solve_cost_only small_runtime
        (job_in Phase.pending)
        small_objective
        small_model
        1
        false
        (pos 8)
        (world_in Phase.pending)).0
      ≡ next x)
    × AffordableAnswer small_runtime
        (job_in Phase.pending)
        small_objective
        small_model
        1
        4
        8
        (omega arith)
        (omega arith)
        x
solve_cost_only-affordable_example =
    solve_cost_only-affordable small_runtime (job_in Phase.pending) small_objective small_model 1 4
      8 (omega arith) (omega arith) (world_in Phase.pending) refl

solve_both-affordable_example :
    (x : Result ResolvedTopology) × ((solve_both small_runtime
        (job_in Phase.pending)
        small_objective
        small_model
        1
        false
        (pos 8)
        (world_in Phase.pending)).0
      ≡ next x)
    × AffordableAnswer small_runtime
        (job_in Phase.pending)
        small_objective
        small_model
        1
        4
        8
        (omega arith)
        (omega arith)
        x
solve_both-affordable_example =
    solve_both-affordable small_runtime (job_in Phase.pending) small_objective small_model 1 4 8
      (omega arith) (omega arith) false (world_in Phase.pending) refl
