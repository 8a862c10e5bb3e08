-- ===== src/Solver/Branches/Bounds/Budget.antt =====
-- What the solver's choices cost.
use praktikum.Prelude.{
  ℕ, ◌≤◌, ◌<◌, ◌≡◌, ◌⊎◌, inl, inr, refl, ℤ, pos, two_ℤ, String, Bool, true, false, ◌&&◌, Bool-cases,
  if◌then◌else◌,
}
use praktikum.Runtime.{Runtime, Result, ok, err}
use praktikum.Api.{DistributedTraining, ObjectiveSpec, ResolvedTopology}
use praktikum.System.{World, Handler, next, ◌>>◌, record_event, warning}
use praktikum.System.Answers.{
  Answers, Answers-pure, Answers-bind, Answers-then, Answers-on_result, Answers-if_known,
  Answers-if, GoesOn-emit, Answers-value,
}
use praktikum.Solver.Formulas.{ModelParams, pred_cost}
use praktikum.Solver.Search.{binary_search_min_n, binary_search_max_n}
use praktikum.Solver.Search.Least.{le_cases}
use praktikum.Solver.Search.Results.{in_budget, binary_search_max_n-finds}
use praktikum.Solver.Branches.{
  topology, build_topology, choose_for_budget, solve_cost_only, solve_parsed, solve_both,
}
use praktikum.Solver.Branches.Bounds.{topology_gauges-GoesOn, warn_unreachable-GoesOn}

module _ (rt : Runtime) (job : DistributedTraining) (obj : ObjectiveSpec) (mp : ModelParams rt)
    (ch b : rt.Float) (h : ℕ) (two : 2 ≤ h) (small : h < 1073741824) where
  -- The least topology, or one whose predicted cost is within the budget.
  abbrev pub Affordable : ℤ → Type 0
  Affordable n = (n ≡ two_ℤ) ⊎ (in_budget rt mp ch b n ≡ true)

  abbrev pub AffordableAnswer : Result ResolvedTopology → Type 0
  AffordableAnswer (ok t) = Affordable t.nodes
  AffordableAnswer (err e) = Unit {0}

  two_Affordable : Affordable two_ℤ
  two_Affordable = inl refl

  search-Affordable : Affordable (binary_search_max_n rt two_ℤ (pos h) b mp ch)
  unfolding binary_search_max_n
  search-Affordable = elim (Bool-cases (rt.lt b (pred_cost rt two_ℤ mp ch))) [
    | inl e ↦ inl (rw e refl)
    | inr e ↦
        (let found = binary_search_max_n-finds rt mp 2 h b ch two small e in
          elim (le_cases 2 found.0 found.2.low) [
            | inl lt ↦ inr (rw found.1 (found.2.passes lt))
            | inr same ↦ inl (rw (found.1, ← same) refl)
          ])
  ]

  build_topology-Affordable :
      (n : ℤ) (known : Bool)
      → Affordable n
      → Answers AffordableAnswer (build_topology rt job n mp ch known)
  unfolding build_topology topology
  build_topology-Affordable n known a =
      Answers-then _ _ (topology_gauges-GoesOn rt job obj mp ch h two small n known)
        (λ u. Answers-pure _ a)

  choose_for_budget-Affordable : Answers Affordable (choose_for_budget rt mp ch false (pos h) b)
  unfolding choose_for_budget
  choose_for_budget-Affordable =
      Answers-if (rt.lt b (pred_cost rt two_ℤ mp ch)) _ _
        (Answers-then _ _ (GoesOn-emit _) (λ u. Answers-pure _ two_Affordable))
        (Answers-pure _ search-Affordable)

  warned-Affordable :
      (message : String) (n : ℤ)
      → Affordable n
      → Answers AffordableAnswer
          (record_event warning "SolverWarning" message >> build_topology rt job n mp ch true)
  warned-Affordable message n a =
      Answers-then _ _ (GoesOn-emit _) (λ u. build_topology-Affordable n true a)

  fits_or-Affordable :
      (n : ℤ) (m : Handler (World rt) (Result ResolvedTopology))
      → Answers AffordableAnswer m
      → Answers AffordableAnswer
          (if in_budget rt mp ch b n then build_topology rt job n mp ch true else m)
  fits_or-Affordable n m p =
      Answers-if_known (in_budget rt mp ch b n) _ _ (λ e. build_topology-Affordable n true (inr e))
        (λ e. p)

  solve_parsed-Affordable :
      (flat : Bool) (t : rt.Float)
      → Answers AffordableAnswer (solve_parsed rt job obj mp ch flat (pos h) t b)
  unfolding solve_parsed
  solve_parsed-Affordable flat t =
      Answers-then _ _ (warn_unreachable-GoesOn rt job obj mp ch h two small _ _ _ _) (λ u.
        fits_or-Affordable (binary_search_min_n rt two_ℤ (pos h) t mp) _ (
          Answers-if (flat && rt.lt b (pred_cost rt two_ℤ mp ch)) _ _
            (warned-Affordable _ two_ℤ two_Affordable)
            (Answers-if (rt.lt b (pred_cost rt two_ℤ mp ch)) _ _
              (warned-Affordable _ two_ℤ two_Affordable)
              (warned-Affordable _ _ search-Affordable))))

  -- Let maxNodes be from 2 to below 2 ^ 30, and let maxCost parse, to the budget. If the cost curve
  -- is not flat, solveCostOnly goes on with an answer, and a topology that it answers has 2 nodes
  -- or a predicted cost within the budget.
  pub solve_cost_only-affordable :
      (w : World rt)
      → rt.parse_float obj.max_cost ≡ ok b
      → (x : Result ResolvedTopology) × ((solve_cost_only rt job obj mp ch false (pos h) w).0
          ≡ next x)
        × AffordableAnswer x
  unfolding solve_cost_only
  solve_cost_only-affordable w e = Answers-value answered w
    where
      answered : Answers AffordableAnswer (solve_cost_only rt job obj mp ch false (pos h))
      answered = rw e (
          Answers-bind _ _ choose_for_budget-Affordable (λ n a. build_topology-Affordable n true a))

  -- Let maxNodes be from 2 to below 2 ^ 30, and let maxCost parse, to the budget. Flat cost curve
  -- or not, solveBoth goes on with an answer, and a topology that it answers has 2 nodes or a
  -- predicted cost within the budget.
  pub solve_both-affordable :
      (flat : Bool) (w : World rt)
      → rt.parse_float obj.max_cost ≡ ok b
      → (x : Result ResolvedTopology) × ((solve_both rt job obj mp ch flat (pos h) w).0 ≡ next x)
        × AffordableAnswer x
  unfolding solve_both
  solve_both-affordable flat w e = Answers-value answered w
    where
      answered : Answers AffordableAnswer (solve_both rt job obj mp ch flat (pos h))
      answered =
          rw e
            (Answers-on_result _ _ _ (λ t. solve_parsed-Affordable flat t) (λ x. Answers-pure _ tt))
