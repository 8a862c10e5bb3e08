-- ===== src/Solver/Branches/Bounds.antt =====
-- Which topologies the branches of the solver may answer with.
pub mod Budget
use praktikum.Prelude.{
  ℕ, ◌-◌, ◌≤◌, ◌<◌, ◌≡◌, inl, inr, refl, ℤ, pos, one_ℤ, two_ℤ, ◌+ℤ◌, int32_sub, String, Bool, true,
  false, Bool-cases, arith,
}
use praktikum.Runtime.{Runtime, Result, ok, err}
use praktikum.Api.{DistributedTraining, ObjectiveSpec, ResolvedTopology}
use praktikum.System.Answers.{
  Answers, GoesOn, Answers-pure, Answers-bind, Answers-on_result, answers_rules,
}
use praktikum.Controller.Defaults.{effective_backend, is_pytorch}
use praktikum.Solver.Formulas.{ModelParams, nought, pred_t, pred_cost}
use praktikum.Solver.Search.{binary_search_min_n, binary_search_max_n}
use praktikum.Solver.Search.Results.{binary_search_min_n-finds, binary_search_max_n-finds}
use praktikum.Solver.Branches.{
  topology, topology_gauges, build_topology, warn_unreachable, solve_time_only_with_cost,
  solve_time_only, choose_for_budget, solve_cost_only, solve_parsed, solve_both,
}

-- A node count from 2 to `h`.
abbrev pub InRange : ℕ → ℤ → Type 0
InRange h n = (k : ℕ) × (n ≡ pos k) × (2 ≤ k) × (k ≤ h)

module _ (rt : Runtime) (mp : ModelParams rt) (h : ℕ) (two : 2 ≤ h) (small : h < 1073741824) where
  pub binary_search_min_n-InRange :
      (t : rt.Float) → InRange h (binary_search_min_n rt two_ℤ (pos h) t mp)
  unfolding binary_search_min_n
  binary_search_min_n-InRange t = elim (Bool-cases (rt.lt t (pred_t rt (pos h) mp))) [
    | inl e ↦ rw e (h, refl, two, omega arith)
    | inr e ↦
        (let found = binary_search_min_n-finds rt mp 2 h t two small e in
          (found.0, found.1, found.2.low, found.2.high))
  ]

  pub binary_search_max_n-InRange :
      (b ch : rt.Float) → InRange h (binary_search_max_n rt two_ℤ (pos h) b mp ch)
  unfolding binary_search_max_n
  binary_search_max_n-InRange b ch = elim (Bool-cases (rt.lt b (pred_cost rt two_ℤ mp ch))) [
    | inl e ↦ rw e (2, refl, omega arith, two)
    | inr e ↦
        (let found = binary_search_max_n-finds rt mp 2 h b ch two small e in
          (found.0, found.1, found.2.low, found.2.high))
  ]

minus_one : (k : ℕ) → 1 ≤ k → k < 2147483648 → int32_sub (pos k) one_ℤ ≡ pos (k - 1)
minus_one k p q = ground arith

pub workers-exact : (k : ℕ) → 1 ≤ k → k < 2147483648 → (int32_sub (pos k) one_ℤ +ℤ one_ℤ) ≡ pos k
workers-exact k p q = rw (minus_one k p q) (ground arith)

-- A solved topology for at most `h` nodes: the node count is in range, and for PyTorch one master
-- and the workers add up to it.
pub record IsSolved (job : DistributedTraining) (h : ℕ) (t : ResolvedTopology) : Type 0 where
  pub nodes : InRange h t.nodes
  pub replicas :
      is_pytorch (effective_backend job.spec.backend) ≡ true
      → (t.master_replicas ≡ one_ℤ) × (t.worker_replicas +ℤ one_ℤ ≡ t.nodes)

abbrev pub Solved : DistributedTraining → ℕ → Result ResolvedTopology → Type 0
Solved job h (ok t) = IsSolved job h t
Solved job h (err e) = Unit {0}

module _ (rt : Runtime) (job : DistributedTraining) (obj : ObjectiveSpec) (mp : ModelParams rt)
    (ch : rt.Float) (h : ℕ) (two : 2 ≤ h) (small : h < 1073741824) where
  two_InRange : InRange h two_ℤ
  two_InRange = (2, refl, omega arith, two)

  all_InRange : InRange h (pos h)
  all_InRange = (h, refl, two, omega arith)

  topology-IsSolved :
      (n : ℤ) (known : Bool) → InRange h n → IsSolved job h (topology rt job n mp ch known)
  unfolding topology
  topology-IsSolved n known range = record {
    nodes = range;
    replicas = λ e.
        rw (e, range.1)
          (refl, workers-exact range.0 (omega (arith, range.2)) (omega (arith, range.3, small)));
  }

  topology_gauges-GoesOn : (n : ℤ) (known : Bool) → GoesOn (topology_gauges rt n mp ch known)
  unfolding topology_gauges
  topology_gauges-GoesOn n known = search (answers_rules) depth 8

  build_topology-Solved :
      (n : ℤ) (known : Bool)
      → InRange h n
      → Answers (Solved job h) (build_topology rt job n mp ch known)
  unfolding build_topology
  build_topology-Solved n known range =
      search (answers_rules, topology_gauges-GoesOn, topology-IsSolved) depth 7

  warn_unreachable-GoesOn :
      (t : String) (n : ℤ) (above : Bool) (suffix : String)
      → GoesOn (warn_unreachable rt t n above suffix)
  unfolding warn_unreachable
  warn_unreachable-GoesOn t n above suffix = search (answers_rules) depth 7

  pub solve_time_only_with_cost-Solved :
      (known : Bool)
      → Answers (Solved job h) (solve_time_only_with_cost rt job obj mp ch (pos h) known)
  unfolding solve_time_only_with_cost
  solve_time_only_with_cost-Solved known =
      search
        (
          answers_rules,
          build_topology-Solved,
          warn_unreachable-GoesOn,
          binary_search_min_n-InRange rt mp h two small,
        )
        depth 8

  choose_for_budget-InRange :
      (flat : Bool) (b : rt.Float) → Answers (InRange h) (choose_for_budget rt mp ch flat (pos h) b)
  unfolding choose_for_budget
  choose_for_budget-InRange flat b =
      search
        (answers_rules, two_InRange, all_InRange, binary_search_max_n-InRange rt mp h two small)
        depth 8

  pub solve_cost_only-Solved :
      (flat : Bool) → Answers (Solved job h) (solve_cost_only rt job obj mp ch flat (pos h))
  unfolding solve_cost_only
  solve_cost_only-Solved flat =
      Answers-on_result _ _ _
        (λ b.
          Answers-bind _ _ (choose_for_budget-InRange flat b)
            (λ n range. build_topology-Solved n true range))
        (λ e. Answers-pure (err e) tt)

  solve_parsed-Solved :
      (flat : Bool) (t b : rt.Float)
      → Answers (Solved job h) (solve_parsed rt job obj mp ch flat (pos h) t b)
  unfolding solve_parsed
  solve_parsed-Solved flat t b =
      search
        (
          answers_rules,
          build_topology-Solved,
          warn_unreachable-GoesOn,
          two_InRange,
          binary_search_min_n-InRange rt mp h two small,
          binary_search_max_n-InRange rt mp h two small,
        )
        depth 9

  pub solve_both-Solved :
      (flat : Bool) → Answers (Solved job h) (solve_both rt job obj mp ch flat (pos h))
  unfolding solve_both
  solve_both-Solved flat = search (answers_rules, solve_parsed-Solved) depth 7

pub solve_time_only-Solved :
    (rt : Runtime) (job : DistributedTraining) (obj : ObjectiveSpec) (mp : ModelParams rt) (h : ℕ)
    → 2 ≤ h
    → h < 1073741824
    → Answers (Solved job h) (solve_time_only rt job obj mp (pos h))
unfolding solve_time_only
solve_time_only-Solved rt job obj mp h two small =
    solve_time_only_with_cost-Solved rt job obj mp (nought rt) h two small false
