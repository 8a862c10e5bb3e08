-- ===== src/Solver/Search/Results.antt =====
-- What the two binary searches return, for node counts below 2 ^ 30, where no `int32` sum
-- overflows.
use praktikum.Prelude.{ℕ, ◌≤◌, ◌<◌, ◌≡◌, ℤ, pos, Bool, false, arith}
use praktikum.Runtime.{Runtime}
use praktikum.Solver.Formulas.{ModelParams, pred_t, pred_cost}
use praktikum.Solver.Search.{binary_search_min_n, binary_search_max_n, search_rounds}
use praktikum.Solver.Search.Least.{IsBoundary, min_loop-Finds}
use praktikum.Solver.Search.Greatest.{IsLastBoundary, max_loop-Finds}

module _ (rt : Runtime) (mp : ModelParams rt) where
  abbrev pub in_time : rt.Float → ℤ → Bool
  in_time t n = rt.le (pred_t rt n mp) t

  abbrev pub in_budget : rt.Float → rt.Float → ℤ → Bool
  in_budget ch b n = rt.le (pred_cost rt n mp ch) b

  -- If T(maxNodes) is not above the target, binarySearchMinN returns a boundary of T(n) <= target.
  pub binary_search_min_n-finds :
      (l h : ℕ) (t : rt.Float)
      → l ≤ h
      → h < 1073741824
      → rt.lt t (pred_t rt (pos h) mp) ≡ false
      → (n : ℕ) × (binary_search_min_n rt (pos l) (pos h) t mp ≡ pos n)
        × IsBoundary (in_time t) l h n
  unfolding binary_search_min_n
  binary_search_min_n-finds l h t p q e =
      rw e (min_loop-Finds (in_time t) search_rounds l h p q (omega arith))

  -- If Cost(lo) is not above the budget, binarySearchMaxN returns a boundary of Cost(n) <= budget.
  pub binary_search_max_n-finds :
      (l h : ℕ) (b ch : rt.Float)
      → l ≤ h
      → h < 1073741824
      → rt.lt b (pred_cost rt (pos l) mp ch) ≡ false
      → (n : ℕ) × (binary_search_max_n rt (pos l) (pos h) b mp ch ≡ pos n)
        × IsLastBoundary (in_budget ch b) l h n
  unfolding binary_search_max_n
  binary_search_max_n-finds l h b ch p q e =
      rw e (max_loop-Finds (in_budget ch b) search_rounds l h p q (omega arith))
