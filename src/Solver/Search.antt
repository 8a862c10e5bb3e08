-- ===== src/Solver/Search.antt =====
-- The binary searches of operator/internal/controller/solver.go, in `int32` arithmetic. A loop
-- halves its range, so 32 rounds are enough for every range of `int32` numbers.
pub mod Least
pub mod Greatest
pub mod Results
pub mod Optimal
pub mod Terminates
use praktikum.Prelude.{
  ℕ, zero, suc, ℤ, one_ℤ, ltb_ℤ, int32_add, int32_sub, half_ℤ, Bool, true, false, if◌then◌else◌,
}
use praktikum.Runtime.{Runtime}
use praktikum.Solver.Formulas.{ModelParams, pred_t, pred_cost}

abbrev pub search_rounds : ℕ
search_rounds = 32

-- The loop of binarySearchMinN; `fits n` is T(n) <= tTarget.
pub min_loop : (ℤ → Bool) → ℕ → ℤ → ℤ → ℤ
min_loop fits zero lo hi = lo
min_loop fits (suc rounds) lo hi = elim (ltb_ℤ lo hi) [
  | false ↦ lo
  | true ↦ elim (fits (half_ℤ (int32_add lo hi))) [
    | true ↦ min_loop fits rounds lo (half_ℤ (int32_add lo hi))
    | false ↦ min_loop fits rounds (int32_add (half_ℤ (int32_add lo hi)) one_ℤ) hi
  ]
]

-- The loop of binarySearchMaxN; `fits n` is Cost(n) <= bMax.
pub max_loop : (ℤ → Bool) → ℕ → ℤ → ℤ → ℤ
max_loop fits zero lo hi = lo
max_loop fits (suc rounds) lo hi = elim (ltb_ℤ lo hi) [
  | false ↦ lo
  | true ↦ elim (fits (half_ℤ (int32_add (int32_add lo hi) one_ℤ))) [
    | true ↦ max_loop fits rounds (half_ℤ (int32_add (int32_add lo hi) one_ℤ)) hi
    | false ↦ max_loop fits rounds lo (int32_sub (half_ℤ (int32_add (int32_add lo hi) one_ℤ)) one_ℤ)
  ]
]

module _ (rt : Runtime) where
  unfoldable pub binary_search_min_n : ℤ → ℤ → rt.Float → ModelParams rt → ℤ
  unfolding min_loop
  binary_search_min_n lo max_nodes t_target mp =
      if rt.lt t_target (pred_t rt max_nodes mp)
      then max_nodes
      else min_loop (λ n. rt.le (pred_t rt n mp) t_target) search_rounds lo max_nodes

  unfoldable pub binary_search_max_n : ℤ → ℤ → rt.Float → ModelParams rt → rt.Float → ℤ
  unfolding max_loop
  binary_search_max_n lo max_nodes b_max mp ch =
      if rt.lt b_max (pred_cost rt lo mp ch)
      then lo
      else max_loop (λ n. rt.le (pred_cost rt n mp ch) b_max) search_rounds lo max_nodes
