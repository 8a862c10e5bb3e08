-- ===== src/Solver/Search/Optimal.antt =====
-- The two binary searches on tests that change once over the range: they find the best node count.
use praktikum.Prelude.{
  ℕ, ◌+◌, ◌-◌, ◌≤◌, ◌<◌, ◌≡◌, refl, ℤ, pos, Bool, true, false, not, arith, inl, inr, sym, ◌∙◌,
}
use praktikum.Runtime.{Runtime}
use praktikum.Solver.Formulas.{ModelParams, pred_t, pred_cost}
use praktikum.Solver.Search.{binary_search_min_n, binary_search_max_n}
use praktikum.Solver.Search.Least.{IsBoundary, le_cases}
use praktikum.Solver.Search.Greatest.{IsLastBoundary}
use praktikum.Solver.Search.Results.{
  in_time, in_budget, binary_search_min_n-finds, binary_search_max_n-finds,
}

-- Within [l, h]: once a node count passes, each larger one does; and once it passes, each smaller
-- one.
abbrev pub IsRising : (ℤ → Bool) → ℕ → ℕ → Type 0
IsRising fits l h = (a b : ℕ) → l ≤ a → a ≤ b → b ≤ h → fits (pos a) ≡ true → fits (pos b) ≡ true

abbrev pub IsFalling : (ℤ → Bool) → ℕ → ℕ → Type 0
IsFalling fits l h = (a b : ℕ) → l ≤ a → a ≤ b → b ≤ h → fits (pos b) ≡ true → fits (pos a) ≡ true

-- `n` is the least, or the greatest, node count of [l, h] that passes.
pub record IsLeast (fits : ℤ → Bool) (l h n : ℕ) : Type 0 where
  pub low : l ≤ n
  pub high : n ≤ h
  pub passes : fits (pos n) ≡ true
  pub smaller : (k : ℕ) → l ≤ k → k < n → fits (pos k) ≡ false

pub record IsGreatest (fits : ℤ → Bool) (l h n : ℕ) : Type 0 where
  pub low : l ≤ n
  pub high : n ≤ h
  pub passes : fits (pos n) ≡ true
  pub larger : (k : ℕ) → n < k → k ≤ h → fits (pos k) ≡ false

not_true : (b : Bool) → (b ≡ true → false ≡ true) → b ≡ false
not_true true h = sym (h refl)
not_true false h = refl

boundary-IsLeast :
    {fits : ℤ → Bool} {l h n : ℕ}
    → IsRising fits l h
    → fits (pos h) ≡ true
    → IsBoundary fits l h n
    → IsLeast fits l h n
boundary-IsLeast {fits} {l} {h} {n} up last b = record {
  low = b.low;
  high = b.high;
  passes = elim (le_cases n h b.high) [ inl lt ↦ b.passes lt | inr e ↦ rw e last ];
  smaller = λ k low lt. not_true (fits (pos k)) (λ t.
      sym (b.before (omega arith)) ∙ up k (n - 1) low (omega arith) (omega (arith, b.high)) t);
}

boundary-IsGreatest :
    {fits : ℤ → Bool} {l h n : ℕ}
    → IsFalling fits l h
    → fits (pos l) ≡ true
    → IsLastBoundary fits l h n
    → IsGreatest fits l h n
boundary-IsGreatest {fits} {l} {h} {n} down first b = record {
  low = b.low;
  high = b.high;
  passes = elim (le_cases l n b.low) [ inl lt ↦ b.passes lt | inr e ↦ rw (← e) first ];
  larger = λ k lt high. not_true (fits (pos k)) (λ t.
      sym (b.after (omega arith)) ∙ down (n + 1) k (omega (arith, b.low)) (omega arith) high t);
}

module _ (rt : Runtime) (mp : ModelParams rt) where
  -- Let maxNodes be below 2 ^ 30. Suppose that the comparison of T(maxNodes) with the target is
  -- decided (neither is NaN), that T(maxNodes) meets the target, and that from lo to maxNodes a
  -- node count that meets the target is only followed by node counts that do. Then binarySearchMinN
  -- returns the least node count from lo to maxNodes that meets it.
  pub binary_search_min_n-IsLeast :
      (l h : ℕ) (t : rt.Float)
      → l ≤ h
      → h < 1073741824
      → rt.lt t (pred_t rt (pos h) mp) ≡ not (in_time rt mp t (pos h))
      → IsRising (in_time rt mp t) l h
      → in_time rt mp t (pos h) ≡ true
      → (n : ℕ) × (binary_search_min_n rt (pos l) (pos h) t mp ≡ pos n)
        × IsLeast (in_time rt mp t) l h n
  binary_search_min_n-IsLeast l h t p q total up last =
      let found = binary_search_min_n-finds rt mp l h t p q (rw last at total) in
      (found.0, found.1, boundary-IsLeast up last found.2)

  -- Let maxNodes be below 2 ^ 30. Suppose that the comparison of Cost(lo) with the budget is
  -- decided, that Cost(lo) is within the budget, and that from lo to maxNodes a node count within
  -- the budget is only preceded by node counts that are. Then binarySearchMaxN returns the greatest
  -- node count from lo to maxNodes whose cost is within the budget.
  pub binary_search_max_n-IsGreatest :
      (l h : ℕ) (b ch : rt.Float)
      → l ≤ h
      → h < 1073741824
      → rt.lt b (pred_cost rt (pos l) mp ch) ≡ not (in_budget rt mp ch b (pos l))
      → IsFalling (in_budget rt mp ch b) l h
      → in_budget rt mp ch b (pos l) ≡ true
      → (n : ℕ) × (binary_search_max_n rt (pos l) (pos h) b mp ch ≡ pos n)
        × IsGreatest (in_budget rt mp ch b) l h n
  binary_search_max_n-IsGreatest l h b ch p q total down first =
      let found = binary_search_max_n-finds rt mp l h b ch p q (rw first at total) in
      (found.0, found.1, boundary-IsGreatest down first found.2)
