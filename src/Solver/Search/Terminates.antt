-- ===== src/Solver/Search/Terminates.antt =====
-- The loops of the binary searches as Go runs them, without a bound on their rounds, and that they
-- end.
use native.Mathlib.Nat.{pow-suc}
use mathlib.Core.Path.{subst}
use praktikum.Prelude.{
  ℕ, zero, suc, ◌+◌, ◌-◌, ◌/◌, ◌^◌, ◌≤◌, ◌<◌, ◌≡◌, refl, sym, ap, ◌∙◌, ℤ, pos, one_ℤ, ltb_ℤ,
  int32_add, int32_sub, half_ℤ, Bool, true, false, arith, Bool-cases, inl, inr,
}
use praktikum.Solver.Search.{min_loop, max_loop, search_rounds}
use praktikum.Solver.Search.Least.{mid_exact, next_exact, le_cases}
use praktikum.Solver.Search.Greatest.{upper_mid_exact, previous_exact}

module _ (fits : ℤ → Bool) where
  -- `MinRuns lo hi n`: from `lo` and `hi` the loop of binarySearchMinN ends, with `n`.
  pub data MinRuns : ℤ → ℤ → ℤ → Type 0 where
    min_stop : (lo hi : ℤ) → ltb_ℤ lo hi ≡ false → MinRuns lo hi lo
    min_lower :
        (lo hi n : ℤ)
        → ltb_ℤ lo hi ≡ true
        → fits (half_ℤ (int32_add lo hi)) ≡ true
        → MinRuns lo (half_ℤ (int32_add lo hi)) n
        → MinRuns lo hi n
    min_upper :
        (lo hi n : ℤ)
        → ltb_ℤ lo hi ≡ true
        → fits (half_ℤ (int32_add lo hi)) ≡ false
        → MinRuns (int32_add (half_ℤ (int32_add lo hi)) one_ℤ) hi n
        → MinRuns lo hi n

  -- The same for binarySearchMaxN.
  pub data MaxRuns : ℤ → ℤ → ℤ → Type 0 where
    max_stop : (lo hi : ℤ) → ltb_ℤ lo hi ≡ false → MaxRuns lo hi lo
    max_upper :
        (lo hi n : ℤ)
        → ltb_ℤ lo hi ≡ true
        → fits (half_ℤ (int32_add (int32_add lo hi) one_ℤ)) ≡ true
        → MaxRuns (half_ℤ (int32_add (int32_add lo hi) one_ℤ)) hi n
        → MaxRuns lo hi n
    max_lower :
        (lo hi n : ℤ)
        → ltb_ℤ lo hi ≡ true
        → fits (half_ℤ (int32_add (int32_add lo hi) one_ℤ)) ≡ false
        → MaxRuns lo (int32_sub (half_ℤ (int32_add (int32_add lo hi) one_ℤ)) one_ℤ) n
        → MaxRuns lo hi n

  min_lower-step :
      (k : ℕ) (lo hi : ℤ)
      → ltb_ℤ lo hi ≡ true
      → fits (half_ℤ (int32_add lo hi)) ≡ true
      → MinRuns lo (half_ℤ (int32_add lo hi)) (min_loop fits k lo (half_ℤ (int32_add lo hi)))
      → MinRuns lo hi (min_loop fits (suc k) lo hi)
  unfolding min_loop
  min_lower-step k lo hi c t m =
      let e : min_loop fits (suc k) lo hi ≡ min_loop fits k lo (half_ℤ (int32_add lo hi)) =
        rw (c, min_loop) (rw (t, min_loop) refl) in
      subst (MinRuns lo hi) (sym e) (min_lower lo hi _ c t m)

  min_upper-step :
      (k : ℕ) (lo hi : ℤ)
      → ltb_ℤ lo hi ≡ true
      → fits (half_ℤ (int32_add lo hi)) ≡ false
      → MinRuns
          (int32_add (half_ℤ (int32_add lo hi)) one_ℤ)
          hi
          (min_loop fits k (int32_add (half_ℤ (int32_add lo hi)) one_ℤ) hi)
      → MinRuns lo hi (min_loop fits (suc k) lo hi)
  unfolding min_loop
  min_upper-step k lo hi c t m =
      let e : min_loop fits (suc k) lo hi
          ≡ min_loop fits k (int32_add (half_ℤ (int32_add lo hi)) one_ℤ) hi =
        rw (c, min_loop) (rw (t, min_loop) refl) in
      subst (MinRuns lo hi) (sym e) (min_upper lo hi _ c t m)

  min_stop-any : (k : ℕ) (lo hi : ℤ) → ltb_ℤ lo hi ≡ false → MinRuns lo hi (min_loop fits k lo hi)
  unfolding min_loop
  min_stop-any zero lo hi c = min_stop lo hi c
  min_stop-any (suc k) lo hi c = rw (c, min_loop) (min_stop lo hi c)

  min_loop-MinRuns :
      (k l h : ℕ)
      → l ≤ h
      → h < 1073741824
      → h - l < 2 ^ k
      → MinRuns (pos l) (pos h) (min_loop fits k (pos l) (pos h))
  min_loop-MinRuns zero l h p q r = min_stop-any zero (pos l) (pos h) (ground arith)
  min_loop-MinRuns (suc k) l h p q r = elim (le_cases l h p) [
    | inr e ↦ min_stop-any (suc k) (pos l) (pos h) (ground arith)
    | inl lt ↦
        let m = (l + h) / 2 in
        let mid = mid_exact l h (omega arith) in
        elim (Bool-cases (fits (half_ℤ (int32_add (pos l) (pos h))))) [
          | inl t ↦ min_lower-step k (pos l) (pos h) (ground arith) t (
              subst (λ x. MinRuns (pos l) x (min_loop fits k (pos l) x)) (sym mid)
                (min_loop-MinRuns k l m (omega arith) (omega arith) (omega (arith, pow-suc 2 k))))
          | inr t ↦ min_upper-step k (pos l) (pos h) (ground arith) t (
              subst (λ x. MinRuns x (pos h) (min_loop fits k x (pos h)))
                (sym (ap (λ x. int32_add x one_ℤ) mid ∙ next_exact m (omega arith)))
                (min_loop-MinRuns k (m + 1) h (omega arith) q (omega (arith, pow-suc 2 k))))
        ]
  ]

  max_upper-step :
      (k : ℕ) (lo hi : ℤ)
      → ltb_ℤ lo hi ≡ true
      → fits (half_ℤ (int32_add (int32_add lo hi) one_ℤ)) ≡ true
      → MaxRuns
          (half_ℤ (int32_add (int32_add lo hi) one_ℤ))
          hi
          (max_loop fits k (half_ℤ (int32_add (int32_add lo hi) one_ℤ)) hi)
      → MaxRuns lo hi (max_loop fits (suc k) lo hi)
  unfolding max_loop
  max_upper-step k lo hi c t m =
      let e : max_loop fits (suc k) lo hi
          ≡ max_loop fits k (half_ℤ (int32_add (int32_add lo hi) one_ℤ)) hi =
        rw (c, max_loop) (rw (t, max_loop) refl) in
      subst (MaxRuns lo hi) (sym e) (max_upper lo hi _ c t m)

  max_lower-step :
      (k : ℕ) (lo hi : ℤ)
      → ltb_ℤ lo hi ≡ true
      → fits (half_ℤ (int32_add (int32_add lo hi) one_ℤ)) ≡ false
      → MaxRuns lo
          (int32_sub (half_ℤ (int32_add (int32_add lo hi) one_ℤ)) one_ℤ)
          (max_loop fits k lo (int32_sub (half_ℤ (int32_add (int32_add lo hi) one_ℤ)) one_ℤ))
      → MaxRuns lo hi (max_loop fits (suc k) lo hi)
  unfolding max_loop
  max_lower-step k lo hi c t m =
      let e : max_loop fits (suc k) lo hi
          ≡ max_loop fits k lo (int32_sub (half_ℤ (int32_add (int32_add lo hi) one_ℤ)) one_ℤ) =
        rw (c, max_loop) (rw (t, max_loop) refl) in
      subst (MaxRuns lo hi) (sym e) (max_lower lo hi _ c t m)

  max_stop-any : (k : ℕ) (lo hi : ℤ) → ltb_ℤ lo hi ≡ false → MaxRuns lo hi (max_loop fits k lo hi)
  unfolding max_loop
  max_stop-any zero lo hi c = max_stop lo hi c
  max_stop-any (suc k) lo hi c = rw (c, max_loop) (max_stop lo hi c)

  max_loop-MaxRuns :
      (k l h : ℕ)
      → l ≤ h
      → h < 1073741824
      → h - l < 2 ^ k
      → MaxRuns (pos l) (pos h) (max_loop fits k (pos l) (pos h))
  max_loop-MaxRuns zero l h p q r = max_stop-any zero (pos l) (pos h) (ground arith)
  max_loop-MaxRuns (suc k) l h p q r = elim (le_cases l h p) [
    | inr e ↦ max_stop-any (suc k) (pos l) (pos h) (ground arith)
    | inl lt ↦
        let m = (l + h + 1) / 2 in
        let mid = upper_mid_exact l h (omega arith) in
        elim (Bool-cases (fits (half_ℤ (int32_add (int32_add (pos l) (pos h)) one_ℤ)))) [
          | inl t ↦ max_upper-step k (pos l) (pos h) (ground arith) t (
              subst (λ x. MaxRuns x (pos h) (max_loop fits k x (pos h))) (sym mid)
                (max_loop-MaxRuns k m h (omega arith) q (omega (arith, pow-suc 2 k))))
          | inr t ↦ max_lower-step k (pos l) (pos h) (ground arith) t (
              subst (λ x. MaxRuns (pos l) x (max_loop fits k (pos l) x))
                (sym
                  (ap (λ x. int32_sub x one_ℤ) mid ∙ previous_exact m (omega arith) (omega arith)))
                (max_loop-MaxRuns k l (m - 1) (omega arith) (omega arith)
                  (omega (arith, pow-suc 2 k))))
        ]
  ]

  -- On node counts from `l` to `h`, below 2 ^ 30, both loops end when they run without a bound on
  -- their rounds, and they end with what 32 rounds give, whatever the test is.
  pub searches-terminate :
      (l h : ℕ)
      → l ≤ h
      → h < 1073741824
      → MinRuns (pos l) (pos h) (min_loop fits search_rounds (pos l) (pos h))
        × MaxRuns (pos l) (pos h) (max_loop fits search_rounds (pos l) (pos h))
  searches-terminate l h p q = (
    min_loop-MinRuns search_rounds l h p q (omega arith),
    max_loop-MaxRuns search_rounds l h p q (omega arith),
  )
