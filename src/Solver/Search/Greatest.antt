-- ===== src/Solver/Search/Greatest.antt =====
-- binarySearchMaxN finds a greatest node count.
use native.Mathlib.Nat.{pow-suc}
use praktikum.Prelude.{
  ℕ, zero, suc, ◌+◌, ◌-◌, ◌/◌, ◌^◌, ◌≤◌, ◌<◌, ◌≡◌, refl, ◌∙◌, ℤ, pos, one_ℤ, int32_add, int32_sub,
  half_ℤ, Bool, true, false, arith, Bool-cases, inl, inr,
}
use praktikum.Solver.Search.{max_loop}
use praktikum.Solver.Search.Least.{le_cases}

pub upper_mid_exact :
    (l h : ℕ)
    → l + h + 1 < 2147483648
    → half_ℤ (int32_add (int32_add (pos l) (pos h)) one_ℤ) ≡ pos ((l + h + 1) / 2)
upper_mid_exact l h p = ground arith

pub previous_exact : (m : ℕ) → 0 < m → m < 2147483648 → int32_sub (pos m) one_ℤ ≡ pos (m - 1)
previous_exact m p q = ground arith

-- `n` is in [l, h], passes the test unless it is `l`, and its successor fails it unless it is `h`.
pub record IsLastBoundary (fits : ℤ → Bool) (l h n : ℕ) : Type 0 where
  pub low : l ≤ n
  pub high : n ≤ h
  pub passes : l < n → fits (pos n) ≡ true
  pub after : n < h → fits (pos (n + 1)) ≡ false

module _ (fits : ℤ → Bool) where
  abbrev Finds : ℕ → ℕ → ℕ → Type 0
  Finds k l h = (n : ℕ) × (max_loop fits k (pos l) (pos h) ≡ pos n) × IsLastBoundary fits l h n

  step_up :
      (k l h : ℕ)
      → l < h
      → h < 1073741824
      → fits (pos ((l + h + 1) / 2)) ≡ true
      → max_loop fits (suc k) (pos l) (pos h) ≡ max_loop fits k (pos ((l + h + 1) / 2)) (pos h)
  unfolding max_loop
  step_up k l h p q t = ground (arith, upper_mid_exact l h)

  step_down :
      (k l h : ℕ)
      → l < h
      → h < 1073741824
      → fits (pos ((l + h + 1) / 2)) ≡ false
      → max_loop fits (suc k) (pos l) (pos h) ≡ max_loop fits k (pos l) (pos ((l + h + 1) / 2 - 1))
  unfolding max_loop
  step_down k l h p q t = ground (arith, upper_mid_exact l h, previous_exact ((l + h + 1) / 2))

  same_end : (k l : ℕ) → Finds k l l
  unfolding max_loop
  same_end zero l = (l, refl, ground arith)
  same_end (suc k) l = (l, ground arith, ground arith)

  from_upper :
      {l h n : ℕ}
      → l < h
      → fits (pos ((l + h + 1) / 2)) ≡ true
      → IsLastBoundary fits ((l + h + 1) / 2) h n
      → IsLastBoundary fits l h n
  from_upper {l} {h} {n} p t b = record {
    low = omega (arith, b.low);
    high = b.high;
    passes = λ q. elim (le_cases ((l + h + 1) / 2) n b.low) [
      | inl lt ↦ b.passes lt
      | inr e ↦ rw (← e) t
    ];
    after = b.after;
  }

  from_lower :
      {l h n : ℕ}
      → l < h
      → fits (pos ((l + h + 1) / 2)) ≡ false
      → IsLastBoundary fits l ((l + h + 1) / 2 - 1) n
      → IsLastBoundary fits l h n
  from_lower {l} {h} {n} p t b = record {
    low = b.low;
    high = omega (arith, b.high);
    passes = b.passes;
    after = λ q. elim (le_cases n ((l + h + 1) / 2 - 1) b.high) [
      | inl lt ↦ b.after lt
      | inr e ↦ let e' : n + 1 ≡ (l + h + 1) / 2 = omega (arith, e) in rw e' t
    ];
  }

  pub max_loop-Finds : (k l h : ℕ) → l ≤ h → h < 1073741824 → h - l < 2 ^ k → Finds k l h
  max_loop-Finds zero l h p q r = let e : l ≡ h = omega arith in rw e (same_end zero h)
  max_loop-Finds (suc k) l h p q r = elim (le_cases l h p) [
    | inr e ↦ rw e (same_end (suc k) h)
    | inl lt ↦ elim (Bool-cases (fits (pos ((l + h + 1) / 2)))) [
      | inl t ↦
          let (n, found, b) =
            max_loop-Finds k ((l + h + 1) / 2) h (omega arith) q (omega (arith, pow-suc 2 k)) in
          (n, step_up k l h lt q t ∙ found, from_upper lt t b)
      | inr t ↦
          let (n, found, b) =
            max_loop-Finds k l ((l + h + 1) / 2 - 1) (omega arith) (omega arith)
              (omega (arith, pow-suc 2 k)) in
          (n, step_down k l h lt q t ∙ found, from_lower lt t b)
    ]
  ]
