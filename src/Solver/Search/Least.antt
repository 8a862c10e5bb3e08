-- ===== src/Solver/Search/Least.antt =====
-- binarySearchMinN finds a least node count.
use native.Mathlib.Nat.{pow-suc}
use praktikum.Prelude.{
  ℕ, zero, suc, ◌+◌, ◌-◌, ◌/◌, ◌^◌, ◌≤◌, ◌<◌, ◌≡◌, refl, ℤ, pos, one_ℤ, int32_add, half_ℤ, Bool,
  true, false, arith, Bool-cases, inl, inr, ◌⊎◌, sym, ◌∙◌,
}
use praktikum.Solver.Search.{min_loop}

-- In a range of small numbers nothing overflows: the probe is the true middle, and the step past
-- it.
pub mid_exact :
    (l h : ℕ) → l + h < 2147483648 → half_ℤ (int32_add (pos l) (pos h)) ≡ pos ((l + h) / 2)
mid_exact l h p = ground arith

pub next_exact : (m : ℕ) → m < 2147483647 → int32_add (pos m) one_ℤ ≡ pos (m + 1)
next_exact m p = ground arith

-- `n` is in [l, h], passes the test unless it is `h`, and its predecessor fails it unless it is
-- `l`.
pub record IsBoundary (fits : ℤ → Bool) (l h n : ℕ) : Type 0 where
  pub low : l ≤ n
  pub high : n ≤ h
  pub passes : n < h → fits (pos n) ≡ true
  pub before : l < n → fits (pos (n - 1)) ≡ false

pub le_cases : (a b : ℕ) → a ≤ b → (a < b) ⊎ (a ≡ b)
le_cases a b h = grind arith

module _ (fits : ℤ → Bool) where
  abbrev Finds : ℕ → ℕ → ℕ → Type 0
  Finds k l h = (n : ℕ) × (min_loop fits k (pos l) (pos h) ≡ pos n) × IsBoundary fits l h n

  -- One round, on the two outcomes of the test.
  step_down :
      (k l h : ℕ)
      → l < h
      → h < 1073741824
      → fits (pos ((l + h) / 2)) ≡ true
      → min_loop fits (suc k) (pos l) (pos h) ≡ min_loop fits k (pos l) (pos ((l + h) / 2))
  unfolding min_loop
  step_down k l h p q t = ground (arith, mid_exact l h)

  step_up :
      (k l h : ℕ)
      → l < h
      → h < 1073741824
      → fits (pos ((l + h) / 2)) ≡ false
      → min_loop fits (suc k) (pos l) (pos h) ≡ min_loop fits k (pos ((l + h) / 2 + 1)) (pos h)
  unfolding min_loop
  step_up k l h p q t = ground (arith, mid_exact l h, next_exact ((l + h) / 2))

  same_end : (k l : ℕ) → Finds k l l
  unfolding min_loop
  same_end zero l = (l, refl, ground arith)
  same_end (suc k) l = (l, ground arith, ground arith)

  from_lower :
      {l h n : ℕ}
      → l < h
      → fits (pos ((l + h) / 2)) ≡ true
      → IsBoundary fits l ((l + h) / 2) n
      → IsBoundary fits l h n
  from_lower {l} {h} {n} p t b = record {
    low = b.low;
    high = omega (arith, b.high);
    passes = λ q. elim (le_cases n ((l + h) / 2) b.high) [ inl lt ↦ b.passes lt | inr e ↦ rw e t ];
    before = b.before;
  }

  from_upper :
      {l h n : ℕ}
      → l < h
      → fits (pos ((l + h) / 2)) ≡ false
      → IsBoundary fits ((l + h) / 2 + 1) h n
      → IsBoundary fits l h n
  from_upper {l} {h} {n} p t b = record {
    low = omega (arith, b.low);
    high = b.high;
    passes = b.passes;
    before = λ q. elim (le_cases ((l + h) / 2 + 1) n b.low) [
      | inl lt ↦ b.before lt
      | inr e ↦ let e' : n - 1 ≡ (l + h) / 2 = omega (arith, sym e) in rw e' t
    ];
  }

  -- With a round for each halving the loop finds a boundary of its test.
  pub min_loop-Finds : (k l h : ℕ) → l ≤ h → h < 1073741824 → h - l < 2 ^ k → Finds k l h
  min_loop-Finds zero l h p q r = let e : l ≡ h = omega arith in rw e (same_end zero h)
  min_loop-Finds (suc k) l h p q r = elim (le_cases l h p) [
    | inr e ↦ rw e (same_end (suc k) h)
    | inl lt ↦ elim (Bool-cases (fits (pos ((l + h) / 2)))) [
      | inl t ↦
          let (n, found, b) =
            min_loop-Finds k l ((l + h) / 2) (omega arith) (omega arith)
              (omega (arith, pow-suc 2 k)) in
          (n, step_down k l h lt q t ∙ found, from_lower lt t b)
      | inr t ↦
          let (n, found, b) =
            min_loop-Finds k ((l + h) / 2 + 1) h (omega arith) q (omega (arith, pow-suc 2 k)) in
          (n, step_up k l h lt q t ∙ found, from_upper lt t b)
    ]
  ]
