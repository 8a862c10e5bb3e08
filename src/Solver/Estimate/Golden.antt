-- ===== src/Solver/Estimate/Golden.antt =====
-- goldenSectionSearch on a function with one valley. Of float64 this takes that `<` is a strict
-- order, and of the golden section that its two points are in order within an interval of [lo, hi]
-- that is wider than the tolerance; for intervals of [0, 1] that are wider than 1e-6 the points are
-- farther from each other and from the ends than any rounding.
use praktikum.Prelude.{ℕ, ◌≡◌, true, false}
use praktikum.Runtime.{Runtime}
use praktikum.Solver.Estimate.{Section, section, is_wide, golden_loop}

module _ (rt : Runtime) where
  -- `f` does not rise up to `m`, and rises from `m` on.
  pub record HasValley (f : rt.Float → rt.Float) (m : rt.Float) : Type 0 where
    pub falls : (x y : rt.Float) → rt.lt x y ≡ true → rt.lt m y ≡ false → rt.lt (f x) (f y) ≡ false
    pub rises : (x y : rt.Float) → rt.lt x y ≡ true → rt.lt x m ≡ false → rt.lt (f x) (f y) ≡ true

  -- An interval of [lo, hi] with its ends in order.
  abbrev pub IsWithin : (lo hi a b : rt.Float) → Type 0
  IsWithin lo hi a b = (rt.lt a b ≡ true) × (rt.lt a lo ≡ false) × (rt.lt hi b ≡ false)

  -- `m` is not below `a` and not above `b`.
  abbrev pub Encloses : (m a b : rt.Float) → Type 0
  Encloses m a b = (rt.lt m a ≡ false) × (rt.lt b m ≡ false)

  -- The arithmetic of the section on the intervals of [lo, hi] that are wider than the tolerance.
  pub record IsOrdered (tol lo hi : rt.Float) : Type 0 where
    pub asymmetric : (x y : rt.Float) → rt.lt x y ≡ true → rt.lt y x ≡ false
    pub transitive : (x y z : rt.Float) → rt.lt x y ≡ true → rt.lt y z ≡ true → rt.lt x z ≡ true
    pub points :
        (a b : rt.Float)
        → IsWithin lo hi a b
        → is_wide rt tol (section rt a b) ≡ true
        → (rt.lt a (section rt a b).c ≡ true)
          × (rt.lt (section rt a b).c (section rt a b).d ≡ true)
          × (rt.lt (section rt a b).d b ≡ true)

  -- An interval of [lo, hi] with `m` in it, and the points of its golden section.
  pub record IsBracket (m lo hi : rt.Float) (s : Section rt) : Type 0 where
    pub within : IsWithin lo hi s.a s.b
    pub encloses : Encloses m s.a s.b
    pub golden : s ≡ section rt s.a s.b

  module _ (f : rt.Float → rt.Float) (m : rt.Float) (valley : HasValley f m) (tol lo hi : rt.Float)
      (law : IsOrdered tol lo hi) where
    -- A loop of `n` rounds keeps a bracket.
    abbrev Holds : ℕ → Type 0
    Holds n = (s : Section rt) → IsBracket m lo hi s → IsBracket m lo hi (golden_loop rt f tol n s)
