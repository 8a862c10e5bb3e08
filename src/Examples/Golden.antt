-- ===== src/Examples/Golden.antt =====
-- The golden section search in thousandths.
use praktikum.Prelude.{ℕ, ◌+◌, ◌-◌, ◌*◌, ◌/◌}
use praktikum.Runtime.{Runtime}
use praktikum.Examples.Samples.{small_runtime}

abbrev fixed_runtime : Runtime
fixed_runtime = record small_runtime {
  literal = λ m k. m / 10000000000000;
  mul = λ x y. x * y / 1000;
}

-- The distance to 20.
abbrev distance : ℕ → ℕ
distance x = (x - 20) + (20 - x)
