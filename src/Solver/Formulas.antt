-- ===== src/Solver/Formulas.antt =====
-- The scaling model of operator/internal/controller/solver.go: predicted throughput, time and cost
-- at a node count, over an abstract `float64`, and the texts of durations.
use praktikum.Prelude.{
  ℕ, ◌+◌, ◌-◌, ◌%◌, ℤ, pos, negsuc, suc, sub_ℕ, one_ℤ, two_ℤ, String, Bool, true, ltb,
  if◌then◌else◌,
}
use praktikum.Runtime.{Runtime, Result, ok, ◌>>=◌}

-- Duration.Round(time.Second) on a count of nanoseconds: to the nearest second, halves away from
-- zero.
abbrev round_up_ℕ : ℕ → ℕ
round_up_ℕ n =
    let r = n % 1000000000 in if ltb (r + r) 1000000000 then n - r else n - r + 1000000000

unfoldable pub round_second : ℤ → ℤ
round_second (pos n) = pos (round_up_ℕ n)
round_second (negsuc n) = sub_ℕ 0 (round_up_ℕ (suc n))

pub record ModelParams (rt : Runtime) : Type 0 where
  pub alpha : rt.Float
  pub p_baseline : rt.Float
  pub w : rt.Float
  pub t_prov_avg : rt.Float

module _ (rt : Runtime) where
  abbrev pub one : rt.Float
  one = rt.of_int one_ℤ

  abbrev pub nought : rt.Float
  nought = rt.of_int (pos 0)

  -- float64(time.Second)
  abbrev second : rt.Float
  second = rt.of_int (pos 1000000000)

  -- math.MaxFloat64 / 2
  abbrev pub half_max : rt.Float
  half_max = rt.div rt.max_float64 (rt.of_int two_ℤ)

  unfoldable pub eta : rt.Float → rt.Float → rt.Float
  eta n alpha = rt.div one (rt.add one (rt.mul alpha (rt.sub n one)))

  unfoldable pub pred_p : ℤ → ModelParams rt → rt.Float
  pred_p n mp = rt.mul (rt.mul mp.p_baseline (rt.of_int n)) (eta (rt.of_int n) mp.alpha)

  unfoldable pub pred_t : ℤ → ModelParams rt → rt.Float
  pred_t n mp = let p = pred_p n mp in if rt.le p nought then rt.max_float64 else rt.div mp.w p

  unfoldable pub pred_cost : ℤ → ModelParams rt → rt.Float → rt.Float
  pred_cost n mp ch =
      let hour = rt.of_int (pos 3600) in
      let rate = rt.mul ch (rt.of_int n) in
      rt.add (rt.div (rt.mul rate (pred_t n mp)) hour) (rt.div (rt.mul rate mp.t_prov_avg) hour)

  unfoldable pub is_flat_cost : ModelParams rt → rt.Float → ℤ → Bool
  is_flat_cost mp ch max_nodes =
      let c2 = pred_cost two_ℤ mp ch in
      if rt.eq c2 nought
      then true
      else rt.lt (rt.div (rt.abs (rt.sub (pred_cost max_nodes mp ch) c2)) c2) (rt.literal 1 2)

  unfoldable pub parse_duration_seconds : String → Result rt.Float
  parse_duration_seconds s = do d ← rt.parse_duration s; ok (rt.seconds d)

  unfoldable pub format_seconds : rt.Float → String
  unfolding round_second
  format_seconds s =
      if rt.le half_max s
      then "unknown"
      else rt.duration_text (round_second (rt.to_duration (rt.mul s second)))
