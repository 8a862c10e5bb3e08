-- ===== src/Solver/Estimate.antt =====
-- estimateModel and its helpers in operator/internal/controller/solver.go: history entries grouped
-- by node count, averages, and the scaling overhead by a closed form or a golden section search.
pub mod Groups
pub mod Baseline
pub mod Golden
use praktikum.Prelude.{
  ℕ, zero, suc, ℤ, pos, one_ℤ, two_ℤ, eq_ℤ, ltb_ℤ, int32_sub, Bool, true, false, Option, none, some,
  List, [], ◌∷◌, ◌++◌, map, length, if◌then◌else◌,
}
use mathlib.Core.List.{foldl}
use praktikum.Runtime.{Runtime}
use praktikum.Api.{HistorySpec}
use praktikum.Solver.Formulas.{ModelParams, eta, one, nought}

-- `map[int32][]HistorySpec`, with each key once; the order of keys is not observed.
abbrev pub Groups : Type 0 → Type 0
Groups Q = List (ℤ × List (HistorySpec Q))

module _ {Q : Type 0} where
  -- m[e.Nodes] = append(m[e.Nodes], e)
  unfoldable pub add_entry : HistorySpec Q → Groups Q → Groups Q
  add_entry e [] = (e.nodes, e ∷ []) ∷ []
  add_entry e ((n, es) ∷ m) =
      if eq_ℤ n e.nodes then (n, es ++ e ∷ []) ∷ m else (n, es) ∷ add_entry e m

  add_all : Groups Q → List (HistorySpec Q) → Groups Q
  unfolding add_entry
  add_all m [] = m
  add_all m (e ∷ es) = add_all (add_entry e m) es

  unfoldable pub group_by_n : List (HistorySpec Q) → Groups Q
  unfolding add_all
  group_by_n entries = add_all [] entries

  -- byN[n]
  unfoldable pub group_at : ℤ → Groups Q → List (HistorySpec Q)
  group_at n [] = []
  group_at n ((k, es) ∷ m) = if eq_ℤ k n then es else group_at n m

-- sort.Slice with `<`
unfoldable pub insert_key : ℤ → List ℤ → List ℤ
insert_key k [] = k ∷ []
insert_key k (j ∷ ks) = if ltb_ℤ k j then k ∷ j ∷ ks else j ∷ insert_key k ks

unfoldable pub sort_keys : List ℤ → List ℤ
unfolding insert_key
sort_keys [] = []
sort_keys (k ∷ ks) = insert_key k (sort_keys ks)

unfoldable pub sorted_keys : {Q : Type 0} → Groups Q → List ℤ
unfolding sort_keys
sorted_keys m = sort_keys (map (λ g. g.0) m)

module _ (rt : Runtime) where
  abbrev Entries : Type 0
  Entries = List (HistorySpec rt.Quantity)

  unfoldable pub average : List rt.Float → rt.Float
  average [] = nought rt
  average (v ∷ vs) = rt.div (foldl rt.add (nought rt) (v ∷ vs)) (rt.of_int (pos (length (v ∷ vs))))

  -- average(mapValues(entries, the entry's throughput))
  abbrev average_throughput : Entries → rt.Float
  average_throughput es = average (map (λ e. rt.quantity_value e.throughput) es)

  -- The variables a, b, c and d of goldenSectionSearch.
  pub record Section : Type 0 where
    pub a : rt.Float
    pub b : rt.Float
    pub c : rt.Float
    pub d : rt.Float

  -- 0.6180339887498949
  abbrev phi : rt.Float
  phi = rt.literal 6180339887498949 16

  -- c := b - phi*(b-a); d := a + phi*(b-a)
  abbrev pub section : rt.Float → rt.Float → Section
  section a b = record {
    a = a;
    b = b;
    c = rt.sub b (rt.mul phi (rt.sub b a));
    d = rt.add a (rt.mul phi (rt.sub b a));
  }

  -- math.Abs(b-a) > tol
  abbrev pub is_wide : rt.Float → Section → Bool
  is_wide tol s = rt.lt tol (rt.abs (rt.sub s.b s.a))

  abbrev pub narrow : (rt.Float → rt.Float) → Section → Section
  narrow f s = if rt.lt (f s.c) (f s.d) then section s.a s.d else section s.c s.b

  -- Each round leaves about 0.618 of the interval, so 64 rounds narrow [0, 1] below 1e-13.
  abbrev pub golden_rounds : ℕ
  golden_rounds = 64

  -- The loop of goldenSectionSearch.
  unfoldable pub golden_loop : (rt.Float → rt.Float) → rt.Float → ℕ → Section → Section
  golden_loop f tol zero bounds = bounds
  golden_loop f tol (suc rounds) bounds = elim (is_wide tol bounds) [
    | false ↦ bounds
    | true ↦ golden_loop f tol rounds (narrow f bounds)
  ]

  unfoldable pub golden_section : (rt.Float → rt.Float) → rt.Float → rt.Float → rt.Float → Section
  unfolding golden_loop
  golden_section f a b tol = golden_loop f tol golden_rounds (section a b)

  unfoldable pub golden_section_search :
      (rt.Float → rt.Float) → rt.Float → rt.Float → rt.Float → rt.Float
  unfolding golden_section
  golden_section_search f a b tol =
      let s = golden_section f a b tol in rt.div (rt.add s.a s.b) (rt.of_int two_ℤ)

  -- residualFn
  residual : Groups rt.Quantity → List ℤ → rt.Float → rt.Float → rt.Float
  unfolding average
  residual by_n ns p_baseline alpha =
      foldl
        (λ total n.
          let predicted = rt.mul (rt.mul p_baseline (rt.of_int n)) (eta rt (rt.of_int n) alpha) in
          let diff = rt.sub predicted (average_throughput (group_at n by_n)) in
          rt.add total (rt.mul diff diff))
        (nought rt) ns

  -- The closed form for two node counts.
  unfoldable pub two_point_alpha : Groups rt.Quantity → ℤ → ℤ → rt.Float
  unfolding average group_at
  two_point_alpha by_n n1 n2 =
      let avg_p1 = average_throughput (group_at n1 by_n) in
      let avg_p2 = average_throughput (group_at n2 by_n) in
      let eta2_obs = rt.div (rt.div avg_p2 (rt.of_int n2)) (rt.div avg_p1 (rt.of_int n1)) in
      if rt.le eta2_obs (nought rt)
      then nought rt
      else rt.max (nought rt)
          (rt.div (rt.sub (one rt) eta2_obs) (rt.mul eta2_obs (rt.of_int (int32_sub n2 one_ℤ))))

  unfoldable pub estimate_alpha : Groups rt.Quantity → List ℤ → rt.Float → rt.Float
  unfolding two_point_alpha residual golden_section_search
  estimate_alpha by_n [] p_baseline = nought rt
  estimate_alpha by_n (n ∷ []) p_baseline = nought rt
  estimate_alpha by_n (n1 ∷ n2 ∷ []) p_baseline = two_point_alpha by_n n1 n2
  estimate_alpha by_n (n1 ∷ n2 ∷ n3 ∷ ns) p_baseline =
      golden_section_search (residual by_n (n1 ∷ n2 ∷ n3 ∷ ns) p_baseline) (nought rt) (one rt)
        (rt.literal 1 6)

  -- ns[0] of the keys; the history is not empty, so there is one.
  estimate_from : Groups rt.Quantity → List ℤ → Entries → ModelParams rt
  unfolding average group_at estimate_alpha
  estimate_from by_n [] history = record {
    alpha = nought rt;
    p_baseline = nought rt;
    w = nought rt;
    t_prov_avg = nought rt;
  }
  estimate_from by_n (n_min ∷ ns) history =
      let p_baseline = rt.div (average_throughput (group_at n_min by_n)) (rt.of_int n_min) in
      record {
        alpha = estimate_alpha by_n (n_min ∷ ns) p_baseline;
        p_baseline = p_baseline;
        w = average (map (λ e. rt.quantity_value e.total_work) (group_at n_min by_n));
        t_prov_avg = average (map (λ e. rt.quantity_value e.provisioning_seconds) history);
      }

  unfoldable pub estimate_model : Entries → ModelParams rt
  unfolding estimate_from group_by_n sorted_keys
  estimate_model history =
      let by_n = group_by_n history in estimate_from by_n (sorted_keys by_n) history
