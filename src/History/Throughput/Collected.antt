-- ===== src/History/Throughput/Collected.antt =====
-- The throughput that history takes from the metrics that the PyTorch backend collects.
use praktikum.Prelude.{
  zero_ℤ, ltb_ℤ, String, Bool, true, false, some, List, [], ◌∷◌, ◌++◌, ◌≡◌, refl, is_empty, lookup,
  show_int, if◌then◌else◌,
}
use praktikum.Runtime.{Runtime, ok}
use praktikum.Api.{BackendType, no_results}
use praktikum.Solver.Formulas.{nought}
use praktikum.Backend.Reads.{AllResults}
use praktikum.Backend.Pytorch.Results.{metrics_of}
use praktikum.History.Throughput.{positive_total, effective_throughput, extract_throughput}

-- The metrics in the order in which they are written, each if its test holds.
abbrev written : Bool → String → Bool → String → List (String × String) → List (String × String)
written rate s total t rest =
    (if rate then ("samplesPerSecond", s) ∷ [] else [])
    ++ ((if total then ("totalSamples", t) ∷ [] else []) ++ rest)

total_found :
    (rate : Bool) (s t : String) (rest : List (String × String))
    → lookup "totalSamples" (written rate s true t rest) ≡ some t
unfolding lookup
total_found true s t rest = refl
total_found false s t rest = refl

module _ (rt : Runtime) where
  preferred :
      (metrics : List (String × String)) (v : String) (total tk : rt.Float)
      → lookup "totalSamples" metrics ≡ some v
      → is_empty v ≡ false
      → rt.parse_float v ≡ ok total
      → rt.lt (nought rt) total ≡ true
      → rt.lt (nought rt) tk ≡ true
      → effective_throughput rt (some "totalSamples") metrics tk ≡ some (rt.div total tk)
  unfolding effective_throughput positive_total
  preferred metrics v total tk l n e p q =
      rw (q, effective_throughput)
        (rw (l, effective_throughput)
          (rw (n, effective_throughput) (rw (e, positive_total) (rw (p, positive_total) refl))))

  preferred_first :
      (metrics : List (String × String)) (f tk : rt.Float)
      → effective_throughput rt (some "totalSamples") metrics tk ≡ some f
      → extract_throughput rt BackendType.pytorch (record no_results { metrics = metrics }) tk
        ≡ ok f
  unfolding extract_throughput
  preferred_first metrics f tk e = rw (e, extract_throughput) refl

module _ (rt : Runtime) (r : AllResults rt) (tk : rt.Float) where
  -- When the file has a positive number of samples that is read back as a positive number, and the
  -- job has taken a positive time, the throughput that history stores is that number over the time,
  -- whatever throughput the file reports.
  pub extract_throughput-collected :
      (total : rt.Float)
      → ltb_ℤ zero_ℤ r.train_samples ≡ true
      → is_empty (show_int r.train_samples) ≡ false
      → rt.parse_float (show_int r.train_samples) ≡ ok total
      → rt.lt (nought rt) total ≡ true
      → rt.lt (nought rt) tk ≡ true
      → extract_throughput rt BackendType.pytorch
          (record no_results { metrics = metrics_of rt r })
          tk
        ≡ ok (rt.div total tk)
  unfolding metrics_of
  extract_throughput-collected total n e f p t =
      preferred_first rt (metrics_of rt r) (rt.div total tk) tk
        (preferred rt (metrics_of rt r) (show_int r.train_samples) total tk found e f p t)
    where
      found : lookup "totalSamples" (metrics_of rt r) ≡ some (show_int r.train_samples)
      found = rw (n, metrics_of) (total_found (rt.lt (nought rt) r.train_samples_per_second) _ _ _)
