-- ===== src/Backend/Spark/Results/Keys.antt =====
-- The metrics of a Spark job.
use praktikum.Prelude.{String, Option, none, some, ◌≡◌, refl, ◌⊎◌, inl, inr, on_option, insert}
use praktikum.Runtime.{Runtime, Result, ok, err, on_result}
use praktikum.System.{Trace}
use praktikum.Backend.Reads.{Reads, records_processed, time_elapsed, throughput}
use praktikum.Backend.Collect.{Metrics, from_pod_logs}
use praktikum.Backend.Collect.Keys.{KeepsEach, KeysAre, insert-KeysAre, from_pod_logs-keeps}
use praktikum.Backend.Spark.Results.{
  parse_records, parse_time_elapsed, parse_throughput, log_parsers,
}

abbrev pub IsMetric : String → Type 0
IsMetric k =
    (k ≡ "recordsProcessed") ⊎ (k ≡ "processingTimeSeconds") ⊎ (k ≡ "throughputRecordsPerSec")

module _ {rt : Runtime} (reads : Reads rt) where
  set_if :
      (k : String) (o : Option String) (m : Metrics)
      → IsMetric k
      → KeysAre IsMetric m
      → KeysAre IsMetric (on_option o m (λ v. insert k v m))
  set_if k none m p q = q
  set_if k (some v) m p q = insert-KeysAre IsMetric k v m p q

  set_number :
      (x : Result rt.Float) (m : Metrics)
      → KeysAre IsMetric m
      → KeysAre IsMetric
          (on_result x (λ f. insert "throughputRecordsPerSec" (rt.format_fixed 2 f) m) (λ e. m))
  set_number (ok f) m q = insert-KeysAre IsMetric _ _ m (inr (inr refl)) q
  set_number (err e) m q = q

  set_throughput :
      (o : Option String) (m : Metrics)
      → KeysAre IsMetric m
      → KeysAre IsMetric (
          on_option o m (λ v.
            on_result
              (rt.parse_float v)
              (λ f. insert "throughputRecordsPerSec" (rt.format_fixed 2 f) m)
              (λ e. m)))
  set_throughput none m q = q
  set_throughput (some v) m q = set_number (rt.parse_float v) m q

  log_parsers-keep : KeepsEach (KeysAre IsMetric) (log_parsers reads)
  unfolding parse_records parse_time_elapsed parse_throughput
  log_parsers-keep = (
    λ line m q. set_if "recordsProcessed" (reads.find_group records_processed line) m (inl refl) q,
    (
      λ line m q.
          set_if "processingTimeSeconds" (reads.find_group time_elapsed line) m (inr (inl refl)) q,
      (λ line m q. set_throughput (reads.find_group throughput line) m q, tt),
    ),
  )

  -- A log of the driver, whatever it holds and however it ends, gives metrics under the three keys
  -- of the Spark backend alone.
  pub driver_log-keys :
      (trace : Trace rt) (namespace pod container : String)
      → KeysAre IsMetric (from_pod_logs reads trace namespace pod container (log_parsers reads)).0
  driver_log-keys trace namespace pod container =
      from_pod_logs-keeps (KeysAre IsMetric) reads trace namespace pod container (log_parsers reads)
        log_parsers-keep tt
