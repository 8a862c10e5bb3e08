-- ===== src/Backend/Spark/Results.antt =====
-- CollectResults, findDriverPodName and the metric parsers of
-- operator/internal/backend/spark/spark.go.
pub mod Keys
use praktikum.Prelude.{String, Option, none, some, List, [], ◌∷◌, insert, on_option, ◌<>◌}
use praktikum.Runtime.{
  Runtime, Error, Result, ok, err, errorf, on_result, ◌>>=◌, ◌>>◌, with_context,
}
use praktikum.Api.{DistributedTraining, JobResults, no_results}
use praktikum.System.{Trace}
use praktikum.Backend.Reads.{Reads, records_processed, time_elapsed, throughput}
use praktikum.Backend.Collect.{Metrics, LogParser, new_clientset, from_pod_logs}
use praktikum.Backend.Spark.Manifest.{job_name}

module _ {rt : Runtime} (reads : Reads rt) where
  unfoldable pub parse_records : LogParser
  parse_records line metrics =
      on_option (reads.find_group records_processed line) metrics
        (λ m. insert "recordsProcessed" m metrics)

  unfoldable pub parse_time_elapsed : LogParser
  parse_time_elapsed line metrics =
      on_option (reads.find_group time_elapsed line) metrics
        (λ m. insert "processingTimeSeconds" m metrics)

  -- A text that is no number changes nothing.
  unfoldable pub parse_throughput : LogParser
  parse_throughput line metrics = on_option (reads.find_group throughput line) metrics (λ m.
      on_result (rt.parse_float m)
        (λ f. insert "throughputRecordsPerSec" (rt.format_fixed 2 f) metrics) (λ e. metrics))

  first_name : String → List String → Result String
  first_name job [] = err (errorf ("no driver pod found for SparkApplication " <> job))
  first_name job (name ∷ names) = ok name

  unfoldable pub find_driver_pod_name : Trace rt → String → String → Result String
  unfolding first_name
  find_driver_pod_name trace namespace job = do
    names ←
        reads.list_pods trace namespace (("spark-app-name", job) ∷ ("spark-role", "driver") ∷ [])
    first_name job names

  abbrev pub log_parsers : List LogParser
  log_parsers = parse_records ∷ parse_time_elapsed ∷ parse_throughput ∷ []

  -- The metrics of a log that breaks off are dropped.
  results_of_log : Metrics × Option Error → Result JobResults
  results_of_log (metrics, none) = ok (record no_results { metrics = metrics })
  results_of_log (metrics, some e) = err e

  unfoldable pub collect_results : Trace rt → DistributedTraining → Result JobResults
  unfolding parse_records parse_time_elapsed parse_throughput results_of_log
  collect_results trace job = do
    new_clientset reads trace
    pod ←
        with_context "locating driver pod" (find_driver_pod_name trace job.namespace (job_name job))
    results_of_log
        (from_pod_logs reads trace job.namespace pod "spark-kubernetes-driver" log_parsers)
