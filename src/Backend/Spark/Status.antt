-- ===== src/Backend/Spark/Status.antt =====
-- GetPhase, GetStartTime and GetEndTime of operator/internal/backend/spark/spark.go.
pub mod Phases
use praktikum.Prelude.{ℕ, String, ◌||◌, [], ◌∷◌, get_or, str_eq, if◌then◌else◌, ◌<>◌}
use praktikum.Runtime.{Runtime, Result, ok, ◌>>=◌, with_context}
use praktikum.System.{Json, Trace}
use praktikum.Backend.Reads.{Reads}

phase_of_state : String → String
phase_of_state state =
    if str_eq state "COMPLETED"
    then "Succeeded"
    else if str_eq state "FAILED" || str_eq state "SUBMISSION_FAILED"
    then "Failed"
    else "Running"

module _ {rt : Runtime} (reads : Reads rt) where
  -- A missing state reads as the empty text.
  unfoldable pub parse_spark_phase : Json → String
  unfolding phase_of_state
  parse_spark_phase app =
      phase_of_state
        (get_or (reads.nested_string ("status" ∷ "applicationState" ∷ "state" ∷ []) app) "")

  unfoldable pub get_phase : Trace rt → String → String → Result (String × String)
  unfolding parse_spark_phase
  get_phase trace namespace name = do
    app ←
        with_context ("fetching SparkApplication " <> name)
          (reads.get_object trace "SparkApplication" namespace name)
    ok (parse_spark_phase app, "")

  abbrev pub get_start_time : Trace rt → String → String → Result ℕ
  get_start_time trace namespace name = ok (reads.now trace)

  abbrev pub get_end_time : Trace rt → String → String → Result ℕ
  get_end_time trace namespace name = ok 0
