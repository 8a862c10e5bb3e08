-- ===== src/Backend/Spark/Status/Phases.antt =====
-- The phases that the Spark backend reports.
use praktikum.Prelude.{◌<>◌, get_or, [], ◌∷◌, String, ◌≡◌, refl, inl, inr, Bool-cases, str_eq, ◌||◌}
use praktikum.Runtime.{Runtime, ok, with_context, bind-answer}
use praktikum.System.{Json, Trace}
use praktikum.Backend.Reads.{Reads}
use praktikum.Backend.Contract.{IsPhase}
use praktikum.Backend.Spark.Status.{phase_of_state, parse_spark_phase, get_phase}

phase_of_state-IsPhase : (state : String) → IsPhase (phase_of_state state)
unfolding phase_of_state
phase_of_state-IsPhase state = elim (Bool-cases (str_eq state "COMPLETED")) [
  | inl e ↦ rw e (inl refl)
  | inr e ↦ elim (Bool-cases (str_eq state "FAILED" || str_eq state "SUBMISSION_FAILED")) [
    | inl f ↦ rw e (rw f (inr (inl refl)))
    | inr f ↦ rw e (rw f (inr (inr refl)))
  ]
]

module _ {rt : Runtime} (reads : Reads rt) where
  parse_spark_phase-IsPhase : (app : Json) → IsPhase (parse_spark_phase reads app)
  unfolding parse_spark_phase
  parse_spark_phase-IsPhase app =
      phase_of_state-IsPhase
        (get_or (reads.nested_string ("status" ∷ "applicationState" ∷ "state" ∷ []) app) "")

  pub get_phase-IsPhase :
      (trace : Trace rt) (namespace name : String) (p : String × String)
      → get_phase reads trace namespace name ≡ ok p
      → IsPhase p.0
  unfolding get_phase
  get_phase-IsPhase trace namespace name p e =
      bind-answer (λ q. IsPhase q.0)
        (with_context ("fetching SparkApplication " <> name)
          (reads.get_object trace "SparkApplication" namespace name))
        (λ app. (parse_spark_phase reads app, "")) p (λ app. parse_spark_phase-IsPhase app) e
