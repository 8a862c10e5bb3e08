-- ===== src/Backend/Pytorch/Status.antt =====
-- GetPhase, GetStartTime and GetEndTime of operator/internal/backend/pytorch/pytorch.go.
pub mod Phases
use praktikum.Prelude.{
  ℕ, String, Bool, false, Option, none, some, [], ◌∷◌, is_empty, str_eq, if◌then◌else◌, ◌<>◌,
}
use praktikum.Runtime.{Runtime, Result, ok, ◌>>=◌, with_context}
use praktikum.System.{Json, text, object, Items, no_items, item, Fields, Trace}
use praktikum.Backend.Reads.{Reads, get_field}

-- cmap[key] == s
pub is_text : String → Option Json → Bool
is_text s (some (text t)) = str_eq t s
is_text s _ = false

-- fmt.Sprint of a value that may be missing
sprint : (Json → String) → Option Json → String
sprint print_other none = "<nil>"
sprint print_other (some (text s)) = s
sprint print_other (some v) = print_other v

-- What a true condition decides: Succeeded or Failed with its reason.
decided : (Json → String) → Fields → Option (String × String)
unfolding is_text sprint get_field
decided print_other c =
    let reason = sprint print_other (get_field "reason" c) in
    if is_text "True" (get_field "status" c)
    then if is_text "Succeeded" (get_field "type" c)
      then some ("Succeeded", reason)
      else if is_text "Failed" (get_field "type" c)
      then some ("Failed", reason)
      else none
    else none

-- The loop over the conditions; one that is no object is skipped.
pub phase_of_conditions : (Json → String) → Items → String × String
unfolding decided
phase_of_conditions print_other no_items = ("Running", "")
phase_of_conditions print_other (item (object c) cs) = elim (decided print_other c) [
  | some phase ↦ phase
  | none ↦ phase_of_conditions print_other cs
]
phase_of_conditions print_other (item _ cs) = phase_of_conditions print_other cs

module _ {rt : Runtime} (reads : Reads rt) where
  get_job : Trace rt → String → String → Result Json
  get_job trace namespace name =
      with_context ("fetching PyTorchJob " <> name)
        (reads.get_object trace "PyTorchJob" namespace name)

  unfoldable pub parse_pytorch_job_phase : Json → String × String
  unfolding phase_of_conditions
  parse_pytorch_job_phase pj =
      phase_of_conditions reads.print_other (reads.nested_slice ("status" ∷ "conditions" ∷ []) pj)

  unfoldable pub get_phase : Trace rt → String → String → Result (String × String)
  unfolding get_job parse_pytorch_job_phase
  get_phase trace namespace name = do
    pj ← get_job trace namespace name
    ok (parse_pytorch_job_phase pj)

  -- A missing or empty text is the zero time.
  time_of : String → Option String → Result ℕ
  time_of name none = ok 0
  time_of name (some s) =
      if is_empty s
      then ok 0
      else with_context ("parsing PyTorchJob status." <> (name <> (" " <> rt.quote s)))
          (reads.parse_time s)

  unfoldable pub status_time : String → Trace rt → String → String → Result ℕ
  unfolding get_job time_of
  status_time name trace namespace job = do
    pj ← get_job trace namespace job
    time_of name (reads.nested_string ("status" ∷ name ∷ []) pj)

  abbrev pub get_start_time : Trace rt → String → String → Result ℕ
  get_start_time = status_time "startTime"

  abbrev pub get_end_time : Trace rt → String → String → Result ℕ
  get_end_time = status_time "completionTime"
