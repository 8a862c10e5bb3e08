-- ===== src/Backend/Reads.antt =====
-- What the backends read from the cluster and take from its libraries.
use praktikum.Prelude.{ℕ, ℤ, String, Option, none, some, List, str_eq, if◌then◌else◌}
use praktikum.Runtime.{Runtime, Error, Result}
use praktikum.System.{Json, Items, Fields, no_fields, field, Trace}

-- A float64 and an int of all_results.json by their names in the type `allResults`.
pub record AllResults (rt : Runtime) : Type 0 where
  pub train_samples_per_second : rt.Float
  pub train_loss : rt.Float
  pub eval_loss : rt.Float
  pub perplexity : rt.Float
  pub train_runtime : rt.Float
  pub train_samples : ℤ

-- The groups of the first match of one of the three regular expressions of the Spark backend.
pub data LogPattern : Type 0 where
  records_processed time_elapsed throughput : LogPattern

-- A call on the reader pod, which has the name given.
pub data PodCall : Type 0 where
  create_pod delete_pod exec_cat : String → PodCall

-- The services and library functions behind the backends. An answer may depend on the calls of the
-- controller before; the state of the cluster is theirs.
pub record Reads (rt : Runtime) : Type 0 where
  pub now : Trace rt → ℕ
  -- client.Get of an object by its kind, namespace and name
  pub get_object : Trace rt → String → String → String → Result Json
  -- client.List of the names of the pods with these labels
  pub list_pods : Trace rt → String → List (String × String) → Result (List String)
  -- ctrl.GetConfig and kubernetes.NewForConfig
  pub new_config : Trace rt → Result (Unit {0})
  pub new_clientset : Trace rt → Result (Unit {0})
  -- The lines of a pod's log up to the end of the stream or an error of the scanner, or the refusal
  -- of the stream
  pub stream_log : Trace rt → String → String → String → Result (List String × Option Error)
  -- The reader pod: the answers to its creation, to the wait for it, to the executor and to `cat`,
  -- whose error has the text of stderr at its end
  pub create_reader : Trace rt → Json → Option Error
  pub await_reader : Trace rt → String → Option Error
  pub new_executor : Trace rt → String → Option Error
  pub exec_reader : Trace rt → String → String → Result String
  -- json.Unmarshal into `allResults`
  pub unmarshal_results : String → Result (AllResults rt)
  -- time.Parse(time.RFC3339, s)
  pub parse_time : String → Result ℕ
  -- FindStringSubmatch, its first group
  pub find_group : LogPattern → String → Option String
  -- unstructured.NestedString, with `none` for an error or no such field, and NestedSlice, whose
  -- error is ignored and leaves no items
  pub nested_string : List String → Json → Option String
  pub nested_slice : List String → Json → Items
  -- fmt.Sprint of a value that is no text
  pub print_other : Json → String

-- obj[key]
unfoldable pub get_field : String → Fields → Option Json
get_field key no_fields = none
get_field key (field k v fs) = if str_eq k key then some v else get_field key fs
