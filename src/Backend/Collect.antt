-- ===== src/Backend/Collect.antt =====
-- operator/internal/backend/collect: collect.go and pvc.go. The reader pod's calls are recorded,
-- newest first; client-go and the wait are behind `Reads`.
pub mod Cleanup
pub mod Keys
use praktikum.Prelude.{
  ◌%◌, pos, String, true, Option, none, some, List, [], ◌∷◌, ◌++◌, show_int, ◌<>◌,
}
use praktikum.Runtime.{Runtime, Error, Result, ok, err, wrap, ◌>>◌, with_context}
use praktikum.System.{
  Trace, Json, text, bool, array, object, no_items, item, no_fields, field, texts,
}
use praktikum.Backend.Reads.{Reads, PodCall, create_pod, delete_pod, exec_cat}

abbrev pub Metrics : Type 0
Metrics = List (String × String)

-- A parser updates the metrics in place.
abbrev pub LogParser : Type 0
LogParser = String → Metrics → Metrics

-- The two loops of FromPodLogs: over the lines, and over the parsers.
unfoldable pub parse_line : List LogParser → String → Metrics → Metrics
parse_line [] line metrics = metrics
parse_line (p ∷ ps) line metrics = parse_line ps line (p line metrics)

unfoldable pub parse_lines : List LogParser → List String → Metrics → Metrics
unfolding parse_line
parse_lines parsers [] metrics = metrics
parse_lines parsers (line ∷ lines) metrics =
    parse_lines parsers lines (parse_line parsers line metrics)

-- The pod that FromPVCFile creates, without its Go types' empty fields.
pub reader_pod : String → String → String → Json
reader_pod pod namespace pvc = object (
    field "metadata"
      (object (field "name" (text pod) (field "namespace" (text namespace) no_fields)))
      (field "spec"
        (object (
          field "restartPolicy" (text "Never") (
            field "containers"
              (array (
                item
                  (object (
                    field "name" (text "reader") (
                      field "image" (text "busybox:1.36") (
                        field "command" (array (texts ("sleep" ∷ "infinity" ∷ []))) (
                          field "volumeMounts"
                            (array (
                              item
                                (object (
                                  field "name" (text "pvc") (
                                    field "mountPath" (text "/mnt/pvc")
                                      (field "readOnly" (bool true) no_fields))))
                                no_items))
                            no_fields)))))
                  no_items))
              (field "volumes"
                (array (
                  item
                    (object (
                      field "name" (text "pvc") (
                        field "persistentVolumeClaim"
                          (object
                            (field "claimName" (text pvc) (field "readOnly" (bool true) no_fields)))
                          no_fields)))
                    no_items))
                no_fields))))
        no_fields))

-- The metrics, and the error besides them: a scanner that fails returns what it has read.
scanned : Metrics → Option Error → Metrics × Option Error
scanned metrics none = (metrics, none)
scanned metrics (some e) = (metrics, some (wrap "reading pod logs" e))

module _ {rt : Runtime} (reads : Reads rt) where
  unfoldable pub new_clientset : Trace rt → Result (Unit {0})
  new_clientset trace = do
    with_context "getting kubeconfig" (reads.new_config trace)
    with_context "creating clientset" (reads.new_clientset trace)

  read_log :
      String
      → String
      → List LogParser
      → Result (List String × Option Error)
      → Metrics × Option Error
  unfolding parse_lines scanned
  read_log namespace pod parsers (err e) =
      ([], some (wrap ("streaming pod logs for " <> (namespace <> ("/" <> pod))) e))
  read_log namespace pod parsers (ok (lines, failure)) =
      scanned (parse_lines parsers lines []) failure

  unfoldable pub from_pod_logs :
      Trace rt → String → String → String → List LogParser → Metrics × Option Error
  unfolding read_log
  from_pod_logs trace namespace pod container parsers =
      read_log namespace pod parsers (reads.stream_log trace namespace pod container)

  pub reader_name : Trace rt → String
  reader_name trace = "pvc-reader-" <> show_int (pos (reads.now trace % 1000000))

  -- `none` refuses nothing.
  checked : String → Option Error → Result (Unit {0})
  checked prefix none = ok tt
  checked prefix (some e) = err (wrap prefix e)

  -- What happens between the creation of the pod and the deferred deletion.
  run_reader : Trace rt → String → String → List PodCall × Result String
  unfolding checked
  run_reader trace pod path =
      elim (checked "waiting for reader pod to be Running" (reads.await_reader trace pod)) [
        | err e ↦ ([], err e)
        | ok _ ↦ elim (with_context "getting kubeconfig for exec" (reads.new_config trace)) [
          | err e ↦ ([], err e)
          | ok _ ↦ elim (checked "creating exec" (reads.new_executor trace pod)) [
            | err e ↦ ([], err e)
            | ok _ ↦ (
              exec_cat pod ∷ [],
              with_context ("exec cat " <> path)
                  (reads.exec_reader trace pod ("/mnt/pvc/" <> path)),
            )
          ]
        ]
      ]

  created : Trace rt → String → String → Option Error → List PodCall × Result String
  unfolding run_reader
  created trace pod path (some e) = (create_pod pod ∷ [], err (wrap "creating reader pod" e))
  created trace pod path none =
      let (calls, reply) = run_reader trace pod path in
      (delete_pod pod ∷ (calls ++ create_pod pod ∷ []), reply)

  -- FromPVCFile: the calls on the reader pod, newest first, and the file's bytes.
  unfoldable pub from_pvc_file : Trace rt → String → String → String → List PodCall × Result String
  unfolding reader_name reader_pod created
  from_pvc_file trace namespace pvc path =
      created trace (reader_name trace) path
        (reads.create_reader trace (reader_pod (reader_name trace) namespace pvc))
