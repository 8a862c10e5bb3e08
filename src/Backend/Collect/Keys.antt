-- ===== src/Backend/Collect/Keys.antt =====
-- What each parser of FromPodLogs keeps, the whole log keeps.
use praktikum.Prelude.{
  String, Option, none, some, List, [], ◌∷◌, All, insert, str_eq, Bool-cases, inl, inr,
}
use praktikum.Runtime.{Runtime, Error, Result, ok, err}
use praktikum.System.{Trace}
use praktikum.Backend.Reads.{Reads}
use praktikum.Backend.Collect.{
  Metrics, LogParser, parse_line, parse_lines, scanned, read_log, from_pod_logs,
}

abbrev pub KeepsEach : (Metrics → Type 0) → List LogParser → Type 0
KeepsEach Q parsers = All (λ p. (line : String) (m : Metrics) → Q m → Q (p line m)) parsers

module _ (Q : Metrics → Type 0) where
  parse_line-keeps :
      (parsers : List LogParser) (line : String) (m : Metrics)
      → KeepsEach Q parsers
      → Q m
      → Q (parse_line parsers line m)
  unfolding parse_line
  parse_line-keeps [] line m k q = q
  parse_line-keeps (p ∷ ps) line m (k, ks) q = parse_line-keeps ps line (p line m) ks (k line m q)

  parse_lines-keeps :
      (parsers : List LogParser) (lines : List String) (m : Metrics)
      → KeepsEach Q parsers
      → Q m
      → Q (parse_lines parsers lines m)
  unfolding parse_lines
  parse_lines-keeps parsers [] m k q = q
  parse_lines-keeps parsers (line ∷ lines) m k q =
      parse_lines-keeps parsers lines (parse_line parsers line m) k
        (parse_line-keeps parsers line m k q)

  scanned-keeps : (m : Metrics) (e : Option Error) → Q m → Q (scanned m e).0
  unfolding scanned
  scanned-keeps m none q = q
  scanned-keeps m (some e) q = q

  read_log-keeps :
      {rt : Runtime} (reads : Reads rt) (namespace pod : String) (parsers : List LogParser)
      (x : Result (List String × Option Error))
      → KeepsEach Q parsers
      → Q []
      → Q (read_log reads namespace pod parsers x).0
  unfolding read_log
  read_log-keeps reads namespace pod parsers (err e) k q = q
  read_log-keeps reads namespace pod parsers (ok (lines, failure)) k q =
      scanned-keeps (parse_lines parsers lines []) failure (parse_lines-keeps parsers lines [] k q)

  -- What holds of no metrics and is kept by every parser holds of the metrics that FromPodLogs
  -- returns, with an error besides them or without.
  pub from_pod_logs-keeps :
      {rt : Runtime} (reads : Reads rt) (trace : Trace rt) (namespace pod container : String)
      (parsers : List LogParser)
      → KeepsEach Q parsers
      → Q []
      → Q (from_pod_logs reads trace namespace pod container parsers).0
  unfolding from_pod_logs
  from_pod_logs-keeps reads trace namespace pod container parsers k q =
      read_log-keeps reads namespace pod parsers (reads.stream_log trace namespace pod container) k
        q

-- Setting a key of a map keeps a property of its keys that the key has.
module _ {ℓ} {V : Type ℓ} (P : String → Type 0) where
  abbrev pub KeysAre : List (String × V) → Type 0
  KeysAre m = All (λ (k, v). P k) m

  pub insert-KeysAre :
      (k : String) (v : V) (m : List (String × V)) → P k → KeysAre m → KeysAre (insert k v m)
  unfolding insert
  insert-KeysAre k v [] p a = (p, tt)
  insert-KeysAre k v ((j, w) ∷ m) p (a, rest) = elim (Bool-cases (str_eq j k)) [
    | inl e ↦ rw (e, insert) (p, rest)
    | inr e ↦ rw (e, insert) (a, insert-KeysAre k v m p rest)
  ]
