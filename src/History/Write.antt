-- ===== src/History/Write.antt =====
-- writeHistoryEntry of operator/internal/controller/history.go.
pub mod Keeps
pub mod Goes
pub mod Usable
use Prim.Native.String.{len, slice}
use praktikum.Prelude.{
  ℤ, pos, zero_ℤ, eq_ℤ, String, Bool, true, false, ◌||◌, Option, none, some, ltb, is_empty,
  if◌then◌else◌, ◌<>◌,
}
use praktikum.Runtime.{Runtime, Error, Result, ok, err}
use praktikum.Api.{BackendType, JobResults, DistributedTraining, HistorySpec}
use praktikum.System.{
  World, Handler, ◌>>=◌, ◌>>◌, pure, ask, record_event, Reconciler, warning, create_history,
}
use praktikum.Controller.Defaults.{effective_backend, is_job, effective_machine_type}
use praktikum.Solver.Formulas.{nought}
use praktikum.History.Hash.{compute_config_hash}
use praktikum.History.Throughput.{extract_throughput, node_count_for_history}
use praktikum.History.Prune.{prune_history}

-- GenerateName: "djh-<name>-", cut to 57 bytes.
unfoldable pub entry_prefix : DistributedTraining → String
entry_prefix job =
    let prefix = "djh-" <> (job.name <> "-") in
    if ltb 57 (len prefix) then slice prefix 0 57 else prefix

module _ {rt : Runtime} (r : Reconciler rt) where
  abbrev skip : String → Handler (World rt) (Unit {0})
  skip message = record_event warning "HistorySkipped" message

  -- err != nil || pk == 0
  usable_throughput : Result rt.Float → Option rt.Float
  usable_throughput (err _) = none
  usable_throughput (ok p) = if rt.eq p (nought rt) then none else some p

  provisioning_time : JobResults → rt.Float
  provisioning_time results =
      if is_empty results.provisioning_time
      then nought rt
      else (elim (rt.parse_duration results.provisioning_time) [
        | ok d ↦ rt.seconds d
        | err _ ↦ nought rt
      ])

  -- The cost is read from the status, not from `results`.
  unfoldable pub entry_spec :
      DistributedTraining → JobResults → rt.Float → rt.Float → HistorySpec rt.Quantity
  unfolding provisioning_time
  entry_spec job results tk pk = record {
    backend = effective_backend job.spec.backend;
    machine_type = effective_machine_type r job;
    config_hash = compute_config_hash rt.sha256_hex job;
    nodes = node_count_for_history job;
    throughput = rt.quantity_of pk;
    training_seconds = rt.quantity_of tk;
    total_work = rt.quantity_of (rt.mul tk pk);
    provisioning_seconds = rt.quantity_of (provisioning_time results);
    actual_cost_usd = elim job.status.results [ none ↦ "" | some old ↦ old.estimated_cost_usd ];
  }

  -- The entry to write, or the reason why there is none; the job backend has neither.
  pub data Entry : Type 0 where
    not_applicable : Entry
    skipped : String → Entry
    entry : HistorySpec rt.Quantity → Entry

  entry_with_throughput : DistributedTraining → JobResults → rt.Float → Option rt.Float → Entry
  unfolding entry_spec
  entry_with_throughput job results tk none =
      skipped
        "skipping history write: throughput (P_k) is missing or zero — W = 0 would corrupt the solver"
  entry_with_throughput job results tk (some pk) =
      if eq_ℤ (node_count_for_history job) zero_ℤ
      then skipped "skipping history write: could not determine node count (n_k == 0)"
      else entry (entry_spec job results tk pk)

  entry_with_time : DistributedTraining → JobResults → Result ℤ → Entry
  unfolding entry_with_throughput usable_throughput
  entry_with_time job results (err e) = skipped (
      "skipping history write: cannot parse trainingTime "
      <> (rt.quote results.training_time <> (": " <> e.message)))
  entry_with_time job results (ok d) = entry_with_throughput job results (rt.seconds d) (
      usable_throughput
        (extract_throughput rt (effective_backend job.spec.backend) results (rt.seconds d)))

  unfoldable pub history_entry : DistributedTraining → JobResults → Entry
  unfolding entry_with_time
  history_entry job results =
      if is_job (effective_backend job.spec.backend)
      then not_applicable
      else if is_empty results.training_time
      then skipped "skipping history write: trainingTime is empty"
      else entry_with_time job results (rt.parse_duration results.training_time)

  -- Failed pruning and a refused creation are only logged.
  store_entry : DistributedTraining → Entry → Handler (World rt) (Unit {0})
  store_entry job not_applicable = pure tt
  store_entry job (skipped message) = skip message
  store_entry job (entry spec) = do
    prune_history r job.namespace spec.config_hash
    ask (create_history (entry_prefix job) spec) (λ trace. r.cluster.create_entry trace spec)
    pure tt

  unfoldable pub write_history_entry :
      DistributedTraining → JobResults → Handler (World rt) (Unit {0})
  unfolding store_entry history_entry
  write_history_entry job results = store_entry job (history_entry job results)
