-- ===== src/History/Write/Keeps.antt =====
-- Writing history touches neither the stored status nor a node pool.
use praktikum.Prelude.{String, List, [], ◌∷◌}
use praktikum.Runtime.{Runtime}
use praktikum.Api.{DistributedTraining, JobResults, DistributedTrainingStatus, HistoryEntry}
use praktikum.System.{Trace, Reconciler}
use praktikum.System.Keeps.{Keeps, Inv, Quiet, Keeps-bind, Keeps-on_option, keeps_rules}
use praktikum.History.Prune.{delete_all, prune_history}
use praktikum.History.Write.{
  Entry, not_applicable, skipped, entry, store_entry, write_history_entry,
}

module _ {rt : Runtime} {S : DistributedTrainingStatus → Type 0} {T : Trace rt → Type 0}
    (q : Quiet T) (r : Reconciler rt) where
  Keeps-delete_all : (es : List (HistoryEntry rt.Quantity)) → Keeps (Inv S T) (delete_all r es)
  unfolding delete_all
  Keeps-delete_all [] = search (keeps_rules)
  Keeps-delete_all (e ∷ es) =
      Keeps-bind _ _ (search (keeps_rules, q.step))
        (λ x. Keeps-on_option x _ _ (Keeps-delete_all es) (λ y. search (keeps_rules)))

  Keeps-prune_history : (namespace hash : String) → Keeps (Inv S T) (prune_history r namespace hash)
  unfolding prune_history
  Keeps-prune_history namespace hash = search (keeps_rules, q.step, Keeps-delete_all)

  Keeps-store_entry :
      (job : DistributedTraining) (x : Entry r) → Keeps (Inv S T) (store_entry r job x)
  unfolding store_entry
  Keeps-store_entry job not_applicable = search (keeps_rules)
  Keeps-store_entry job (skipped message) = search (keeps_rules, q.step)
  Keeps-store_entry job (entry spec) = search (keeps_rules, q.step, Keeps-prune_history) depth 7

  pub Keeps-write_history_entry :
      (job : DistributedTraining) (results : JobResults)
      → Keeps (Inv S T) (write_history_entry r job results)
  unfolding write_history_entry
  Keeps-write_history_entry job results = Keeps-store_entry job _
