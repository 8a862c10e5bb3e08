-- ===== src/History/Write/Goes.antt =====
-- Writing history always goes on.
use praktikum.Prelude.{String, Option, some, none, List, [], ◌∷◌, on_option}
use praktikum.Runtime.{Runtime, Error}
use praktikum.Api.{DistributedTraining, JobResults, HistoryEntry}
use praktikum.System.{World, Handler, Reconciler}
use praktikum.System.Answers.{GoesOn, Answers-then, answers_rules}
use praktikum.History.Prune.{delete_all, prune_history}
use praktikum.History.Write.{
  Entry, not_applicable, skipped, entry, store_entry, write_history_entry,
}

module _ {rt : Runtime} (r : Reconciler rt) where
  GoesOn-on_option :
      {A : Type 0} (o : Option Error) (m : Handler (World rt) A) (f : Error → Handler (World rt) A)
      → GoesOn m
      → ((e : Error) → GoesOn (f e))
      → GoesOn (on_option o m f)
  GoesOn-on_option none m f p q = p
  GoesOn-on_option (some e) m f p q = q e

  delete_all-GoesOn : (es : List (HistoryEntry rt.Quantity)) → GoesOn (delete_all r es)
  unfolding delete_all
  delete_all-GoesOn [] = search (answers_rules)
  delete_all-GoesOn (e ∷ es) =
      Answers-then _ _ (search (answers_rules))
        (λ x. GoesOn-on_option x _ _ (delete_all-GoesOn es) (λ y. search (answers_rules)))

  prune_history-GoesOn : (namespace hash : String) → GoesOn (prune_history r namespace hash)
  unfolding prune_history
  prune_history-GoesOn namespace hash = search (answers_rules, delete_all-GoesOn)

  store_entry-GoesOn : (job : DistributedTraining) (x : Entry r) → GoesOn (store_entry r job x)
  unfolding store_entry
  store_entry-GoesOn job not_applicable = search (answers_rules)
  store_entry-GoesOn job (skipped message) = search (answers_rules)
  store_entry-GoesOn job (entry spec) = search (answers_rules, prune_history-GoesOn) depth 7

  pub write_history_entry-GoesOn :
      (job : DistributedTraining) (results : JobResults)
      → GoesOn (write_history_entry r job results)
  unfolding write_history_entry
  write_history_entry-GoesOn job results = store_entry-GoesOn job _
