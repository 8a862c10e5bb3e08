-- ===== src/History/Prune.antt =====
-- pruneHistory of operator/internal/controller/history.go: at the limit, the oldest entries make
-- room.
pub mod Oldest
use praktikum.Prelude.{
  on_option, ℕ, ◌+◌, ◌-◌, String, Bool, Option, none, some, List, [], ◌∷◌, length, take, ltb,
  if◌then◌else◌, ◌<>◌,
}
use praktikum.Runtime.{on_result, Runtime, Error, Result, ok, err, wrap}
use praktikum.Api.{HistoryEntry}
use praktikum.System.{World, Handler, ◌>>=◌, pure, ask, Reconciler, list_history, delete_history}

abbrev pub history_retention_limit : ℕ
history_retention_limit = 10

-- sort.Slice by creation time, oldest first; equal times, which Go leaves in any order, stay in
-- theirs.
module _ {Q : Type 0} where
  pub insert_by_age : HistoryEntry Q → List (HistoryEntry Q) → List (HistoryEntry Q)
  insert_by_age e [] = e ∷ []
  insert_by_age e (x ∷ xs) = if ltb x.created e.created then x ∷ insert_by_age e xs else e ∷ x ∷ xs

  pub sort_by_age : List (HistoryEntry Q) → List (HistoryEntry Q)
  sort_by_age [] = []
  sort_by_age (x ∷ xs) = insert_by_age x (sort_by_age xs)

  -- The entries that are deleted.
  unfoldable pub expired : List (HistoryEntry Q) → List (HistoryEntry Q)
  expired items =
      if ltb (length items) history_retention_limit
      then []
      else take (length items - history_retention_limit + 1) (sort_by_age items)

module _ {rt : Runtime} (r : Reconciler rt) where
  -- The loop ends at the first refusal.
  unfoldable pub delete_all : List (HistoryEntry rt.Quantity) → Handler (World rt) (Option Error)
  delete_all [] = pure none
  delete_all (e ∷ es) = do
    refused ← ask (delete_history e.name) (λ trace. r.cluster.delete_entry trace e.name)
    on_option refused (delete_all es)
        (λ x. pure (some (wrap ("deleting old history entry " <> e.name) x)))

  unfoldable pub prune_history : String → String → Handler (World rt) (Option Error)
  prune_history namespace config_hash = do
    items ←
        ask (list_history namespace config_hash)
          (λ trace. r.cluster.history trace namespace config_hash)
    on_result items (λ entries. delete_all (expired entries)) (λ e. pure (some e))
