-- ===== src/Controller/Pools.antt =====
-- Which passes of Reconcile create or delete the node pool, counted in the calls they make.
use praktikum.Prelude.{ℕ, suc, arith, ◌∙◌, false, Option, none, some, [], ◌∷◌, ◌≡◌, refl}
use praktikum.Runtime.{Runtime, Error}
use praktikum.System.{World, Reconciler, Trace, Call, create_node_pool, delete_node_pool}
use praktikum.System.Keeps.{Quiet, touches_pool}
use praktikum.Controller.Reconcile.{reconcile}
use praktikum.Controller.Lifecycle.{may_create, may_delete, reconcile_job-edges}

module _ {rt : Runtime} where
  -- How often the calls create, and delete, a node pool.
  unfoldable pub creations : Trace rt → ℕ
  creations [] = 0
  creations (create_node_pool _ _ ∷ t) = suc (creations t)
  creations (_ ∷ t) = creations t

  unfoldable pub deletions : Trace rt → ℕ
  deletions [] = 0
  deletions (delete_node_pool _ ∷ t) = suc (deletions t)
  deletions (_ ∷ t) = deletions t

  creations-quiet :
      (c : Call rt) → touches_pool c ≡ false → (t : Trace rt) → creations (c ∷ t) ≡ creations t
  unfolding creations
  creations-quiet c e t = ground arith

  deletions-quiet :
      (c : Call rt) → touches_pool c ≡ false → (t : Trace rt) → deletions (c ∷ t) ≡ deletions t
  unfolding deletions
  deletions-quiet c e t = ground arith

  pub creations-Quiet : (n : ℕ) → Quiet {rt = rt} (λ t. creations t ≡ n)
  creations-Quiet n = record { step = λ c e t h. creations-quiet c e t ∙ h }

  pub deletions-Quiet : (n : ℕ) → Quiet {rt = rt} (λ t. deletions t ≡ n)
  deletions-Quiet n = record { step = λ c e t h. deletions-quiet c e t ∙ h }

module _ {rt : Runtime} (r : Reconciler rt) where
  -- A pass over an object whose stored phase is not Provisioning asks the cloud for no new node
  -- pool.
  pub reconcile-creations :
      (found : Option Error) (w : World rt)
      → may_create w.stored.status.phase ≡ false
      → creations (reconcile r found w).1.trace ≡ creations w.trace
  unfolding reconcile creations
  reconcile-creations none w e =
      (reconcile_job-edges r (creations-Quiet (creations w.trace)) w (λ yes _ _ _ _. ground arith)
        (λ _ pool t h. h) (λ _ _ pool t h. h) refl).calls
  reconcile-creations (some _) w e = refl

  -- A pass over an object that is not being deleted and whose stored phase is neither Provisioning
  -- nor Collecting asks the cloud to delete no node pool.
  pub reconcile-deletions :
      (found : Option Error) (w : World rt)
      → w.stored.deleted ≡ false
      → may_delete w.stored.status.phase ≡ false
      → deletions (reconcile r found w).1.trace ≡ deletions w.trace
  unfolding reconcile deletions
  reconcile-deletions none w alive e =
      (reconcile_job-edges r (deletions-Quiet (deletions w.trace)) w (λ _ pool cfg t h. h)
        (λ yes _ _ _. ground arith) (λ _ yes _ _ _. ground arith) refl).calls
  reconcile-deletions (some _) w alive e = refl
