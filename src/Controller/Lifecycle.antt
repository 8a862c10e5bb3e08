-- ===== src/Controller/Lifecycle.antt =====
-- The lifecycle of a DistributedTraining, by the phases that one pass of Reconcile can store.
use praktikum.Prelude.{
  List, String, Bool, true, false, not, Option, none, some, ◌≡◌, refl, if◌then◌else◌, ◌∷◌,
}
use praktikum.Runtime.{Runtime, Error}
use praktikum.Api.{Phase, DistributedTrainingStatus}
use praktikum.System.{
  NodePoolConfig, create_node_pool, delete_node_pool, get_job, World, Reconciler, Trace, ◌>>=◌,
}
use praktikum.System.Keeps.{Keeps, Inv, Quiet, Keeps-give, Keeps-if, keeps_rules}
use praktikum.Controller.Transitions.Keeps.{Keeps-set_phase}
use praktikum.Controller.Pending.Keeps.{Keeps-reconcile_pending}
use praktikum.Controller.Provisioning.Keeps.{Keeps-reconcile_provisioning}
use praktikum.Controller.Ready.Keeps as ReadyKeeps
use praktikum.Controller.Ready.Keeps.{Keeps-reconcile_ready}
use praktikum.Controller.Running.Keeps.{Keeps-reconcile_running}
use praktikum.Controller.Collecting.Keeps.{Keeps-reconcile_collecting}
use praktikum.Controller.Succeeded.Keeps.{Keeps-reconcile_succeeded}
use praktikum.Controller.Delete.Keeps.{Keeps-change_finalizers, Keeps-reconcile_delete}
use praktikum.Controller.Delete.{contains, finalizer_name, reconcile_delete}
use praktikum.Controller.Pending.{reconcile_pending}
use praktikum.Controller.Provisioning.{reconcile_provisioning}
use praktikum.Controller.Collecting.{reconcile_collecting}
use praktikum.Controller.Reconcile.{
  handle_phase, register_finalizer, reconcile_job, reconcile, fetched,
}

-- The transitions of the lifecycle; a pass may also leave the phase as it is.
pub data Edge : Phase → Phase → Type 0 where
  stays : {p : Phase} → Edge p p
  first_accepted : Edge Phase.unset Phase.provisioning
  first_rejected : Edge Phase.unset Phase.failed
  accepted : Edge Phase.pending Phase.provisioning
  rejected : Edge Phase.pending Phase.failed
  provisioned : Edge Phase.provisioning Phase.ready
  not_provisioned : Edge Phase.provisioning Phase.failed
  submitted : Edge Phase.ready Phase.running
  not_submitted : Edge Phase.ready Phase.failed
  completed : Edge Phase.running Phase.collecting
  broken : Edge Phase.running Phase.failed
  collected : Edge Phase.collecting Phase.succeeded
  reset : {s : String} → Edge (Phase.other s) Phase.pending

abbrev pub From : Phase → DistributedTrainingStatus → Type 0
From p s = Edge p s.phase

-- The phases whose handlers may start the creation, and the deletion, of the node pool.
abbrev pub may_create : Phase → Bool
may_create Phase.provisioning = true
may_create _ = false

abbrev pub may_delete : Phase → Bool
may_delete Phase.provisioning = true
may_delete Phase.collecting = true
may_delete _ = false

module _ {rt : Runtime} (r : Reconciler rt) {T : Trace rt → Type 0} (quiet : Quiet T) where
  abbrev Creates : Phase → Type 0
  Creates p =
      may_create p ≡ true
      → (pool : String) (cfg : NodePoolConfig) (t : Trace rt) → T t
      → T (create_node_pool pool cfg ∷ t)

  abbrev Deletes : Phase → Type 0
  Deletes p =
      may_delete p ≡ true → (pool : String) (t : Trace rt) → T t → T (delete_node_pool pool ∷ t)

  pending-edges :
      (p : Phase)
      → Edge p Phase.failed
      → Edge p Phase.provisioning
      → Keeps (Inv (From p) T) (reconcile_pending r)
  pending-edges p f g =
      Keeps-reconcile_pending quiet
        (record {
          to_failed = λ s m h. f;
          to_provisioning = λ s m h. g;
          starts = λ s t h. h;
          resolves = λ s t h. h;
        })
        r

  provisioning-edges :
      Creates Phase.provisioning
      → Deletes Phase.provisioning
      → Keeps (Inv (From Phase.provisioning) T) (reconcile_provisioning r)
  provisioning-edges creates deletes =
      Keeps-reconcile_provisioning quiet (creates refl) (deletes refl)
        (record {
          to_failed = λ s m h. not_provisioned;
          to_ready = λ s m h. provisioned;
          starts = λ s t h. h;
          stores_operation = λ s i h. h;
          counts = λ s n h. h;
          finishes = λ s n d h. h;
        })
        r

  ready-edges :
      (p : Phase) → Edge p Phase.failed → Edge p Phase.running → ReadyKeeps.Allows (From p)
  ready-edges p f g = record { to_failed = λ s m h. f; to_running = λ s m h. g; names = λ s n h. h }

  collecting-edges :
      Deletes Phase.collecting → Keeps (Inv (From Phase.collecting) T) (reconcile_collecting r)
  collecting-edges deletes =
      Keeps-reconcile_collecting quiet (deletes refl)
        (record { to_succeeded = λ s m h. collected; deletes = λ s i h. h; stores = λ s x t h. h })
        r

  handle_phase-edges :
      (p : Phase) → Creates p → Deletes p → Keeps (Inv (From p) T) (handle_phase r p)
  unfolding handle_phase
  handle_phase-edges Phase.unset creates deletes =
      pending-edges Phase.unset first_rejected first_accepted
  handle_phase-edges Phase.pending creates deletes = pending-edges Phase.pending rejected accepted
  handle_phase-edges Phase.provisioning creates deletes = provisioning-edges creates deletes
  handle_phase-edges Phase.ready creates deletes =
      Keeps-reconcile_ready quiet (ready-edges Phase.ready not_submitted submitted) r
  handle_phase-edges Phase.running creates deletes =
      Keeps-reconcile_running quiet
        (record {
          restarts = ready-edges Phase.running broken stays;
          to_collecting = λ s m h. completed;
          starts = λ s o h. h;
        })
        r
  handle_phase-edges Phase.collecting creates deletes = collecting-edges deletes
  handle_phase-edges Phase.succeeded creates deletes = Keeps-reconcile_succeeded quiet (λ s h. h) r
  handle_phase-edges Phase.failed creates deletes = Keeps-give _
  handle_phase-edges (Phase.other s) creates deletes =
      Keeps-set_phase quiet r Phase.pending "unknown phase, resetting" (λ t m h. reset)

  register_finalizer-edges : (p : Phase) → Keeps (Inv (From p) T) (register_finalizer r)
  unfolding register_finalizer
  register_finalizer-edges p = search (keeps_rules, Keeps-change_finalizers quiet r)

  handled :
      (p : Phase) (deleted : Bool) (finalizers : List String)
      → Creates p
      → (deleted ≡ true → (pool : String) (t : Trace rt) → T t → T (delete_node_pool pool ∷ t))
      → (deleted ≡ false → Deletes p)
      → Keeps (Inv (From p) T) (
          if deleted
          then reconcile_delete r
          else if not (contains finalizer_name finalizers)
          then register_finalizer r
          else handle_phase r p)
  handled p true finalizers creates removes deletes = Keeps-reconcile_delete quiet r (removes refl)
  handled p false finalizers creates removes deletes =
      Keeps-if (not (contains finalizer_name finalizers)) _ _ (register_finalizer-edges p)
        (handle_phase-edges p creates (deletes refl))

  pub reconcile_job-edges :
      (w : World rt)
      → Creates w.stored.status.phase
      → (w.stored.deleted ≡ true
          → (pool : String) (t : Trace rt) → T t
          → T (delete_node_pool pool ∷ t))
      → (w.stored.deleted ≡ false → Deletes w.stored.status.phase)
      → T w.trace
      → Inv (From w.stored.status.phase) T (reconcile_job r (fetched r w)).1
  unfolding reconcile_job ◌>>=◌
  reconcile_job-edges w creates removes deletes h =
      let p = w.stored.status.phase in
      (handled p w.stored.deleted w.stored.finalizers creates removes deletes).at (fetched r w)
        (record { status = stays; calls = quiet.step get_job refl w.trace h })

module _ {rt : Runtime} (r : Reconciler rt) where
  any_trace : Quiet {rt = rt} (λ t. Unit {0})
  any_trace = record { step = λ c e t h. tt }

  -- One pass moves the stored phase along an edge of the lifecycle or leaves it as it was, whatever
  -- the API server, the cloud and the backend answer: an empty phase or Pending to Provisioning,
  -- then Ready, Running, Collecting and Succeeded, none of them skipped; each of these before
  -- Collecting to Failed; a phase that is not known to Pending; Succeeded and Failed are never
  -- left.
  pub reconcile-Edge :
      (found : Option Error) (w : World rt)
      → Edge w.stored.status.phase (reconcile r found w).1.stored.status.phase
  unfolding reconcile
  reconcile-Edge none w =
      (reconcile_job-edges r any_trace w (λ _ _ _ _ _. tt) (λ _ _ _ _. tt) (λ _ _ _ _ _. tt)
        tt).status
  reconcile-Edge (some e) w = stays
