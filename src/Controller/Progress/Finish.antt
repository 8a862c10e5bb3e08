-- ===== src/Controller/Progress/Finish.antt =====
-- A job whose passes are served comes to its end in Succeeded or Failed.
use praktikum.Prelude.{
  ℕ, zero, suc, ◌≤◌, Option, none, some, List, [], ◌∷◌, ◌≡◌, ◌⊎◌, inl, inr, refl, ◌∙◌, length,
  arith,
}
use praktikum.Runtime.{Runtime, Error}
use praktikum.Api.{Phase, DistributedTrainingStatus}
use praktikum.System.{World, Reconciler}
use praktikum.Controller.Reconcile.{reconcile}
use praktikum.Controller.Runs.{rank, passes, passes-final}
use praktikum.Controller.Progress.{left, left-final, Serves, reconcile-left}

-- Each pass of the sequence finds the object and is served.
abbrev pub Served : {rt : Runtime} → List (Reconciler rt × Option Error) → World rt → Type 0
Served [] w = Unit {0}
Served ((r, found) ∷ ps) w = (found ≡ none) × Serves r w × Served ps (reconcile r found w).1

left-rank : (s : DistributedTrainingStatus) → left s ≡ 0 → 5 ≤ rank s.phase
left-rank s e = elim (left-final s (omega (arith, e))) [
  | inl p ↦ rw p (omega arith)
  | inr p ↦ rw p (omega arith)
]

left-same : (s t : DistributedTrainingStatus) → left s ≡ 0 → t.phase ≡ s.phase → left t ≡ 0
left-same s t e same = elim (left-final s (omega (arith, e))) [
  | inl p ↦ rw (same ∙ p) refl
  | inr p ↦ rw (same ∙ p) refl
]

module _ {rt : Runtime} (r : Reconciler rt) (w : World rt) (serves : Serves r w) where
  served_at-left :
      (m n : ℕ)
      → left w.stored.status ≡ m
      → m ≤ suc n
      → left (reconcile r none w).1.stored.status ≤ n
  unfolding passes
  served_at-left zero n e h =
      let same = passes-final ((r, none) ∷ []) w (left-rank w.stored.status e) in
      omega (arith, left-same w.stored.status (reconcile r none w).1.stored.status e same)
  served_at-left (suc m) n e h = omega (arith, e, reconcile-left r w serves (omega (arith, e)))

module _ {rt : Runtime} where
  -- Let each pass of a sequence find the object and be served. After as many passes as the stored
  -- status still needs, at most seven, the stored phase is Succeeded or Failed.
  pub passes-finish :
      (ps : List (Reconciler rt × Option Error)) (w : World rt)
      → Served ps w
      → left w.stored.status ≤ length ps
      → ((passes ps w).stored.status.phase ≡ Phase.succeeded)
        ⊎ ((passes ps w).stored.status.phase ≡ Phase.failed)
  unfolding passes
  passes-finish [] w h enough = left-final w.stored.status enough
  passes-finish ((r, none) ∷ ps) w (found, serves, rest) enough =
      passes-finish ps (reconcile r none w).1 rest
        (served_at-left r w serves (left w.stored.status) (length ps) refl enough)
  passes-finish ((r, some e) ∷ ps) w (found, serves, rest) enough = cc
