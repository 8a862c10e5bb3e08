-- ===== src/Backend/Pytorch/Results.antt =====
-- CollectResults of operator/internal/backend/pytorch/pytorch.go, from the text of
-- all_results.json.
use praktikum.Prelude.{
  zero_ℤ, ltb_ℤ, String, List, [], ◌∷◌, ◌++◌, is_empty, show_int, if◌then◌else◌, ◌<>◌,
}
use praktikum.Runtime.{Runtime, Result, ok, err, errorf, ◌>>=◌, ◌>>◌, with_context}
use praktikum.Api.{DistributedTraining, JobResults, no_results}
use praktikum.System.{Trace}
use praktikum.Solver.Formulas.{nought}
use praktikum.Backend.Reads.{Reads, AllResults}
use praktikum.Backend.Collect.{new_clientset, from_pvc_file}

module _ (rt : Runtime) where
  -- if loss == 0 { loss = r.TrainLoss }
  or_else : rt.Float → rt.Float → rt.Float
  or_else f d = if rt.eq f (nought rt) then d else f

  -- The loss, and the perplexity, which is exp(loss) where the file has none.
  loss_metrics : rt.Float → rt.Float → List (String × String)
  unfolding or_else
  loss_metrics loss perplexity =
      if rt.lt (nought rt) loss
      then ("loss", rt.format_fixed 4 loss)
        ∷ ("perplexity", rt.format_fixed 4 (or_else perplexity (rt.exp loss)))
        ∷ []
      else []

  unfoldable pub metrics_of : AllResults rt → List (String × String)
  unfolding or_else loss_metrics
  metrics_of r =
      (if rt.lt (nought rt) r.train_samples_per_second
        then ("samplesPerSecond", rt.format_fixed 4 r.train_samples_per_second) ∷ []
        else [])
      ++ ((if ltb_ℤ zero_ℤ r.train_samples
            then ("totalSamples", show_int r.train_samples) ∷ []
            else [])
          ++ loss_metrics (or_else r.eval_loss r.train_loss) r.perplexity)

module _ {rt : Runtime} (reads : Reads rt) where
  collect_from_pvc : Trace rt → String → String → Result (List (String × String))
  unfolding metrics_of
  collect_from_pvc trace namespace pvc = do
    raw ← (from_pvc_file reads trace namespace pvc "checkpoints/all_results.json").1
    r ← with_context "parsing all_results.json" (reads.unmarshal_results raw)
    ok (metrics_of rt r)

  unfoldable pub collect_results : Trace rt → DistributedTraining → Result JobResults
  unfolding collect_from_pvc
  collect_results trace job =
      if is_empty job.spec.output_pvc_name
      then err (errorf "pytorch backend requires spec.outputPVCName to collect results")
      else (do
        new_clientset reads trace
        metrics ←
            with_context ("reading all_results.json from PVC " <> job.spec.output_pvc_name)
              (collect_from_pvc trace job.namespace job.spec.output_pvc_name)
        ok (record no_results { metrics = metrics }))
