-- ===== src/Examples/Services.antt =====
-- A cluster that the backends read, and a container API.
use praktikum.Prelude.{none, some, [], ◌∷◌, str_eq, if◌then◌else◌, pos}
use praktikum.Runtime.{ok, err, errorf}
use praktikum.System.{text, array, object, Items, item, no_items, no_fields, field, Reconciler}
use praktikum.Backend.Reads.{Reads, AllResults}
use praktikum.Cloud.Gke.{GkeClient, GkeCluster, OperationStatus, gke_provider}
use praktikum.Startup.{backends}
use praktikum.Examples.Samples.{small_runtime, small_reconciler}

abbrev pub small_results : AllResults small_runtime
small_results = record {
  train_samples_per_second = 7;
  train_loss = 2;
  eval_loss = 0;
  perplexity = 0;
  train_runtime = 100;
  train_samples = pos 4;
}

-- The conditions of a PyTorchJob that has been created and has succeeded.
abbrev pub two_conditions : Items
two_conditions =
    item (object (field "type" (text "Created") (field "status" (text "True") no_fields))) (
      item
        (object (
          field "type" (text "Succeeded")
            (field "status" (text "True") (field "reason" (text "Done") no_fields))))
        no_items)

abbrev pub small_reads : Reads small_runtime
small_reads = record {
  now = λ t. 1234567;
  get_object = λ t k n s. ok (
      object
        (field "status" (object (field "conditions" (array two_conditions) no_fields)) no_fields));
  list_pods = λ t n l. ok ("spark-tune-driver" ∷ []);
  new_config = λ t. ok tt;
  new_clientset = λ t. ok tt;
  stream_log = λ t n p c. ok ("4" ∷ "done" ∷ [], none);
  create_reader = λ t p. none;
  await_reader = λ t p. some (errorf "timed out");
  new_executor = λ t p. none;
  exec_reader = λ t p f. ok "{}";
  unmarshal_results = λ s. ok small_results;
  parse_time = λ s. ok 0;
  find_group = λ p line. if str_eq line "4" then some "4" else none;
  nested_string = λ k v. none;
  nested_slice = λ k v. two_conditions;
  print_other = λ v. "<other>";
}

abbrev pub small_cluster : GkeCluster
small_cluster = record { project = "p"; location = "us-east1"; cluster = "c" }

abbrev pub done_client : GkeClient small_runtime
done_client = record {
  create_node_pool = λ t c n. ok "operation-1";
  delete_node_pool = λ t n. ok "operation-2";
  get_operation = λ t o. ok (record { status = OperationStatus.done; error = none });
}

abbrev pub silent_client : GkeClient small_runtime
silent_client = record done_client { get_operation = λ t o. err (errorf "unavailable") }

-- The reconciler with the backends of `main` and the GKE provider.
abbrev pub assembled : GkeClient small_runtime → Reconciler small_runtime
assembled client = record small_reconciler {
  cloud = gke_provider small_cluster client;
  backends = backends small_reads;
}
