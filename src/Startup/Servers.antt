-- ===== src/Startup/Servers.antt =====
-- The options that main of operator/cmd/main.go gives the webhook server, the metrics server, the
-- manager and the controller. Of tls.Config the one field that the code sets is modelled.
pub mod Secure
use praktikum.Prelude.{
  String, Bool, true, false, not, Option, none, some, List, [], ◌∷◌, is_empty, if◌then◌else◌,
}
use praktikum.Startup.{Flags}

pub record TlsConfig : Type 0 where
  pub next_protos : List String

pub disable_http2 : TlsConfig → TlsConfig
disable_http2 c = record c { next_protos = "http/1.1" ∷ [] }

abbrev pub TlsOptions : Type 0
TlsOptions = List (TlsConfig → TlsConfig)

unfoldable pub tls_options : Flags → TlsOptions
unfolding disable_http2
tls_options flags = if not flags.enable_http2 then disable_http2 ∷ [] else []

-- webhook.Options
pub record WebhookOptions : Type 0 where
  pub tls_opts : TlsOptions
  pub cert_dir : String
  pub cert_name : String
  pub key_name : String

unfoldable pub webhook_options : Flags → WebhookOptions
unfolding tls_options
webhook_options flags =
    let options : WebhookOptions = record {
      tls_opts = tls_options flags;
      cert_dir = "";
      cert_name = "";
      key_name = "";
    } in
    if not (is_empty flags.webhook_cert_path)
    then record options {
      cert_dir = flags.webhook_cert_path;
      cert_name = flags.webhook_cert_name;
      key_name = flags.webhook_cert_key;
    }
    else options

pub data FilterProvider : Type 0 where
  with_authentication_and_authorization : FilterProvider

-- metricsserver.Options
pub record MetricsOptions : Type 0 where
  pub bind_address : String
  pub secure_serving : Bool
  pub tls_opts : TlsOptions
  pub filter_provider : Option FilterProvider
  pub cert_dir : String
  pub cert_name : String
  pub key_name : String

unfoldable pub metrics_options : Flags → MetricsOptions
unfolding tls_options
metrics_options flags =
    let options : MetricsOptions = record {
      bind_address = flags.metrics_addr;
      secure_serving = flags.secure_metrics;
      tls_opts = tls_options flags;
      filter_provider =
          if flags.secure_metrics then some with_authentication_and_authorization else none;
      cert_dir = "";
      cert_name = "";
      key_name = "";
    } in
    if not (is_empty flags.metrics_cert_path)
    then record options {
      cert_dir = flags.metrics_cert_path;
      cert_name = flags.metrics_cert_name;
      key_name = flags.metrics_cert_key;
    }
    else options

-- ctrl.Options, without the scheme
pub record ManagerOptions : Type 0 where
  pub metrics : MetricsOptions
  pub webhook_server : WebhookOptions
  pub health_probe_bind_address : String
  pub leader_election : Bool
  pub leader_election_id : String

unfoldable pub manager_options : Flags → ManagerOptions
unfolding metrics_options webhook_options
manager_options flags = record {
  metrics = metrics_options flags;
  webhook_server = webhook_options flags;
  health_probe_bind_address = flags.probe_addr;
  leader_election = flags.enable_leader_election;
  leader_election_id = "338fdebe.distributedtraining.io";
}

-- predicate.GenerationChangedPredicate: an update that leaves the generation as it is, such as one
-- of the status, does not call Reconcile.
pub data EventFilter : Type 0 where
  generation_changed : EventFilter

-- What SetupWithManager tells the builder of the controller.
pub record ControllerOptions : Type 0 where
  pub watched : String
  pub event_filter : EventFilter

abbrev pub controller_options : ControllerOptions
controller_options = record { watched = "DistributedTraining"; event_filter = generation_changed }
