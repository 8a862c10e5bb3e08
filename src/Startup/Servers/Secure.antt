-- ===== src/Startup/Servers/Secure.antt =====
-- How the servers that the flags configure are protected.
use praktikum.Prelude.{
  String, Bool, true, false, not, none, some, [], ◌∷◌, ◌≡◌, refl, is_empty, if◌then◌else◌,
}
use praktikum.Startup.{Flags}
use praktikum.Startup.Servers.{
  TlsConfig, TlsOptions, WebhookOptions, MetricsOptions, ManagerOptions, disable_http2, tls_options,
  webhook_options, metrics_options, manager_options, with_authentication_and_authorization,
}

-- A server applies its options to its configuration, one after the other.
abbrev pub configured : TlsOptions → TlsConfig → TlsConfig
configured [] c = c
configured (f ∷ fs) c = configured fs (f c)

-- A server speaks HTTP/1.1 alone unless HTTP/2 is enabled, and then what it would speak anyway.
abbrev pub Protocols : (http2 : Bool) → TlsOptions → Type 0
Protocols http2 options =
    (c : TlsConfig)
    → (configured options c).next_protos ≡ (if http2 then c.next_protos else "http/1.1" ∷ [])

-- The certificate is the one of the flags if they give its directory, and none else.
abbrev pub ReadsCertificate :
    (none_given : Bool) → (path name key dir cert key_file : String) → Type 0
ReadsCertificate false path name key dir cert key_file =
    (dir ≡ path) × (cert ≡ name) × (key_file ≡ key)
ReadsCertificate true path name key dir cert key_file = (dir ≡ "") × (cert ≡ "") × (key_file ≡ "")

-- A secure metrics endpoint asks each client who it is and what it may do.
abbrev pub IsGuarded : (secure : Bool) → MetricsOptions → Type 0
IsGuarded true o =
    (o.secure_serving ≡ true) × (o.filter_provider ≡ some with_authentication_and_authorization)
IsGuarded false o = (o.secure_serving ≡ false) × (o.filter_provider ≡ none)

pub record IsSecure (flags : Flags) (options : ManagerOptions) : Type 0 where
  pub metrics_protocols : Protocols flags.enable_http2 options.metrics.tls_opts
  pub webhook_protocols : Protocols flags.enable_http2 options.webhook_server.tls_opts
  pub guarded : IsGuarded flags.secure_metrics options.metrics
  pub metrics_certificate :
      ReadsCertificate
        (is_empty flags.metrics_cert_path)
        flags.metrics_cert_path
        flags.metrics_cert_name
        flags.metrics_cert_key
        options.metrics.cert_dir
        options.metrics.cert_name
        options.metrics.key_name
  pub webhook_certificate :
      ReadsCertificate
        (is_empty flags.webhook_cert_path)
        flags.webhook_cert_path
        flags.webhook_cert_name
        flags.webhook_cert_key
        options.webhook_server.cert_dir
        options.webhook_server.cert_name
        options.webhook_server.key_name

tls_options-Protocols :
    (http2 : Bool) → Protocols http2 (if not http2 then disable_http2 ∷ [] else [])
unfolding disable_http2
tls_options-Protocols true c = refl
tls_options-Protocols false c = refl

with_certificate :
    (b : Bool) (o : WebhookOptions) (path name key : String)
    → o.cert_dir ≡ ""
    → o.cert_name ≡ ""
    → o.key_name ≡ ""
    → let chosen : WebhookOptions =
        if not b then record o { cert_dir = path; cert_name = name; key_name = key } else o in
      (chosen.tls_opts ≡ o.tls_opts)
      × ReadsCertificate b path name key chosen.cert_dir chosen.cert_name chosen.key_name
with_certificate true o path name key x y z = (refl, (x, y, z))
with_certificate false o path name key x y z = (refl, (refl, refl, refl))

metrics_with_certificate :
    (b secure : Bool) (o : MetricsOptions) (path name key : String)
    → o.cert_dir ≡ ""
    → o.cert_name ≡ ""
    → o.key_name ≡ ""
    → IsGuarded secure o
    → let chosen : MetricsOptions =
        if not b then record o { cert_dir = path; cert_name = name; key_name = key } else o in
      (chosen.tls_opts ≡ o.tls_opts)
      × IsGuarded secure chosen
      × ReadsCertificate b path name key chosen.cert_dir chosen.cert_name chosen.key_name
metrics_with_certificate true secure o path name key x y z g = (refl, g, (x, y, z))
metrics_with_certificate false true o path name key x y z g = (refl, g, (refl, refl, refl))
metrics_with_certificate false false o path name key x y z g = (refl, g, (refl, refl, refl))

chosen-IsGuarded :
    (secure : Bool) (address : String) (opts : TlsOptions)
    → IsGuarded secure (record {
      bind_address = address;
      secure_serving = secure;
      tls_opts = opts;
      filter_provider = if secure then some with_authentication_and_authorization else none;
      cert_dir = "";
      cert_name = "";
      key_name = "";
    })
chosen-IsGuarded true address opts = (refl, refl)
chosen-IsGuarded false address opts = (refl, refl)

-- Whatever the flags are, both servers of the manager speak HTTP/1.1 alone unless HTTP/2 is
-- enabled, the metrics server is served securely and with authentication and authorization exactly
-- if the flag says so, and each server reads the certificate that the flags name, if they give a
-- directory, and no other.
pub manager_options-IsSecure : (flags : Flags) → IsSecure flags (manager_options flags)
unfolding manager_options metrics_options webhook_options tls_options
manager_options-IsSecure flags =
    let (same, webhook) =
      with_certificate (is_empty flags.webhook_cert_path)
        (record { tls_opts = tls_options flags; cert_dir = ""; cert_name = ""; key_name = "" })
        flags.webhook_cert_path flags.webhook_cert_name flags.webhook_cert_key refl refl refl in
    let (same', guarded, metrics) =
      metrics_with_certificate (is_empty flags.metrics_cert_path) flags.secure_metrics
        (record {
          bind_address = flags.metrics_addr;
          secure_serving = flags.secure_metrics;
          tls_opts = tls_options flags;
          filter_provider =
              if flags.secure_metrics then some with_authentication_and_authorization else none;
          cert_dir = "";
          cert_name = "";
          key_name = "";
        })
        flags.metrics_cert_path flags.metrics_cert_name flags.metrics_cert_key refl refl refl
        (chosen-IsGuarded flags.secure_metrics flags.metrics_addr (tls_options flags)) in
    record {
      metrics_protocols = rw same' (tls_options-Protocols flags.enable_http2);
      webhook_protocols = rw same (tls_options-Protocols flags.enable_http2);
      guarded = guarded;
      metrics_certificate = metrics;
      webhook_certificate = webhook;
    }
