-- ===== src/Bucket/Main.antt =====
-- main.go of the bucket controller, and SetupWithManager and SetupStatusReconcilerWithManager of its
-- controller package.
pub mod Startup
use kro_lab.Prelude.{ℕ, String, List, Option, none, some}
use kro_lab.Kube.Exec.{Exec, pure, lift, wrap, ◌>>=◌, ◌>>◌}
use kro_lab.Kube.Program.{
  Kind, Watch, on_hub, on_spokes, Reconciler, Runtime, Started, serve_or_exit,
}
use kro_lab.Provider.{Provider, new_provider, set_label_selector, default_token_dir}
use kro_lab.Bucket.Config.{Config, parse_config}

abbrev pub request_kind : Kind
request_kind = record {
  group = "platform.example.com";
  version = "v1alpha1";
  kind = "RegionalBucketRequest";
}

abbrev pub claim_kind : Kind
claim_kind = record { group = "objectbucket.io"; version = "v1alpha1"; kind = "ObjectBucketClaim" }

module _ {W : Type 0} (rt : Runtime W Config) where
  open rt use {Client, Manager}

  -- SetupWithManager
  unfoldable pub set_up_requests : Manager → Reconciler Client Manager Config → Exec W (Unit {0})
  set_up_requests manager r =
      rt.complete manager
        (record { name = "regionalbucketrequest"; kind = request_kind; place = on_hub }) r

  -- SetupStatusReconcilerWithManager
  unfoldable pub set_up_status : Manager → Reconciler Client Manager Config → Exec W (Unit {0})
  set_up_status manager r =
      rt.complete manager
        (record { name = "regionalbucketrequest-status"; kind = claim_kind; place = on_spokes }) r

  -- The provider before its first poll.
  abbrev pub provider_for : Config → Provider rt.Cluster rt.Index
  provider_for config = set_label_selector config.cluster_selector (new_provider default_token_dir)

  abbrev pub requests_for : Manager → Config → Reconciler Client Manager Config
  requests_for manager config = record {
    hub = rt.client_of manager;
    hub_reader = some (rt.reader_of manager);
    clusters = manager;
    config = config;
  }

  abbrev pub status_for : Manager → Config → Reconciler Client Manager Config
  status_for manager config = record {
    hub = rt.client_of manager;
    hub_reader = some (rt.reader_of manager);
    clusters = manager;
    config = config;
  }

  abbrev pub started : Config → Client → Manager → Started rt
  started config hub_client manager = record {
    config = config;
    provider = provider_for config;
    hub_client = hub_client;
    poll_interval = config.poll_interval;
    manager = manager;
  }

  -- main up to the start of the manager. An error carries the text that main logs with it.
  unfoldable pub start : (ℕ → ℕ → ℕ → ℕ) → List String → Exec W (Started rt)
  unfolding set_up_requests set_up_status parse_config
  start fraction args = do
    config ← wrap "invalid configuration" (lift (parse_config fraction args))
    scheme ← wrap "failed to build scheme" rt.core_scheme
    hub_config ← wrap "failed to build hub config" (rt.build_config config.hub_kubeconfig)
    hub_client ← wrap "failed to build hub client for provider" (rt.new_client hub_config scheme)
    manager ←
        wrap "failed to create manager"
          (rt.new_manager hub_config (provider_for config) scheme (some config.metrics_addr))
    wrap "failed to set up request controller"
        (set_up_requests manager (requests_for manager config))
    wrap "failed to set up status controller" (set_up_status manager (status_for manager config))
    pure (started config hub_client manager)

  -- main, by its exit status.
  unfoldable pub main : (ℕ → ℕ → ℕ → ℕ) → List String → W → ℕ × W
  unfolding start serve_or_exit
  main fraction args w = serve_or_exit rt (start fraction args w)
