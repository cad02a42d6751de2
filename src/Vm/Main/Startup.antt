-- ===== src/Vm/Main/Startup.antt =====
-- What the VM controller runs with once it is started.
use mathlib.Core.Path.{subst}
use kro_lab.Prelude.{ℕ, String, ◌≡◌, refl, List, some, none, ℤ}
use kro_lab.Kube.Error.{Result, ok, err}
use kro_lab.Kube.Exec.{pure}
use kro_lab.Kube.Exec.Inversion.{bind-then, wrap-eq_ok, lift-eq_ok}
use kro_lab.Kube.Program.{Runtime, Started, new_ticker, on_hub, on_spokes}
use kro_lab.Kube.Program.Served.{served}
use kro_lab.Flag.{FlagSet, parse_args}
use kro_lab.Vm.Config.{Config, default_flags, flags_of, config_of_set, parse_config}
use kro_lab.Vm.Config.Validity.{IsConfigured, config_of_flags_iff}
use kro_lab.Provider.{set_label_selector, new_provider}
use kro_lab.Vm.Main.{set_up_requests, set_up_status, started, start, main}

-- The parsed flags are those of a valid configuration.
pub IsParsed : (ℕ → ℕ → ℕ → ℕ) → List String → Config → Type 0
IsParsed fraction args c =
    (fs : FlagSet) × (parse_args fraction args default_flags ≡ ok fs) × IsConfigured (flags_of fs) c

parse_config-IsParsed :
    (fraction : ℕ → ℕ → ℕ → ℕ) (args : List String) (c : Config)
    → parse_config fraction args ≡ ok c
    → IsParsed fraction args c
unfolding IsParsed parse_config config_of_set
parse_config-IsParsed fraction args c = go (parse_args fraction args default_flags) refl
  where
    go :
        (r : Result FlagSet)
        → parse_args fraction args default_flags ≡ r
        → parse_config fraction args ≡ ok c
        → IsParsed fraction args c
    go (ok fs) e h = (fs, e, (config_of_flags_iff (flags_of fs) c).0 (rw e at h))
    go (err x) e h = cc (rw e at h)

module _ {W : Type 0} (rt : Runtime W Config) where
  -- The calls by which `s` was started, from the world `w` on, succeeded and led to the world `v`, each
  -- with what the configuration of the arguments says.
  pub record IsStarted (fraction : ℕ → ℕ → ℕ → ℕ) (args : List String) (w : W) (s : Started rt)
      (v : W) : Type 0 where
    pub parsed : IsParsed fraction args s.config
    pub selects : s.provider.selector ≡ s.config.cluster_selector
    pub token_dir : s.provider.token_dir ≡ "/var/run/secrets/tokens"
    pub interval : s.poll_interval ≡ s.config.poll_interval
    pub ticks : new_ticker s.poll_interval ≡ ok s.config.poll_interval
    pub scheme : rt.Scheme
    pub hub_config : rt.HubConfig
    -- the worlds after the scheme, the hub's configuration, its client, the manager and the watch
    pub w1 : W
    pub w2 : W
    pub w3 : W
    pub w4 : W
    pub w5 : W
    pub has_scheme : rt.core_scheme w ≡ (ok scheme, w1)
    pub has_hub : rt.build_config s.config.hub_kubeconfig w1 ≡ (ok hub_config, w2)
    pub has_client : rt.new_client hub_config scheme w2 ≡ (ok s.hub_client, w3)
    pub has_manager : rt.new_manager hub_config s.provider scheme none w3 ≡ (ok s.manager, w4)
    pub watches_requests :
        rt.complete s.manager
          (record {
            name = "regionalvmsetrequest";
            kind = record {
              group = "platform.example.com";
              version = "v1alpha1";
              kind = "RegionalVmSetRequest";
            };
            place = on_hub;
          })
          (record {
            hub = rt.client_of s.manager;
            hub_reader = some (rt.reader_of s.manager);
            clusters = s.manager;
            config = s.config;
          })
          w4
        ≡ (ok tt, w5)
    pub watches_vms :
        rt.complete s.manager
          (record {
            name = "regionalvmsetrequest-status";
            kind = record { group = "kubevirt.io"; version = "v1"; kind = "VirtualMachine" };
            place = on_spokes;
          })
          (record {
            hub = rt.client_of s.manager;
            hub_reader = none;
            clusters = s.manager;
            config = s.config;
          })
          w5
        ≡ (ok tt, v)

  -- What was said of a run that returned its server.
  abbrev AfterStart : (ℕ → ℕ → ℕ → ℕ) → List String → W → Result (Started rt) × W → Type 0
  AfterStart fraction args w (ok s, v) = IsStarted fraction args w s v
  AfterStart fraction args w (err e, v) = Unit

  start-IsStarted :
      (fraction : ℕ → ℕ → ℕ → ℕ) (args : List String) (w w' : W) (s : Started rt)
      → start rt fraction args w ≡ (ok s, w')
      → IsStarted fraction args w s w'
  unfolding start set_up_requests set_up_status new_ticker set_label_selector IsParsed pure
      new_provider
  start-IsStarted fraction args w w' s h = bind-then _ _ w w' s h λ c w0 e0 h0.
      bind-then _ _ w0 w' s h0 λ scheme w1 e1 h1. bind-then _ _ w1 w' s h1 λ hub_config w2 e2 h2.
        bind-then _ _ w2 w' s h2 λ client w3 e3 h3. bind-then _ _ w3 w' s h3 λ manager w4 e4 h4.
          bind-then _ _ w4 w' s h4 λ u w5 e5 h5. bind-then _ _ w5 w' s h5 λ t w6 e6 h6.
            let (read, same) = lift-eq_ok _ w w0 c (wrap-eq_ok _ _ w w0 c e0) in
            let valid = parse_config-IsParsed fraction args c read in
            let built : IsStarted fraction args w (started rt c client manager) w6 = record {
              parsed = valid;
              selects = refl;
              token_dir = refl;
              interval = refl;
              ticks = rw valid.2.polls_later refl;
              scheme = scheme;
              hub_config = hub_config;
              w1 = w1;
              w2 = w2;
              w3 = w3;
              w4 = w4;
              w5 = w5;
              has_scheme =
                  rw same (wrap-eq_ok "failed to build scheme" rt.core_scheme w0 w1 scheme e1);
              has_hub = wrap-eq_ok _ _ w1 w2 hub_config e2;
              has_client = wrap-eq_ok _ _ w2 w3 client e3;
              has_manager = wrap-eq_ok _ _ w3 w4 manager e4;
              watches_requests = wrap-eq_ok _ _ w4 w5 u e5;
              watches_vms = wrap-eq_ok _ _ w5 w6 t e6;
            } in
            subst (λ (r : Result (Started rt) × W). AfterStart fraction args w r) h6 built

  -- If main of the VM controller exits with the status 0, the arguments hold a valid configuration, and
  -- each call succeeded with what it says: the manager was made for the hub of its kubeconfig, with a
  -- provider that lists by its selector, both reconcilers were registered with it under their names,
  -- one for the requests on the hub and one for the VMs on every spoke, the ticker of its interval does
  -- not panic, and the manager served that provider and ended without an error.
  pub main_configured :
      (fraction : ℕ → ℕ → ℕ → ℕ) (args : List String) (w w' : W)
      → main rt fraction args w ≡ (0, w')
      → (s : Started rt) × (v : W) × IsStarted fraction args w s v
        × (rt.serve s.manager s.provider s.config.poll_interval v ≡ (ok tt, w'))
  unfolding main
  main_configured fraction args w w' h =
      let (s, v, begun, ended) = served rt (start rt fraction args w) w' h in
      let built = start-IsStarted fraction args w v s begun in
      let serves : ℤ → Type 0 = λ i. rt.serve s.manager s.provider i v ≡ (ok tt, w') in
      (s, v, built, subst serves built.interval ended)
