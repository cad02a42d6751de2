-- ===== src/Vm/Config/Validity.antt =====
-- Which configurations of the VM controller are accepted.
use mathlib.Core.Path.{subst}
use kro_lab.Prelude.{String, ◌≡◌, refl, true, ◌↔◌, arith, pos, ltb_int, contains}
use kro_lab.Prelude.Dict.{Dict}
use kro_lab.Kube.Error.{Result, ok, err}
use kro_lab.Selector.{parse_selector}
use kro_lab.Vm.Config.{Config, Flags, run_strategies, check_config, with_selector, config_of_flags}

-- The configuration `c` holds the flags, and what it holds is valid.
pub record IsConfigured (f : Flags) (c : Config) : Type 0 where
  pub hub_kubeconfig : c.hub_kubeconfig ≡ f.hub_kubeconfig
  pub selector : parse_selector f.cluster_selector ≡ ok c.cluster_selector
  pub run_strategy : c.run_strategy ≡ f.run_strategy
  pub requeue_interval : c.requeue_interval ≡ f.requeue_interval
  pub poll_interval : c.poll_interval ≡ f.poll_interval
  pub known_strategy : contains run_strategies c.run_strategy ≡ true
  pub requeues_later : ltb_int (pos 0) c.requeue_interval ≡ true
  pub polls_later : ltb_int (pos 0) c.poll_interval ≡ true

check_config-eq_ok :
    (c d : Config)
    → check_config c ≡ ok d
    → (c ≡ d)
      × (contains run_strategies c.run_strategy ≡ true)
      × (ltb_int (pos 0) c.requeue_interval ≡ true)
      × (ltb_int (pos 0) c.poll_interval ≡ true)
unfolding check_config
check_config-eq_ok c d h = (ground arith, ground arith, ground arith, ground arith)

check_config-valid :
    (c : Config)
    → contains run_strategies c.run_strategy ≡ true
    → ltb_int (pos 0) c.requeue_interval ≡ true
    → ltb_int (pos 0) c.poll_interval ≡ true
    → check_config c ≡ ok c
unfolding check_config
check_config-valid c known requeues polls = rw (known, requeues, polls) refl

-- The configuration that is checked.
abbrev unchecked : Flags → Dict String → Config
unchecked f selector = record {
  hub_kubeconfig = f.hub_kubeconfig;
  cluster_selector = selector;
  run_strategy = f.run_strategy;
  requeue_interval = f.requeue_interval;
  poll_interval = f.poll_interval;
}

with_selector-eq_ok :
    (f : Flags) (r : Result (Dict String)) (c : Config)
    → with_selector f r ≡ ok c
    → (selector : Dict String) × (r ≡ ok selector) × (check_config (unchecked f selector) ≡ ok c)
with_selector-eq_ok f (ok selector) c h = (selector, refl, h)
with_selector-eq_ok f (err e) c h = cc

IsConfigured-of_ok : (f : Flags) (c : Config) → config_of_flags f ≡ ok c → IsConfigured f c
unfolding config_of_flags
IsConfigured-of_ok f c h =
    let (selector, read, checked) = with_selector-eq_ok f (parse_selector f.cluster_selector) c h in
    let (same, known, requeues, polls) = check_config-eq_ok (unchecked f selector) c checked in
    subst (λ (d : Config). IsConfigured f d) same
      (record {
        hub_kubeconfig = refl;
        selector = read;
        run_strategy = refl;
        requeue_interval = refl;
        poll_interval = refl;
        known_strategy = known;
        requeues_later = requeues;
        polls_later = polls;
      })

ok-of_IsConfigured : (f : Flags) (c : Config) → IsConfigured f c → config_of_flags f ≡ ok c
unfolding config_of_flags
ok-of_IsConfigured f c h =
    rw (h.selector, ← h.hub_kubeconfig, ← h.run_strategy, ← h.requeue_interval, ← h.poll_interval)
      (check_config-valid c h.known_strategy h.requeues_later h.polls_later)

-- The values of the flags give the configuration `c` exactly if the text of the selector is read as
-- its selector, it holds the other values as they are, its run strategy is one of the known ones,
-- and both intervals are positive.
pub config_of_flags_iff : (f : Flags) (c : Config) → (config_of_flags f ≡ ok c) ↔ IsConfigured f c
config_of_flags_iff f c = (IsConfigured-of_ok f c, ok-of_IsConfigured f c)
