-- ===== src/Vm/Config.antt =====
-- config/config.go of the VM controller.
pub mod Validity
pub mod Arguments
use kro_lab.Prelude.{
  String, ◌<>◌, Bool, true, false, not, List, [], ◌∷◌, ℕ, ◌*◌, ◌^◌, ℤ, pos, negsuc, if◌then◌else◌,
  contains, ltb_int, quote,
}
use kro_lab.Prelude.Dict.{Dict}
use kro_lab.Kube.Error.{Error, Result, ok, err, message}
use kro_lab.Flag.{FlagSet, text, duration, parse_args, text_value, duration_value}
use kro_lab.Selector.{parse_selector}

pub record Config : Type 0 where
  pub hub_kubeconfig : String
  pub cluster_selector : Dict String
  pub run_strategy : String
  pub requeue_interval : ℤ
  pub poll_interval : ℤ

-- The values of the flags: the selector is a text still. An interval is a number of nanoseconds.
pub record Flags : Type 0 where
  pub hub_kubeconfig : String
  pub cluster_selector : String
  pub run_strategy : String
  pub requeue_interval : ℤ
  pub poll_interval : ℤ

abbrev pub run_strategies : List String
run_strategies = "Always" ∷ "Halted" ∷ "Manual" ∷ "RerunOnFailure" ∷ "Once" ∷ []

unfoldable pub check_config : Config → Result Config
check_config c =
    if not (contains run_strategies c.run_strategy)
    then err (message ("unknown run strategy " <> quote c.run_strategy))
    else if not (ltb_int (pos 0) c.requeue_interval)
    then err (message "requeue-interval must be positive")
    else if not (ltb_int (pos 0) c.poll_interval)
    then err (message "poll-interval must be positive")
    else ok c

abbrev pub with_selector : Flags → Result (Dict String) → Result Config
with_selector f (err e) = err e
with_selector f (ok selector) = check_config (record {
  hub_kubeconfig = f.hub_kubeconfig;
  cluster_selector = selector;
  run_strategy = f.run_strategy;
  requeue_interval = f.requeue_interval;
  poll_interval = f.poll_interval;
})

-- Parse, from the values of the flags on.
unfoldable pub config_of_flags : Flags → Result Config
unfolding parse_selector check_config
config_of_flags f = with_selector f (parse_selector f.cluster_selector)

-- The flags that Parse defines, with their defaults.
abbrev pub default_flags : FlagSet
default_flags =
    ("hub-kubeconfig", text "")
    ∷ ("cluster-selector", text "platform.example.com/offers-vms=true")
    ∷ ("run-strategy", text "Always")
    ∷ ("requeue-interval", duration (pos (30 * 10 ^ 9)))
    ∷ ("poll-interval", duration (pos (10 * 10 ^ 9)))
    ∷ []

-- The variables that the flags set.
unfoldable pub flags_of : FlagSet → Flags
unfolding text_value duration_value
flags_of fs = record {
  hub_kubeconfig = text_value "hub-kubeconfig" fs;
  cluster_selector = text_value "cluster-selector" fs;
  run_strategy = text_value "run-strategy" fs;
  requeue_interval = duration_value "requeue-interval" fs;
  poll_interval = duration_value "poll-interval" fs;
}

unfoldable pub config_of_set : Result FlagSet → Result Config
unfolding flags_of config_of_flags
config_of_set (err e) = err e
config_of_set (ok fs) = config_of_flags (flags_of fs)

-- Parse.
unfoldable pub parse_config : (ℕ → ℕ → ℕ → ℕ) → List String → Result Config
unfolding parse_args config_of_set
parse_config fraction args = config_of_set (parse_args fraction args default_flags)
