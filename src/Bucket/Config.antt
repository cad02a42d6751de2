-- ===== src/Bucket/Config.antt =====
-- config/config.go of the bucket controller.
pub mod Validity
pub mod Arguments
use kro_lab.Prelude.{
  String, List, [], ◌∷◌, ℕ, ◌*◌, ◌^◌, Bool, true, false, not, ℤ, pos, if◌then◌else◌, ltb_int, ◌==◌,
}
use kro_lab.Prelude.Dict.{Dict}
use kro_lab.Kube.Error.{Error, Result, ok, err, message}
use kro_lab.Flag.{FlagSet, text, duration, parse_args, text_value, duration_value}
use kro_lab.Selector.{parse_selector}

pub record Config : Type 0 where
  pub hub_kubeconfig : String
  pub cluster_selector : Dict String
  pub region_label : String
  pub storage_class : String
  pub requeue_interval : ℤ
  pub cleanup_interval : ℤ
  pub poll_interval : ℤ
  pub metrics_addr : String

-- The values of the flags: the selector is a text still. An interval is a number of nanoseconds.
pub record Flags : Type 0 where
  pub hub_kubeconfig : String
  pub cluster_selector : String
  pub region_label : String
  pub storage_class : String
  pub requeue_interval : ℤ
  pub cleanup_interval : ℤ
  pub poll_interval : ℤ
  pub metrics_addr : String

-- The switch: each case in turn.
unfoldable pub check_config : Config → Result Config
check_config c =
    if c.region_label == ""
    then err (message "region-label must not be empty")
    else if c.storage_class == ""
    then err (message "storage-class must not be empty")
    else if not (ltb_int (pos 0) c.requeue_interval)
    then err (message "requeue-interval must be positive")
    else if not (ltb_int (pos 0) c.cleanup_interval)
    then err (message "cleanup-interval must be positive")
    else if not (ltb_int (pos 0) c.poll_interval)
    then err (message "poll-interval must be positive")
    else ok c

abbrev pub unchecked : Flags → Dict String → Config
unchecked f selector = record {
  hub_kubeconfig = f.hub_kubeconfig;
  cluster_selector = selector;
  region_label = f.region_label;
  storage_class = f.storage_class;
  requeue_interval = f.requeue_interval;
  cleanup_interval = f.cleanup_interval;
  poll_interval = f.poll_interval;
  metrics_addr = f.metrics_addr;
}

abbrev pub with_selector : Flags → Result (Dict String) → Result Config
with_selector f (err e) = err e
with_selector f (ok selector) = check_config (unchecked f selector)

-- Parse, from the values of the flags on.
unfoldable pub config_of_flags : Flags → Result Config
unfolding parse_selector check_config
config_of_flags f = with_selector f (parse_selector f.cluster_selector)

-- The flags that Parse defines, with their defaults.
abbrev pub default_flags : FlagSet
default_flags =
    ("hub-kubeconfig", text "")
    ∷ ("cluster-selector", text "platform.example.com/offers-object-storage=true")
    ∷ ("region-label", text "platform.example.com/region")
    ∷ ("storage-class", text "ceph-bucket")
    ∷ ("requeue-interval", duration (pos (30 * 10 ^ 9)))
    ∷ ("cleanup-interval", duration (pos (5 * 10 ^ 9)))
    ∷ ("poll-interval", duration (pos (10 * 10 ^ 9)))
    ∷ ("metrics-bind-address", text ":8080")
    ∷ []

-- The variables that the flags set.
unfoldable pub flags_of : FlagSet → Flags
unfolding text_value duration_value
flags_of fs = record {
  hub_kubeconfig = text_value "hub-kubeconfig" fs;
  cluster_selector = text_value "cluster-selector" fs;
  region_label = text_value "region-label" fs;
  storage_class = text_value "storage-class" fs;
  requeue_interval = duration_value "requeue-interval" fs;
  cleanup_interval = duration_value "cleanup-interval" fs;
  poll_interval = duration_value "poll-interval" fs;
  metrics_addr = text_value "metrics-bind-address" fs;
}

unfoldable pub config_of_set : Result FlagSet → Result Config
unfolding flags_of config_of_flags
config_of_set (err e) = err e
config_of_set (ok fs) = config_of_flags (flags_of fs)

-- Parse.
unfoldable pub parse_config : (ℕ → ℕ → ℕ → ℕ) → List String → Result Config
unfolding parse_args config_of_set
parse_config fraction args = config_of_set (parse_args fraction args default_flags)
