-- ===== src/Tests/Flags.antt =====
-- Selectors and configurations of both controllers.
use kro_lab.Prelude.{
  String, ◌≡◌, refl, ◌≢◌, ◌↔◌, true, false, List, [], ◌∷◌, pos, negsuc, arith, eq_iff, contains,
}
use kro_lab.Kube.Error.{ok, err, message}
use kro_lab.Selector.{parse_selector}
use kro_lab.Selector.Roundtrip.{IsEntry, parse_selector-join}
use kro_lab.Vm.Config
use kro_lab.Vm.Config.Validity.{IsConfigured, config_of_flags_iff}
use kro_lab.Bucket.Config as BucketConfig
use kro_lab.Bucket.Config.Validity.{Configures, bucket_config_of_flags_iff}

abbrev entries : List (String × String)
entries = ("tier", "gold") ∷ ("vms", "") ∷ ("tier", "red") ∷ []

tier_gold : IsEntry ("tier", "gold")
tier_gold = record {
  key = λ e. ground (arith, eq_iff "tier" "");
  key_equals = refl;
  key_comma = refl;
  value_comma = refl;
}

no_vms : IsEntry ("vms", "")
no_vms = record {
  key = λ e. ground (arith, eq_iff "vms" "");
  key_equals = refl;
  key_comma = refl;
  value_comma = refl;
}

tier_red : IsEntry ("tier", "red")
tier_red = record {
  key = λ e. ground (arith, eq_iff "tier" "");
  key_equals = refl;
  key_comma = refl;
  value_comma = refl;
}

no_key : parse_selector "a=b,=c" ≡ err (message "invalid selector entry \"=c\", want key=value")
unfolding parse_selector kro_lab.Selector.cut_at kro_lab.Prelude.quote
no_key = refl

parse_selector-join_example :
    parse_selector "tier=gold,vms=,tier=red" ≡ ok (("tier", "red") ∷ ("vms", "") ∷ [])
unfolding kro_lab.Prelude.Dict.insert
parse_selector-join_example = parse_selector-join entries (tier_gold, (no_vms, (tier_red, tt)))

abbrev flags : Config.Flags
flags = record {
  hub_kubeconfig = "";
  cluster_selector = "vms=true";
  run_strategy = "Always";
  requeue_interval = pos 30000000000;
  poll_interval = pos 10000000000;
}

abbrev config : Config.Config
config = record {
  hub_kubeconfig = "";
  cluster_selector = ("vms", "true") ∷ [];
  run_strategy = "Always";
  requeue_interval = pos 30000000000;
  poll_interval = pos 10000000000;
}

accepted : Config.config_of_flags flags ≡ ok config
unfolding Config.config_of_flags kro_lab.Selector.cut_at contains kro_lab.Prelude.Dict.insert
accepted = refl

no_poll :
    Config.config_of_flags (record flags { poll_interval = pos 0 })
    ≡ err (message "poll-interval must be positive")
unfolding Config.config_of_flags kro_lab.Selector.cut_at contains
no_poll = refl

config_of_flags_iff_test : (Config.config_of_flags flags ≡ ok config) ↔ IsConfigured flags config
config_of_flags_iff_test = config_of_flags_iff flags config

abbrev bucket_flags : BucketConfig.Flags
bucket_flags = record {
  hub_kubeconfig = "";
  cluster_selector = "storage=true";
  region_label = "region";
  storage_class = "ceph-bucket";
  requeue_interval = pos 30000000000;
  cleanup_interval = pos 5000000000;
  poll_interval = pos 10000000000;
  metrics_addr = ":8080";
}

abbrev bucket_config : BucketConfig.Config
bucket_config = BucketConfig.unchecked bucket_flags (("storage", "true") ∷ [])

bucket_config_of_flags_iff_test :
    (BucketConfig.config_of_flags bucket_flags ≡ ok bucket_config)
    ↔ Configures bucket_flags bucket_config
bucket_config_of_flags_iff_test = bucket_config_of_flags_iff bucket_flags bucket_config
