-- ===== src/Bucket/Config/Arguments.antt =====
-- Command lines of the bucket controller.
use kro_lab.Prelude.{ℕ, ◌<◌, String, ◌≡◌, refl, ap, List, [], ◌∷◌, pos}
use kro_lab.Flag.Arguments.{Given, given_text, given_duration, arguments, parse_args-arguments}
use kro_lab.Flag.Kinds.{kind_at}
use kro_lab.Flag.Duration.{limit}
use kro_lab.Bucket.Config.{default_flags, flags_of, config_of_flags, config_of_set, parse_config}

-- A command line that gives every flag, the intervals in nanoseconds.
abbrev pub full_line : String → String → String → String → String → ℕ → ℕ → ℕ → List Given
full_line hub selector region storage metrics requeue cleanup poll =
    given_duration "cleanup-interval" cleanup
    ∷ given_text "hub-kubeconfig" hub
    ∷ given_text "cluster-selector" selector
    ∷ given_text "region-label" region
    ∷ given_text "storage-class" storage
    ∷ given_duration "requeue-interval" requeue
    ∷ given_duration "poll-interval" poll
    ∷ given_text "metrics-bind-address" metrics
    ∷ []

-- A command line that gives every flag is read as these values, whatever the texts are: they pass the
-- same checks as any.
pub parse_config-full_line :
    (fraction : ℕ → ℕ → ℕ → ℕ) (hub selector region storage metrics : String)
    (requeue cleanup poll : ℕ)
    → requeue < limit
    → cleanup < limit
    → poll < limit
    → parse_config fraction
        (arguments (full_line hub selector region storage metrics requeue cleanup poll))
      ≡ config_of_flags (record {
        hub_kubeconfig = hub;
        cluster_selector = selector;
        region_label = region;
        storage_class = storage;
        requeue_interval = pos requeue;
        cleanup_interval = pos cleanup;
        poll_interval = pos poll;
        metrics_addr = metrics;
      })
unfolding parse_config config_of_set flags_of kind_at
parse_config-full_line fraction hub selector region storage metrics requeue cleanup poll h i j =
    ap config_of_set (
      parse_args-arguments fraction
        (full_line hub selector region storage metrics requeue cleanup poll) default_flags
        (
          (refl, refl, i),
          (
            (refl, refl),
            (
              (refl, refl),
              (
                (refl, refl),
                ((refl, refl), ((refl, refl, h), ((refl, refl, j), ((refl, refl), tt)))),
              ),
            ),
          ),
        ))
