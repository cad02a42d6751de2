-- ===== src/Vm/Config/Arguments.antt =====
-- Command lines of the VM controller.
use kro_lab.Prelude.{ℕ, ◌<◌, String, ◌≡◌, refl, ap, List, [], ◌∷◌, pos}
use kro_lab.Flag.Arguments.{Given, given_text, given_duration, arguments, parse_args-arguments}
use kro_lab.Flag.Kinds.{kind_at}
use kro_lab.Flag.Duration.{limit}
use kro_lab.Vm.Config.{default_flags, flags_of, config_of_flags, config_of_set, parse_config}

-- A command line that gives every flag, the intervals in nanoseconds.
abbrev pub full_line : String → String → String → ℕ → ℕ → List Given
full_line hub selector strategy requeue poll =
    given_text "hub-kubeconfig" hub
    ∷ given_text "cluster-selector" selector
    ∷ given_text "run-strategy" strategy
    ∷ given_duration "requeue-interval" requeue
    ∷ given_duration "poll-interval" poll
    ∷ []

-- A command line that gives every flag is read as these values, whatever the texts are: they pass the
-- same checks as any.
pub parse_config-full_line :
    (fraction : ℕ → ℕ → ℕ → ℕ) (hub selector strategy : String) (requeue poll : ℕ)
    → requeue < limit
    → poll < limit
    → parse_config fraction (arguments (full_line hub selector strategy requeue poll))
      ≡ config_of_flags (record {
        hub_kubeconfig = hub;
        cluster_selector = selector;
        run_strategy = strategy;
        requeue_interval = pos requeue;
        poll_interval = pos poll;
      })
unfolding parse_config config_of_set flags_of kind_at
parse_config-full_line fraction hub selector strategy requeue poll h i = ap config_of_set (
    parse_args-arguments fraction (full_line hub selector strategy requeue poll) default_flags
      ((refl, refl), ((refl, refl), ((refl, refl), ((refl, refl, h), ((refl, refl, i), tt))))))
