-- ===== src/Tests/CommandLines.antt =====
-- Command lines and durations.
use kro_lab.Prelude.{◌*◌, ◌^◌, String, ◌≡◌, refl, true, List, [], ◌∷◌, pos, arith}
use kro_lab.Kube.Error.{ok, err, message}
use kro_lab.Flag.{FlagSet, text, boolean, parse_args}
use kro_lab.Flag.Kinds.{kind_at, parse_args-kinds}
use kro_lab.Flag.Arguments.{arguments}
use kro_lab.Flag.Duration.{duration_loop, no_fraction, size}
use kro_lab.Flag.Duration.Fuel.{duration_loop_fuel}
use kro_lab.Oidc.Main as Verifier
use kro_lab.Vm.Config
use kro_lab.Vm.Config.Arguments.{full_line, parse_config-full_line}

-- A flag in one argument and in two, a switch without a value, and an operand that ends the flags.
abbrev line : List String
line = "-issuer=https://idp" ∷ "--port" ∷ "9090" ∷ "-insecure-skip-verify" ∷ "-" ∷ "--port=1" ∷ []

abbrev verifier_flags : FlagSet
verifier_flags = Verifier.default_flags (λ name. "")

parsed_line :
    parse_args no_fraction line verifier_flags
    ≡ ok (
        ("issuer", text "https://idp")
        ∷ ("audience", text "")
        ∷ ("port", text "9090")
        ∷ ("insecure-skip-verify", boolean true)
        ∷ ("trust-jwks", text "")
        ∷ [])
unfolding parse_args
parsed_line = refl

refused_line :
    parse_args no_fraction ("--port" ∷ []) verifier_flags
    ≡ err (message "flag needs an argument: -port")
unfolding parse_args
refused_line = refl

parse_args-kinds_test :
    kind_at "port" (
      ("issuer", text "https://idp")
      ∷ ("audience", text "")
      ∷ ("port", text "9090")
      ∷ ("insecure-skip-verify", boolean true)
      ∷ ("trust-jwks", text "")
      ∷ [])
    ≡ kind_at "port" verifier_flags
parse_args-kinds_test = parse_args-kinds no_fraction line verifier_flags _ parsed_line "port"

duration_loop_fuel_test :
    duration_loop no_fraction 100 "1h30m" 0 ≡ duration_loop no_fraction (size "1h30m") "1h30m" 0
duration_loop_fuel_test = duration_loop_fuel no_fraction 100 "1h30m" 0 (omega arith)

parse_config-full_line_example :
    Config.parse_config no_fraction (arguments (full_line "" "a=b" "Halted" 90000000000 5))
    ≡ Config.config_of_flags (record {
      hub_kubeconfig = "";
      cluster_selector = "a=b";
      run_strategy = "Halted";
      requeue_interval = pos 90000000000;
      poll_interval = pos 5;
    })
parse_config-full_line_example =
    parse_config-full_line no_fraction "" "a=b" "Halted" 90000000000 5 (omega arith) (omega arith)

-- Without arguments the defaults hold, and they are a configuration.
default_config :
    Config.parse_config no_fraction []
    ≡ ok (record {
      hub_kubeconfig = "";
      cluster_selector = ("platform.example.com/offers-vms", "true") ∷ [];
      run_strategy = "Always";
      requeue_interval = pos (30 * 10 ^ 9);
      poll_interval = pos (10 * 10 ^ 9);
    })
unfolding Config.parse_config
default_config = refl
