-- ===== src/Tests/VerifierStart.antt =====
-- The verifier started from a command line, before its issuer answers.
use kro_lab.Prelude.{String, ◌==◌, ◌≡◌, refl, List, [], ◌∷◌, if◌then◌else◌}
use kro_lab.Flag.Duration.{no_fraction}
use kro_lab.Oidc.Main.{Begun, exits, listens}
use kro_lab.Oidc.Main.CommandLine.{begin, begin_iff, IsUsable}
use kro_lab.Tests.VmRules.{unordered}
use kro_lab.Tests.Verifier.{now, read_file, down, first}

abbrev getenv : String → String
getenv name =
    if name == "OIDC_ISSUER"
    then "https://idp/dex/"
    else if name == "OIDC_AUDIENCE"
    then "kro"
    else ""

abbrev line : List String
line = "--port=9090" ∷ "--trust-jwks" ∷ "keys.json" ∷ "-insecure-skip-verify" ∷ []

abbrev run : List String → Begun
run = begin unordered read_file down now no_fraction getenv

asked_for_help : run ("-h" ∷ []) ≡ exits 0
unfolding begin
asked_for_help = refl

mistyped_flag : run ("--prot" ∷ "9090" ∷ []) ≡ exits 2
unfolding begin
mistyped_flag = refl

without_issuer : begin unordered read_file down now no_fraction (λ name. "") line ≡ exits 1
unfolding begin
without_issuer = refl

listening : run line ≡ listens ":9090" first
unfolding begin
listening = refl

begin_iff_example : IsUsable unordered read_file down now no_fraction getenv line ":9090"
begin_iff_example =
    (begin_iff unordered read_file down now no_fraction getenv line ":9090").0 (_, listening)
