-- ===== src/Tests/Programs.antt =====
-- Main programs over libraries that write down what they are called for.
use kro_lab.Prelude.{ℕ, String, ◌<>◌, ◌≡◌, refl, Option, none, some, List, [], ◌∷◌}
use kro_lab.Kube.Error.{ok}
use kro_lab.Kube.Exec.{◌>>=◌}
use kro_lab.Kube.Program.{Runtime, Started}
use kro_lab.Flag.Duration.{no_fraction}
use kro_lab.Vm.Config as VmConfig
use kro_lab.Bucket.Config as BucketConfig
use kro_lab.Vm.Main as VmMain
use kro_lab.Bucket.Main as BucketMain
use kro_lab.Vm.Main.Startup as VmStartup
use kro_lab.Bucket.Main.Startup as BucketStartup
use kro_lab.Vm.Main.Startup.{main_configured}
use kro_lab.Bucket.Main.Startup.{bucket_main_configured}

abbrev Log : Type 0
Log = List String

abbrev metrics : Option String → String
metrics none = "manager"
metrics (some address) = "manager with metrics at " <> address

-- Every call succeeds; a scheme, a client and a manager are the texts of their calls.
abbrev runtime : (Config : Type 0) → Runtime Log Config
runtime Config = record {
  Scheme = String;
  HubConfig = String;
  Client = String;
  Manager = String;
  Cluster = ℕ;
  Index = ℕ;
  core_scheme = λ w. (ok "core", w);
  build_config = λ path w. (ok path, ("config " <> path) ∷ w);
  new_client = λ config scheme w. (ok (config <> scheme), w);
  new_manager = λ config p scheme address w. (ok (metrics address), metrics address ∷ w);
  client_of = λ m. m <> " client";
  reader_of = λ m. m <> " reader";
  complete = λ m watch r w. (ok tt, watch.name ∷ w);
  serve = λ m p interval w. (ok tt, "served" ∷ w);
}

abbrev line : List String
line = "--hub-kubeconfig" ∷ "/hub" ∷ []

abbrev vm_log : Log
vm_log =
    "served" ∷ "regionalvmsetrequest-status" ∷ "regionalvmsetrequest" ∷ "manager" ∷ "config /hub"
    ∷ []

abbrev bucket_log : Log
bucket_log =
    "served" ∷ "regionalbucketrequest-status" ∷ "regionalbucketrequest"
    ∷ "manager with metrics at :8080" ∷ "config /hub" ∷ []

main_run : VmMain.main (runtime VmConfig.Config) no_fraction line [] ≡ (0, vm_log)
unfolding VmMain.main ◌>>=◌
main_run = refl

bucket_main_run :
    BucketMain.main (runtime BucketConfig.Config) no_fraction line [] ≡ (0, bucket_log)
unfolding BucketMain.main ◌>>=◌
bucket_main_run = refl

-- Arguments that are no configuration: nothing is called.
refused :
    VmMain.main (runtime VmConfig.Config) no_fraction ("--run-strategy=Never" ∷ []) [] ≡ (1, [])
unfolding VmMain.main ◌>>=◌
refused = refl

abbrev vm_world : Runtime Log VmConfig.Config
vm_world = runtime VmConfig.Config

main_configured_example :
    (s : Started vm_world) × (v : Log) × VmStartup.IsStarted vm_world no_fraction line [] s v
    × (vm_world.serve s.manager s.provider s.config.poll_interval v ≡ (ok tt, vm_log))
main_configured_example = main_configured vm_world no_fraction line [] _ main_run

abbrev bucket_world : Runtime Log BucketConfig.Config
bucket_world = runtime BucketConfig.Config

bucket_main_configured_example :
    (s : Started bucket_world) × (v : Log) × BucketStartup.IsStarted bucket_world no_fraction line
      [] s v
    × (bucket_world.serve s.manager s.provider s.config.poll_interval v ≡ (ok tt, bucket_log))
bucket_main_configured_example =
    bucket_main_configured bucket_world no_fraction line [] _ bucket_main_run
