-- ===== src/Tests/Fleet.antt =====
-- The provider over a hub with two cluster profiles.
use mathlib.Core.Path.{subst}
use kro_lab.Prelude.{
  ap, ℕ, ◌+◌, ◌≡◌, refl, ◌≢◌, Bool, true, false, Option, some, none, List, [], ◌∷◌, arith, eq_iff,
  String, ◌==◌, if◌then◌else◌, contains,
}
use kro_lab.Prelude.Dict.{Dict, lookup, has_key, text_at, keys}
use kro_lab.Prelude.Decimal.{decimal}
use kro_lab.Kube.Error.{Result, ok, err, api, not_found}
use kro_lab.Provider.{
  Profile, RestConfig, Environment, Provider, Bytes, new_provider, set_label_selector,
}
use kro_lab.Provider.Polling.{run, discover, visit, read_cluster_key, names_of}
use kro_lab.Provider.Polling.{cluster_from_profile, secret_name}
use kro_lab.Provider.Credentials.{UsesToken, cluster_from_profile-UsesToken}
use kro_lab.Provider.Engaged.{IsConsistent, is_in}
use kro_lab.Provider.Discovery.{run-IsConsistent, discover_listed}
use kro_lab.Provider.Reengaging.{visit_stable, visit_changed}
use kro_lab.Tests.VmRules.{unordered, unordered-IsRange}

record Hub : Type 0 where
  profiles : List Profile
  secrets : Dict Bytes

abbrev sum : Bytes → ℕ
sum [] = 0
sum (b ∷ bs) = b + sum bs

abbrev secret_of : Option Bytes → Result (Dict Bytes)
secret_of none = err (api not_found)
secret_of (some bytes) = ok (("value", bytes) ∷ [])

abbrev config_of : Bytes → RestConfig
config_of bytes = record {
  host = "https://spoke";
  server_name = "";
  insecure = false;
  proxy = none;
  disable_compression = false;
  ca_file = "";
  ca_data = bytes;
  bearer_token = "old";
  bearer_token_file = "";
  impersonate = record { user = "root"; uid = ""; groups = []; extra = [] };
  username = "admin";
  password = "pw";
  auth_provider = none;
  exec_provider = none;
  cert_file = "/admin.crt";
  key_file = "/admin.key";
  cert_data = [];
  key_data = [];
}

abbrev hub : Environment Hub
hub = record {
  Cluster = RestConfig;
  Index = String;
  list_profiles = λ selector w. (ok w.profiles, w);
  get_secret = λ ns name w. (secret_of (lookup name w.secrets), w);
  parse_kubeconfig = λ bytes. ok (config_of bytes);
  digest = λ bytes. decimal (sum bytes);
  new_cluster = λ config w. (ok config, w);
  index_field = λ c index w. (ok tt, w);
  engage = λ name c w. (ok tt, w);
}

abbrev eu : Profile
eu = record { namespace = "fleet"; name = "eu" }

abbrev us : Profile
us = record { namespace = "fleet"; name = "us" }

abbrev start : Hub
start = record {
  profiles = eu ∷ us ∷ [];
  secrets = ("eu-kubeconfig", 1 ∷ []) ∷ ("us-kubeconfig", 2 ∷ []) ∷ [];
}

abbrev fresh : Provider RestConfig String
unfolding set_label_selector new_provider
fresh = set_label_selector (("fleet", "yes") ∷ []) (new_provider "/tokens")

run-IsConsistent_example :
    IsConsistent
      (run hub unordered 2
        (set_label_selector (("fleet", "yes") ∷ []) (new_provider "/tokens"))
        start).0
run-IsConsistent_example = run-IsConsistent hub unordered "/tokens" (("fleet", "yes") ∷ []) 2 start

poll : ℕ → Provider RestConfig String → Hub → Provider RestConfig String × Hub
unfolding run kro_lab.Provider.store kro_lab.Kube.Error.is_not_found kro_lab.Kube.Exec.attempt
    kro_lab.Kube.Exec.lift kro_lab.Kube.Exec.pure kro_lab.Kube.Exec.wrap kro_lab.Prelude.Dict.erase
    kro_lab.Prelude.Dict.insert lookup text_at contains kro_lab.Provider.disengage_cluster
    kro_lab.Provider.engaged_or_dropped kro_lab.Provider.keep_seen new_provider
    kro_lab.Provider.Polling.secret_error set_label_selector kro_lab.Provider.Polling.with_token
    keys discover kro_lab.Provider.sweep kro_lab.Provider.Polling.visit_all visit
    kro_lab.Provider.Polling.with_key_result read_cluster_key kro_lab.Kube.Exec.◌>>=◌
    kro_lab.Provider.Polling.with_key has_key fresh kro_lab.Provider.Polling.connect
    kro_lab.Provider.Polling.engage_new kro_lab.Provider.Polling.cluster_from_profile
    kro_lab.Provider.Polling.index_all decimal
poll = run hub unordered

abbrev made : String → Bytes → RestConfig
made token_file bytes = record (config_of bytes) {
  bearer_token = "";
  bearer_token_file = token_file;
  username = "";
  password = "";
}

-- The provider once it is engaged with both clusters.
abbrev engaged : Provider RestConfig String
engaged = record {
  token_dir = "/tokens";
  selector = ("fleet", "yes") ∷ [];
  clusters =
      ("eu", made "/tokens/eu-token" (1 ∷ [])) ∷ ("us", made "/tokens/us-token" (2 ∷ [])) ∷ [];
  cancel_fns = ("eu", 0) ∷ ("us", 1) ∷ [];
  cluster_keys = ("eu", "1262") ∷ ("us", "1263") ∷ [];
  indexes = [];
  started = 2;
  cancelled = [];
}

engages :
    (run hub unordered 0
      (set_label_selector (("fleet", "yes") ∷ []) (new_provider "/tokens"))
      start).0
    ≡ engaged
unfolding poll
engages = refl

engaged-IsConsistent : IsConsistent engaged
engaged-IsConsistent =
    subst (λ (p : Provider RestConfig String). IsConsistent p) engages
      (run-IsConsistent hub unordered "/tokens" (("fleet", "yes") ∷ []) 0 start)

abbrev without_us : Hub
without_us = record start { profiles = eu ∷ [] }

only_eu : keys (discover hub unordered engaged without_us).0.clusters ≡ "eu" ∷ []
unfolding poll
only_eu = refl

eu_stays : has_key "eu" (discover hub unordered engaged without_us).0.clusters ≡ true
unfolding poll
eu_stays = refl

discover_listed_example : contains (names_of (eu ∷ [])) "eu" ≡ true
discover_listed_example =
    discover_listed hub unordered unordered-IsRange engaged without_us (eu ∷ []) "eu"
      engaged-IsConsistent refl eu_stays

read_key : read_cluster_key hub unordered eu start ≡ (ok "1262", start)
unfolding poll
read_key = refl

same_key : (key : String) → (read_cluster_key hub unordered eu start).0 ≡ ok key → key ≡ "1262"
same_key key e = ground (arith, ap (λ (p : Result String × Hub). p.0) read_key)

visit_stable_test : visit hub unordered eu engaged start ≡ (engaged, start)
unfolding poll
visit_stable_test = visit_stable hub unordered eu engaged start refl same_key

abbrev renewed : Hub
renewed = record start { secrets = ("eu-kubeconfig", 7 ∷ []) ∷ [] }

new_key : read_cluster_key hub unordered eu renewed ≡ (ok "1268", renewed)
unfolding poll
new_key = refl

visit_changed_example :
    (lookup "eu" (visit hub unordered eu engaged renewed).0.clusters
      ≡ some (made "/tokens/eu-token" (7 ∷ [])))
    × (text_at "eu" (visit hub unordered eu engaged renewed).0.cluster_keys ≡ "1268")
    × (is_in 0 (visit hub unordered eu engaged renewed).0.cancelled ≡ true)
unfolding poll
visit_changed_example =
    visit_changed hub unordered eu engaged renewed renewed renewed "1268"
      (made "/tokens/eu-token" (7 ∷ [])) 0 refl refl new_key (ground (arith, eq_iff "1268" "1262"))
      refl refl

connects_to_eu :
    cluster_from_profile hub unordered "/tokens" eu start
    ≡ (ok (made "/tokens/eu-token" (1 ∷ [])), start)
unfolding poll
connects_to_eu = refl

cluster_from_profile-UsesToken_example :
    (secret : Dict Bytes) × (kubeconfig : Bytes) × (read used : RestConfig) × (v : Hub)
    × (hub.get_secret "fleet" (secret_name eu) start ≡ (ok secret, v))
    × (lookup "value" secret ≡ some kubeconfig)
    × (hub.parse_kubeconfig kubeconfig ≡ ok read)
    × UsesToken "/tokens/eu-token" read used
    × (hub.new_cluster used v ≡ (ok (made "/tokens/eu-token" (1 ∷ [])), start))
cluster_from_profile-UsesToken_example =
    cluster_from_profile-UsesToken hub unordered "/tokens" eu start start
      (made "/tokens/eu-token" (1 ∷ [])) connects_to_eu
