-- ===== src/Provider.antt =====
-- providers/cluster-inventory-api/provider.go: the clusters that the manager is engaged with.
pub mod Polling
pub mod Engaged
pub mod Credentials
pub mod Discovery
pub mod Reengaging
pub mod Interleaving
use kro_lab.Prelude.{
  ℕ, zero, suc, ◌+◌, String, ◌<>◌, Bool, true, false, ◌&&◌, Option, none, some, List, [], ◌∷◌, ◌++◌,
  ◌==◌, if◌then◌else◌, contains, codes,
}
use kro_lab.Prelude.Dict.{Dict, lookup, insert, erase, keys, has_key, text_at}
use kro_lab.Kube.Error.{Error, Result, ok, err, message, wrapped, cluster_not_found, is_not_found}
use kro_lab.Kube.Exec.{Exec, pure, raise, lift, attempt, wrap, wrap_result, each, ◌>>=◌}

-- A ClusterProfile, reduced to what the provider reads of it.
pub record Profile : Type 0 where
  pub namespace : String
  pub name : String

abbrev pub Bytes : Type 0
Bytes = List ℕ

-- rest.ImpersonationConfig
pub record Impersonation : Type 0 where
  pub user : String
  pub uid : String
  pub groups : List String
  pub extra : Dict (List String)

-- rest.Config, as far as clientcmd fills it from a kubeconfig and the provider overrides it.
pub record RestConfig : Type 0 where
  pub host : String
  pub server_name : String
  pub insecure : Bool
  pub proxy : Option String
  pub disable_compression : Bool
  pub ca_file : String
  pub ca_data : Bytes
  pub bearer_token : String
  pub bearer_token_file : String
  pub impersonate : Impersonation
  pub username : String
  pub password : String
  pub auth_provider : Option String
  pub exec_provider : Option String
  pub cert_file : String
  pub key_file : String
  pub cert_data : Bytes
  pub key_data : Bytes

-- The calls that the provider makes of the hub, of client-go and of the manager, over a world `W`.
pub record Environment (W : Type 0) : Type 1 where
  pub Cluster : Type 0
  pub Index : Type 0
  pub list_profiles : Dict String → Exec W (List Profile)
  -- the data of the Secret of a namespace and a name
  pub get_secret : String → String → Exec W (Dict Bytes)
  pub parse_kubeconfig : Bytes → Result RestConfig
  -- the hexadecimal SHA-256 sum
  pub digest : Bytes → String
  pub new_cluster : RestConfig → Exec W Cluster
  pub index_field : Cluster → Index → Exec W (Unit {0})
  pub engage : String → Cluster → Exec W (Unit {0})

-- A context is a number: `started` counts those made, and `cancelled` lists those cancelled.
pub record Provider (Cluster Index : Type 0) : Type 0 where
  pub token_dir : String
  pub selector : Dict String
  pub clusters : Dict Cluster
  pub cancel_fns : Dict ℕ
  pub cluster_keys : Dict String
  pub indexes : List Index
  pub started : ℕ
  pub cancelled : List ℕ

-- NewWithTokenDir; the environment stands for the scheme, the hub client and the factory.
unfoldable pub new_provider : {Cluster Index : Type 0} → String → Provider Cluster Index
new_provider token_dir = record {
  token_dir = token_dir;
  selector = [];
  clusters = [];
  cancel_fns = [];
  cluster_keys = [];
  indexes = [];
  started = 0;
  cancelled = [];
}

abbrev pub default_token_dir : String
default_token_dir = "/var/run/secrets/tokens"

abbrev pub secret_suffix : String
secret_suffix = "-kubeconfig"

abbrev found_or_missing : {Cluster : Type 0} → Option Cluster → Result Cluster
found_or_missing none = err cluster_not_found
found_or_missing (some c) = ok c

abbrev pub clusters_of : {Cluster : Type 0} → Dict Cluster → List Cluster
clusters_of [] = []
clusters_of ((name, c) ∷ clusters) = c ∷ clusters_of clusters

abbrev cancel : Option ℕ → List ℕ → List ℕ
cancel none cancelled = cancelled
cancel (some context) cancelled = context ∷ cancelled

module _ {Cluster Index : Type 0} where
  unfoldable pub set_label_selector : Dict String → Provider Cluster Index → Provider Cluster Index
  set_label_selector selector p = record p { selector = selector }

  -- Provider.Get
  unfoldable pub get : Provider Cluster Index → String → Result Cluster
  unfolding lookup
  get p name = found_or_missing (lookup name p.clusters)

  unfoldable pub disengage_cluster : String → Provider Cluster Index → Provider Cluster Index
  disengage_cluster name p =
      if has_key name p.clusters
      then record p {
        clusters = erase name p.clusters;
        cluster_keys = erase name p.cluster_keys;
        cancelled = cancel (lookup name p.cancel_fns) p.cancelled;
        cancel_fns = erase name p.cancel_fns;
      }
      else p

  unfoldable pub keep_seen : List String → String → Provider Cluster Index → Provider Cluster Index
  keep_seen seen name p = if contains seen name then p else disengage_cluster name p

  -- The engaged clusters that the list did not show are disengaged.
  unfoldable pub sweep : List String → List String → Provider Cluster Index → Provider Cluster Index
  sweep seen [] p = p
  sweep seen (name ∷ names) p = sweep seen names (keep_seen seen name p)

module _ {Cluster Index : Type 0} where
  unfoldable pub engaged_or_dropped :
      String → Result (Unit {0}) → Provider Cluster Index → Provider Cluster Index
  engaged_or_dropped name (ok u) p = p
  engaged_or_dropped name (err e) p = disengage_cluster name p

  -- The new cluster is started under a context of its own and stored with its key.
  unfoldable pub store : String → String → Cluster → Provider Cluster Index → Provider Cluster Index
  store name key c p = record p {
    clusters = insert name c p.clusters;
    cancel_fns = insert name p.started p.cancel_fns;
    cluster_keys = insert name key p.cluster_keys;
    started = p.started + 1;
  }
