-- ===== src/Provider/Polling.antt =====
-- discover, the calls it makes, Run and IndexField of provider.go.
use kro_lab.Prelude.{
  ℕ, zero, suc, String, ◌<>◌, ◌&&◌, Option, none, some, List, [], ◌∷◌, ◌++◌, ◌==◌, if◌then◌else◌,
  codes,
}
use kro_lab.Prelude.Dict.{Dict, lookup, keys, has_key, text_at}
use kro_lab.Kube.Error.{Error, Result, ok, err, message, wrapped, cluster_not_found, is_not_found}
use kro_lab.Kube.Exec.{Exec, pure, lift, attempt, wrap, wrap_result, each, ◌>>=◌}
use kro_lab.Provider.{
  Profile, Bytes, RestConfig, Environment, Provider, secret_suffix, disengage_cluster, sweep, store,
  engaged_or_dropped, clusters_of,
}

abbrev pub secret_name : Profile → String
secret_name cp = cp.name <> secret_suffix

abbrev pub secret_path : Profile → String
secret_path cp = cp.namespace <> "/" <> secret_name cp

-- The fields that are assigned; CertFile, KeyFile and Impersonate stay.
unfoldable pub with_token : String → RestConfig → RestConfig
with_token token_file config = record config {
  bearer_token = "";
  bearer_token_file = token_file;
  username = "";
  password = "";
  auth_provider = none;
  exec_provider = none;
  cert_data = [];
  key_data = [];
}

unfoldable pub secret_error : Profile → Error → Error
secret_error cp e =
    if is_not_found e
    then cluster_not_found
    else wrapped ("getting kubeconfig secret " <> secret_path cp) e

abbrev pub secret_or_error : Profile → Result (Dict Bytes) → Result (Dict Bytes)
secret_or_error cp (ok secret) = ok secret
secret_or_error cp (err e) = err (secret_error cp e)

abbrev pub names_of : List Profile → List String
names_of [] = []
names_of (cp ∷ cps) = cp.name ∷ names_of cps

abbrev pub value_entry : String → Option Bytes → Result Bytes
value_entry where_ none = err (message ("kubeconfig secret " <> where_ <> " missing 'value' key"))
value_entry where_ (some bytes) = ok bytes

module _ {W : Type 0} (env : Environment W) (iterate : List String → List String) where
  open env use {Cluster, Index}

  unfoldable pub read_cluster_key : Profile → Exec W String
  unfolding lookup
  read_cluster_key cp = do
    secret ← env.get_secret cp.namespace (secret_name cp)
    kubeconfig ← lift (value_entry (secret_path cp) (lookup "value" secret))
    config ← lift (env.parse_kubeconfig kubeconfig)
    pure (env.digest (codes config.host ++ config.ca_data))

  unfoldable pub cluster_from_profile : String → Profile → Exec W Cluster
  unfolding lookup with_token
  cluster_from_profile token_dir cp = do
    answer ← attempt (env.get_secret cp.namespace (secret_name cp))
    secret ← lift (secret_or_error cp answer)
    kubeconfig ← lift (value_entry (secret_path cp) (lookup "value" secret))
    config ← lift (
        wrap_result ("parsing kubeconfig for cluster " <> cp.name)
          (env.parse_kubeconfig kubeconfig))
    wrap ("creating cluster for " <> cp.name)
        (env.new_cluster (with_token (token_dir <> "/" <> cp.name <> "-token") config))

  -- The errors of indexing a new cluster are dropped.
  unfoldable pub index_all : Cluster → List Index → W → W
  index_all c [] w = w
  index_all c (index ∷ indexes) w = index_all c indexes (env.index_field c index w).1

  unfoldable pub engage_new :
      String → String → Result Cluster → Provider Cluster Index → W → Provider Cluster Index × W
  engage_new name key (err e) p w = (p, w)
  engage_new name key (ok c) p w =
      let p' = store name key c p in
      let (answer, w') = env.engage name c (index_all c p'.indexes w) in
      (engaged_or_dropped name answer p', w')

  unfoldable pub connect :
      Profile → String → Provider Cluster Index → W → Provider Cluster Index × W
  connect cp key p w =
      let p' = if has_key cp.name p.clusters then disengage_cluster cp.name p else p in
      let (made, w') = cluster_from_profile p'.token_dir cp w in engage_new cp.name key made p' w'

  unfoldable pub with_key :
      Profile → String → Provider Cluster Index → W → Provider Cluster Index × W
  with_key cp key p w =
      let changed = connect cp key p w in
      if has_key cp.name p.clusters && key == text_at cp.name p.cluster_keys
      then (p, w)
      else changed

  -- An engaged cluster whose key cannot be read is left as it is.
  unfoldable pub with_key_result :
      Profile → Result String → Provider Cluster Index → W → Provider Cluster Index × W
  with_key_result cp (ok key) p w = with_key cp key p w
  with_key_result cp (err e) p w =
      let new = with_key cp "" p w in if has_key cp.name p.clusters then (p, w) else new

  unfoldable pub visit : Profile → Provider Cluster Index → W → Provider Cluster Index × W
  visit cp p w = let (answer, w') = read_cluster_key cp w in with_key_result cp answer p w'

  unfoldable pub visit_all : List Profile → Provider Cluster Index → W → Provider Cluster Index × W
  visit_all [] p w = (p, w)
  visit_all (cp ∷ cps) p w = let (p', w') = visit cp p w in visit_all cps p' w'

  abbrev pub finish_discovery :
      Result (List Profile) → Provider Cluster Index → W → Provider Cluster Index × W
  finish_discovery (err e) p w = (p, w)
  finish_discovery (ok cps) p w =
      let (p', w') = visit_all cps p w in (sweep (names_of cps) (iterate (keys p'.clusters)) p', w')

  unfoldable pub discover : Provider Cluster Index → W → Provider Cluster Index × W
  discover p w = let (answer, w') = env.list_profiles p.selector w in finish_discovery answer p w'

  -- Run: a discovery at the start and one at each of the ticks before the context is done.
  unfoldable pub run : ℕ → Provider Cluster Index → W → Provider Cluster Index × W
  run zero p w = discover p w
  run (suc ticks) p w = let (p', w') = discover p w in run ticks p' w'

  index_each : Index → List Cluster → Exec W (Unit {0})
  index_each index = each (λ c. env.index_field c index) tt

  -- IndexField: the index is kept for later clusters, and added to the present ones up to the first
  -- error; `order` is the order in which the run ranges over them.
  unfoldable pub index_field :
      (List Cluster → List Cluster)
      → Index
      → Provider Cluster Index
      → W
      → Result (Unit {0}) × Provider Cluster Index × W
  unfolding index_each
  index_field order index p w =
      let (answer, w') = index_each index (order (clusters_of p.clusters)) w in
      (answer, record p { indexes = p.indexes ++ (index ∷ []) }, w')
