-- ===== src/Provider/Credentials.antt =====
-- With which credentials the provider connects to a cluster.
use kro_lab.Prelude.{String, ◌<>◌, ◌≡◌, refl, Option, none, some, List, [], arith, ◌∙◌}
use kro_lab.Prelude.Dict.{Dict, lookup}
use kro_lab.Kube.Error.{Result, ok, err}
use kro_lab.Kube.Exec.{Exec, attempt, wrap_result}
use kro_lab.Kube.Exec.Inversion.{bind-eq_ok, wrap-eq_ok, lift-eq_ok}
use kro_lab.Provider.{Profile, Bytes, RestConfig, Environment}
use kro_lab.Provider.Polling.{
  secret_name, secret_path, secret_or_error, value_entry, with_token, cluster_from_profile,
}

-- `c` connects as `read` does, but with the token file in the place of the token, the password, the
-- plug-ins and the embedded certificate. The files of a client certificate and the impersonated user
-- are still those of `read`.
pub record UsesToken (token_file : String) (read c : RestConfig) : Type 0 where
  pub same_host : c.host ≡ read.host
  pub same_server_name : c.server_name ≡ read.server_name
  pub same_check : c.insecure ≡ read.insecure
  pub same_proxy : c.proxy ≡ read.proxy
  pub same_compression : c.disable_compression ≡ read.disable_compression
  pub same_ca_file : c.ca_file ≡ read.ca_file
  pub same_ca : c.ca_data ≡ read.ca_data
  pub token : c.bearer_token ≡ ""
  pub from_file : c.bearer_token_file ≡ token_file
  pub no_username : c.username ≡ ""
  pub no_password : c.password ≡ ""
  pub no_auth_provider : c.auth_provider ≡ none
  pub no_exec_provider : c.exec_provider ≡ none
  pub no_cert : c.cert_data ≡ []
  pub no_key : c.key_data ≡ []
  pub same_cert_file : c.cert_file ≡ read.cert_file
  pub same_key_file : c.key_file ≡ read.key_file
  pub same_impersonation : c.impersonate ≡ read.impersonate

with_token-UsesToken :
    (token_file : String) (read : RestConfig)
    → UsesToken token_file read (with_token token_file read)
unfolding with_token
with_token-UsesToken token_file read = record {
  same_host = refl;
  same_server_name = refl;
  same_check = refl;
  same_proxy = refl;
  same_compression = refl;
  same_ca_file = refl;
  same_ca = refl;
  token = refl;
  from_file = refl;
  no_username = refl;
  no_password = refl;
  no_auth_provider = refl;
  no_exec_provider = refl;
  no_cert = refl;
  no_key = refl;
  same_cert_file = refl;
  same_key_file = refl;
  same_impersonation = refl;
}

attempt-eq_ok :
    {W A : Type 0} (m : Exec W A) (w v : W) (r : Result A) → attempt m w ≡ (ok r, v) → m w ≡ (r, v)
unfolding attempt
attempt-eq_ok m w v r h = ground arith

secret_or_error-eq_ok :
    (cp : Profile) (r : Result (Dict Bytes)) (secret : Dict Bytes)
    → secret_or_error cp r ≡ ok secret
    → r ≡ ok secret
secret_or_error-eq_ok cp (ok s) secret h = h
secret_or_error-eq_ok cp (err e) secret h = cc

value_entry-eq_ok :
    (path : String) (o : Option Bytes) (bytes : Bytes)
    → value_entry path o ≡ ok bytes
    → o ≡ some bytes
value_entry-eq_ok path none bytes h = cc
value_entry-eq_ok path (some b) bytes h = ground arith

wrap_result-eq_ok :
    {A : Type 0} (text : String) (r : Result A) (a : A) → wrap_result text r ≡ ok a → r ≡ ok a
wrap_result-eq_ok text (ok b) a h = h
wrap_result-eq_ok text (err e) a h = cc

module _ {W : Type 0} (env : Environment W) (iterate : List String → List String) where
  -- A cluster that the provider makes is reached at the server, and with the CA, of the kubeconfig
  -- in the Secret of its profile, with the projected token file in the place of the kubeconfig's
  -- token, password, plug-ins and embedded client certificate. Not all of its credentials are
  -- replaced: the files of a client certificate and the impersonated user stay those of the kubeconfig.
  pub cluster_from_profile-UsesToken :
      (token_dir : String) (cp : Profile) (w w' : W) (c : env.Cluster)
      → cluster_from_profile env iterate token_dir cp w ≡ (ok c, w')
      → (secret : Dict Bytes) × (kubeconfig : Bytes) × (read used : RestConfig) × (v : W)
        × (env.get_secret cp.namespace (secret_name cp) w ≡ (ok secret, v))
        × (lookup "value" secret ≡ some kubeconfig)
        × (env.parse_kubeconfig kubeconfig ≡ ok read)
        × UsesToken (token_dir <> "/" <> cp.name <> "-token") read used
        × (env.new_cluster used v ≡ (ok c, w'))
  unfolding cluster_from_profile
  cluster_from_profile-UsesToken token_dir cp w w' c h =
      let (answer, v, asked, h1) = bind-eq_ok _ _ w w' c h in
      let (secret, v1, checked, h2) = bind-eq_ok _ _ v w' c h1 in
      let (kubeconfig, v2, entry, h3) = bind-eq_ok _ _ v1 w' c h2 in
      let (read, v3, parsed, h4) = bind-eq_ok _ _ v2 w' c h3 in
      let (fine, same1) = lift-eq_ok _ v v1 secret checked in
      let (there, same2) = lift-eq_ok _ v1 v2 kubeconfig entry in
      let (good, same3) = lift-eq_ok _ v2 v3 read parsed in
      (
        secret,
        kubeconfig,
        read,
        with_token (token_dir <> "/" <> cp.name <> "-token") read,
        v,
        rw (← secret_or_error-eq_ok cp answer secret fine) (attempt-eq_ok _ w v answer asked),
        value_entry-eq_ok (secret_path cp) (lookup "value" secret) kubeconfig there,
        wrap_result-eq_ok ("parsing kubeconfig for cluster " <> cp.name)
            (env.parse_kubeconfig kubeconfig) read good,
        with_token-UsesToken (token_dir <> "/" <> cp.name <> "-token") read,
        rw (← (same1 ∙ same2 ∙ same3)) at (wrap-eq_ok _ _ v3 w' c h4),
      )
