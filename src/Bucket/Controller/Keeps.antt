-- ===== src/Bucket/Controller/Keeps.antt =====
-- Properties of the world that the bucket controller's steps keep, if the calls that they make do.
use kro_lab.Prelude.{String, Option, none, some}
use kro_lab.Prelude.Dict.{Dict}
use kro_lab.Kube.Error.{Result, ok, err}
use kro_lab.Kube.Exec.{Exec}
use kro_lab.Kube.Exec.Keeps.{Keeps, keeps_rules}
use kro_lab.Kube.Value.{Fields}
use kro_lab.Kube.Machinery.{Machinery}
use kro_lab.Bucket.Domain.{Request, Status}
use kro_lab.Bucket.Adapter.{Key}
use kro_lab.Bucket.Controller.{
  patch_status, cluster_name_for, spoke_found, spoke_named, spoke_for, claim_config, sync_status,
}
use kro_lab.Bucket.Calls.{Clients, Settings, Local, call, current, send, known, sent}

-- `P` is kept by the calls that only read.
pub record KeptByReads {W : Type 0} (P : W → Type 0) (clients : Clients W) : Type 0 where
  pub by_get_request : (k : Key) → Keeps P (clients.get_request k)
  pub by_list_profiles : (labels : Dict String) → Keeps P (clients.list_profiles labels)
  pub by_get_cluster : (name : String) → Keeps P (clients.get_cluster name)
  pub by_get_claim : (c : clients.Cluster) (k : Key) → Keeps P (clients.get_claim c k)
  pub by_read_claim : (c : clients.Cluster) (k : Key) → Keeps P (clients.read_claim c k)
  pub by_read_config : (c : clients.Cluster) (k : Key) → Keeps P (clients.read_config c k)

-- `P` is kept by the calls that change claims.
pub record KeptByClaims {W : Type 0} (P : W → Type 0) (clients : Clients W) : Type 0 where
  pub by_create_claim : (c : clients.Cluster) (o : Fields) → Keeps P (clients.create_claim c o)
  pub by_delete_claim : (c : clients.Cluster) (k : Key) → Keeps P (clients.delete_claim c k)

-- A property of the world, of a run with an object beside it.
abbrev pub InWorld : {W : Type 0} → (W → Type 0) → Local W → Type 0
InWorld P s = P s.world

module _ {W : Type 0} {P : W → Type 0} where
  pub Keeps-call : {A : Type 0} (m : Exec W A) → Keeps P m → Keeps (InWorld P) (call m)
  unfolding call
  Keeps-call m k = record { at = λ s h. k.at s.world h }

  pub Keeps-send :
      (patch : Fields → Fields → Exec W Fields) (changed : Fields)
      → ((o o' : Fields) → Keeps P (patch o o'))
      → Keeps (InWorld P) (send patch changed)
  unfolding send
  Keeps-send patch changed k = record {
    at = λ s h. go (patch s.object changed s.world) ((k s.object changed).at s.world h);
  }
    where
      go : (p : Result Fields × W) → P p.1 → InWorld P (sent changed p).1
      go (ok o, w) h = h
      go (err e, w) h = h

module _ {W : Type 0} {Q : Local W → Type 0} where
  pub Keeps-current : Keeps Q current
  unfolding current
  Keeps-current = record { at = λ s h. h }

  pub Keeps-known : {A : Type 0} (text : String) (r : Result A) → Keeps Q (known text r)
  unfolding known
  Keeps-known text (ok a) = search keeps_rules
  Keeps-known text (err e) = search keeps_rules

pub ruleset local_rules = (keeps_rules, Keeps-call, Keeps-current, Keeps-send, Keeps-known)

module _ {W : Type 0} {P : W → Type 0} (m : Machinery) (clients : Clients W) (config : Settings)
    (reads : KeptByReads P clients) where
  pub cluster_name_for-Keeps :
      (region : String) → Keeps (InWorld P) (cluster_name_for m clients config region)
  unfolding cluster_name_for
  cluster_name_for-Keeps region = search (local_rules, reads.by_list_profiles)

  spoke_found-Keeps :
      (name region : String) (r : Result clients.Cluster)
      → Keeps (InWorld P) (spoke_found m clients config name region r)
  unfolding spoke_found
  spoke_found-Keeps name region (ok c) = search local_rules
  spoke_found-Keeps name region (err e) = search local_rules

  spoke_named-Keeps :
      (region : String) (o : Option String)
      → Keeps (InWorld P) (spoke_named m clients config region o)
  unfolding spoke_named
  spoke_named-Keeps region none = search local_rules
  spoke_named-Keeps region (some name) =
      search (local_rules, reads.by_get_cluster, spoke_found-Keeps)

  pub spoke_for-Keeps : (region : String) → Keeps (InWorld P) (spoke_for m clients config region)
  unfolding spoke_for
  spoke_for-Keeps region = search (local_rules, cluster_name_for-Keeps, spoke_named-Keeps)

  claim_config-Keeps :
      (c : clients.Cluster) (req : Request) (o : Option Fields)
      → Keeps (InWorld P) (claim_config m clients config c req o)
  unfolding claim_config
  claim_config-Keeps c req none = search local_rules
  claim_config-Keeps c req (some claim) = search (local_rules, reads.by_read_config)

  module _ (by_patch_status : (o o' : Fields) → Keeps P (clients.patch_status o o')) where
    pub patch_status-Keeps : (s : Status) → Keeps (InWorld P) (patch_status m clients config s)
    unfolding patch_status
    patch_status-Keeps s = search (local_rules, by_patch_status)

    pub sync_status-Keeps :
        (c : clients.Cluster) (req : Request)
        → Keeps (InWorld P) (sync_status m clients config c req)
    unfolding sync_status
    sync_status-Keeps c req =
        search (local_rules, reads.by_get_claim, claim_config-Keeps, patch_status-Keeps)
