-- ===== src/Bucket/Calls.antt =====
-- The calls of the bucket controller, and the variable `obj` that its patches change in place.
use kro_lab.Prelude.{String, Option, none, some, List, ℤ, if◌then◌else◌}
use kro_lab.Prelude.Dict.{Dict}
use kro_lab.Kube.Error.{Result, ok, err, wrapped, is_not_found}
use kro_lab.Kube.Exec.{Exec, pure, raise, Outcome}
use kro_lab.Kube.Value.{Fields}
use kro_lab.Bucket.Domain.{Request}
use kro_lab.Bucket.Adapter.{Key}

-- The clients of the hub and the spokes and the counter: every call may change the world `W`.
pub record Clients (W : Type 0) : Type 1 where
  pub Cluster : Type 0
  -- r.Hub
  pub get_request : Key → Exec W Fields
  pub patch : Fields → Fields → Exec W Fields
  pub patch_status : Fields → Fields → Exec W Fields
  -- r.HubReader
  pub list_profiles : Dict String → Exec W (List Fields)
  -- r.Clusters
  pub get_cluster : String → Exec W Cluster
  -- spoke.GetClient() and spoke.GetAPIReader()
  pub get_claim : Cluster → Key → Exec W Fields
  pub read_claim : Cluster → Key → Exec W Fields
  pub read_config : Cluster → Key → Exec W (Dict String)
  pub create_claim : Cluster → Fields → Exec W (Unit {0})
  pub delete_claim : Cluster → Key → Exec W (Unit {0})
  -- ReconcileTotal.WithLabelValues(tenant, region, outcome).Inc()
  pub count : String → String → String → W → W

-- What the reconcilers read of config.Config.
pub record Settings : Type 0 where
  pub storage_class : String
  pub region_label : String
  pub cluster_selector : Dict String
  pub requeue_interval : ℤ
  pub cleanup_interval : ℤ

-- The world and the object that a reconciler's variable `obj` points to.
pub record Local (W : Type 0) : Type 0 where
  pub world : W
  pub object : Fields

abbrev pub settled : Outcome
settled = record { requeue_after = none; error = none }

abbrev pub claim_key : Request → Key
claim_key req = record { namespace = req.tenant; name = req.name }

module _ {W : Type 0} where
  abbrev pub beside : {A : Type 0} → Fields → Result A × W → Result A × Local W
  beside o (r, w) = (r, record { world = w; object = o })

  -- A call that does not touch `obj`.
  unfoldable pub call : {A : Type 0} → Exec W A → Exec (Local W) A
  call m s = beside s.object (m s.world)

  unfoldable pub current : Exec (Local W) Fields
  current s = (ok s.object, s)

  abbrev pub sent : Fields → Result Fields × W → Result (Unit {0}) × Local W
  sent changed (ok o, w) = (ok tt, record { world = w; object = o })
  sent changed (err e, w) = (err e, record { world = w; object = changed })

  -- A patch of `obj`, which was changed before: on success the answer is decoded into it.
  unfoldable pub send : (Fields → Fields → Exec W Fields) → Fields → Exec (Local W) (Unit {0})
  send patch changed s = sent changed (patch s.object changed s.world)

  -- An answer whose NotFound is no error.
  unfoldable pub known : {A : Type 0} → String → Result A → Exec (Local W) (Option A)
  known text (ok a) = pure (some a)
  known text (err e) = if is_not_found e then pure none else raise (wrapped text e)
