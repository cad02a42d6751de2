-- ===== src/Bucket/Controller.antt =====
-- controller/reconciler.go, controller/status_reconciler.go and controller/metrics.go of the bucket
-- controller.
pub mod Keeps
pub mod Frames
pub mod Counting
pub mod Claims
pub mod Requeue
pub mod Release
use kro_lab.Prelude.{
  String, ◌<>◌, Bool, true, false, Option, none, some, List, [], ◌∷◌, ◌==◌, ℤ, if◌then◌else◌,
}
use kro_lab.Prelude.Dict.{Dict}
use kro_lab.Kube.Error.{
  Error, Result, ok, err, wrapped, terminal, is_not_found, is_already_exists, is_cluster_not_found,
}
use kro_lab.Kube.Exec.{
  Exec, pure, raise, lift, attempt, wrap, tolerate, finish, run, Outcome, outcome_of, ◌>>=◌, ◌>>◌,
}
use kro_lab.Kube.Value.{Fields}
use kro_lab.Kube.Machinery.{Machinery}
use kro_lab.Bucket.Domain.{
  Request, Status, claim_bound, resolve_cluster, tenant_namespace, ready_status,
  unschedulable_status, missing_tenant_status,
}
use kro_lab.Bucket.Calls.{
  Clients, Settings, Local, settled, claim_key, beside, call, current, sent, send, known,
}
use kro_lab.Bucket.Adapter.{
  Key, request_from_object, request_key, object_bucket_claim, profiles_from_list, claim_of,
  status_changed, set_status, string_or_empty,
}

abbrev pub finalizer : String
finalizer = "platform.example.com/bucket-cleanup"

abbrev pub unknown_region : String
unknown_region = "unknown"

module _ {W : Type 0} (m : Machinery) (clients : Clients W) (config : Settings) where
  open clients use {Cluster}

  unfoldable pub patch_status : Status → Exec (Local W) (Unit {0})
  patch_status s = do
    o ← current
    if status_changed m o s
        then (do
          o' ← wrap "setting status.regions" (lift (set_status m o s))
          wrap "patching request status" (send clients.patch_status o'))
        else pure tt

  unfoldable pub cluster_name_for : String → Exec (Local W) (Option String)
  cluster_name_for region = do
    items ← wrap "listing cluster profiles" (call (clients.list_profiles config.cluster_selector))
    pure (resolve_cluster region config.region_label (profiles_from_list m items))

  unfoldable pub spoke_found : String → String → Result Cluster → Exec (Local W) (Option Cluster)
  spoke_found name region (ok spoke) = pure (some spoke)
  spoke_found name region (err e) =
      if is_cluster_not_found e
      then pure none
      else raise (wrapped ("getting cluster " <> name <> " for region " <> region) e)

  unfoldable pub spoke_named : String → Option String → Exec (Local W) (Option Cluster)
  spoke_named region none = pure none
  spoke_named region (some name) = do
    answer ← attempt (call (clients.get_cluster name))
    spoke_found name region answer

  unfoldable pub spoke_for : String → Exec (Local W) (Option Cluster)
  spoke_for region = do name ← cluster_name_for region; spoke_named region name

  unfoldable pub create_missing : Cluster → Request → Result Fields → Exec (Local W) (Unit {0})
  create_missing spoke req (ok claim) = pure tt
  create_missing spoke req (err e) =
      if is_not_found e
      then tolerate is_already_exists (wrapped ("creating claim " <> req.name))
          (call (clients.create_claim spoke (object_bucket_claim req config.storage_class)))
      else raise (wrapped ("reading claim " <> req.name) e)

  unfoldable pub sync_claim : Cluster → Request → Exec (Local W) (Unit {0})
  sync_claim spoke req = do
    answer ← attempt (call (clients.get_claim spoke (claim_key req)))
    create_missing spoke req answer

  unfoldable pub is_gone : Request → Result Fields → Exec (Local W) Bool
  is_gone req (ok claim) = pure false
  is_gone req (err e) =
      if is_not_found e then pure true else raise (wrapped ("reading claim " <> req.name) e)

  unfoldable pub delete_claim : Cluster → Request → Exec (Local W) Bool
  delete_claim spoke req = do
    tolerate is_not_found (wrapped ("deleting claim " <> req.name))
        (call (clients.delete_claim spoke (claim_key req)))
    answer ← attempt (call (clients.read_claim spoke (claim_key req)))
    is_gone req answer

  unfoldable pub claim_config :
      Cluster → Request → Option Fields → Exec (Local W) (Option (Dict String))
  claim_config spoke req none = pure none
  claim_config spoke req (some claim) =
      if (claim_of m (some claim) none).phase == claim_bound
      then (do
        answer ← attempt (call (clients.read_config spoke (claim_key req)))
        known ("reading claim config " <> req.name) answer)
      else pure none

  unfoldable pub sync_status : Cluster → Request → Exec (Local W) (Unit {0})
  sync_status spoke req = do
    answer ← attempt (call (clients.get_claim spoke (claim_key req)))
    claim ← known ("reading claim " <> req.name) answer
    data_of ← claim_config spoke req claim
    patch_status (ready_status req (claim_of m claim data_of))

  unfoldable pub clean_found : Request → Option Cluster → Exec (Local W) Bool
  clean_found req none = pure true
  clean_found req (some spoke) = delete_claim spoke req

  -- Whether the finalizer can be released: at once for a request that was never placed.
  unfoldable pub clean : Request → Option Error → Exec (Local W) Bool
  clean req (some e) = pure true
  clean req none =
      if req.tenant == ""
      then pure true
      else (do spoke ← spoke_for req.region; clean_found req spoke)

  unfoldable pub release_if : Bool → Exec (Local W) Outcome
  release_if false = pure (record { requeue_after = some config.cleanup_interval; error = none })
  release_if true = do
    o ← current
    finish none
        (tolerate is_not_found (λ e. e) (send clients.patch (m.remove_finalizer o finalizer)))

  unfoldable pub finalize : Request → Option Error → Exec (Local W) Outcome
  finalize req parse_error = do
    o ← current
    if m.contains_finalizer o finalizer
        then (do gone ← clean req parse_error; release_if gone)
        else pure settled

  unfoldable pub ensure_finalizer : Exec (Local W) (Unit {0})
  ensure_finalizer = do
    o ← current
    if m.contains_finalizer o finalizer
        then pure tt
        else wrap "adding finalizer" (send clients.patch (m.add_finalizer o finalizer))

  unfoldable pub place : Request → Option Cluster → Exec (Local W) Outcome
  place req none =
      finish (some config.requeue_interval) (patch_status (unschedulable_status req.region))
  place req (some spoke) = do
    sync_claim spoke req
    sync_status spoke req
    pure (record { requeue_after = some config.requeue_interval; error = none })

  unfoldable pub reconcile_live : Request → Option Error → Exec (Local W) Outcome
  reconcile_live req (some e) = raise (terminal e)
  reconcile_live req none =
      if req.tenant == ""
      then finish none (patch_status (missing_tenant_status req.region))
      else (do ensure_finalizer; spoke ← spoke_for req.region; place req spoke)

  unfoldable pub reconcile_object : Exec (Local W) Outcome
  reconcile_object = do
    o ← current
    let (req, parse_error) = request_from_object m o
    if m.is_deleting o then finalize req parse_error else reconcile_live req parse_error

  unfoldable pub region_of : Fields → String
  region_of o =
      let region = string_or_empty (m.nested_string o ("spec" ∷ "region" ∷ [])) in
      if region == "" then unknown_region else region

  abbrev pub result_text : Outcome → String
  result_text o = elim o.error [ none ↦ "success" | some e ↦ "error" ]

  -- The deferred count: it reads `obj` as the run has left it.
  abbrev pub counted : Outcome → Local W → Outcome × W
  counted outcome s = (
    outcome,
    clients.count (tenant_namespace (m.get_labels s.object)).0 (region_of s.object)
        (result_text outcome) s.world,
  )

  abbrev pub begin : Result Fields → W → Outcome × W
  begin (err e) w =
      (record { requeue_after = none; error = if is_not_found e then none else some e }, w)
  begin (ok o) w =
      let (r, s) = reconcile_object (record { world = w; object = o }) in counted (outcome_of r) s

  unfoldable pub reconcile : Key → W → Outcome × W
  unfolding region_of
  reconcile key w = let (r, w') = clients.get_request key w in begin r w'
