-- ===== src/Vm/Controller.antt =====
-- controller/reconciler.go and controller/status_reconciler.go of the VM controller.
pub mod Frames
pub mod Requeue
pub mod Spoke
pub mod Convergence
pub mod Cleanup
pub mod EarlyRelease
pub mod Secrets
use kro_lab.Prelude.{
  ℕ, String, ◌<>◌, Bool, true, false, Option, none, some, List, [], ◌∷◌, ◌==◌, ℤ, if◌then◌else◌,
}
use kro_lab.Prelude.Dict.{Dict}
use kro_lab.Kube.Error.{
  Error, Result, ok, err, wrapped, terminal, panicked, is_not_found, is_already_exists,
  is_cluster_not_found,
}
use kro_lab.Kube.Exec.{
  Exec, pure, raise, lift, attempt, wrap, tolerate, each, finish, run, Outcome, ◌>>=◌, ◌>>◌,
}
use kro_lab.Kube.Value.{Fields}
use kro_lab.Kube.Machinery.{Machinery}
use kro_lab.Vm.Domain.{
  Request, Status, Plan, plan_vms, ready_status, unschedulable_status, missing_tenant_status,
}
use kro_lab.Vm.Adapter.{
  Key, Secret, request_from_object, owner_labels, request_key, vm_states, status_changed,
  set_status,
}
use kro_lab.Vm.Rendering.{virtual_machine, spoke_secret}

abbrev pub finalizer : String
finalizer = "platform.example.com/vm-cleanup"

-- The clients of the hub and the spokes: every call may fail and may change the world `W`.
pub record Clients (W : Type 0) : Type 1 where
  pub Cluster : Type 0
  -- r.Hub
  pub get_request : Key → Exec W Fields
  pub patch : Fields → Fields → Exec W Fields
  pub patch_status : Fields → Fields → Exec W Fields
  -- r.HubReader
  pub read_hub_secret : Key → Exec W Secret
  -- r.Clusters
  pub get_cluster : String → Exec W Cluster
  -- spoke.GetAPIReader() and spoke.GetClient()
  pub read_secret : Cluster → Key → Exec W Secret
  pub create_secret : Cluster → Secret → Exec W (Unit {0})
  pub update_secret : Cluster → Secret → Exec W (Unit {0})
  pub delete_secret : Cluster → Key → Exec W (Unit {0})
  pub get_vm : Cluster → Key → Exec W Fields
  pub list_vms : Cluster → String → Dict String → Exec W (List Fields)
  pub create_vm : Cluster → Fields → Exec W (Unit {0})
  pub delete_vm : Cluster → Key → Exec W (Unit {0})

-- What the reconcilers read of config.Config.
pub record Settings : Type 0 where
  pub run_strategy : String
  pub requeue_interval : ℤ

abbrev pub or_panic {ℓ} : {A : Type ℓ} → Option A → Result A
or_panic none = err panicked
or_panic (some a) = ok a

-- An outcome that asks for no second run.
abbrev pub settled : Outcome
settled = record { requeue_after = none; error = none }

module _ {W : Type 0} (m : Machinery) (iterate : List String → List String) (clients : Clients W)
    (config : Settings) where
  open clients use {Cluster}

  unfoldable pub list_owned : Cluster → Request → Exec W (List Fields)
  list_owned spoke req =
      wrap ("listing VMs for " <> req.name) (clients.list_vms spoke req.tenant (owner_labels req))

  -- `patchStatus`, and so `writeStatus`
  unfoldable pub write_status : Fields → Status → Exec W (Unit {0})
  write_status o s =
      if status_changed m o s
      then (do
        o' ← wrap "setting status.regions" (lift (set_status m o s))
        wrap "patching request status" (clients.patch_status o o')
        pure tt)
      else pure tt

  unfoldable pub sync_status : Cluster → Fields → Request → Exec W (Unit {0})
  sync_status spoke o req = do
    vms ← list_owned spoke req
    status ← lift (or_panic (ready_status req (vm_states m vms).1))
    write_status o status

  unfoldable pub store_secret : Cluster → Secret → Result Secret → Exec W (Unit {0})
  store_secret spoke desired (err e) =
      if is_not_found e
      then clients.create_secret spoke desired
      else raise (wrapped "reading spoke secret" e)
  store_secret spoke desired (ok current) =
      if m.data_equal current.data_of desired.data_of
      then pure tt
      else clients.update_secret spoke (record current { data_of = desired.data_of })

  unfoldable pub sync_secret : Cluster → Request → Exec W (Unit {0})
  sync_secret spoke req = do
    hub_secret ← wrap ("reading hub secret " <> req.namespace <> "/" <> req.cloud_init_secret) (
        clients.read_hub_secret
          (record { namespace = req.namespace; name = req.cloud_init_secret }))
    let desired = spoke_secret hub_secret req
    current ←
        attempt (
          clients.read_secret spoke (record { namespace = desired.namespace; name = desired.name }))
    store_secret spoke desired current

  unfoldable pub create_one : Cluster → Request → String → Exec W (Unit {0})
  create_one spoke req name =
      tolerate is_already_exists (wrapped ("creating VM " <> name))
        (clients.create_vm spoke (virtual_machine req name config.run_strategy))

  unfoldable pub delete_one : Cluster → Request → String → Exec W (Unit {0})
  delete_one spoke req name =
      tolerate is_not_found (wrapped ("deleting VM " <> name))
        (clients.delete_vm spoke (record { namespace = req.tenant; name = name }))

  unfoldable pub carry_out : Cluster → Request → Plan → Exec W (Unit {0})
  carry_out spoke req plan = do
    each (create_one spoke req) tt plan.create
    each (delete_one spoke req) tt plan.delete

  unfoldable pub sync_vms : Cluster → Request → Exec W (Unit {0})
  sync_vms spoke req = do
    vms ← list_owned spoke req
    plan ← lift (or_panic (plan_vms iterate req (vm_states m vms).0))
    carry_out spoke req plan

  unfoldable pub delete_listed : Cluster → Fields → Exec W (Unit {0})
  delete_listed spoke vm =
      tolerate is_not_found (wrapped ("deleting VM " <> m.get_name vm))
        (clients.delete_vm spoke (record { namespace = m.get_namespace vm; name = m.get_name vm }))

  unfoldable pub clean_spoke : Cluster → Request → Exec W (Unit {0})
  clean_spoke spoke req = do
    vms ← list_owned spoke req
    each (delete_listed spoke) tt vms
    tolerate is_not_found (wrapped "deleting spoke secret") (
        clients.delete_secret spoke
          (record { namespace = req.tenant; name = req.cloud_init_secret }))

  unfoldable pub clean_found : Request → Result Cluster → Exec W (Unit {0})
  clean_found req (ok spoke) = clean_spoke spoke req
  clean_found req (err e) =
      if is_cluster_not_found e
      then pure tt
      else raise (wrapped ("getting cluster for region " <> req.region) e)

  -- Nothing is cleaned for a request that cannot be placed or parsed.
  unfoldable pub clean_placed : Request → Option Error → Exec W (Unit {0})
  clean_placed req (some e) = pure tt
  clean_placed req none =
      if req.tenant == ""
      then pure tt
      else (do spoke ← attempt (clients.get_cluster req.region); clean_found req spoke)

  unfoldable pub release : Fields → Exec W (Unit {0})
  release o =
      tolerate is_not_found (λ e. e) (do clients.patch o (m.remove_finalizer o finalizer); pure tt)

  unfoldable pub finalize : Fields → Request → Option Error → Exec W (Unit {0})
  finalize o req parse_error =
      if m.contains_finalizer o finalizer
      then (do clean_placed req parse_error; release o)
      else pure tt

  unfoldable pub ensure_finalizer : Fields → Exec W Fields
  ensure_finalizer o =
      if m.contains_finalizer o finalizer
      then pure o
      else wrap "adding finalizer" (clients.patch o (m.add_finalizer o finalizer))

  unfoldable pub place : Fields → Request → Result Cluster → Exec W Outcome
  place o req (err e) =
      if is_cluster_not_found e
      then finish (some config.requeue_interval) (write_status o (unschedulable_status req.region))
      else raise (wrapped ("getting cluster for region " <> req.region) e)
  place o req (ok spoke) = do
    sync_secret spoke req
    sync_vms spoke req
    sync_status spoke o req
    pure (record { requeue_after = some config.requeue_interval; error = none })

  unfoldable pub reconcile_live : Fields → Request → Option Error → Exec W Outcome
  reconcile_live o req (some e) = raise (terminal e)
  reconcile_live o req none =
      if req.tenant == ""
      then finish none (write_status o (missing_tenant_status req.region))
      else (do
        o' ← ensure_finalizer o
        spoke ← attempt (clients.get_cluster req.region)
        place o' req spoke)

  unfoldable pub reconcile_object : Result Fields → Exec W Outcome
  reconcile_object (err e) = if is_not_found e then pure settled else raise e
  reconcile_object (ok o) =
      let (req, parse_error) = request_from_object m o in
      if m.is_deleting o
      then finish none (finalize o req parse_error)
      else reconcile_live o req parse_error

  unfoldable pub reconcile : Key → W → Outcome × W
  reconcile key = run (do found ← attempt (clients.get_request key); reconcile_object found)
