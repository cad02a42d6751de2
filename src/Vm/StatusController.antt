-- ===== src/Vm/StatusController.antt =====
-- controller/status_reconciler.go of the VM controller: an event of a VM on a spoke.
pub mod Frames
use kro_lab.Prelude.{
  ℕ, String, ◌<>◌, Bool, true, false, Option, none, some, List, [], ◌∷◌, ◌==◌, ℤ, if◌then◌else◌,
}
use kro_lab.Prelude.Dict.{Dict}
use kro_lab.Kube.Error.{
  Error, Result, ok, err, wrapped, terminal, panicked, is_not_found, is_already_exists,
  is_cluster_not_found,
}
use kro_lab.Kube.Exec.{
  Exec, pure, raise, lift, attempt, wrap, tolerate, each, finish, run, Outcome, ◌>>=◌, ◌>>◌,
}
use kro_lab.Kube.Value.{Fields}
use kro_lab.Kube.Machinery.{Machinery}
use kro_lab.Vm.Domain.{
  Request, Status, Plan, plan_vms, ready_status, unschedulable_status, missing_tenant_status,
}
use kro_lab.Vm.Adapter.{
  Key, Secret, request_from_object, owner_labels, request_key, vm_states, status_changed,
  set_status,
}
use kro_lab.Vm.Rendering.{virtual_machine, spoke_secret}
use kro_lab.Vm.Controller.{Clients, Settings, settled, sync_status}

module _ {W : Type 0} (m : Machinery) (iterate : List String → List String) (clients : Clients W)
    (config : Settings) where
  open clients use {Cluster}

  -- StatusReconciler.Reconcile, from its last step back to its first.
  unfoldable pub report : String → Cluster → Fields → Request → Option Error → Exec W Outcome
  report cluster_name spoke o req (some e) = pure settled
  report cluster_name spoke o req none =
      if req.region == cluster_name
      then finish none (sync_status m iterate clients config spoke o req)
      else pure settled

  unfoldable pub report_found : String → Cluster → Result Fields → Exec W Outcome
  report_found cluster_name spoke (err e) = if is_not_found e then pure settled else raise e
  report_found cluster_name spoke (ok o) =
      let (req, parse_error) = request_from_object m o in
      report cluster_name spoke o req parse_error

  unfoldable pub report_owner : String → Cluster → Option Key → Exec W Outcome
  report_owner cluster_name spoke none = pure settled
  report_owner cluster_name spoke (some key) = do
    found ← attempt (clients.get_request key)
    report_found cluster_name spoke found

  unfoldable pub report_vm : String → Cluster → Result Fields → Exec W Outcome
  report_vm cluster_name spoke (err e) = if is_not_found e then pure settled else raise e
  report_vm cluster_name spoke (ok vm) =
      report_owner cluster_name spoke (request_key (m.get_labels vm))

  unfoldable pub reconcile_status : String → Key → W → Outcome × W
  reconcile_status cluster_name key = run (do
    spoke ← wrap ("getting spoke cluster " <> cluster_name) (clients.get_cluster cluster_name)
    vm ← attempt (clients.get_vm spoke key)
    report_vm cluster_name spoke vm)
