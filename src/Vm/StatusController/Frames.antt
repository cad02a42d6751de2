-- ===== src/Vm/StatusController/Frames.antt =====
-- What the VM status reconciler leaves alone.
use kro_lab.Prelude.{String, Option, none, some, List}
use kro_lab.Kube.Error.{Error, Result, ok, err}
use kro_lab.Kube.Exec.Keeps.{Keeps, keeps_rules, Keeps-run}
use kro_lab.Kube.Value.{Fields}
use kro_lab.Kube.Machinery.{Machinery}
use kro_lab.Vm.Domain.{Request}
use kro_lab.Vm.Adapter.{Key}
use kro_lab.Vm.Controller.{Clients, Settings}
use kro_lab.Vm.StatusController.{report, report_found, report_owner, report_vm, reconcile_status}
use kro_lab.Vm.Controller.Frames.{KeptByReads, sync_status-Keeps}

module _ {W : Type 0} {P : W → Type 0} (m : Machinery) (iterate : List String → List String)
    (clients : Clients W) (config : Settings) (reads : KeptByReads P clients)
    (by_patch_status : (o o' : Fields) → Keeps P (clients.patch_status o o')) where
  report-Keeps :
      (name : String) (c : clients.Cluster) (o : Fields) (req : Request) (e : Option Error)
      → Keeps P (report m iterate clients config name c o req e)
  unfolding report
  report-Keeps name c o req none =
      search (keeps_rules, sync_status-Keeps m iterate clients config reads by_patch_status)
  report-Keeps name c o req (some e) = search keeps_rules

  report_found-Keeps :
      (name : String) (c : clients.Cluster) (r : Result Fields)
      → Keeps P (report_found m iterate clients config name c r)
  unfolding report_found
  report_found-Keeps name c (ok o) = report-Keeps name c o _ _
  report_found-Keeps name c (err e) = search keeps_rules

  report_owner-Keeps :
      (name : String) (c : clients.Cluster) (k : Option Key)
      → Keeps P (report_owner m iterate clients config name c k)
  unfolding report_owner
  report_owner-Keeps name c none = search keeps_rules
  report_owner-Keeps name c (some k) =
      search (keeps_rules, report_found-Keeps, reads.by_get_request)

  report_vm-Keeps :
      (name : String) (c : clients.Cluster) (r : Result Fields)
      → Keeps P (report_vm m iterate clients config name c r)
  unfolding report_vm
  report_vm-Keeps name c (ok vm) = report_owner-Keeps name c _
  report_vm-Keeps name c (err e) = search keeps_rules

  -- The status reconciler changes nothing but statuses: what the reads and the patch of a status
  -- keep, it keeps, whatever VM event it handles and whether or not it fails.
  pub reconcile_status-keeps :
      (name : String) (key : Key) (w : W)
      → P w
      → P (reconcile_status m iterate clients config name key w).1
  unfolding reconcile_status
  reconcile_status-keeps name key =
      Keeps-run _ (search (keeps_rules, reads.by_get_cluster, reads.by_get_vm, report_vm-Keeps))
