-- ===== src/Bucket/StatusController/Frames.antt =====
-- What the bucket status reconciler leaves alone.
use kro_lab.Prelude.{String, Option, none, some}
use kro_lab.Kube.Error.{Error, Result, ok, err}
use kro_lab.Kube.Exec.{Exec}
use kro_lab.Kube.Exec.Keeps.{Keeps, keeps_rules, Keeps-run}
use kro_lab.Kube.Value.{Fields}
use kro_lab.Kube.Machinery.{Machinery}
use kro_lab.Bucket.Domain.{Request}
use kro_lab.Bucket.Adapter.{Key}
use kro_lab.Bucket.Calls.{Clients, Settings, Local}
use kro_lab.Bucket.Controller.Keeps.{
  KeptByReads, InWorld, local_rules, cluster_name_for-Keeps, sync_status-Keeps,
}
use kro_lab.Bucket.StatusController.{
  report_from, report, with_object, report_found, report_owner, report_claim, reconcile_status,
}

module _ {W : Type 0} {P : W → Type 0} (m : Machinery) (clients : Clients W) (config : Settings)
    (reads : KeptByReads P clients)
    (by_patch_status : (o o' : Fields) → Keeps P (clients.patch_status o o')) where
  report_from-Keeps :
      (name : String) (c : clients.Cluster) (req : Request) (o : Option String)
      → Keeps (InWorld P) (report_from m clients config name c req o)
  unfolding report_from
  report_from-Keeps name c req none = search local_rules
  report_from-Keeps name c req (some own) =
      search (local_rules, sync_status-Keeps m clients config reads by_patch_status)

  report-Keeps :
      (name : String) (c : clients.Cluster) (req : Request) (e : Option Error)
      → Keeps (InWorld P) (report m clients config name c req e)
  unfolding report
  report-Keeps name c req (some e) = search local_rules
  report-Keeps name c req none =
      search (local_rules, cluster_name_for-Keeps m clients config reads, report_from-Keeps)

  with_object-Keeps :
      {A : Type 0} (body : Exec (Local W) A) (o : Fields)
      → Keeps (InWorld P) body
      → Keeps P (with_object m clients config body o)
  unfolding with_object
  with_object-Keeps body o k = record { at = λ w h. k.at (record { world = w; object = o }) h }

  report_found-Keeps :
      (name : String) (c : clients.Cluster) (r : Result Fields)
      → Keeps P (report_found m clients config name c r)
  unfolding report_found
  report_found-Keeps name c (ok o) = with_object-Keeps _ o (report-Keeps name c _ _)
  report_found-Keeps name c (err e) = search keeps_rules

  report_owner-Keeps :
      (name : String) (c : clients.Cluster) (k : Option Key)
      → Keeps P (report_owner m clients config name c k)
  unfolding report_owner
  report_owner-Keeps name c none = search keeps_rules
  report_owner-Keeps name c (some k) =
      search (keeps_rules, report_found-Keeps, reads.by_get_request)

  report_claim-Keeps :
      (name : String) (c : clients.Cluster) (r : Result Fields)
      → Keeps P (report_claim m clients config name c r)
  unfolding report_claim
  report_claim-Keeps name c (ok o) = report_owner-Keeps name c _
  report_claim-Keeps name c (err e) = search keeps_rules

  -- The status reconciler of the bucket controller changes nothing but statuses: what the reads and
  -- the patch of a status keep, it keeps, whatever event it handles and whether or not it fails.
  pub bucket_status-keeps :
      (name : String) (key : Key) (w : W) → P w → P (reconcile_status m clients config name key w).1
  unfolding reconcile_status
  bucket_status-keeps name key =
      Keeps-run _
        (search (keeps_rules, reads.by_get_cluster, reads.by_get_claim, report_claim-Keeps))
