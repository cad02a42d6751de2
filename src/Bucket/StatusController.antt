-- ===== src/Bucket/StatusController.antt =====
-- controller/status_reconciler.go of the bucket controller: an event of a claim on a spoke.
pub mod Frames
use kro_lab.Prelude.{String, ◌<>◌, Option, none, some, ◌==◌, if◌then◌else◌}
use kro_lab.Kube.Error.{Error, Result, ok, err, is_not_found}
use kro_lab.Kube.Exec.{Exec, pure, raise, attempt, wrap, tolerate, run, Outcome, ◌>>=◌, ◌>>◌}
use kro_lab.Kube.Value.{Fields}
use kro_lab.Kube.Machinery.{Machinery}
use kro_lab.Bucket.Domain.{Request}
use kro_lab.Bucket.Adapter.{Key, request_from_object, request_key}
use kro_lab.Bucket.Controller.{cluster_name_for, sync_status}
use kro_lab.Bucket.Calls.{Clients, Settings, Local, settled, call}

module _ {W : Type 0} (m : Machinery) (clients : Clients W) (config : Settings) where
  open clients use {Cluster}

  -- The claim counts only on the cluster that serves the request's region.
  unfoldable pub report_from : String → Cluster → Request → Option String → Exec (Local W) Outcome
  report_from cluster_name spoke req none = pure settled
  report_from cluster_name spoke req (some name) =
      if name == cluster_name
      then (do
        tolerate is_not_found (λ e. e) (sync_status m clients config spoke req)
        pure settled)
      else pure settled

  unfoldable pub report : String → Cluster → Request → Option Error → Exec (Local W) Outcome
  report cluster_name spoke req (some e) = pure settled
  report cluster_name spoke req none = do
    name ← cluster_name_for m clients config req.region
    report_from cluster_name spoke req name

  abbrev world_of : {A : Type 0} → Result A × Local W → Result A × W
  world_of (r, s) = (r, s.world)

  -- The rest of the run, with the request's object in `obj`.
  unfoldable pub with_object : {A : Type 0} → Exec (Local W) A → Fields → Exec W A
  with_object body o w = world_of (body (record { world = w; object = o }))

  unfoldable pub report_found : String → Cluster → Result Fields → Exec W Outcome
  report_found cluster_name spoke (err e) = if is_not_found e then pure settled else raise e
  report_found cluster_name spoke (ok o) =
      let (req, parse_error) = request_from_object m o in
      with_object (report cluster_name spoke req parse_error) o

  unfoldable pub report_owner : String → Cluster → Option Key → Exec W Outcome
  report_owner cluster_name spoke none = pure settled
  report_owner cluster_name spoke (some key) = do
    found ← attempt (clients.get_request key)
    report_found cluster_name spoke found

  unfoldable pub report_claim : String → Cluster → Result Fields → Exec W Outcome
  report_claim cluster_name spoke (err e) = if is_not_found e then pure settled else raise e
  report_claim cluster_name spoke (ok claim) =
      report_owner cluster_name spoke (request_key (m.get_labels claim))

  unfoldable pub reconcile_status : String → Key → W → Outcome × W
  reconcile_status cluster_name key = run (do
    spoke ← wrap ("getting spoke cluster " <> cluster_name) (clients.get_cluster cluster_name)
    claim ← attempt (clients.get_claim spoke key)
    report_claim cluster_name spoke claim)
