-- ===== src/Bucket/Controller/Requeue.antt =====
-- A placed bucket request is always looked at again.
use kro_lab.Prelude.{◌≡◌, refl, ◌≢◌, false, Option, some, none, eq-false_of_ne}
use kro_lab.Kube.Error.{ok}
use kro_lab.Kube.Exec.{◌>>=◌}
use kro_lab.Kube.Exec.Requeues.{Requeues, Requeues-bind, Requeues-pure, requeue_rules}
use kro_lab.Kube.Value.{Fields}
use kro_lab.Kube.Machinery.{Machinery}
use kro_lab.Bucket.Domain.{Request}
use kro_lab.Bucket.Adapter.{Key, request_from_object}
use kro_lab.Bucket.Controller.{place, reconcile_live, reconcile_object, reconcile}
use kro_lab.Bucket.Calls.{Clients, Settings, current}

module _ {W : Type 0} (m : Machinery) (clients : Clients W) (config : Settings) where
  place-Requeues :
      (req : Request) (o : Option clients.Cluster)
      → Requeues config.requeue_interval (place m clients config req o)
  unfolding place
  place-Requeues req none = search requeue_rules
  place-Requeues req (some spoke) =
      Requeues-bind _ _ (λ _. Requeues-bind _ _ (λ _. Requeues-pure _ refl))

  live-Requeues :
      (req : Request)
      → req.tenant ≢ ""
      → Requeues config.requeue_interval (reconcile_live m clients config req none)
  unfolding reconcile_live
  live-Requeues req h = rw (eq-false_of_ne req.tenant "" h) (search (requeue_rules, place-Requeues))

  -- A run that finds a readable bucket request with a tenant, which is not being deleted, and that
  -- ends without an error, always asks to run again after the configured interval: when no cluster
  -- serves the region too.
  pub bucket_reconcile-requeues :
      (key : Key) (w : W) (o : Fields) (req : Request)
      → (clients.get_request key w).0 ≡ ok o
      → m.is_deleting o ≡ false
      → request_from_object m o ≡ (req, none)
      → req.tenant ≢ ""
      → (reconcile m clients config key w).0.error ≡ none
      → (reconcile m clients config key w).0.requeue_after ≡ some config.requeue_interval
  unfolding reconcile reconcile_object current ◌>>=◌
  bucket_reconcile-requeues key w o req found live read h =
      rw (found, live, read)
        ((live-Requeues req h).at (record { world = (clients.get_request key w).1; object = o }))
