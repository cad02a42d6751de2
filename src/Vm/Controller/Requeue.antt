-- ===== src/Vm/Controller/Requeue.antt =====
-- A placed request is always looked at again.
use kro_lab.Prelude.{String, ◌≡◌, refl, ◌≢◌, false, some, none, List, eq-false_of_ne}
use kro_lab.Kube.Error.{Error, Result, ok, err, terminal}
use kro_lab.Kube.Exec.{run, ◌>>=◌}
use kro_lab.Kube.Exec.Requeues.{Requeues, Requeues-bind, Requeues-pure, requeue_rules}
use kro_lab.Kube.Value.{Fields}
use kro_lab.Kube.Machinery.{Machinery}
use kro_lab.Vm.Domain.{Request}
use kro_lab.Vm.Adapter.{Key, request_from_object}
use kro_lab.Vm.Controller.{Clients, Settings, place, reconcile_live, reconcile_object, reconcile}

module _ {W : Type 0} (m : Machinery) (iterate : List String → List String) (clients : Clients W)
    (config : Settings) where
  place-Requeues :
      (o : Fields) (req : Request) (r : Result clients.Cluster)
      → Requeues config.requeue_interval (place m iterate clients config o req r)
  unfolding place
  place-Requeues o req (err e) = search requeue_rules
  place-Requeues o req (ok spoke) =
      Requeues-bind _ _
        (λ _. Requeues-bind _ _ (λ _. Requeues-bind _ _ (λ _. Requeues-pure _ refl)))

  live-Requeues :
      (o : Fields) (req : Request)
      → req.tenant ≢ ""
      → Requeues config.requeue_interval (reconcile_live m iterate clients config o req none)
  unfolding reconcile_live
  live-Requeues o req h =
      rw (eq-false_of_ne req.tenant "" h) (search (requeue_rules, place-Requeues))

  object-Requeues :
      (o : Fields) (req : Request)
      → m.is_deleting o ≡ false
      → request_from_object m o ≡ (req, none)
      → req.tenant ≢ ""
      → Requeues config.requeue_interval (reconcile_object m iterate clients config (ok o))
  unfolding reconcile_object
  object-Requeues o req live read h = rw (live, read) (live-Requeues o req h)

  -- A run that finds a readable request with a tenant, which is not being deleted, and that ends
  -- without an error, always asks to run again after the configured interval: when the region has no
  -- cluster too.
  pub reconcile-requeues :
      (key : Key) (w : W) (o : Fields) (req : Request)
      → (clients.get_request key w).0 ≡ ok o
      → m.is_deleting o ≡ false
      → request_from_object m o ≡ (req, none)
      → req.tenant ≢ ""
      → (reconcile m iterate clients config key w).0.error ≡ none
      → (reconcile m iterate clients config key w).0.requeue_after ≡ some config.requeue_interval
  unfolding reconcile ◌>>=◌ run
  reconcile-requeues key w o req found live read h =
      rw found ((object-Requeues o req live read h).at (clients.get_request key w).1)

  -- A run that finds a request which cannot be read, and is not being deleted, calls nothing else and
  -- ends with the terminal error of the reading.
  pub reconcile-malformed :
      (key : Key) (w : W) (o : Fields) (req : Request) (e : Error)
      → (clients.get_request key w).0 ≡ ok o
      → m.is_deleting o ≡ false
      → request_from_object m o ≡ (req, some e)
      → reconcile m iterate clients config key w ≡ (
        record { requeue_after = none; error = some (terminal e) },
        (clients.get_request key w).1,
      )
  unfolding reconcile reconcile_object reconcile_live ◌>>=◌ run
  reconcile-malformed key w o req e found live read = rw (found, live, read) refl
