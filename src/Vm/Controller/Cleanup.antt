-- ===== src/Vm/Controller/Cleanup.antt =====
-- What is gone from the spoke, or being deleted there, when the finalizer of a request is released.
use kro_lab.Prelude.{
  String, ◌≡◌, refl, ◌≢◌, sym, ap, ◌∙◌, Bool, true, none, List, [], ◌∷◌, All, eq-false_of_ne,
}
use kro_lab.Kube.Error.{Error, Result, ok, err, is_not_found}
use kro_lab.Kube.Exec.{each, ◌>>=◌}
use kro_lab.Kube.Exec.Inversion.{
  bind-eq_ok, each-cons_eq_ok, each-nil_eq_ok, tolerate-eq_ok, Tolerated,
}
use kro_lab.Kube.Value.{Fields}
use kro_lab.Kube.Machinery.{Machinery}
use kro_lab.Vm.Domain.{Request}
use kro_lab.Vm.Adapter.{Key}
use kro_lab.Vm.Controller.{
  Clients, Settings, finalizer, list_owned, delete_listed, clean_spoke, clean_placed, clean_found,
  release, finalize,
}

module _ {W : Type 0} (m : Machinery) (iterate : List String → List String) (clients : Clients W)
    (config : Settings) (c : clients.Cluster) where
  pub clean_placed-found :
      (req : Request) (w v : W)
      → req.tenant ≢ ""
      → clients.get_cluster req.region w ≡ (ok c, v)
      → clean_placed m iterate clients config req none w
        ≡ clean_spoke m iterate clients config c req v
  unfolding clean_placed clean_found ◌>>=◌
  clean_placed-found req w v tenant found = rw (eq-false_of_ne req.tenant "" tenant, found) refl

  -- If the cleaning fails, `finalize` fails with that error and the finalizer is not touched: the
  -- world is the one in which the cleaning failed.
  pub finalize-failed :
      (o : Fields) (req : Request) (w v w' : W) (e : Error)
      → m.contains_finalizer o finalizer ≡ true
      → req.tenant ≢ ""
      → clients.get_cluster req.region w ≡ (ok c, v)
      → clean_spoke m iterate clients config c req v ≡ (err e, w')
      → finalize m iterate clients config o req none w ≡ (err e, w')
  unfolding finalize ◌>>=◌
  finalize-failed o req w v w' e has tenant found h =
      rw (has, clean_placed-found req w v tenant found, h) refl

-- Deletions on a spoke that nobody else changes during the run: `leaving` tells that a VM, and
-- `secret_leaving` that a Secret, is being deleted or does not exist.
pub record DeletesForGood {W : Type 0} (clients : Clients W) (c : clients.Cluster)
    (leaving secret_leaving : W → Key → Bool) : Type 0 where
  pub vm_deleted :
      (k : Key) (w : W)
      → Tolerated is_not_found (clients.delete_vm c k w).0
      → leaving (clients.delete_vm c k w).1 k ≡ true
  pub vm_stays :
      (k j : Key) (w : W) → leaving w j ≡ true → leaving (clients.delete_vm c k w).1 j ≡ true
  pub secret_deleted :
      (k : Key) (w : W)
      → Tolerated is_not_found (clients.delete_secret c k w).0
      → secret_leaving (clients.delete_secret c k w).1 k ≡ true
  pub vm_stays_too :
      (k j : Key) (w : W) → leaving w j ≡ true → leaving (clients.delete_secret c k w).1 j ≡ true

module _ {W : Type 0} (m : Machinery) (iterate : List String → List String) (clients : Clients W)
    (config : Settings) (c : clients.Cluster) (leaving secret_leaving : W → Key → Bool)
    (law : DeletesForGood clients c leaving secret_leaving) where
  abbrev pub key_of : Fields → Key
  key_of vm = record { namespace = m.get_namespace vm; name = m.get_name vm }

  delete_listed-ok :
      (vm : Fields) (w v : W)
      → delete_listed m iterate clients config c vm w ≡ (ok tt, v)
      → (leaving v (key_of vm) ≡ true) × ((k : Key) → leaving w k ≡ true → leaving v k ≡ true)
  unfolding delete_listed
  delete_listed-ok vm w v h =
      let (done, same) = tolerate-eq_ok is_not_found _ _ w v h in
      (
        rw same at (law.vm_deleted (key_of vm) w done),
        λ k p. rw same at (law.vm_stays (key_of vm) k w p),
      )

  deletions :
      (vms : List Fields) (w w' : W)
      → each (delete_listed m iterate clients config c) tt vms w ≡ (ok tt, w')
      → All (λ vm. leaving w' (key_of vm) ≡ true) vms
        × ((k : Key) → leaving w k ≡ true → leaving w' k ≡ true)
  deletions [] w w' h =
      let same = each-nil_eq_ok (delete_listed m iterate clients config c) w w' h in
      (tt, λ k p. rw same at p)
  deletions (vm ∷ vms) w w' h =
      let (v, first, rest) =
        each-cons_eq_ok (delete_listed m iterate clients config c) vm vms w w' h in
      let (gone, stays) = deletions vms v w' rest in
      let (here, grows) = delete_listed-ok vm w v first in
      ((stays (key_of vm) here, gone), λ k p. stays k (grows k p))

  All-map :
      {P Q : Fields → Type 0} (vms : List Fields)
      → ((vm : Fields) → P vm → Q vm)
      → All P vms
      → All Q vms
  All-map [] f h = tt
  All-map (vm ∷ vms) f h = (f vm h.0, All-map vms f h.1)

  abbrev pub secret_key : Request → Key
  secret_key req = record { namespace = req.tenant; name = req.cloud_init_secret }

  -- Everything that a listing of the request's VMs returned is gone or being deleted, and so is its
  -- Secret.
  abbrev pub Cleaned : Request → List Fields → W → Type 0
  Cleaned req vms w =
      All (λ vm. leaving w (key_of vm) ≡ true) vms × (secret_leaving w (secret_key req) ≡ true)

  clean_spoke-cleans :
      (req : Request) (w w' : W)
      → clean_spoke m iterate clients config c req w ≡ (ok tt, w')
      → (vms : List Fields) × ((list_owned m iterate clients config c req w).0 ≡ ok vms)
        × Cleaned req vms w'
  unfolding clean_spoke
  clean_spoke-cleans req w w' h =
      let (vms, v, listed, rest) = bind-eq_ok _ _ w w' tt h in
      let (u, v', removed, last) = bind-eq_ok _ _ v w' tt rest in
      let (gone, _) = deletions vms v v' removed in
      let (done, same) = tolerate-eq_ok is_not_found _ _ v' w' last in
      (
        vms,
        ap (λ (p : Result (List Fields) × W). p.0) listed,
        (
          All-map vms (λ vm p. rw same at (law.vm_stays_too (secret_key req) (key_of vm) v' p))
              gone,
          rw same at (law.secret_deleted (secret_key req) v' done),
        ),
      )

  -- When `finalize` succeeds for a placed request that has the finalizer, on a spoke that was found,
  -- there was a world `u` in which every listed VM of the request and its Secret were gone or being
  -- deleted, and the finalizer was released from `u` on, not before. It is not said that they are
  -- gone: the code asks for their deletion and does not wait for it.
  pub finalize-cleans :
      (o : Fields) (req : Request) (w v w' : W)
      → m.contains_finalizer o finalizer ≡ true
      → req.tenant ≢ ""
      → clients.get_cluster req.region w ≡ (ok c, v)
      → finalize m iterate clients config o req none w ≡ (ok tt, w')
      → (vms : List Fields) × (u : W) × ((list_owned m iterate clients config c req v).0 ≡ ok vms)
        × Cleaned req vms u
        × (release m iterate clients config o u ≡ (ok tt, w'))
  unfolding finalize
  finalize-cleans o req w v w' has tenant found h =
      let (x, u, cleaned, released) =
        bind-eq_ok (clean_placed m iterate clients config req none) _ w w' tt (rw has at h) in
      let (vms, listed, gone) =
        clean_spoke-cleans req v u
          (sym (clean_placed-found m iterate clients config c req w v tenant found) ∙ cleaned) in
      (vms, u, listed, gone, released)
