-- ===== src/Vm/Controller/EarlyRelease.antt =====
-- What still exists on the spoke when the finalizer of a request is released.
use kro_lab.Prelude.{String, ◌≡◌, ◌≢◌, sym, ap, ◌∙◌, Bool, true, none, List, [], ◌∷◌, All}
use kro_lab.Prelude.Dict.{Dict}
use kro_lab.Kube.Error.{Result, ok, is_not_found}
use kro_lab.Kube.Exec.{each}
use kro_lab.Kube.Exec.Inversion.{
  bind-eq_ok, wrap-eq_ok, each-cons_eq_ok, each-nil_eq_ok, tolerate-eq_ok,
}
use kro_lab.Kube.Value.{Fields}
use kro_lab.Kube.Machinery.{Machinery}
use kro_lab.Vm.Domain.{Request}
use kro_lab.Vm.Adapter.{Key}
use kro_lab.Vm.Controller.{
  Clients, Settings, finalizer, list_owned, delete_listed, clean_spoke, clean_placed, release,
  finalize,
}
use kro_lab.Vm.Controller.Cleanup.{clean_placed-found}

abbrev pub key_in : Machinery → Fields → Key
key_in m vm = record { namespace = m.get_namespace vm; name = m.get_name vm }

-- A spoke on which a VM exists until it has shut down: a deletion is accepted, and the VM still
-- exists, since it has a finalizer of its own. `exists_in` tells that a VM exists.
pub record Lingers {W : Type 0} (m : Machinery) (clients : Clients W) (c : clients.Cluster)
    (exists_in : W → Key → Bool) : Type 0 where
  pub listed :
      (ns : String) (labels : Dict String) (w v : W) (vms : List Fields)
      → clients.list_vms c ns labels w ≡ (ok vms, v)
      → All (λ vm. exists_in v (key_in m vm) ≡ true) vms
  pub vm_lingers :
      (k j : Key) (w : W) → exists_in w k ≡ true → exists_in (clients.delete_vm c j w).1 k ≡ true
  pub vm_unaffected :
      (k j : Key) (w : W)
      → exists_in w k ≡ true
      → exists_in (clients.delete_secret c j w).1 k ≡ true

module _ {W : Type 0} (m : Machinery) (iterate : List String → List String) (clients : Clients W)
    (config : Settings) (c : clients.Cluster) (exists_in : W → Key → Bool)
    (law : Lingers m clients c exists_in) where
  -- Everything that exists in `w` exists in `v`.
  Persists : W → W → Type 0
  Persists w v = (k : Key) → exists_in w k ≡ true → exists_in v k ≡ true

  deletions-Persists :
      (vms : List Fields) (w w' : W)
      → each (delete_listed m iterate clients config c) tt vms w ≡ (ok tt, w')
      → Persists w w'
  unfolding Persists delete_listed
  deletions-Persists [] w w' h k e =
      rw (each-nil_eq_ok (delete_listed m iterate clients config c) w w' h) at e
  deletions-Persists (vm ∷ vms) w w' h k e =
      let (v, first, rest) =
        each-cons_eq_ok (delete_listed m iterate clients config c) vm vms w w' h in
      let (_, same) = tolerate-eq_ok is_not_found _ _ w v first in
      deletions-Persists vms v w' rest k (rw same at (law.vm_lingers k (key_in m vm) w e))

  pub Existing : List Fields → W → Type 0
  Existing vms w = All (λ vm. exists_in w (key_in m vm) ≡ true) vms

  Existing-mono : (vms : List Fields) (w v : W) → Persists w v → Existing vms w → Existing vms v
  unfolding Existing Persists
  Existing-mono [] w v grows h = tt
  Existing-mono (vm ∷ vms) w v grows h = (grows _ h.0, Existing-mono vms w v grows h.1)

  clean_spoke-Existing :
      (req : Request) (w w' : W)
      → clean_spoke m iterate clients config c req w ≡ (ok tt, w')
      → (vms : List Fields) × ((list_owned m iterate clients config c req w).0 ≡ ok vms)
        × Existing vms w'
  unfolding clean_spoke list_owned Existing Persists
  clean_spoke-Existing req w w' h =
      let (vms, v, listed, rest) = bind-eq_ok _ _ w w' tt h in
      let (u, v', removed, last) = bind-eq_ok _ _ v w' tt rest in
      let (_, same) = tolerate-eq_ok is_not_found _ _ v' w' last in
      let there = law.listed _ _ w v vms (wrap-eq_ok _ _ w v vms listed) in
      (
        vms,
        ap (λ (p : Result (List Fields) × W). p.0) listed,
        Existing-mono vms v w'
            (λ k e. rw same at (
              law.vm_unaffected k (record { namespace = req.tenant; name = req.cloud_init_secret })
                v' (deletions-Persists vms v v' removed k e)))
            there,
      )

  -- On a spoke where a VM whose deletion was accepted exists until it has shut down, `finalize` does
  -- not wait: when it succeeds for a placed request that has the finalizer, the finalizer was
  -- released from a world `u` on in which every listed VM of the request still existed.
  pub finalize-releases_early :
      (o : Fields) (req : Request) (w v w' : W)
      → m.contains_finalizer o finalizer ≡ true
      → req.tenant ≢ ""
      → clients.get_cluster req.region w ≡ (ok c, v)
      → finalize m iterate clients config o req none w ≡ (ok tt, w')
      → (vms : List Fields) × (u : W) × ((list_owned m iterate clients config c req v).0 ≡ ok vms)
        × Existing vms u
        × (release m iterate clients config o u ≡ (ok tt, w'))
  unfolding finalize
  finalize-releases_early o req w v w' has tenant found h =
      let (x, u, cleaned, released) =
        bind-eq_ok (clean_placed m iterate clients config req none) _ w w' tt (rw has at h) in
      let (vms, listed, still) =
        clean_spoke-Existing req v u
          (sym (clean_placed-found m iterate clients config c req w v tenant found) ∙ cleaned) in
      (vms, u, listed, still, released)
