-- ===== src/Tests/VmRelease.antt =====
-- A spoke whose VMs take their time to shut down.
use kro_lab.Prelude.{
  ◌≡◌, ◌≢◌, refl, ap, Bool, true, some, none, List, [], ◌∷◌, ◌==◌, arith, eq_iff, All, String, inl,
  inr, Bool-cases,
}
use kro_lab.Kube.Error.{ok}
use kro_lab.Kube.Value.{Fields, get_field}
use kro_lab.Vm.Adapter.{Key}
use kro_lab.Vm.Controller.{Clients, finalizer, list_owned, finalize, release}
use kro_lab.Vm.Controller.EarlyRelease.{key_in, Lingers, Existing, finalize-releases_early}
use kro_lab.Tests.Plain.{plain}
use kro_lab.Tests.VmRules.{web, unordered}
use kro_lab.Tests.VmWorld.{
  World, Answer, memory, settings, present, is_key, key_eq_refl, objects_in,
}
use kro_lab.Tests.VmRuns.{deleting_object, deleting}

abbrev slow : Clients World
slow = record memory { delete_vm = λ c k w. (ok tt, w) }

-- What exists stays when a VM is added.
exists_behind :
    (k : Key) (ks : List Key) (vms : List Fields)
    → All (λ vm. is_key ks (key_in plain vm) ≡ true) vms
    → All (λ vm. is_key (k ∷ ks) (key_in plain vm) ≡ true) vms
unfolding is_key
exists_behind k ks [] h = tt
exists_behind k ks (vm ∷ vms) h = (ground arith, exists_behind k ks vms h.1)

keys_listed :
    (ns : String) (ks : List Key)
    → All (λ vm. is_key ks (key_in plain vm) ≡ true) (objects_in ns ks)
unfolding objects_in is_key get_field
keys_listed ns [] = tt
keys_listed ns (k ∷ ks) = elim (Bool-cases (k.namespace == ns)) [
  | inl same ↦
      rw same
        (ground (arith, key_eq_refl k), exists_behind k ks (objects_in ns ks) (keys_listed ns ks))
  | inr other ↦ rw other (exists_behind k ks (objects_in ns ks) (keys_listed ns ks))
]

slow-Lingers : Lingers plain slow tt present
slow-Lingers = record {
  listed = λ ns labels w v vms e.
      let same : objects_in ns w.vms ≡ vms = ground arith in
      let still : w ≡ v = ap (λ (p : Answer (List Fields)). p.1) e in
      rw (← still, ← same) (keys_listed ns w.vms);
  vm_lingers = λ k j w h. h;
  vm_unaffected = λ k j w h. h;
}

abbrev released : World
released = record deleting {
  request = some (plain.remove_finalizer deleting_object finalizer);
  secrets = [];
}

-- The finalizer is gone, and both VMs are there.
released_early :
    finalize plain unordered slow settings deleting_object web none deleting ≡ (ok tt, released)
unfolding finalize kro_lab.Prelude.contains get_field kro_lab.Kube.Exec.◌>>=◌
    kro_lab.Vm.Controller.clean_placed kro_lab.Vm.Controller.clean_found
    kro_lab.Vm.Controller.clean_spoke list_owned kro_lab.Kube.Exec.each objects_in
    kro_lab.Vm.Controller.delete_listed kro_lab.Kube.Exec.tolerate is_key release
    kro_lab.Tests.VmWorld.drop_key
released_early = refl

finalize-releases_early_example :
    (vms : List Fields) × (u : World) × ((list_owned plain unordered slow settings tt web
        deleting).0
      ≡ ok vms)
    × Existing plain unordered slow settings tt present slow-Lingers vms u
    × (release plain unordered slow settings deleting_object u ≡ (ok tt, released))
unfolding get_field kro_lab.Prelude.contains
finalize-releases_early_example =
    finalize-releases_early plain unordered slow settings tt present slow-Lingers deleting_object
      web deleting deleting released refl (ground (arith, eq_iff "acme" "")) refl released_early
