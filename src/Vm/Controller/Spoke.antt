-- ===== src/Vm/Controller/Spoke.antt =====
-- A spoke cluster, by what its calls do to the VMs on it.
use kro_lab.Prelude.{String, ◌≡◌, ◌≢◌, Bool, true, List, contains}
use kro_lab.Prelude.Dict.{Dict}
use kro_lab.Kube.Error.{ok, is_not_found, is_already_exists}
use kro_lab.Kube.Exec.Inversion.{Tolerated}
use kro_lab.Kube.Value.{Fields}
use kro_lab.Kube.Machinery.{Machinery}
use kro_lab.Vm.Adapter.{Key, vm_states}
use kro_lab.Vm.Controller.{Clients}

-- A spoke as nobody else changes it during the run. `present` tells that a VM exists, also while
-- it is being deleted, and `leaving` that it is being deleted or does not exist.
pub record IsSpoke {W : Type 0} (m : Machinery) (clients : Clients W) (c : clients.Cluster)
    (present leaving : W → Key → Bool) : Type 0 where
  pub list_present :
      (ns : String) (labels : Dict String) (w v : W) (vms : List Fields) (name : String)
      → clients.list_vms c ns labels w ≡ (ok vms, v)
      → contains (vm_states m vms).0 name ≡ true
      → present v (record { namespace = ns; name = name }) ≡ true
  pub create_present :
      (o : Fields) (w : W) (k : Key)
      → present w k ≡ true
      → present (clients.create_vm c o w).1 k ≡ true
  pub created :
      (o : Fields) (w : W) (k : Key)
      → m.get_namespace o ≡ k.namespace
      → m.get_name o ≡ k.name
      → Tolerated is_already_exists (clients.create_vm c o w).0
      → present (clients.create_vm c o w).1 k ≡ true
  pub delete_present :
      (k j : Key) (w : W)
      → k ≢ j
      → present w j ≡ true
      → present (clients.delete_vm c k w).1 j ≡ true
  pub delete_leaving :
      (k j : Key) (w : W) → leaving w j ≡ true → leaving (clients.delete_vm c k w).1 j ≡ true
  pub deleted :
      (k : Key) (w : W)
      → Tolerated is_not_found (clients.delete_vm c k w).0
      → leaving (clients.delete_vm c k w).1 k ≡ true
