-- ===== src/Tests/VmRules.antt =====
-- The rules of the VM service on a request for three VMs.
use mathlib.Core.List.Perm
use kro_lab.Prelude.{
  ℕ, ◌≤◌, ◌^◌, String, ◌≡◌, refl, true, false, not, ◌&&◌, some, none, List, [], ◌∷◌, ◌↔◌, ◌≢◌, ℤ,
  pos, negsuc, arith, contains, IsRange, length,
}
use kro_lab.Vm.Domain.{
  Request, Plan, Status, ready, pending, desired_vm_names, plan_vms, ready_status, names_from,
  vm_name, vm_index,
}
use kro_lab.Vm.Domain.Names.{vm_index-vm_name}
use kro_lab.Vm.Domain.Planning.{
  plan_vms_exact, delete-InDeletionOrder, InDeletionOrder, apply_plan, apply_plan-converges,
}
use kro_lab.Vm.Domain.Readiness.{ready_status_exact, AllIn}

abbrev pub web : Request
web = record {
  name = "web";
  namespace = "team";
  region = "eu";
  tenant = "acme";
  vmset = "front";
  replicas = pos 3;
  cpu = pos 2;
  memory = "4Gi";
  image = "debian";
  cloud_init_secret = "init";
}

abbrev pub unordered : List String → List String
unordered xs = xs

abbrev existing : List String
existing = "web-11" ∷ "web-1" ∷ "web-9" ∷ "web-old" ∷ []

abbrev planned : Plan
planned = record { create = "web-0" ∷ "web-2" ∷ []; delete = "web-11" ∷ "web-9" ∷ "web-old" ∷ [] }

abbrev pub wanted : List String
wanted = "web-0" ∷ "web-1" ∷ "web-2" ∷ []

pub wanted_names : desired_vm_names web ≡ some wanted
unfolding desired_vm_names names_from vm_name kro_lab.Prelude.Decimal.decimal_int
wanted_names = refl

plan_of_web : plan_vms unordered web existing ≡ some planned
unfolding plan_vms desired_vm_names kro_lab.Prelude.missing_from kro_lab.Prelude.Sort.sort_by
    names_from kro_lab.Prelude.to_set vm_name kro_lab.Prelude.Decimal.decimal_int
    kro_lab.Vm.Domain.deletes_before kro_lab.Vm.Domain.index_before vm_index
    kro_lab.Prelude.cut_prefix kro_lab.Prelude.Decimal.atoi
plan_of_web = refl

pub unordered-IsRange : IsRange unordered
unordered-IsRange = record { perm = λ xs. Perm.refl xs }

vm_index-vm_name_test : vm_index "web" (vm_name "web" (pos 12)) ≡ some (pos 12)
vm_index-vm_name_test = vm_index-vm_name "web" 12 (ground arith)

plan_vms_exact_test :
    (contains planned.create "web-2" ≡ (contains wanted "web-2" && not (contains existing "web-2")))
    × (contains planned.delete "web-2"
        ≡ (contains existing "web-2" && not (contains wanted "web-2")))
plan_vms_exact_test =
    plan_vms_exact unordered unordered-IsRange web existing wanted planned wanted_names plan_of_web
      "web-2"

delete-InDeletionOrder_example : InDeletionOrder "web" ("web-11" ∷ "web-9" ∷ "web-old" ∷ [])
delete-InDeletionOrder_example = delete-InDeletionOrder unordered web existing planned plan_of_web

apply_plan-converges_example :
    contains (apply_plan planned existing) "web-9" ≡ contains wanted "web-9"
apply_plan-converges_example =
    apply_plan-converges unordered unordered-IsRange web existing wanted planned wanted_names
      plan_of_web "web-9"

-- `make` panics at a negative capacity and at one that is out of range.
negative_replicas : desired_vm_names (record web { replicas = negsuc 0 }) ≡ none
unfolding desired_vm_names
negative_replicas = refl

too_many_replicas : desired_vm_names (record web { replicas = pos (2 ^ 62) }) ≡ none
unfolding desired_vm_names
too_many_replicas = refl

ready_status_exact_example :
    (s : Status) × (ready_status web wanted ≡ some s)
    × ((s.phase ≡ ready) ↔ AllIn wanted (names_from "web" 0 3))
    × ((s.phase ≡ ready) ↔ (s.ready_replicas ≡ 3))
    × (s.ready_replicas ≤ 3)
ready_status_exact_example = ready_status_exact web 3 wanted refl (omega arith)

partly_ready :
    ready_status web ("web-2" ∷ "web-0" ∷ "web-9" ∷ [])
    ≡ some (record { region = "eu"; phase = pending; ready_replicas = 2; message = "" })
unfolding ready_status desired_vm_names kro_lab.Vm.Domain.count_ready names_from
    kro_lab.Prelude.to_set vm_name kro_lab.Prelude.Decimal.decimal_int
partly_ready = refl

wholly_ready :
    ready_status web wanted
    ≡ some (record { region = "eu"; phase = ready; ready_replicas = 3; message = "" })
unfolding ready_status desired_vm_names kro_lab.Vm.Domain.count_ready names_from
    kro_lab.Prelude.to_set vm_name kro_lab.Prelude.Decimal.decimal_int
wholly_ready = refl
