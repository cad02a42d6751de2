-- ===== src/Vm/Domain.antt =====
-- domain/domain.go of the VM controller: the pure rules of the VM service.
pub mod Names
pub mod Planning
pub mod Readiness
use Prim.Native.Nat.{suc}
use kro_lab.Prelude.{
  ℕ, zero, String, ◌<>◌, Bool, true, false, not, Option, none, some, List, [], ◌∷◌, ◌==◌, ℤ, pos,
  negsuc, ◌^◌, leb, ltb_int, nat_eq, if◌then◌else◌, contains, to_set, missing_from, cut_prefix,
  str_lt, quote,
}
use kro_lab.Prelude.Dict.{Dict, text_at}
use kro_lab.Prelude.Sort.{sort_by}
use kro_lab.Prelude.Decimal.{decimal_int, atoi}

abbrev pub label_tenant : String
label_tenant = "platform.example.com/tenant"

abbrev pub label_vmset : String
label_vmset = "platform.example.com/vmset"

abbrev pub label_request : String
label_request = "platform.example.com/vmset-request"

abbrev pub label_request_namespace : String
label_request_namespace = "platform.example.com/vmset-request-namespace"

pub record Request : Type 0 where
  pub name : String
  pub namespace : String
  pub region : String
  pub tenant : String
  pub vmset : String
  pub replicas : ℤ
  pub cpu : ℤ
  pub memory : String
  pub image : String
  pub cloud_init_secret : String

pub data Phase : Type 0 where
  pending ready unschedulable : Phase

-- `string(phase)`
abbrev pub phase_text : Phase → String
phase_text pending = "Pending"
phase_text ready = "Ready"
phase_text unschedulable = "Unschedulable"

pub record Status : Type 0 where
  pub region : String
  pub phase : Phase
  pub ready_replicas : ℕ
  pub message : String

pub record Plan : Type 0 where
  pub create : List String
  pub delete : List String

unfoldable pub vm_name : String → ℤ → String
vm_name request index = (request <> "-") <> decimal_int index

-- The loop from `i`, with the rounds that are left.
unfoldable pub names_from : String → ℕ → ℕ → List String
names_from request i zero = []
names_from request i (suc rounds) = vm_name request (pos i) ∷ names_from request (suc i) rounds

-- The largest capacity of a []string: 2^48 bytes of address space, 16 bytes for each.
abbrev pub max_capacity : ℕ
max_capacity = 2 ^ 44

-- `none` is the panic of `make` at a capacity that is negative or out of range.
unfoldable pub desired_for : String → ℤ → Option (List String)
desired_for request (pos n) = if leb n max_capacity then some (names_from request 0 n) else none
desired_for request (negsuc n) = none

unfoldable pub desired_vm_names : Request → Option (List String)
unfolding desired_for
desired_vm_names r = desired_for r.name r.replicas

-- The index in a VM's name, if it parses as one.
unfoldable pub vm_index : String → String → Option ℤ
vm_index request name = elim (cut_prefix name (request <> "-")) [
  | none ↦ none
  | some suffix ↦ atoi suffix
]

-- The switch of the comparator.
unfoldable pub index_before : Option ℤ → Option ℤ → String → String → Bool
index_before (some i) (some j) a b = ltb_int j i
index_before (some i) none a b = true
index_before none (some j) a b = false
index_before none none a b = str_lt a b

unfoldable pub deletes_before : String → String → String → Bool
deletes_before request a b = index_before (vm_index request a) (vm_index request b) a b

-- `iterate` is the order in which the run ranges over the map `have`.
unfoldable pub plan_vms : (List String → List String) → Request → List String → Option Plan
plan_vms iterate r existing = elim (desired_vm_names r) [
  | none ↦ none
  | some names ↦
      let have = to_set existing in
      let want = to_set names in
      some (record {
        create = missing_from have names;
        delete = sort_by (deletes_before r.name) (missing_from want (iterate have));
      })
]

-- The tenant label and whether it is set.
unfoldable pub tenant_namespace : Dict String → String × Bool
unfolding text_at
tenant_namespace labels = let tenant = text_at label_tenant labels in (tenant, not (tenant == ""))

unfoldable pub count_ready : List String → List String → ℕ
unfolding contains
count_ready set [] = 0
count_ready set (name ∷ names) =
    let rest = count_ready set names in if contains set name then suc rest else rest

-- `count == r.Replicas`
abbrev pub is_count : ℕ → ℤ → Bool
is_count n (pos m) = nat_eq n m
is_count n (negsuc m) = false

unfoldable pub ready_status : Request → List String → Option Status
ready_status r ready_names = elim (desired_vm_names r) [
  | none ↦ none
  | some names ↦
      let count = count_ready (to_set ready_names) names in
      some (record {
        region = r.region;
        phase = if is_count count r.replicas then ready else pending;
        ready_replicas = count;
        message = "";
      })
]

unfoldable pub unschedulable_status : String → Status
unschedulable_status region = record {
  region = region;
  phase = unschedulable;
  ready_replicas = 0;
  message = "region " <> quote region <> " does not offer VMs";
}

unfoldable pub missing_tenant_status : String → Status
missing_tenant_status region = record {
  region = region;
  phase = unschedulable;
  ready_replicas = 0;
  message = "missing label " <> label_tenant;
}
