-- ===== src/Tests/VmWorld.antt =====
-- A hub and one spoke in memory, and the laws that the theorems of the VM controller ask of them.
use kro_lab.Prelude.{
  ◌≡◌, refl, ap, Bool, true, false, not, ◌&&◌, ◌||◌, Option, some, none, inl, inr, List, [], ◌∷◌,
  ◌==◌, pos, arith, eq_iff, eq_refl, String, contains, if◌then◌else◌, Bool-cases,
}
use kro_lab.Kube.Error.{api, not_found, already_exists, cluster_not_found, Result, ok, err}
use kro_lab.Kube.Value.{str, obj, Fields, fields, strings, get_field}
use kro_lab.Vm.Domain.{label_request, label_request_namespace}
use kro_lab.Vm.Adapter.{Key, Secret, vm_states}
use kro_lab.Vm.Controller.{Clients, Settings}
use kro_lab.Vm.Controller.Spoke.{IsSpoke}
use kro_lab.Vm.Controller.Cleanup.{DeletesForGood}
use kro_lab.Tests.Plain.{plain}

pub record World : Type 0 where
  pub request : Option Fields
  pub vms : List Key
  pub secrets : List Key

abbrev pub key_eq : Key → Key → Bool
key_eq a b = a.namespace == b.namespace && a.name == b.name

unfoldable pub is_key : List Key → Key → Bool
is_key [] k = false
is_key (j ∷ js) k = key_eq j k || is_key js k

unfoldable pub drop_key : Key → List Key → List Key
drop_key k [] = []
drop_key k (j ∷ js) = let rest = drop_key k js in if key_eq k j then rest else j ∷ rest

abbrev object_of : Key → Fields
object_of k = fields (
    (
      "metadata",
      obj (
          fields (
            ("name", str k.name)
            ∷ ("namespace", str k.namespace)
            ∷ (
              "labels",
              obj (strings ((label_request, "web") ∷ (label_request_namespace, "team") ∷ [])),
            )
            ∷ [])),
    )
    ∷ [])

unfoldable pub objects_in : String → List Key → List Fields
objects_in ns [] = []
objects_in ns (k ∷ ks) =
    let rest = objects_in ns ks in if k.namespace == ns then object_of k ∷ rest else rest

abbrev pub init : Secret
init = record {
  name = "init";
  namespace = "team";
  labels = [];
  kind = "Opaque";
  data_of = ("user-data", 1 ∷ 2 ∷ []) ∷ [];
}

abbrev pub Answer : Type 0 → Type 0
Answer A = Result A × World

abbrev pub found_object : Option Fields → Result Fields
found_object none = err (api not_found)
found_object (some o) = ok o

abbrev pub key_of : Fields → Key
key_of o = record { namespace = plain.get_namespace o; name = plain.get_name o }

abbrev pub memory : Clients World
memory = record {
  Cluster = Unit;
  get_request = λ k w. (found_object w.request, w);
  patch = λ o o' w. (ok o', record w { request = some o' });
  patch_status = λ o o' w. (ok o', record w { request = some o' });
  read_hub_secret = λ k w. (ok init, w);
  get_cluster = λ name w. (if name == "eu" then ok tt else err cluster_not_found, w);
  read_secret = λ c k w. (
    if is_key w.secrets k then ok (record init { namespace = "acme" }) else err (api not_found),
    w,
  );
  create_secret = λ c s w.
      (ok tt, record w { secrets = record { namespace = s.namespace; name = s.name } ∷ w.secrets });
  update_secret = λ c s w. (ok tt, w);
  delete_secret = λ c k w. (
    if is_key w.secrets k then ok tt else err (api not_found),
    record w { secrets = drop_key k w.secrets },
  );
  get_vm = λ c k w. (if is_key w.vms k then ok (object_of k) else err (api not_found), w);
  list_vms = λ c ns labels w. (ok (objects_in ns w.vms), w);
  create_vm = λ c o w.
      if is_key w.vms (key_of o)
      then (err (api already_exists), w)
      else (ok tt, record w { vms = key_of o ∷ w.vms });
  delete_vm = λ c k w.
      (if is_key w.vms k then ok tt else err (api not_found), record w { vms = drop_key k w.vms });
}

abbrev pub settings : Settings
settings = record { run_strategy = "Always"; requeue_interval = pos 30 }

abbrev pub present : World → Key → Bool
present w k = is_key w.vms k

abbrev pub leaving : World → Key → Bool
leaving w k = not (is_key w.vms k)

abbrev pub secret_leaving : World → Key → Bool
secret_leaving w k = not (is_key w.secrets k)

pub key_eq_refl : (k : Key) → key_eq k k ≡ true
key_eq_refl k = ground (arith, eq_refl k.namespace, eq_refl k.name)

pub key_eq-true : (k j : Key) → key_eq k j ≡ true → k ≡ j
key_eq-true k j h = ground (arith, eq_iff k.namespace j.namespace, eq_iff k.name j.name)

pub is_key-drop_key :
    (k j : Key) (ks : List Key) → is_key (drop_key k ks) j ≡ (is_key ks j && not (key_eq k j))
unfolding is_key drop_key
is_key-drop_key k j [] = refl
is_key-drop_key k j (i ∷ ks) = ground (
  arith,
  is_key-drop_key k j ks,
  eq_iff k.namespace i.namespace,
  eq_iff k.name i.name,
  eq_iff k.namespace j.namespace,
  eq_iff k.name j.name,
  eq_iff i.namespace j.namespace,
  eq_iff i.name j.name,
)

listed_present :
    (ns name : String) (ks : List Key)
    → contains (vm_states plain (objects_in ns ks)).0 name ≡ true
    → is_key ks (record { namespace = ns; name = name }) ≡ true
unfolding is_key objects_in vm_states contains get_field
listed_present ns name [] h = h
listed_present ns name (k ∷ ks) h =
    ground (arith, listed_present ns name ks, eq_iff k.name name, eq_iff k.namespace ns)

create_present :
    (o : Fields) (w : World) (k : Key)
    → present w k ≡ true
    → present (memory.create_vm tt o w).1 k ≡ true
unfolding is_key
create_present o w k h = ground arith

created :
    (o : Fields) (w : World) (k : Key)
    → plain.get_namespace o ≡ k.namespace
    → plain.get_name o ≡ k.name
    → present (memory.create_vm tt o w).1 k ≡ true
unfolding is_key
created o w k e f =
    let same : key_of o ≡ k = cc in rw (← same) (ground (arith, key_eq_refl (key_of o)))

pub memory-IsSpoke : IsSpoke plain memory tt present leaving
memory-IsSpoke = record {
  list_present = λ ns labels w v vms name e h.
      let same : objects_in ns w.vms ≡ vms = ground arith in
      let still : w ≡ v = ap (λ (p : Answer (List Fields)). p.1) e in
      rw (← still) (listed_present ns name w.vms (rw same h));
  create_present = create_present;
  created = λ o w k e f done. created o w k e f;
  delete_present = λ k j w ne h. elim (Bool-cases (key_eq k j)) [
    | inl eq ↦ absurd (ne (key_eq-true k j eq))
    | inr other ↦ ground (arith, is_key-drop_key k j w.vms)
  ];
  delete_leaving = λ k j w h. ground (arith, is_key-drop_key k j w.vms);
  deleted = λ k w done. ground (arith, is_key-drop_key k k w.vms, key_eq_refl k);
}

pub memory-DeletesForGood : DeletesForGood memory tt leaving secret_leaving
memory-DeletesForGood = record {
  vm_deleted = λ k w done. ground (arith, is_key-drop_key k k w.vms, key_eq_refl k);
  vm_stays = λ k j w h. ground (arith, is_key-drop_key k j w.vms);
  secret_deleted = λ k w done. ground (arith, is_key-drop_key k k w.secrets, key_eq_refl k);
  vm_stays_too = λ k j w h. h;
}
