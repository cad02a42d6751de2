-- ===== src/Vm/Adapter.antt =====
-- adapter/adapter.go of the VM controller: between untyped objects and the domain.
pub mod Parsing
pub mod Ownership
pub mod StatusText
use kro_lab.Prelude.{
  ℕ, String, ◌<>◌, Bool, true, false, not, ◌||◌, Option, none, some, List, [], ◌∷◌, ◌==◌, ℤ, pos,
  if◌then◌else◌,
}
use kro_lab.Prelude.Dict.{Dict, text_at, insert}
use kro_lab.Kube.Error.{Error, message, Result, ok, err}
use kro_lab.Kube.Value.{
  Value, null, bool, int, float, str, obj, arr, Fields, end, Items, fields, items, strings,
  get_field, set_field,
}
use kro_lab.Kube.Json.{Token, marshal, json_eq}
use kro_lab.Kube.Machinery.{Machinery, int_of_float, Nested, found, absent, mistyped}
use kro_lab.Vm.Domain.{
  Request, Status, label_tenant, label_vmset, label_request, label_request_namespace, phase_text,
  tenant_namespace,
}

-- types.NamespacedName
pub record Key : Type 0 where
  pub namespace : String
  pub name : String

-- corev1.Secret, as far as it is copied.
pub record Secret : Type 0 where
  pub name : String
  pub namespace : String
  pub labels : Dict String
  pub kind : String
  pub data_of : Dict (List ℕ)

field_error : String → String → String → Error
field_error name field problem =
    message ("regional vm set request " <> name <> ": spec." <> field <> " " <> problem)

-- The cases of the type switch in `num`.
number_of : Machinery → Error → Nested Value → Error → Result ℤ
number_of m required (found (int n)) mismatch = ok n
number_of m required (found (float n k)) mismatch = ok (int_of_float m n k)
number_of m required (found _) mismatch = err mismatch
number_of m required absent mismatch = err required
number_of m required mistyped mismatch = err required

text_of : Error → Nested String → Result String
text_of required (found v) = if v == "" then err required else ok v
text_of required absent = err required
text_of required mistyped = err required

-- `if r.F, err = get(field); err != nil { return r, err }`; a failed `get` leaves F at its zero.
unfoldable pub fill {ℓ} :
    {A : Type ℓ}
    → Result A
    → Request
    → (A → Request)
    → (Request → Request × Option Error)
    → Request × Option Error
fill (ok v) r set rest = rest (set v)
fill (err e) r set rest = (r, some e)

-- The assignments to the fields of `r`, in their order; the first error ends them.
unfoldable pub read_fields :
    Request
    → Result String
    → Result String
    → Result String
    → Result String
    → Result ℤ
    → Result ℤ
    → Request × Option Error
unfolding fill
read_fields r region memory image secret replicas cpu =
    fill region r (λ v. record r { region = v })
      λ r1.
        fill memory r1 (λ v. record r1 { memory = v })
          λ r2.
            fill image r2 (λ v. record r2 { image = v })
              λ r3.
                fill secret r3 (λ v. record r3 { cloud_init_secret = v })
                  λ r4.
                    fill replicas r4 (λ v. record r4 { replicas = v })
                      λ r5. fill cpu r5 (λ v. record r5 { cpu = v }) λ r6. (r6, none)

module _ (m : Machinery) (u : Fields) where
  unfoldable pub str_field : String → Result String
  unfolding text_of field_error
  str_field field =
      text_of (field_error (m.get_name u) field "is required")
        (m.nested_string u ("spec" ∷ field ∷ []))

  unfoldable pub num_field : String → Result ℤ
  unfolding number_of field_error
  num_field field =
      number_of m (field_error (m.get_name u) field "is required")
        (m.nested_field u ("spec" ∷ field ∷ []))
        (field_error (m.get_name u) field "must be an integer")

  unfoldable pub blank_request : Request
  blank_request = record {
    name = m.get_name u;
    namespace = m.get_namespace u;
    region = "";
    tenant = (tenant_namespace (m.get_labels u)).0;
    vmset = text_at label_vmset (m.get_labels u);
    replicas = pos 0;
    cpu = pos 0;
    memory = "";
    image = "";
    cloud_init_secret = "";
  }

  -- The request as far as it was read, and the error.
  unfoldable pub request_from_object : Request × Option Error
  unfolding blank_request
  request_from_object =
      read_fields blank_request (str_field "region") (str_field "memory") (str_field "image")
        (str_field "cloudInitSecretName") (num_field "replicas") (num_field "cpu")

unfoldable pub owner_labels : Request → Dict String
owner_labels r = (label_request, r.name) ∷ (label_request_namespace, r.namespace) ∷ []

unfoldable pub object_labels : Request → Dict String
unfolding owner_labels
object_labels r = insert label_vmset r.vmset (insert label_tenant r.tenant (owner_labels r))

unfoldable pub request_key : Dict String → Option Key
request_key labels =
    let name = text_at label_request labels in
    let ns = text_at label_request_namespace labels in
    if name == "" || ns == "" then none else some (record { namespace = ns; name = name })

unfoldable pub status_entry : Status → Fields
status_entry s =
    let entry = fields (
      ("region", str s.region)
      ∷ ("phase", str (phase_text s.phase))
      ∷ ("readyReplicas", int (pos s.ready_replicas))
      ∷ []) in
    if s.message == "" then entry else set_field "message" (str s.message) entry

unfoldable pub status_object : Status → Items
unfolding status_entry
status_object s = items (obj (status_entry s) ∷ [])

abbrev pub status_path : List String
status_path = "status" ∷ "regions" ∷ []

-- The value of a `NestedBool` whose found and error are ignored.
abbrev bool_or_false : Nested Bool → Bool
bool_or_false (found b) = b
bool_or_false absent = false
bool_or_false mistyped = false

-- The value of a `NestedFieldNoCopy`; nil where nothing is found.
abbrev pub value_or_null : Nested Value → Value
value_or_null (found v) = v
value_or_null absent = null
value_or_null mistyped = null

unfoldable pub is_map : Option Value → Bool
is_map (some (obj fs)) = true
is_map _ = false

module _ (m : Machinery) where
  unfoldable pub is_ready : Fields → Bool
  is_ready vm = bool_or_false (m.nested_bool vm ("status" ∷ "ready" ∷ []))

  -- All names, and those of the ready VMs.
  unfoldable pub vm_states : List Fields → List String × List String
  unfolding is_ready
  vm_states [] = ([], [])
  vm_states (vm ∷ vms) =
      let (all, ready) = vm_states vms in
      (m.get_name vm ∷ all, if is_ready vm then m.get_name vm ∷ ready else ready)

  unfoldable pub status_changed : Fields → Status → Bool
  status_changed o s = not (
      json_eq (marshal (value_or_null (m.nested_field o status_path)))
        (marshal (arr (status_object s))))

  unfoldable pub set_status : Fields → Status → Result Fields
  unfolding is_map
  set_status o s =
      let o' = if is_map (get_field "status" o) then o else set_field "status" (obj end) o in
      m.set_nested_slice o' (status_object s) status_path
