-- ===== src/Bucket/Adapter.antt =====
-- adapter/adapter.go of the bucket controller: between untyped objects and the domain.
pub mod Parsing
pub mod Ownership
pub mod StatusText
pub mod ClaimStatus
use kro_lab.Prelude.{
  String, ◌<>◌, Bool, true, false, not, ◌||◌, Option, none, some, List, [], ◌∷◌, ◌==◌, ℤ, pos,
  if◌then◌else◌,
}
use kro_lab.Prelude.Dict.{Dict, text_at, insert}
use kro_lab.Prelude.Decimal.{decimal_int}
use kro_lab.Kube.Error.{Error, message, wrapped, Result, ok, err}
use kro_lab.Kube.Value.{
  Value, null, int, float, str, obj, arr, Fields, end, Items, fields, items, strings, get_field,
  set_field,
}
use kro_lab.Kube.Json.{marshal, json_eq}
use kro_lab.Kube.Machinery.{Machinery, int_of_float, Nested, found, absent, mistyped}
use kro_lab.Bucket.Domain.{
  Request, Profile, Claim, Status, label_tenant, label_bucket, label_request,
  label_request_namespace, phase_text, tenant_namespace, bucket_name, check_bucket_name,
}

pub record Key : Type 0 where
  pub namespace : String
  pub name : String

abbrev pub config_host_key : String
config_host_key = "BUCKET_HOST"

abbrev pub config_port_key : String
config_port_key = "BUCKET_PORT"

abbrev pub field_error : String → String → String → Error
field_error name field problem =
    message ("regional bucket request " <> name <> ": spec." <> field <> " " <> problem)

abbrev pub number_of : Machinery → Error → Nested Value → Error → Result ℤ
number_of m required (found (int n)) mismatch = ok n
number_of m required (found (float n k)) mismatch = ok (int_of_float m n k)
number_of m required (found _) mismatch = err mismatch
number_of m required absent mismatch = err required
number_of m required mistyped mismatch = err required

abbrev pub text_of : Error → Nested String → Result String
text_of required (found v) = if v == "" then err required else ok v
text_of required absent = err required
text_of required mistyped = err required

-- The last check of the parse: the bucket's name.
unfoldable pub checked : String → Request → Request × Option Error
checked name r = elim (check_bucket_name (bucket_name r)) [
  | none ↦ (r, none)
  | some e ↦ (r, some (wrapped ("regional bucket request " <> name) e))
]

abbrev fill {ℓ} :
    {A : Type ℓ}
    → Result A
    → Request
    → (A → Request)
    → (Request → Request × Option Error)
    → Request × Option Error
fill (ok v) r set rest = rest (set v)
fill (err e) r set rest = (r, some e)

-- The assignments to the fields of `r`, in their order; the first error ends them.
unfoldable pub read_fields :
    String → Request → Result String → Result String → Result ℤ → Request × Option Error
read_fields name r region max_size max_objects =
    fill region r (λ v. record r { region = v })
      λ r1.
        fill max_size r1 (λ v. record r1 { max_size = v })
          λ r2. fill max_objects r2 (λ v. record r2 { max_objects = v }) λ r3. checked name r3

module _ (m : Machinery) (u : Fields) where
  unfoldable pub str_field : String → Result String
  str_field field =
      text_of (field_error (m.get_name u) field "is required")
        (m.nested_string u ("spec" ∷ field ∷ []))

  unfoldable pub num_field : String → Result ℤ
  num_field field =
      number_of m (field_error (m.get_name u) field "is required")
        (m.nested_field u ("spec" ∷ field ∷ []))
        (field_error (m.get_name u) field "must be an integer")

  unfoldable pub blank_request : Request
  blank_request = record {
    name = m.get_name u;
    namespace = m.get_namespace u;
    region = "";
    tenant = (tenant_namespace (m.get_labels u)).0;
    bucket = text_at label_bucket (m.get_labels u);
    max_size = "";
    max_objects = pos 0;
  }

  unfoldable pub request_from_object : Request × Option Error
  unfolding blank_request
  request_from_object =
      read_fields (m.get_name u) blank_request (str_field "region") (str_field "maxSize")
        (num_field "maxObjects")

unfoldable pub owner_labels : Request → Dict String
owner_labels r = (label_request, r.name) ∷ (label_request_namespace, r.namespace) ∷ []

unfoldable pub request_key : Dict String → Option Key
request_key labels =
    let name = text_at label_request labels in
    let ns = text_at label_request_namespace labels in
    if name == "" || ns == "" then none else some (record { namespace = ns; name = name })

unfoldable pub claim_labels : Request → Dict String
unfolding owner_labels
claim_labels r = insert label_bucket r.bucket (insert label_tenant r.tenant (owner_labels r))

unfoldable pub claim_metadata : Request → Fields
claim_metadata r = fields (
    ("name", str r.name)
    ∷ ("namespace", str r.tenant)
    ∷ ("labels", obj (strings (claim_labels r)))
    ∷ [])

unfoldable pub object_bucket_claim : Request → String → Fields
unfolding claim_metadata
object_bucket_claim r storage_class = fields (
    ("apiVersion", str "objectbucket.io/v1alpha1")
    ∷ ("kind", str "ObjectBucketClaim")
    ∷ ("metadata", obj (claim_metadata r))
    ∷ (
      "spec",
      obj (
          fields (
            ("bucketName", str (bucket_name r))
            ∷ ("storageClassName", str storage_class)
            ∷ (
              "additionalConfig",
              obj (
                  fields (
                    ("maxSize", str r.max_size)
                    ∷ ("maxObjects", str (decimal_int r.max_objects))
                    ∷ [])),
            )
            ∷ [])),
    )
    ∷ [])

-- The value of a `NestedString` whose found and error are ignored.
abbrev pub string_or_empty : Nested String → String
string_or_empty (found s) = s
string_or_empty absent = ""
string_or_empty mistyped = ""

abbrev pub value_or_null : Nested Value → Value
value_or_null (found v) = v
value_or_null absent = null
value_or_null mistyped = null

abbrev phase_of : Machinery → Option Fields → String
phase_of m none = ""
phase_of m (some claim) = string_or_empty (m.nested_string claim ("status" ∷ "phase" ∷ []))

abbrev config_text : String → Option (Dict String) → String
config_text key none = ""
config_text key (some config) = text_at key config

-- The claim and the data of its ConfigMap; either may be nil.
unfoldable pub claim_of : Machinery → Option Fields → Option (Dict String) → Claim
claim_of m claim config = record {
  phase = phase_of m claim;
  host = config_text config_host_key config;
  port = config_text config_port_key config;
}

unfoldable pub profiles_from_list : Machinery → List Fields → List Profile
profiles_from_list m [] = []
profiles_from_list m (item ∷ items) =
    record { name = m.get_name item; labels = m.get_labels item } ∷ profiles_from_list m items

abbrev add_text : String → String → Fields → Fields
add_text key v entry = if v == "" then entry else set_field key (str v) entry

-- The optional members are ranged over in no fixed order, which the JSON text does not show.
unfoldable pub status_entry : Status → Fields
status_entry s = add_text "message" s.message (
    add_text "endpoint" s.endpoint (
      add_text "bucketName" s.bucket_name
        (fields (("region", str s.region) ∷ ("phase", str (phase_text s.phase)) ∷ []))))

unfoldable pub status_object : Status → Items
unfolding status_entry
status_object s = items (obj (status_entry s) ∷ [])

abbrev pub status_path : List String
status_path = "status" ∷ "regions" ∷ []

unfoldable pub is_map : Option Value → Bool
is_map (some (obj fs)) = true
is_map _ = false

module _ (m : Machinery) where
  unfoldable pub status_changed : Fields → Status → Bool
  status_changed o s = not (
      json_eq (marshal (value_or_null (m.nested_field o status_path)))
        (marshal (arr (status_object s))))

  unfoldable pub set_status : Fields → Status → Result Fields
  set_status o s =
      let o' = if is_map (get_field "status" o) then o else set_field "status" (obj end) o in
      m.set_nested_slice o' (status_object s) status_path
