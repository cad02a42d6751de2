-- ===== src/Bucket/Adapter/Parsing.antt =====
-- Which objects the bucket adapter's `request_from_object` accepts, and as which request.
use Prim.Native.String.{len}
use mathlib.Core.Path.{subst}
use kro_lab.Prelude.{
  sym, String, ◌≡◌, refl, ◌≢◌, ◌≤◌, ◌↔◌, ap, none, Option, [], ◌∷◌, arith, eq_iff, ℤ, Option-cases,
  inl, inr,
}
use kro_lab.Prelude.Dict.{text_at}
use kro_lab.Kube.Error.{Error, Result, ok}
use kro_lab.Kube.Value.{Value, int, float, Fields}
use kro_lab.Kube.Machinery.{Machinery, Converts, int_of_float_iff, Nested, found, absent, mistyped}
use kro_lab.Bucket.Domain.{
  Request, label_tenant, label_bucket, tenant_namespace, bucket_name, check_bucket_name,
}
use kro_lab.Bucket.Domain.Readiness.{check_bucket_name_iff}
use kro_lab.Bucket.Adapter.{
  field_error, str_field, num_field, text_of, number_of, read_fields, checked, blank_request,
  request_from_object,
}

-- A field of the spec that holds a text, and one that holds a whole number or a float64.
abbrev pub HasText : Machinery → Fields → String → String → Type 0
HasText m u field v = (m.nested_string u ("spec" ∷ field ∷ []) ≡ found v) × (v ≢ "")

abbrev pub Denotes : Machinery → Value → ℤ → Type 0
Denotes m (int n) k = n ≡ k
Denotes m (float a e) k = Converts m a e k
Denotes m _ k = ⊥

abbrev pub HasNumber : Machinery → Fields → String → ℤ → Type 0
HasNumber m u field k =
    (v : Value) × (m.nested_field u ("spec" ∷ field ∷ []) ≡ found v) × Denotes m v k

text_of-eq_ok :
    (e : Error) (n : Nested String) (v : String) → text_of e n ≡ ok v → (n ≡ found v) × (v ≢ "")
text_of-eq_ok e (found w) v h = (ground (arith, eq_iff w ""), λ z. ground (arith, eq_iff w ""))
text_of-eq_ok e absent v h = cc
text_of-eq_ok e mistyped v h = cc

number_of-eq_ok :
    (m : Machinery) (e f : Error) (n : Nested Value) (k : ℤ)
    → number_of m e n f ≡ ok k
    → (v : Value) × (n ≡ found v) × Denotes m v k
number_of-eq_ok m e f (found (int n)) k h = (int n, refl, ground arith)
number_of-eq_ok m e f (found (float a x)) k h =
    (float a x, refl, (int_of_float_iff m a x k).0 (ground arith))
number_of-eq_ok m e f absent k h = cc
number_of-eq_ok m e f mistyped k h = cc
number_of-eq_ok m e f (found v) k h = cc

-- What the fields of `r` were read from, and that its bucket's name passed the check.
record IsFilled (b : Request) (region max_size : Result String) (max_objects : Result ℤ)
    (r : Request) : Type 0 where
  same_name : r.name ≡ b.name
  same_namespace : r.namespace ≡ b.namespace
  same_tenant : r.tenant ≡ b.tenant
  same_bucket : r.bucket ≡ b.bucket
  from_region : region ≡ ok r.region
  from_max_size : max_size ≡ ok r.max_size
  from_max_objects : max_objects ≡ ok r.max_objects
  name_fits : check_bucket_name (bucket_name r) ≡ none

checked-eq_none :
    (name : String) (r s : Request)
    → checked name r ≡ (s, none)
    → (r ≡ s) × (check_bucket_name (bucket_name r) ≡ none)
unfolding checked
checked-eq_none name r s h = elim (Option-cases (check_bucket_name (bucket_name r))) [
  | inl fits ↦ (ap (λ (p : Request × Option Error). p.0) (rw (fits, checked) at h), fits)
  | inr (e, bad) ↦ cc (rw (bad, checked) at h)
]

checked_of_fit :
    (name : String) (r : Request)
    → check_bucket_name (bucket_name r) ≡ none
    → checked name r ≡ (r, none)
unfolding checked
checked_of_fit name r fits = rw (fits, checked) refl

read_fields-eq_none :
    (name : String) (b : Request) (region max_size : Result String) (max_objects : Result ℤ)
    (r : Request)
    → read_fields name b region max_size max_objects ≡ (r, none)
    → IsFilled b region max_size max_objects r
unfolding read_fields
read_fields-eq_none name b (ok region) (ok max_size) (ok max_objects) r h =
    let (same, fits) = checked-eq_none name _ r h in
    record {
      same_name = ap (λ (q : Request). q.name) (sym same);
      same_namespace = ap (λ (q : Request). q.namespace) (sym same);
      same_tenant = ap (λ (q : Request). q.tenant) (sym same);
      same_bucket = ap (λ (q : Request). q.bucket) (sym same);
      from_region = ap (λ (q : Request). ok q.region) same;
      from_max_size = ap (λ (q : Request). ok q.max_size) same;
      from_max_objects = ap (λ (q : Request). ok q.max_objects) same;
      name_fits = subst (λ (q : Request). check_bucket_name (bucket_name q) ≡ none) same fits;
    }
read_fields-eq_none name b region max_size max_objects r h = ground arith

-- The bucket request `r` is what the object says, and its bucket's name fits.
pub record IsOrder (m : Machinery) (u : Fields) (r : Request) : Type 0 where
  pub name : r.name ≡ m.get_name u
  pub namespace : r.namespace ≡ m.get_namespace u
  pub tenant : r.tenant ≡ text_at label_tenant (m.get_labels u)
  pub bucket : r.bucket ≡ text_at label_bucket (m.get_labels u)
  pub region : HasText m u "region" r.region
  pub max_size : HasText m u "maxSize" r.max_size
  pub max_objects : HasNumber m u "maxObjects" r.max_objects
  pub name_fits : (3 ≤ len (bucket_name r)) × (len (bucket_name r) ≤ 63)

module _ (m : Machinery) (u : Fields) where
  str_field-eq_ok : (field v : String) → str_field m u field ≡ ok v → HasText m u field v
  unfolding str_field
  str_field-eq_ok field v h = text_of-eq_ok _ (m.nested_string u ("spec" ∷ field ∷ [])) v h

  num_field-eq_ok : (field : String) (k : ℤ) → num_field m u field ≡ ok k → HasNumber m u field k
  unfolding num_field
  num_field-eq_ok field k h = number_of-eq_ok m _ _ (m.nested_field u ("spec" ∷ field ∷ [])) k h

  str_field_of_text : (field v : String) → HasText m u field v → str_field m u field ≡ ok v
  unfolding str_field
  str_field_of_text field v (e, h) = rw e (ground (arith, eq_iff v ""))

  number_of_found :
      (e f : Error) (v : Value) (k : ℤ) → Denotes m v k → number_of m e (found v) f ≡ ok k
  number_of_found e f (int n) k h = ap ok h
  number_of_found e f (float a x) k h = ap ok ((int_of_float_iff m a x k).1 h)
  number_of_found e f v k h = absurd h

  num_field_of_number :
      (field : String) (k : ℤ) → HasNumber m u field k → num_field m u field ≡ ok k
  unfolding num_field
  num_field_of_number field k (v, e, h) = rw e (
      number_of_found (field_error (m.get_name u) field "is required")
        (field_error (m.get_name u) field "must be an integer") v k h)

  pub IsOrder-of_ok : (r : Request) → request_from_object m u ≡ (r, none) → IsOrder m u r
  unfolding request_from_object tenant_namespace
  IsOrder-of_ok r h =
      let f = read_fields-eq_none (m.get_name u) (blank_request m u) _ _ _ r h in
      record {
        name = f.same_name;
        namespace = f.same_namespace;
        tenant = f.same_tenant;
        bucket = f.same_bucket;
        region = str_field-eq_ok "region" r.region f.from_region;
        max_size = str_field-eq_ok "maxSize" r.max_size f.from_max_size;
        max_objects = num_field-eq_ok "maxObjects" r.max_objects f.from_max_objects;
        name_fits = (check_bucket_name_iff (bucket_name r)).0 f.name_fits;
      }

  pub ok-of_IsOrder : (r : Request) → IsOrder m u r → request_from_object m u ≡ (r, none)
  unfolding request_from_object tenant_namespace read_fields
  ok-of_IsOrder r h =
      let fits = (check_bucket_name_iff (bucket_name r)).1 h.name_fits in
      rw
        (
          str_field_of_text "region" r.region h.region,
          str_field_of_text "maxSize" r.max_size h.max_size,
          num_field_of_number "maxObjects" r.max_objects h.max_objects,
          ← h.name,
          ← h.namespace,
          ← h.tenant,
          ← h.bucket,
        )
        (checked_of_fit r.name r fits)

-- `request_from_object` of the bucket controller returns `r` and no error exactly if region and size
-- are texts that are there and not empty, the number of objects is there and a number, the name of
-- the bucket has 3 to 63 characters, and `r` holds these, a float64 as int(n) gives it, truncated or, beyond int64, as the
-- implementation has it, the object's name and namespace, and the labels
-- for tenant and bucket.
pub bucket_request_from_object_iff :
    (m : Machinery) (u : Fields) (r : Request)
    → (request_from_object m u ≡ (r, none)) ↔ IsOrder m u r
bucket_request_from_object_iff m u r = (IsOrder-of_ok m u r, ok-of_IsOrder m u r)
