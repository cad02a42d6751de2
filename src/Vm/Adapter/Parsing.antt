-- ===== src/Vm/Adapter/Parsing.antt =====
-- Which objects `request_from_object` accepts, and as which request.
use kro_lab.Prelude.{String, ◌≡◌, refl, ◌≢◌, ◌↔◌, ap, none, [], ◌∷◌, arith, eq_iff, ℤ}
use kro_lab.Prelude.Dict.{text_at}
use kro_lab.Kube.Error.{Error, Result, ok}
use kro_lab.Kube.Value.{Value, int, float, Fields}
use kro_lab.Kube.Machinery.{Machinery, Converts, int_of_float_iff, Nested, found, absent, mistyped}
use kro_lab.Vm.Domain.{Request, label_tenant, label_vmset, tenant_namespace}
use kro_lab.Vm.Adapter.{
  field_error, str_field, num_field, text_of, number_of, read_fields, blank_request,
  request_from_object,
}

-- A field of the spec that holds a text, and one that holds a whole number or a float64.
abbrev pub ReadsText : Machinery → Fields → String → String → Type 0
ReadsText m u field v = (m.nested_string u ("spec" ∷ field ∷ []) ≡ found v) × (v ≢ "")

abbrev pub IsNumber : Machinery → Value → ℤ → Type 0
IsNumber m (int n) k = n ≡ k
IsNumber m (float a e) k = Converts m a e k
IsNumber m _ k = ⊥

abbrev pub ReadsNumber : Machinery → Fields → String → ℤ → Type 0
ReadsNumber m u field k =
    (v : Value) × (m.nested_field u ("spec" ∷ field ∷ []) ≡ found v) × IsNumber m v k

text_of-eq_ok :
    (e : Error) (n : Nested String) (v : String) → text_of e n ≡ ok v → (n ≡ found v) × (v ≢ "")
unfolding text_of
text_of-eq_ok e (found w) v h = (ground (arith, eq_iff w ""), λ z. ground (arith, eq_iff w ""))
text_of-eq_ok e absent v h = cc
text_of-eq_ok e mistyped v h = cc

number_of-eq_ok :
    (m : Machinery) (e f : Error) (n : Nested Value) (k : ℤ)
    → number_of m e n f ≡ ok k
    → (v : Value) × (n ≡ found v) × IsNumber m v k
unfolding number_of
number_of-eq_ok m e f (found (int n)) k h = (int n, refl, ground arith)
number_of-eq_ok m e f (found (float a x)) k h =
    (float a x, refl, (int_of_float_iff m a x k).0 (ground arith))
number_of-eq_ok m e f absent k h = cc
number_of-eq_ok m e f mistyped k h = cc
number_of-eq_ok m e f (found v) k h = cc

-- What the fields of `r` were read from.
record IsFilled (b : Request) (region memory image secret : Result String) (replicas cpu : Result ℤ)
    (r : Request) : Type 0 where
  same_name : r.name ≡ b.name
  same_namespace : r.namespace ≡ b.namespace
  same_tenant : r.tenant ≡ b.tenant
  same_vmset : r.vmset ≡ b.vmset
  from_region : region ≡ ok r.region
  from_memory : memory ≡ ok r.memory
  from_image : image ≡ ok r.image
  from_secret : secret ≡ ok r.cloud_init_secret
  from_replicas : replicas ≡ ok r.replicas
  from_cpu : cpu ≡ ok r.cpu

read_fields-eq_none :
    (b : Request) (region memory image secret : Result String) (replicas cpu : Result ℤ)
    (r : Request)
    → read_fields b region memory image secret replicas cpu ≡ (r, none)
    → IsFilled b region memory image secret replicas cpu r
unfolding read_fields
read_fields-eq_none b region memory image secret replicas cpu r h = ground arith

-- The request `r` is what the object says.
pub record IsRead (m : Machinery) (u : Fields) (r : Request) : Type 0 where
  pub name : r.name ≡ m.get_name u
  pub namespace : r.namespace ≡ m.get_namespace u
  pub tenant : r.tenant ≡ text_at label_tenant (m.get_labels u)
  pub vmset : r.vmset ≡ text_at label_vmset (m.get_labels u)
  pub region : ReadsText m u "region" r.region
  pub memory : ReadsText m u "memory" r.memory
  pub image : ReadsText m u "image" r.image
  pub secret : ReadsText m u "cloudInitSecretName" r.cloud_init_secret
  pub replicas : ReadsNumber m u "replicas" r.replicas
  pub cpu : ReadsNumber m u "cpu" r.cpu

module _ (m : Machinery) (u : Fields) where
  str_field-eq_ok : (field v : String) → str_field m u field ≡ ok v → ReadsText m u field v
  unfolding str_field
  str_field-eq_ok field v h = text_of-eq_ok _ (m.nested_string u ("spec" ∷ field ∷ [])) v h

  num_field-eq_ok : (field : String) (k : ℤ) → num_field m u field ≡ ok k → ReadsNumber m u field k
  unfolding num_field
  num_field-eq_ok field k h = number_of-eq_ok m _ _ (m.nested_field u ("spec" ∷ field ∷ [])) k h

  str_field_of_read : (field v : String) → ReadsText m u field v → str_field m u field ≡ ok v
  unfolding str_field text_of
  str_field_of_read field v (e, h) = rw e (ground (arith, eq_iff v ""))

  number_of_found :
      (e f : Error) (v : Value) (k : ℤ) → IsNumber m v k → number_of m e (found v) f ≡ ok k
  unfolding number_of
  number_of_found e f (int n) k h = ap ok h
  number_of_found e f (float a x) k h = ap ok ((int_of_float_iff m a x k).1 h)
  number_of_found e f v k h = absurd h

  num_field_of_read :
      (field : String) (k : ℤ) → ReadsNumber m u field k → num_field m u field ≡ ok k
  unfolding num_field
  num_field_of_read field k (v, e, h) = rw e (
      number_of_found (field_error (m.get_name u) field "is required")
        (field_error (m.get_name u) field "must be an integer") v k h)

  pub IsRead-of_ok : (r : Request) → request_from_object m u ≡ (r, none) → IsRead m u r
  unfolding request_from_object tenant_namespace
  IsRead-of_ok r h =
      let f = read_fields-eq_none (blank_request m u) _ _ _ _ _ _ r h in
      record {
        name = f.same_name;
        namespace = f.same_namespace;
        tenant = f.same_tenant;
        vmset = f.same_vmset;
        region = str_field-eq_ok "region" r.region f.from_region;
        memory = str_field-eq_ok "memory" r.memory f.from_memory;
        image = str_field-eq_ok "image" r.image f.from_image;
        secret = str_field-eq_ok "cloudInitSecretName" r.cloud_init_secret f.from_secret;
        replicas = num_field-eq_ok "replicas" r.replicas f.from_replicas;
        cpu = num_field-eq_ok "cpu" r.cpu f.from_cpu;
      }

  pub ok-of_IsRead : (r : Request) → IsRead m u r → request_from_object m u ≡ (r, none)
  unfolding request_from_object tenant_namespace read_fields
  ok-of_IsRead r h =
      rw
        (
          str_field_of_read "region" r.region h.region,
          str_field_of_read "memory" r.memory h.memory,
          str_field_of_read "image" r.image h.image,
          str_field_of_read "cloudInitSecretName" r.cloud_init_secret h.secret,
          num_field_of_read "replicas" r.replicas h.replicas,
          num_field_of_read "cpu" r.cpu h.cpu,
        )
        (ground arith)

-- `request_from_object` returns `r` and no error exactly if the four texts of the spec are there and
-- not empty, the two numbers are there and are numbers, and `r` holds these,
-- a float64 as int(n) gives it, truncated or, beyond int64, as the implementation has it, the object's name and
-- namespace, and the labels for tenant and set.
pub request_from_object_iff :
    (m : Machinery) (u : Fields) (r : Request)
    → (request_from_object m u ≡ (r, none)) ↔ IsRead m u r
request_from_object_iff m u r = (IsRead-of_ok m u r, ok-of_IsRead m u r)
