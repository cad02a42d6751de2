-- ===== src/Kube/Machinery.antt =====
-- k8s.io/apimachinery and controller-runtime's helpers on untyped objects, which the repository
-- imports: an interface, and what the controllers rely on. Beside them the conversion of a float64.
use kro_lab.Prelude.{
  ℕ, String, ◌≡◌, ◌⊎◌, ◌↔◌, ◌^◌, Bool, true, false, List, some, ℤ, pos, negsuc, ltb, inl, inr,
  Bool-cases, if◌then◌else◌,
}
use kro_lab.Prelude.Dict.{Dict, text_at}
use kro_lab.Kube.Error.{Result, ok}
use kro_lab.Kube.Value.{Value, obj, str, arr, Fields, Items, get_field, strings, truncate}

-- The answers (value, found, err) of unstructured.NestedX.
pub data Nested (A : Type 0) : Type 0 where
  found : A → Nested A
  absent : Nested A
  mistyped : Nested A

pub record Machinery : Type 0 where
  pub get_name : Fields → String
  pub get_namespace : Fields → String
  pub get_labels : Fields → Dict String
  -- !GetDeletionTimestamp().IsZero()
  pub is_deleting : Fields → Bool
  pub nested_string : Fields → List String → Nested String
  pub nested_bool : Fields → List String → Nested Bool
  pub nested_field : Fields → List String → Nested Value
  pub set_nested_slice : Fields → Items → List String → Result Fields
  pub contains_finalizer : Fields → String → Bool
  pub add_finalizer : Fields → String → Fields
  pub remove_finalizer : Fields → String → Fields
  -- equality.Semantic.DeepEqual of the data of two Secrets
  pub data_equal : Dict (List ℕ) → Dict (List ℕ) → Bool
  -- int(n) for a float64 n beyond int64, whose value the Go specification leaves to the implementation
  pub out_of_range : ℤ → ℕ → ℤ

pub record IsMachinery (m : Machinery) : Type 0 where
  -- A slice that was set is the field at its path.
  pub nested_field-set :
      (o : Fields) (xs : Items) (path : List String) (o' : Fields)
      → m.set_nested_slice o xs path ≡ ok o'
      → m.nested_field o' path ≡ found (arr xs)
  -- The name and the namespace are the texts at metadata.name and metadata.namespace.
  pub get_name-text :
      (o meta : Fields) (v : String)
      → get_field "metadata" o ≡ some (obj meta)
      → get_field "name" meta ≡ some (str v)
      → m.get_name o ≡ v
  pub get_namespace-text :
      (o meta : Fields) (v : String)
      → get_field "metadata" o ≡ some (obj meta)
      → get_field "namespace" meta ≡ some (str v)
      → m.get_namespace o ≡ v
  -- Labels are the texts under metadata.labels.
  pub get_labels-strings :
      (o meta : Fields) (labels : Dict String) (k : String)
      → get_field "metadata" o ≡ some (obj meta)
      → get_field "labels" meta ≡ some (obj (strings labels))
      → text_at k (m.get_labels o) ≡ text_at k labels
  pub contains-add : (o : Fields) (f : String) → m.contains_finalizer (m.add_finalizer o f) f ≡ true

-- An int is an int64.
abbrev pub in_int64 : ℤ → Bool
in_int64 (pos n) = ltb n (2 ^ 63)
in_int64 (negsuc n) = ltb n (2 ^ 63)

-- int(n) for the float64 of value a / 2^e.
unfoldable pub int_of_float : Machinery → ℤ → ℕ → ℤ
int_of_float m a e = if in_int64 (truncate a e) then truncate a e else m.out_of_range a e

-- `k` is the truncated number, if that is an int64, and else what the implementation makes of it.
abbrev pub Converts : Machinery → ℤ → ℕ → ℤ → Type 0
Converts m a e k =
    ((in_int64 (truncate a e) ≡ true) × (truncate a e ≡ k))
    ⊎ ((in_int64 (truncate a e) ≡ false) × (m.out_of_range a e ≡ k))

pub int_of_float_iff :
    (m : Machinery) (a : ℤ) (e : ℕ) (k : ℤ) → (int_of_float m a e ≡ k) ↔ Converts m a e k
unfolding int_of_float
int_of_float_iff m a e k = (
  λ h. elim (Bool-cases (in_int64 (truncate a e))) [
    | inl fits ↦ inl (fits, rw (int_of_float, fits) at h)
    | inr beyond ↦ inr (beyond, rw (int_of_float, beyond) at h)
  ],
  λ c. elim c [ inl (fits, same) ↦ rw fits same | inr (beyond, same) ↦ rw beyond same ],
)
