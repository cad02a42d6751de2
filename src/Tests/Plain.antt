-- ===== src/Tests/Plain.antt =====
-- A plain apimachinery: metadata read from the objects themselves.
use kro_lab.Prelude.{
  negsuc, ◌^◌, ◌-◌, Bool-cases, inl, inr, nat_eq, ℕ, String, ◌≡◌, refl, ap, ◌∙◌, Bool, true, false,
  ◌&&◌, Option, some, none, List, [], ◌∷◌, ◌==◌, arith, eq_refl, contains, if◌then◌else◌,
}
use kro_lab.Prelude.Dict.{Dict, text_at}
use kro_lab.Kube.Error.{Result, ok, err, message}
use kro_lab.Kube.Value.{
  Value, bool, str, obj, arr, Fields, end, field, Items, nil, item, get_field, set_field,
  get_field-set_field, strings,
}
use kro_lab.Kube.Machinery.{Machinery, IsMachinery, Nested, found, absent, mistyped}

abbrev text_or_empty : Option Value → String
text_or_empty (some (str s)) = s
text_or_empty _ = ""

abbrev map_or_end : Option Value → Fields
map_or_end (some (obj fs)) = fs
map_or_end _ = end

abbrev texts_of : Fields → Dict String
texts_of end = []
texts_of (field k (str v) fs) = (k, v) ∷ texts_of fs
texts_of (field k _ fs) = texts_of fs

abbrev names_in : Items → List String
names_in nil = []
names_in (item (str s) rest) = s ∷ names_in rest
names_in (item _ rest) = names_in rest

abbrev items_or_nil : Option Value → Items
items_or_nil (some (arr xs)) = xs
items_or_nil _ = nil

abbrev is_some : Option Value → Bool
is_some none = false
is_some (some v) = true

abbrev metadata : Fields → Fields
metadata o = map_or_end (get_field "metadata" o)

abbrev finalizers : Fields → Items
finalizers o = items_or_nil (get_field "finalizers" (metadata o))

abbrev present : Option Value → Nested Value
present none = absent
present (some v) = found v

abbrev member : String → Value → Nested Value
member k (obj fs) = present (get_field k fs)
member k _ = mistyped

abbrev and_then : {A B : Type 0} → Nested A → (A → Nested B) → Nested B
and_then (found a) f = f a
and_then absent f = absent
and_then mistyped f = mistyped

unfoldable pub nested : List String → Value → Nested Value
unfolding get_field
nested [] v = found v
nested (k ∷ ks) v = and_then (member k v) (nested ks)

abbrev text_in : Value → Nested String
text_in (str s) = found s
text_in _ = mistyped

abbrev bool_in : Value → Nested Bool
bool_in (bool b) = found b
bool_in _ = mistyped

abbrev child : Option Value → Result Fields
child none = ok end
child (some (obj fs)) = ok fs
child (some _) = err (message "not a map")

abbrev wrap_child : String → Fields → Result Fields → Result Fields
wrap_child k fs (ok g) = ok (set_field k (obj g) fs)
wrap_child k fs (err e) = err e

unfoldable pub set_at : List String → Value → Fields → Result Fields
unfolding get_field set_field
set_at [] v fs = err (message "no path")
set_at (k ∷ ks) v fs =
    let inner : Result Fields = elim (child (get_field k fs)) [
      | ok g ↦ set_at ks v g
      | err e ↦ err e
    ] in
    elim ks [ [] ↦ ok (set_field k v fs) | _ ∷ _ ↦ wrap_child k fs inner ]

get_field-same : (k : String) (v : Value) (fs : Fields) → get_field k (set_field k v fs) ≡ some v
get_field-same k v fs = get_field-set_field k k v fs ∙ rw (eq_refl k) refl

set_at-under :
    (k : String) (fs : Fields) (r : Result Fields) (o' : Fields)
    → wrap_child k fs r ≡ ok o'
    → (g : Fields) × (r ≡ ok g) × (set_field k (obj g) fs ≡ o')
set_at-under k fs (ok g) o' h = (g, refl, ground arith)
set_at-under k fs (err e) o' h = cc

nested_under :
    (k : String) (ks : List String) (v : Value) (fs : Fields)
    → nested (k ∷ ks) (obj (set_field k v fs)) ≡ nested ks v
unfolding nested
nested_under k ks v fs = ap (λ o. and_then (present o) (nested ks)) (get_field-same k v fs)

nested_here : (v : Value) → nested [] v ≡ found v
unfolding nested
nested_here v = refl

set_in_child :
    (ks : List String) (v : Value) (r : Result Fields) (g : Fields)
    → ((f f' : Fields) → set_at ks v f ≡ ok f' → nested ks (obj f') ≡ found v)
    → (elim r [ ok f ↦ set_at ks v f | err e ↦ err e ]) ≡ ok g
    → nested ks (obj g) ≡ found v
set_in_child ks v (ok f) g below e = below f g e
set_in_child ks v (err x) g below e = cc

nested-set_at :
    (path : List String) (v : Value) (fs o' : Fields)
    → set_at path v fs ≡ ok o'
    → nested path (obj o') ≡ found v
unfolding set_at
nested-set_at [] v fs o' h = cc
nested-set_at (k ∷ []) v fs o' h =
    let same : set_field k v fs ≡ o' = ground arith in
    rw (← same) (nested_under k [] v fs ∙ nested_here v)
nested-set_at (k ∷ j ∷ ks) v fs o' h =
    let (g, made, same) = set_at-under k fs _ o' h in
    rw (← same) (
      nested_under k (j ∷ ks) (obj g) fs
      ∙ set_in_child (j ∷ ks) v (child (get_field k fs)) g
          (λ f f' e. nested-set_at (j ∷ ks) v f f' e) made)

unfoldable pub add_plain : Fields → String → Fields
unfolding get_field set_field contains
add_plain o f =
    let added =
      set_field "metadata"
        (obj (set_field "finalizers" (arr (item (str f) (finalizers o))) (metadata o))) o in
    if contains (names_in (finalizers o)) f then o else added

abbrev without : String → Items → Items
without f nil = nil
without f (item (str s) rest) =
    let others = without f rest in if s == f then others else item (str s) others
without f (item v rest) = item v (without f rest)

abbrev codes_equal : List ℕ → List ℕ → Bool
codes_equal [] [] = true
codes_equal (a ∷ xs) (b ∷ ys) = nat_eq a b && codes_equal xs ys
codes_equal _ _ = false

abbrev data_equal : Dict (List ℕ) → Dict (List ℕ) → Bool
data_equal [] [] = true
data_equal ((k, a) ∷ d) ((j, b) ∷ e) = k == j && codes_equal a b && data_equal d e
data_equal _ _ = false

abbrev pub plain : Machinery
plain = record {
  get_name = λ o. text_or_empty (get_field "name" (metadata o));
  get_namespace = λ o. text_or_empty (get_field "namespace" (metadata o));
  get_labels = λ o. texts_of (map_or_end (get_field "labels" (metadata o)));
  is_deleting = λ o. is_some (get_field "deletionTimestamp" (metadata o));
  nested_string = λ o path. and_then (nested path (obj o)) text_in;
  nested_bool = λ o path. and_then (nested path (obj o)) bool_in;
  nested_field = λ o path. nested path (obj o);
  set_nested_slice = λ o xs path. set_at path (arr xs) o;
  contains_finalizer = λ o f. contains (names_in (finalizers o)) f;
  add_finalizer = add_plain;
  remove_finalizer = λ o f.
      set_field "metadata"
        (obj (set_field "finalizers" (arr (without f (finalizers o))) (metadata o))) o;
  data_equal = data_equal;
  -- what amd64 gives
  out_of_range = λ n k. negsuc (2 ^ 63 - 1);
}

texts_of-strings : (d : Dict String) → texts_of (strings d) ≡ d
unfolding strings
texts_of-strings [] = refl
texts_of-strings ((k, v) ∷ d) = ap (λ e. (k, v) ∷ e) (texts_of-strings d)

finalizers-set :
    (o meta : Fields) (xs : Items)
    → finalizers (set_field "metadata" (obj (set_field "finalizers" (arr xs) meta)) o) ≡ xs
finalizers-set o meta xs =
    ap (λ v. items_or_nil (get_field "finalizers" (map_or_end v)))
      (get_field-same "metadata" (obj (set_field "finalizers" (arr xs) meta)) o)
    ∙ ap items_or_nil (get_field-same "finalizers" (arr xs) meta)

contains-first : (f : String) (xs : List String) → contains (f ∷ xs) f ≡ true
unfolding contains
contains-first f xs = ground (arith, eq_refl f)

contains-add_plain :
    (o : Fields) (f : String) → contains (names_in (finalizers (add_plain o f))) f ≡ true
unfolding add_plain
contains-add_plain o f = elim (Bool-cases (contains (names_in (finalizers o)) f)) [
  | inl here ↦ rw here here
  | inr new ↦ rw new (
      ap (λ xs. contains (names_in xs) f)
        (finalizers-set o (metadata o) (item (str f) (finalizers o)))
      ∙ contains-first f (names_in (finalizers o)))
]

pub plain-IsMachinery : IsMachinery plain
plain-IsMachinery = record {
  nested_field-set = λ o xs path o' h. nested-set_at path (arr xs) o o' h;
  get_name-text = λ o meta v e f. rw (e, f) refl;
  get_namespace-text = λ o meta v e f. rw (e, f) refl;
  get_labels-strings = λ o meta labels k e f. rw (e, f) (ap (text_at k) (texts_of-strings labels));
  contains-add = contains-add_plain;
}

codes_equal_refl : (bs : List ℕ) → codes_equal bs bs ≡ true
codes_equal_refl [] = refl
codes_equal_refl (b ∷ bs) = ground (arith, codes_equal_refl bs)

pub plain-same_data : (d : Dict (List ℕ)) → plain.data_equal d d ≡ true
plain-same_data [] = refl
plain-same_data ((k, bs) ∷ d) = ground (arith, codes_equal_refl bs, eq_refl k, plain-same_data d)
