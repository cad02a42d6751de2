-- ===== src/Oidc/Unmarshal.antt =====
-- json.Unmarshal into the structs of platform-mvp/oidc-verifier/main.go: a member of an object goes to
-- the field whose name it has up to the case of its letters, the last such member wins, a null leaves
-- a text as it was and clears a list, and a value of another type is an error.
use Prim.Native.Char.{code}
use kro_lab.Prelude.{
  ℕ, ◌-◌, String, ◌≡◌, refl, Bool, true, false, ◌&&◌, Option, none, some, List, [], ◌∷◌, nat_eq,
  leb, if◌then◌else◌,
}
use kro_lab.Prelude.Dict.{Dict, insert}
use kro_lab.Kube.Value.{Value, null, str, obj, arr, Fields, end, field, Items, nil, item}
use kro_lab.Oidc.Error.{Result, ok, err, json}

-- Unicode's simple folding of the characters that fold to an ASCII letter, with the Kelvin sign and
-- the long s.
folded : ℕ → ℕ
folded c =
    if leb 97 c && leb c 122
    then c - 32
    else if nat_eq c 8490
    then 75
    else if nat_eq c 383
    then 83
    else c

unfoldable pub same_name : String → String → Bool
unfolding folded
same_name String.[] String.[] = true
same_name String.[] (String.◌∷◌ d t) = false
same_name (String.◌∷◌ c s) String.[] = false
same_name (String.◌∷◌ c s) (String.◌∷◌ d t) =
    nat_eq (folded (code c)) (folded (code d)) && same_name s t

-- The field of a struct that a member goes to.
unfoldable pub struct_field : List String → String → Option String
unfolding same_name
struct_field [] k = none
struct_field (name ∷ names) k = if same_name name k then some name else struct_field names k

-- A text field of a struct takes a value: `none` is the type error, after which decoding goes on.
store_text : String → Value → Dict String → Option (Dict String)
unfolding insert
store_text name null d = some d
store_text name (str s) d = some (insert name s d)
store_text name _ d = none

-- The members of an object into the text fields of a struct, behind those stored already.
unfoldable pub texts_of : List String → Fields → Dict String → Option (Dict String)
unfolding struct_field store_text
texts_of names end d = some d
texts_of names (field k v fs) d = elim (struct_field names k) [
  | none ↦ texts_of names fs d
  | some name ↦ elim (store_text name v d) [ none ↦ none | some d' ↦ texts_of names fs d' ]
]

-- json.Unmarshal into a struct of text fields, as the values of the fields that were set.
unfoldable pub unmarshal_texts : List String → Value → Option (Dict String)
unfolding texts_of
unmarshal_texts names (obj fs) = texts_of names fs []
unmarshal_texts names null = some []
unmarshal_texts names _ = none

raw_items : Items → List Value
raw_items nil = []
raw_items (item v xs) = v ∷ raw_items xs

store_items : Value → List Value → Option (List Value)
unfolding raw_items
store_items null old = some []
store_items (arr xs) old = some (raw_items xs)
store_items _ old = none

keys_of : Fields → List Value → Option (List Value)
unfolding same_name store_items
keys_of end old = some old
keys_of (field k v fs) old =
    if same_name "keys" k
    then elim (store_items v old) [ none ↦ none | some new ↦ keys_of fs new ]
    else keys_of fs old

-- A document into the struct of the raw `keys`.
unfoldable pub unmarshal_keys : Value → Result (List Value)
unfolding keys_of
unmarshal_keys (obj fs) = elim (keys_of fs []) [ some keys ↦ ok keys | none ↦ err json ]
unmarshal_keys null = ok []
unmarshal_keys _ = err json

same_name_test : same_name "kid" "KId" ≡ true
unfolding same_name
same_name_test = refl
