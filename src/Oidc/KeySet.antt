-- ===== src/Oidc/KeySet.antt =====
-- Sets of keys by their ids: parseJWKS and parseJWKSKeys of platform-mvp/oidc-verifier/main.go.
pub mod Contents
pub mod Merging
use kro_lab.Prelude.{String, ◌<>◌, ◌==◌, Option, none, some, List, [], ◌∷◌, if◌then◌else◌}
use kro_lab.Prelude.Dict.{Dict, insert, text_at, lookup, keys}
use kro_lab.Kube.Value.{Value}
use kro_lab.Oidc.Error.{Result, ok, err, message, wrapped, json, bind, wrap_error}
use kro_lab.Oidc.Unmarshal.{unmarshal_texts, unmarshal_keys}
use kro_lab.Oidc.Jwk.{PublicKey, parse_jwk}

abbrev pub KeySet : Type 0
KeySet = Dict PublicKey

-- The `kid` of a raw key, the empty text where it has none that is a text.
unfoldable pub key_id : Value → String
unfolding unmarshal_texts text_at
key_id raw = elim (unmarshal_texts ("kid" ∷ []) raw) [ none ↦ "" | some d ↦ text_at "kid" d ]

unfoldable pub add_key : String → Result PublicKey → KeySet → Result KeySet
unfolding insert wrap_error bind
add_key kid r set =
    bind (wrap_error ("failed to parse key " <> kid) r) (λ key. ok (insert kid key set))

-- A raw key without an id is left out.
unfoldable pub parse_one : Value → KeySet → Result KeySet
unfolding key_id parse_jwk add_key
parse_one raw set = if key_id raw == "" then ok set else add_key (key_id raw) (parse_jwk raw) set

-- The loop over the raw keys; one that cannot be read ends it.
unfoldable pub parse_each : List Value → KeySet → Result KeySet
unfolding parse_one bind
parse_each [] set = ok set
parse_each (raw ∷ raws) set = bind (parse_one raw set) (parse_each raws)

unfoldable pub parse_jwks_keys : List Value → Result KeySet
unfolding parse_each
parse_jwks_keys [] = err (message "JWKS contains no keys")
parse_jwks_keys (raw ∷ raws) = parse_each (raw ∷ raws) []

-- What a file or a response holds.
pub data Document : Type 0 where
  -- no JSON text
  malformed : Document
  document : Value → Document

decode_document : Document → Result (List Value)
unfolding unmarshal_keys
decode_document malformed = err json
decode_document (document v) = unmarshal_keys v

unfoldable pub parse_jwks : Document → Result KeySet
unfolding decode_document parse_jwks_keys bind wrap_error
parse_jwks d = bind (wrap_error "decoding JWKS" (decode_document d)) parse_jwks_keys

unfoldable pub copy_key : String → Option PublicKey → KeySet → KeySet
unfolding insert
copy_key k none to = to
copy_key k (some key) to = insert k key to

-- `for k, v := range from { to[k] = v }`, in some order of the keys.
unfoldable pub copy_keys : List String → KeySet → KeySet → KeySet
unfolding copy_key lookup
copy_keys [] from to = to
copy_keys (k ∷ ks) from to = copy_keys ks from (copy_key k (lookup k from) to)

unfoldable pub merge : (List String → List String) → KeySet → KeySet → KeySet
unfolding copy_keys keys
merge iterate from to = copy_keys (iterate (keys from)) from to
