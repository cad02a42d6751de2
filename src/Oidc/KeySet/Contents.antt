-- ===== src/Oidc/KeySet/Contents.antt =====
-- What parseJWKSKeys makes of a list of raw keys.
use kro_lab.Prelude.{
  String, ◌≡◌, ◌≢◌, ◌⊎◌, ◌↔◌, refl, sym, ◌∙◌, true, false, ◌==◌, eq_iff, Option, none, some, List,
  [], ◌∷◌, arith, inl, inr, Bool-cases, if◌then◌else◌, All,
}
use kro_lab.Prelude.Dict.{lookup, insert, lookup-insert}
use kro_lab.Kube.Value.{Value}
use kro_lab.Oidc.Error.{Result, ok, err, bind, wrap_error}
use kro_lab.Oidc.Jwk.{PublicKey, parse_jwk}
use kro_lab.Oidc.KeySet.{KeySet, key_id, add_key, parse_one, parse_each, parse_jwks_keys}

-- The key of a raw key, if it can be read.
readable : Result PublicKey → Option PublicKey
readable (ok key) = some key
readable (err e) = none

or_else : Option PublicKey → Option PublicKey → Option PublicKey
or_else (some key) other = some key
or_else none other = other

-- The key that a raw key publishes under an id.
offered : String → Value → Option PublicKey
unfolding readable
offered k raw = if key_id raw == k then if k == "" then none else readable (parse_jwk raw) else none

-- The key that a list publishes under an id: that of the last raw key with this id.
unfoldable pub published : String → List Value → Option PublicKey
unfolding offered or_else
published k [] = none
published k (raw ∷ raws) = or_else (published k raws) (offered k raw)

-- The raw key has no id or can be read.
abbrev pub IsReadable : Value → Type 0
IsReadable raw = (key_id raw ≡ "") ⊎ ((key : PublicKey) × (parse_jwk raw ≡ ok key))

or_else_assoc : (a b c : Option PublicKey) → or_else (or_else a b) c ≡ or_else a (or_else b c)
unfolding or_else
or_else_assoc (some key) b c = refl
or_else_assoc none b c = refl

or_else-none : (a : Option PublicKey) → or_else a none ≡ a
unfolding or_else
or_else-none (some key) = refl
or_else-none none = refl

add_key-ok :
    (kid : String) (r : Result PublicKey) (set next : KeySet)
    → add_key kid r set ≡ ok next
    → (key : PublicKey) × (r ≡ ok key) × (next ≡ insert kid key set)
unfolding add_key bind wrap_error
add_key-ok kid (err e) set next h = absurd (ground arith)
add_key-ok kid (ok key) set next h = (key, refl, ground arith)

ok-injective : (a b : KeySet) → ok a ≡ ok b → b ≡ a
ok-injective a b e = ground arith

offered-bare :
    (k : String) (raw : Value) (set next : KeySet)
    → (key_id raw == "") ≡ true
    → ok set ≡ ok next
    → lookup k next ≡ or_else (offered k raw) (lookup k set)
unfolding offered or_else
offered-bare k raw set next h e =
    rw (ok-injective set next e)
      (ground (arith, eq_iff (key_id raw) k, eq_iff (key_id raw) "", eq_iff k ""))

offered-named :
    (k : String) (raw : Value) (set : KeySet) (key : PublicKey)
    → (key_id raw == "") ≡ false
    → parse_jwk raw ≡ ok key
    → (if key_id raw == k then some key else lookup k set) ≡ or_else (offered k raw) (lookup k set)
unfolding offered or_else readable
offered-named k raw set key h e =
    ground (arith, eq_iff (key_id raw) k, eq_iff (key_id raw) "", eq_iff k "")

bind-ok :
    (r : Result KeySet) (f : KeySet → Result KeySet) (out : KeySet)
    → bind r f ≡ ok out
    → (next : KeySet) × (r ≡ ok next) × (f next ≡ ok out)
unfolding bind
bind-ok (err e) f out h = absurd (ground arith)
bind-ok (ok next) f out h = (next, refl, h)

parse_one-ok :
    (raw : Value) (set next : KeySet)
    → parse_one raw set ≡ ok next
    → ((k : String) → lookup k next ≡ or_else (offered k raw) (lookup k set)) × IsReadable raw
unfolding parse_one
parse_one-ok raw set next h = elim (Bool-cases (key_id raw == "")) [
  | inl bare ↦
      (λ k. offered-bare k raw set next bare (rw bare at h), inl ((eq_iff (key_id raw) "").0 bare))
  | inr named ↦
      let (key, e, f) = add_key-ok (key_id raw) (parse_jwk raw) set next (rw named at h) in
      (λ k. rw (f, lookup-insert) (offered-named k raw set key named e), inr (key, e))
]

-- The loop ends with a set only where every raw key with an id can be read, and then each id has
-- the key that the list publishes last, or else the one it had.
parse_each-ok :
    (raws : List Value) (set out : KeySet)
    → parse_each raws set ≡ ok out
    → ((k : String) → lookup k out ≡ or_else (published k raws) (lookup k set))
      × All IsReadable raws
unfolding parse_each published or_else
parse_each-ok [] set out h = (λ k. rw (ok-injective set out h) refl, tt)
parse_each-ok (raw ∷ raws) set out h =
    let (next, e, f) = bind-ok (parse_one raw set) (parse_each raws) out h in
    let (here, fine) = parse_one-ok raw set next e in
    let (rest, others) = parse_each-ok raws next out f in
    (
      λ k.
          rest k
          ∙ rw (here k) (sym (or_else_assoc (published k raws) (offered k raw) (lookup k set))),
      (fine, others),
    )

parse_one-readable :
    (raw : Value) (set : KeySet) → IsReadable raw → (next : KeySet) × (parse_one raw set ≡ ok next)
unfolding parse_one add_key bind wrap_error
parse_one-readable raw set (inl bare) = (set, rw bare refl)
parse_one-readable raw set (inr (key, e)) = elim (Bool-cases (key_id raw == "")) [
  | inl bare ↦ (set, rw bare refl)
  | inr named ↦ (insert (key_id raw) key set, rw (named, e) refl)
]

parse_each-readable :
    (raws : List Value) (set : KeySet)
    → All IsReadable raws
    → (out : KeySet) × (parse_each raws set ≡ ok out)
unfolding parse_each bind
parse_each-readable [] set h = (set, refl)
parse_each-readable (raw ∷ raws) set h =
    let (next, e) = parse_one-readable raw set h.0 in
    let (out, f) = parse_each-readable raws next h.1 in (out, rw e f)

-- A set that is read from raw keys has, under each id, the key that the list publishes last under
-- it, and no key under the empty id or under an id that no raw key has.
pub parse_jwks_keys_contents :
    (raws : List Value) (out : KeySet)
    → parse_jwks_keys raws ≡ ok out
    → (k : String) → lookup k out ≡ published k raws
unfolding parse_jwks_keys
parse_jwks_keys_contents [] out h k = absurd (ground arith)
parse_jwks_keys_contents (raw ∷ raws) out h k =
    (parse_each-ok (raw ∷ raws) [] out h).0 k ∙ or_else-none (published k (raw ∷ raws))

-- Raw keys are read into a set exactly if there is one and each that has an id can be read: one
-- key of an unsupported type is enough to refuse all of them.
pub parse_jwks_keys_iff :
    (raws : List Value)
    → ((out : KeySet) × (parse_jwks_keys raws ≡ ok out)) ↔ ((raws ≢ []) × All IsReadable raws)
unfolding parse_jwks_keys
parse_jwks_keys_iff [] = (λ h. absurd (ground arith), λ h. absurd (h.0 refl))
parse_jwks_keys_iff (raw ∷ raws) = (
  λ h. ((λ e. cc), (parse_each-ok (raw ∷ raws) [] h.0 h.1).1),
  λ h. parse_each-readable (raw ∷ raws) [] h.1,
)
