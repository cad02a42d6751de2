-- ===== src/Oidc/KeySet/Merging.antt =====
-- Copying one set of keys into another, in whatever order the keys come.
use kro_lab.Prelude.{
  String, ◌≡◌, refl, ◌∙◌, true, false, ◌&&◌, ◌==◌, eq_iff, Option, none, some, List, [], ◌∷◌, arith,
  if◌then◌else◌, contains, contains-perm, IsRange,
}
use mathlib.Core.Path.{fun_ext}
use kro_lab.Prelude.Dict.{lookup, keys, has_key, lookup-insert, contains-keys}
use kro_lab.Oidc.Jwk.{PublicKey}
use kro_lab.Oidc.KeySet.{KeySet, copy_key, copy_keys, merge}

-- A set of keys as a function from ids.
abbrev pub View : Type 0
View = String → Option PublicKey

abbrev pub view : KeySet → View
view set k = lookup k set

-- The keys of `new`, and those of `old` under the other ids.
unfoldable pub override : View → View → View
override new old k = elim (new k) [ some key ↦ some key | none ↦ old k ]

lookup-copy_key :
    (j k : String) (o : Option PublicKey) (from to : KeySet)
    → lookup j from ≡ o
    → lookup k (copy_key j o to) ≡ (if j == k && has_key k from then lookup k from else lookup k to)
unfolding has_key copy_key
lookup-copy_key j k none from to e = ground (arith, eq_iff j k)
lookup-copy_key j k (some key) from to e = ground (arith, eq_iff j k, lookup-insert j k key to)

lookup-copy_keys :
    (ks : List String) (from to : KeySet) (k : String)
    → lookup k (copy_keys ks from to)
      ≡ (if contains ks k && has_key k from then lookup k from else lookup k to)
unfolding copy_keys contains
lookup-copy_keys [] from to k = refl
lookup-copy_keys (j ∷ ks) from to k = ground (
  arith,
  lookup-copy_keys ks from (copy_key j (lookup j from) to) k,
  lookup-copy_key j k (lookup j from) from to refl,
)

has_key-override :
    (k : String) (from to : KeySet)
    → (if has_key k from && has_key k from then lookup k from else lookup k to)
      ≡ override (view from) (view to) k
unfolding has_key override
has_key-override k from to = go (lookup k from)
  where
    go :
        (o : Option PublicKey)
        → (if elim o [ none ↦ false | some v ↦ true ] && elim o [ none ↦ false | some v ↦ true ]
            then o
            else lookup k to)
          ≡ elim o [ some key ↦ some key | none ↦ lookup k to ]
    go none = refl
    go (some key) = refl

-- Merging refines the override of one map by another, whatever the order in which the keys are
-- visited.
pub view-merge :
    (iterate : List String → List String)
    → IsRange iterate
    → (from to : KeySet) → view (merge iterate from to) ≡ override (view from) (view to)
unfolding merge
view-merge iterate range from to = fun_ext (λ k.
    lookup-copy_keys (iterate (keys from)) from to k
    ∙ rw (contains-perm (range.perm (keys from)) k, contains-keys from k)
        (has_key-override k from to))
