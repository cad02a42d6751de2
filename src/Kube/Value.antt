-- ===== src/Kube/Value.antt =====
-- The values of an untyped object: Go's `interface{}` as the controllers build and read it.
use kro_lab.Prelude.{
  ℕ, ◌+◌, ◌-◌, ◌/◌, ◌^◌, String, ◌≡◌, refl, Bool, Option, some, none, List, [], ◌∷◌, ◌==◌, eq_iff,
  arith, ℤ, pos, negsuc, nat_eq, if◌then◌else◌,
}
use kro_lab.Prelude.Dict.{Dict}

-- `float m k` is the float64 of value m / 2^k: every finite one has this form.
mutual
  pub data Value : Type 0 where
    null : Value
    bool : Bool → Value
    int : ℤ → Value
    float : ℤ → ℕ → Value
    str : String → Value
    obj : Fields → Value
    arr : Items → Value

  pub data Fields : Type 0 where
    end : Fields
    field : String → Value → Fields → Fields

  pub data Items : Type 0 where
    nil : Items
    item : Value → Items → Items

unfoldable pub get_field : String → Fields → Option Value
get_field k end = none
get_field k (field j v fs) = if j == k then some v else get_field k fs

unfoldable pub set_field : String → Value → Fields → Fields
set_field k v end = field k v end
set_field k v (field j w fs) = if j == k then field k v fs else field j w (set_field k v fs)

pub get_field-set_field :
    (k j : String) (v : Value) (fs : Fields)
    → get_field j (set_field k v fs) ≡ (if k == j then some v else get_field j fs)
unfolding get_field set_field
get_field-set_field k j v end = refl
get_field-set_field k j v (field i w fs) =
    ground (arith, eq_iff k j, eq_iff i k, eq_iff i j, get_field-set_field k j v fs)

-- A map literal.
abbrev pub fields : List (String × Value) → Fields
fields [] = end
fields ((k, v) ∷ rest) = field k v (fields rest)

abbrev pub items : List Value → Items
items [] = nil
items (v ∷ rest) = item v (items rest)

-- The entries of a text map as values.
unfoldable pub strings : Dict String → Fields
strings [] = end
strings ((k, v) ∷ d) = field k (str v) (strings d)

-- int64(n) of a float64: truncation towards zero.
unfoldable pub truncate : ℤ → ℕ → ℤ
truncate (pos n) k = pos (n / 2 ^ k)
truncate (negsuc n) k = let q = (n + 1) / 2 ^ k in if nat_eq q 0 then pos 0 else negsuc (q - 1)
