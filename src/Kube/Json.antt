-- ===== src/Kube/Json.antt =====
-- encoding/json.Marshal as a list of tokens. Texts stay whole: quoting tells different texts apart.
pub mod Equality
use kro_lab.Prelude.{
  ℕ, zero, suc, ◌+◌, ◌-◌, ◌/◌, ◌%◌, ◌^◌, ◌<◌, String, ◌≡◌, refl, Bool, true, false, not, ◌&&◌, List,
  [], ◌∷◌, ◌++◌, ◌==◌, arith, ℤ, pos, negsuc, nat_eq, ltb, if◌then◌else◌, str_lt,
}
use kro_lab.Prelude.Sort.{sort_by}
use kro_lab.Kube.Value.{
  Value, null, bool, int, float, str, obj, arr, Fields, end, field, Items, nil, item,
}

pub data Token : Type 0 where
  open_map close_map open_list close_list colon comma null_word true_word false_word : Token
  quoted : String → Token
  number : ℤ → Token
  scientific : ℤ → ℕ → Token

magnitude : ℤ → ℕ
magnitude (pos n) = n
magnitude (negsuc n) = n + 1

is_even : ℤ → Bool
unfolding magnitude
is_even m = nat_eq (magnitude m % 2) 0

half : ℤ → ℤ
half (pos n) = pos (n / 2)
half (negsuc n) = negsuc ((n + 1) / 2 - 1)

-- The whole numbers below 10^21 are written with all their digits, as an int64 is.
float_token : ℤ → ℕ → Token
unfolding magnitude is_even half
float_token m zero = if ltb (magnitude m) (10 ^ 21) then number m else scientific m 0
float_token m (suc k) =
    let rest = float_token (half m) k in if is_even m then rest else scientific m (suc k)

key_before : String × List Token → String × List Token → Bool
key_before (k, _) (j, _) = str_lt k j

-- The members of a map, in the order of their keys.
join_entries : List (String × List Token) → List Token
join_entries [] = []
join_entries ((k, v) ∷ []) = quoted k ∷ colon ∷ v
join_entries ((k, v) ∷ rest) = (quoted k ∷ colon ∷ v) ++ (comma ∷ join_entries rest)

join_items : List (List Token) → List Token
join_items [] = []
join_items (v ∷ []) = v
join_items (v ∷ rest) = v ++ (comma ∷ join_items rest)

unfoldable mutual
  unfolding float_token key_before join_entries join_items

  pub marshal : Value → List Token
  marshal null = null_word ∷ []
  marshal (bool true) = true_word ∷ []
  marshal (bool false) = false_word ∷ []
  marshal (int n) = number n ∷ []
  marshal (float m k) = float_token m k ∷ []
  marshal (str s) = quoted s ∷ []
  marshal (obj fs) =
      open_map ∷ join_entries (sort_by key_before (marshal_fields fs)) ++ (close_map ∷ [])
  marshal (arr xs) = open_list ∷ join_items (marshal_items xs) ++ (close_list ∷ [])

  marshal_fields : Fields → List (String × List Token)
  marshal_fields end = []
  marshal_fields (field k v fs) = (k, marshal v) ∷ marshal_fields fs

  marshal_items : Items → List (List Token)
  marshal_items nil = []
  marshal_items (item v xs) = marshal v ∷ marshal_items xs

-- string(a) == string(b)
token_eq : Token → Token → Bool
token_eq open_map open_map = true
token_eq close_map close_map = true
token_eq open_list open_list = true
token_eq close_list close_list = true
token_eq colon colon = true
token_eq comma comma = true
token_eq null_word null_word = true
token_eq true_word true_word = true
token_eq false_word false_word = true
token_eq (quoted s) (quoted t) = s == t
token_eq (number (pos n)) (number (pos m)) = nat_eq n m
token_eq (number (negsuc n)) (number (negsuc m)) = nat_eq n m
token_eq (scientific (pos n) k) (scientific (pos m) l) = nat_eq n m && nat_eq k l
token_eq (scientific (negsuc n) k) (scientific (negsuc m) l) = nat_eq n m && nat_eq k l
token_eq _ _ = false

unfoldable pub json_eq : List Token → List Token → Bool
unfolding token_eq
json_eq [] [] = true
json_eq (a ∷ xs) (b ∷ ys) = token_eq a b && json_eq xs ys
json_eq _ _ = false
