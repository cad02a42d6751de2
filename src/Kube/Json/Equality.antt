-- ===== src/Kube/Json/Equality.antt =====
-- `json_eq` decides equality, and numbers that are whole are written alike as int64 and float64.
use kro_lab.Prelude.{
  ℕ, ◌^◌, ◌<◌, ◌≡◌, refl, ap, true, List, [], ◌∷◌, arith, eq_iff, eq_refl, pos, negsuc,
}
use kro_lab.Kube.Value.{int, float}
use kro_lab.Kube.Json.{
  Token, open_map, close_map, open_list, close_list, colon, comma, null_word, true_word, false_word,
  quoted, number, scientific, token_eq, json_eq, marshal,
}

token_eq-true : (a b : Token) → token_eq a b ≡ true → a ≡ b
unfolding token_eq
token_eq-true (quoted s) (quoted t) h = ap quoted ((eq_iff s t).0 h)
token_eq-true (number (pos n)) (number (pos m)) h = ground arith
token_eq-true (number (negsuc n)) (number (negsuc m)) h = ground arith
token_eq-true (scientific (pos n) k) (scientific (pos m) l) h = ground arith
token_eq-true (scientific (negsuc n) k) (scientific (negsuc m) l) h = ground arith
token_eq-true open_map open_map h = refl
token_eq-true close_map close_map h = refl
token_eq-true open_list open_list h = refl
token_eq-true close_list close_list h = refl
token_eq-true colon colon h = refl
token_eq-true comma comma h = refl
token_eq-true null_word null_word h = refl
token_eq-true true_word true_word h = refl
token_eq-true false_word false_word h = refl
token_eq-true _ _ h = cc

token_eq_refl : (a : Token) → token_eq a a ≡ true
unfolding token_eq
token_eq_refl (quoted s) = eq_refl s
token_eq_refl (number (pos n)) = ground arith
token_eq_refl (number (negsuc n)) = ground arith
token_eq_refl (scientific (pos n) k) = ground arith
token_eq_refl (scientific (negsuc n) k) = ground arith
token_eq_refl _ = refl

pub json_eq_refl : (xs : List Token) → json_eq xs xs ≡ true
unfolding json_eq
json_eq_refl [] = refl
json_eq_refl (x ∷ xs) = ground (arith, token_eq_refl x, json_eq_refl xs)

pub json_eq-true : (xs ys : List Token) → json_eq xs ys ≡ true → xs ≡ ys
unfolding json_eq
json_eq-true [] [] h = refl
json_eq-true [] (y ∷ ys) h = cc
json_eq-true (x ∷ xs) [] h = cc
json_eq-true (x ∷ xs) (y ∷ ys) h = ground (arith, token_eq-true x y, json_eq-true xs ys)

-- A count that is read back as a float64 has the JSON text of the int64 that was written.
pub marshal-float : (n : ℕ) → n < 10 ^ 21 → marshal (float (pos n) 0) ≡ marshal (int (pos n))
unfolding marshal
marshal-float n h = ground arith
