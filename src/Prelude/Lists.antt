-- ===== src/Prelude/Lists.antt =====
-- Lists of names, as the program's `map[string]bool` sets, and predicates on all elements.
use Prim.Native.Nat.{ℕ, suc}
use Prim.Native.String.{String}
use mathlib.Core.Path.{◌≡◌, refl, ◌∙◌}
use mathlib.Core.Bool.{Bool, true, false, not, ◌&&◌, ◌||◌}
use mathlib.Core.Logic.{∥∥₁_elim, inl, inr}
use mathlib.Core.List.{List, [], ◌∷◌, ◌++◌, Perm, Permᴰ}
use native.Mathlib.Omega.{arith}
use text.Mathlib.Text.{◌==◌}
use text.Mathlib.TextEquality.{eq_iff}
use kro_lab.Prelude.Tests.{if◌then◌else◌, Bool-cases}

module _ {ℓ} {A : Type ℓ} where
  abbrev pub length : List A → ℕ
  length [] = 0
  length (x ∷ xs) = suc (length xs)

  abbrev pub All {κ} : (A → Type κ) → List A → Type κ
  All P [] = Unit
  All P (x ∷ xs) = P x × All P xs

unfoldable pub contains : List String → String → Bool
contains [] a = false
contains (x ∷ xs) a = x == a || contains xs a

pub contains-append :
    (xs ys : List String) (a : String) → contains (xs ++ ys) a ≡ (contains xs a || contains ys a)
unfolding contains
contains-append [] ys a = refl
contains-append (x ∷ xs) ys a = ground (arith, contains-append xs ys a)

-- toSet: the distinct names.
unfoldable pub to_set : List String → List String
unfolding contains
to_set [] = []
to_set (x ∷ xs) = let rest = to_set xs in if contains rest x then rest else x ∷ rest

pub contains-to_set : (xs : List String) (a : String) → contains (to_set xs) a ≡ contains xs a
unfolding to_set
contains-to_set [] a = refl
contains-to_set (x ∷ xs) a = ground (arith, contains-to_set xs a, contains-to_set xs x, eq_iff x a)

-- The names that a set lacks, in their order.
unfoldable pub missing_from : List String → List String → List String
unfolding contains
missing_from set [] = []
missing_from set (x ∷ xs) =
    let rest = missing_from set xs in if contains set x then rest else x ∷ rest

pub contains-missing_from :
    (set xs : List String) (a : String)
    → contains (missing_from set xs) a ≡ (contains xs a && not (contains set a))
unfolding missing_from
contains-missing_from set [] a = refl
contains-missing_from set (x ∷ xs) a = ground (arith, contains-missing_from set xs a, eq_iff x a)

-- The order in which Go ranges over a map is not specified: it is a permutation of the keys.
pub record IsRange (iterate : List String → List String) : Type 0 where
  pub perm : (xs : List String) → Perm (iterate xs) xs

contains-Permᴰ : {xs ys : List String} → Permᴰ xs ys → (a : String) → contains xs a ≡ contains ys a
unfolding contains
contains-Permᴰ Permᴰ.nil a = refl
contains-Permᴰ (Permᴰ.cons e p) a = cc (e, contains-Permᴰ p a)
contains-Permᴰ (Permᴰ.swap {l = l} e f) a = rw (e, f) (ground arith)
contains-Permᴰ (Permᴰ.trans p q) a = contains-Permᴰ p a ∙ contains-Permᴰ q a

pub contains-perm :
    {xs ys : List String} → Perm xs ys → (a : String) → contains xs a ≡ contains ys a
contains-perm p a = ∥∥₁_elim p (hlevel) (λ d. contains-Permᴰ d a)

pub All-contains {κ} :
    (P : String → Type κ) (xs : List String) (a : String) → All P xs → contains xs a ≡ true → P a
unfolding contains
All-contains P [] a h e = absurd (ground arith)
All-contains P (x ∷ xs) a h e = elim (Bool-cases (x == a)) [
  | inl same ↦ rw (← (eq_iff x a).0 same) h.0
  | inr other ↦ All-contains P xs a h.1 (ground arith)
]
