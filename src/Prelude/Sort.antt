-- ===== src/Prelude/Sort.antt =====
-- sort.Slice and sort.Strings, as an insertion sort by the caller's `less`.
use Prim.Native.String.{String}
use mathlib.Core.Path.{◌≡◌}
use mathlib.Core.Bool.{Bool, true, false, ◌||◌}
use mathlib.Core.Logic.{inl, inr}
use mathlib.Core.List.{List, [], ◌∷◌}
use native.Mathlib.Omega.{arith}
use text.Mathlib.Text.{◌==◌}
use kro_lab.Prelude.Tests.{Bool-cases, if◌then◌else◌}
use kro_lab.Prelude.Lists.{All, contains}

module _ {ℓ} {A : Type ℓ} (less : A → A → Bool) where
  insert_by : A → List A → List A
  insert_by x [] = x ∷ []
  insert_by x (y ∷ ys) = if less y x then y ∷ insert_by x ys else x ∷ y ∷ ys

  unfoldable pub sort_by : List A → List A
  unfolding insert_by
  sort_by [] = []
  sort_by (x ∷ xs) = insert_by x (sort_by xs)

  -- No element is below one that stands before it.
  abbrev pub IsSortedBy : List A → Type 0
  IsSortedBy [] = Unit
  IsSortedBy (x ∷ xs) = All (λ y. less y x ≡ false) xs × IsSortedBy xs

-- What a `less` has to satisfy for the sort to order by it.
pub record IsOrder {ℓ} {A : Type ℓ} (less : A → A → Bool) : Type ℓ where
  pub asymm : (a b : A) → less a b ≡ true → less b a ≡ false
  pub cotrans : (a b c : A) → less b a ≡ false → less c b ≡ false → less c a ≡ false

module _ {ℓ} {A : Type ℓ} (less : A → A → Bool) (order : IsOrder less) where
  All-cotrans :
      (x y : A) (ys : List A)
      → less y x ≡ false
      → All (λ z. less z y ≡ false) ys
      → All (λ z. less z x ≡ false) ys
  All-cotrans x y [] h k = tt
  All-cotrans x y (z ∷ ys) h k = (order.cotrans x y z h k.0, All-cotrans x y ys h k.1)

  All-insert_by :
      (P : A → Type 0) (x : A) (ys : List A) → P x → All P ys → All P (insert_by less x ys)
  unfolding insert_by
  All-insert_by P x [] h k = (h, tt)
  All-insert_by P x (y ∷ ys) h k = elim (Bool-cases (less y x)) [
    | inl below ↦ rw below (k.0, All-insert_by P x ys h k.1)
    | inr above ↦ rw above (h, k)
  ]

  insert_by-IsSortedBy :
      (x : A) (ys : List A) → IsSortedBy less ys → IsSortedBy less (insert_by less x ys)
  unfolding insert_by
  insert_by-IsSortedBy x [] h = (tt, tt)
  insert_by-IsSortedBy x (y ∷ ys) h = elim (Bool-cases (less y x)) [
    | inl below ↦ rw below (
      All-insert_by (λ z. less z y ≡ false) x ys (order.asymm y x below) h.0,
      insert_by-IsSortedBy x ys h.1,
    )
    | inr above ↦ rw above ((above, All-cotrans x y ys above h.0), h)
  ]

  pub sort_by-IsSortedBy : (xs : List A) → IsSortedBy less (sort_by less xs)
  unfolding sort_by
  sort_by-IsSortedBy [] = tt
  sort_by-IsSortedBy (x ∷ xs) = insert_by-IsSortedBy x (sort_by less xs) (sort_by-IsSortedBy xs)

contains-insert_by :
    (less : String → String → Bool) (x : String) (ys : List String) (a : String)
    → contains (insert_by less x ys) a ≡ (x == a || contains ys a)
unfolding insert_by contains
contains-insert_by less x [] a = ground arith
contains-insert_by less x (y ∷ ys) a = ground (arith, contains-insert_by less x ys a)

-- Sorting neither drops nor adds a name.
pub contains-sort_by :
    (less : String → String → Bool) (xs : List String) (a : String)
    → contains (sort_by less xs) a ≡ contains xs a
unfolding sort_by contains
contains-sort_by less [] a = ground arith
contains-sort_by less (x ∷ xs) a =
    ground (arith, contains-insert_by less x (sort_by less xs) a, contains-sort_by less xs a)
