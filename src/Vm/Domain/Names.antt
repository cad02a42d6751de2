-- ===== src/Vm/Domain/Names.antt =====
-- VM names and their indexes.
use kro_lab.Prelude.{
  ℕ, zero, suc, ◌<◌, String, ◌<>◌, ◌≡◌, refl, ◌∙◌, sym, ap, Option, some, arith, ℤ, pos, length,
  cut_prefix-append,
}
use kro_lab.Prelude.Decimal.{atoi, atoi-decimal, int_limit, decimal_int}
use kro_lab.Vm.Domain.{vm_name, vm_index, names_from}

atoi-decimal_int : (i : ℕ) → i < int_limit → atoi (decimal_int (pos i)) ≡ some (pos i)
unfolding decimal_int
atoi-decimal_int i h = atoi-decimal i h

-- The index of the name that is built for an index is that index, for every Go `int` from 0 up.
pub vm_index-vm_name :
    (request : String) (i : ℕ)
    → i < int_limit
    → vm_index request (vm_name request (pos i)) ≡ some (pos i)
unfolding vm_index vm_name
vm_index-vm_name request i h =
    ground (arith, cut_prefix-append (request <> "-") (decimal_int (pos i)), atoi-decimal_int i h)

index_of : Option ℤ → ℕ
index_of (some (pos n)) = n
index_of _ = 0

pub vm_name_injective :
    (request : String) (i j : ℕ)
    → i < int_limit
    → j < int_limit
    → vm_name request (pos i) ≡ vm_name request (pos j)
    → i ≡ j
unfolding index_of
vm_name_injective request i j h k e =
    ap index_of
      (sym (vm_index-vm_name request i h) ∙ ap (vm_index request) e ∙ vm_index-vm_name request j k)

pub length-names_from : (request : String) (i n : ℕ) → length (names_from request i n) ≡ n
unfolding names_from
length-names_from request i zero = refl
length-names_from request i (suc n) = ap suc (length-names_from request (suc i) n)
