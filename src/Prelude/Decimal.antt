-- ===== src/Prelude/Decimal.antt =====
-- Decimal numbers: fmt's `%d` of a number, and strconv.Atoi.
use Prim.Native.Char.{Char, code}
use Prim.Native.String.{String, [], ◌∷◌, ◌++◌}
use Prim.Native.Nat.{ℕ, zero, suc, ◌+◌, ◌-◌, ◌*◌, ◌/◌, ◌%◌, ◌^◌, ◌<◌}
use mathlib.Core.Path.{◌≡◌, refl}
use mathlib.Core.Bool.{Bool, true, false, ◌&&◌}
use mathlib.Core.Option.{Option, none, some}
use native.Mathlib.Omega.{arith}
use kro_lab.Prelude.Tests.{ltb, leb, nat_eq, if◌then◌else◌, Bool-cases}
use mathlib.Core.Logic.{inl, inr}
use kro_lab.Prelude.Int.{ℤ, pos, negsuc}

pub digit : ℕ → Char
digit zero = "0"
digit (suc zero) = "1"
digit (suc (suc zero)) = "2"
digit (suc (suc (suc zero))) = "3"
digit (suc (suc (suc (suc zero)))) = "4"
digit (suc (suc (suc (suc (suc zero))))) = "5"
digit (suc (suc (suc (suc (suc (suc zero)))))) = "6"
digit (suc (suc (suc (suc (suc (suc (suc zero))))))) = "7"
digit (suc (suc (suc (suc (suc (suc (suc (suc zero)))))))) = "8"
digit _ = "9"

pub code-digit : (n : ℕ) → n < 10 → code (digit n) ≡ 48 + n
unfolding digit
code-digit zero h = refl
code-digit (suc zero) h = refl
code-digit (suc (suc zero)) h = refl
code-digit (suc (suc (suc zero))) h = refl
code-digit (suc (suc (suc (suc zero)))) h = refl
code-digit (suc (suc (suc (suc (suc zero))))) h = refl
code-digit (suc (suc (suc (suc (suc (suc zero)))))) h = refl
code-digit (suc (suc (suc (suc (suc (suc (suc zero))))))) h = refl
code-digit (suc (suc (suc (suc (suc (suc (suc (suc zero)))))))) h = refl
code-digit (suc (suc (suc (suc (suc (suc (suc (suc (suc n))))))))) h = omega arith

unfoldable pub decimal_loop : ℕ → ℕ → String → String
unfolding digit
decimal_loop zero n acc = acc
decimal_loop (suc fuel) n acc =
    let rest = decimal_loop fuel (n / 10) (digit (n % 10) ∷ acc) in
    if ltb n 10 then digit n ∷ acc else rest

-- The digits of a number; each round drops one, so `n + 1` rounds suffice.
unfoldable pub decimal : ℕ → String
unfolding decimal_loop
decimal n = decimal_loop (suc n) n ""

-- `%d` of a signed number.
unfoldable pub decimal_int : ℤ → String
unfolding decimal
decimal_int (pos n) = decimal n
decimal_int (negsuc n) = "-" ++ decimal (suc n)

scan_digits : String → ℕ → Option ℕ
scan_digits [] n = some n
scan_digits (c ∷ s) n =
    if leb 48 (code c) && leb (code c) 57 then scan_digits s (n * 10 + (code c - 48)) else none

abbrev pub int_limit : ℕ
int_limit = 2 ^ 63

-- The range check of a 64-bit int, behind the sign.
in_range : Bool → Option ℕ → Option ℤ
in_range minus none = none
in_range false (some n) = if ltb n int_limit then some (pos n) else none
in_range true (some zero) = some (pos 0)
in_range true (some (suc n)) = if ltb n int_limit then some (negsuc n) else none

unsigned : Bool → String → Option ℤ
unfolding scan_digits in_range
unsigned minus [] = none
unsigned minus (c ∷ s) = in_range minus (scan_digits (c ∷ s) 0)

-- strconv.Atoi: an optional sign and decimal digits; `none` is the error.
unfoldable pub atoi : String → Option ℤ
unfolding unsigned
atoi [] = none
atoi (c ∷ s) =
    if nat_eq (code c) b'-'
    then unsigned true s
    else if nat_eq (code c) b'+'
    then unsigned false s
    else unsigned false (c ∷ s)

atoi_tests :
    (atoi "42" ≡ some (pos 42))
    × (atoi "-7" ≡ some (negsuc 6))
    × (atoi "" ≡ none)
    × (atoi "1x" ≡ none)
unfolding atoi
atoi_tests = (refl, refl, refl, refl)

decimal_tests : decimal 1203 ≡ "1203"
unfolding decimal
decimal_tests = refl

scan_digits-digit :
    (d n : ℕ) (acc : String) → d < 10 → scan_digits (digit d ∷ acc) n ≡ scan_digits acc (n * 10 + d)
unfolding scan_digits
scan_digits-digit d n acc h = rw (code-digit d h) (ground arith)

scan_digits-decimal_loop :
    (fuel n : ℕ) (acc : String)
    → n < fuel
    → scan_digits (decimal_loop fuel n acc) 0 ≡ scan_digits acc n
unfolding decimal_loop
scan_digits-decimal_loop zero n acc h = absurd (omega arith)
scan_digits-decimal_loop (suc fuel) n acc h = ground (
  arith,
  scan_digits-digit n 0 acc,
  scan_digits-digit (n % 10) (n / 10) acc,
  scan_digits-decimal_loop fuel (n / 10) (digit (n % 10) ∷ acc),
)

scan_digits-decimal : (n : ℕ) → scan_digits (decimal_loop (suc n) n "") 0 ≡ some n
unfolding scan_digits
scan_digits-decimal n = scan_digits-decimal_loop (suc n) n "" (omega arith)

-- A digit comes first.
pub decimal_loop-cons :
    (fuel n : ℕ) (acc : String)
    → n < fuel
    → (d : ℕ) × (t : String) × (d < 10) × (decimal_loop fuel n acc ≡ digit d ∷ t)
unfolding decimal_loop
decimal_loop-cons zero n acc h = absurd (omega arith)
decimal_loop-cons (suc fuel) n acc h = elim (Bool-cases (ltb n 10)) [
  | inl small ↦ (n, acc, ground arith, rw small)
  | inr large ↦ rw large (decimal_loop-cons fuel (n / 10) (digit (n % 10) ∷ acc) (ground arith))
]

atoi-digit :
    (d n : ℕ) (t : String)
    → d < 10
    → scan_digits (digit d ∷ t) 0 ≡ some n
    → n < int_limit
    → atoi (digit d ∷ t) ≡ some (pos n)
unfolding atoi
atoi-digit d n t h e k = ground (arith, code-digit d)

-- Reading back a printed number gives the number, up to the largest `int`.
pub atoi-decimal : (n : ℕ) → n < int_limit → atoi (decimal n) ≡ some (pos n)
unfolding decimal
atoi-decimal n h =
    let (d, t, small, e) = decimal_loop-cons (suc n) n "" (omega arith) in
    rw e (atoi-digit d n t small (rw e at (scan_digits-decimal n)) h)
