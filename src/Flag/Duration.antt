-- ===== src/Flag/Duration.antt =====
-- Go's time.ParseDuration. The float64 product that a fraction stands for is a parameter:
-- `fraction f k unit` is uint64(float64(f) * (float64(unit) / 10^k)).
pub mod Fuel
pub mod Roundtrip
use Prim.Native.Char.{Char, code}
use Prim.Native.String.{[], ◌∷◌}
use kro_lab.Prelude.{
  ℕ, zero, suc, ◌+◌, ◌-◌, ◌*◌, ◌/◌, ◌%◌, ◌^◌, String, ◌==◌, Bool, true, false, not, ◌&&◌, ◌||◌,
  Option, none, some, nat_eq, leb, ltb, if◌then◌else◌, ℤ, pos, negsuc, ◌≡◌, refl,
}

abbrev pub limit : ℕ
limit = 2 ^ 63

is_digit : Char → Bool
is_digit c = leb 48 (code c) && leb (code c) 57

begins_with_digit : String → Bool
unfolding is_digit
begins_with_digit [] = false
begins_with_digit (c ∷ s) = is_digit c

abbrev pub size : String → ℕ
size [] = 0
size (c ∷ s) = suc (size s)

negated : ℕ → ℤ
negated zero = pos 0
negated (suc n) = negsuc n

-- The number at the head of a text and the rest of it, `none` on overflow.
leading_int : ℕ → String → Option (ℕ × String)
unfolding is_digit
leading_int x [] = some (x, [])
leading_int x (c ∷ s) =
    let y = x * 10 + (code c - 48) in
    let rest = leading_int y s in
    if is_digit c then if ltb (limit / 10) x || ltb limit y then none else rest else some (x, c ∷ s)

-- The digits behind the point as a number, how many of them it has, and the rest: digits that would
-- overflow are passed over.
leading_fraction : Bool → ℕ → ℕ → String → ℕ × ℕ × String
unfolding is_digit
leading_fraction overflow x scale [] = (x, scale, [])
leading_fraction overflow x scale (c ∷ s) =
    let y = x * 10 + (code c - 48) in
    let over = overflow || ltb ((limit - 1) / 10) x || ltb limit y in
    let rest =
      leading_fraction over (if over then x else y) (if over then scale else scale + 1) s in
    if is_digit c then rest else (x, scale, c ∷ s)

-- The unit: all before the next digit or point.
split_unit : String → String × String
unfolding is_digit
split_unit [] = ([], [])
split_unit (c ∷ s) =
    let (u, rest) = split_unit s in
    if nat_eq (code c) b'.' || is_digit c then ([], c ∷ s) else (c ∷ u, rest)

-- unitMap; the micro sign and the Greek letter both stand for `u`.
unit_of : String → Option ℕ
unit_of u =
    if u == "ns"
    then some 1
    else if u == "us" || u == "µs" || u == "μs"
    then some (10 ^ 3)
    else if u == "ms"
    then some (10 ^ 6)
    else if u == "s"
    then some (10 ^ 9)
    else if u == "m"
    then some (60 * 10 ^ 9)
    else if u == "h"
    then some (3600 * 10 ^ 9)
    else none

module _ (fraction : ℕ → ℕ → ℕ → ℕ) where
  -- A number `v`, a fraction and a unit as nanoseconds.
  scaled : ℕ → ℕ → ℕ → ℕ → Option ℕ
  scaled v f scale unit =
      let whole = v * unit in
      let total = if ltb 0 f then (whole + fraction f scale unit) % 2 ^ 64 else whole in
      if ltb (limit / unit) v || ltb limit total then none else some total

  with_unit : ℕ → ℕ → ℕ → String × String → Option (ℕ × String)
  unfolding unit_of scaled
  with_unit v f scale (u, rest) = elim (unit_of u) [
    | none ↦ none
    | some unit ↦ elim (scaled v f scale unit) [ none ↦ none | some n ↦ some (n, rest) ]
  ]

  -- Behind the whole part: a point with a fraction, and the unit. `pre` tells that there were digits.
  behind_int : Bool → ℕ × String → Option (ℕ × String)
  unfolding with_unit split_unit leading_fraction begins_with_digit
  behind_int pre (v, []) = none
  behind_int pre (v, c ∷ s) =
      let (f, scale, rest) = leading_fraction false 0 0 s in
      if nat_eq (code c) b'.'
      then if not pre && not (begins_with_digit s)
        then none
        else with_unit v f scale (split_unit rest)
      else if pre
      then with_unit v 0 0 (split_unit (c ∷ s))
      else none

  -- One round of the loop: a number with a unit, in nanoseconds, and the rest.
  unfoldable pub term : String → Option (ℕ × String)
  unfolding leading_int begins_with_digit behind_int
  term s = elim (leading_int 0 s) [
    | none ↦ none
    | some head ↦ behind_int (begins_with_digit s) head
  ]

  unfoldable pub duration_loop : ℕ → String → ℕ → Option ℕ
  unfolding term
  duration_loop fuel [] d = some d
  duration_loop zero (c ∷ s) d = none
  duration_loop (suc fuel) (c ∷ s) d = elim (term (c ∷ s)) [
    | none ↦ none
    | some (v, rest) ↦
        if ltb limit ((d + v) % 2 ^ 64) then none else duration_loop fuel rest ((d + v) % 2 ^ 64)
  ]

  -- Behind the sign.
  unsigned_duration : Bool → String → Option ℤ
  unfolding duration_loop negated
  unsigned_duration neg [] = none
  unsigned_duration neg (c ∷ s) =
      if (c ∷ s) == "0" then some (pos 0) else elim (duration_loop (size (c ∷ s)) (c ∷ s) 0) [
        | none ↦ none
        | some d ↦
            if neg then some (negated d) else if ltb (limit - 1) d then none else some (pos d)
      ]

  unfoldable pub parse_duration : String → Option ℤ
  unfolding unsigned_duration
  parse_duration [] = none
  parse_duration (c ∷ s) =
      if nat_eq (code c) b'-'
      then unsigned_duration true s
      else if nat_eq (code c) b'+'
      then unsigned_duration false s
      else unsigned_duration false (c ∷ s)

abbrev pub no_fraction : ℕ → ℕ → ℕ → ℕ
no_fraction f k unit = f * unit / 10 ^ k

parse_duration_tests :
    (parse_duration no_fraction "30s" ≡ some (pos (30 * 10 ^ 9)))
    × (parse_duration no_fraction "1h2m" ≡ some (pos (3720 * 10 ^ 9)))
    × (parse_duration no_fraction "-1.5ms" ≡ some (negsuc 1499999))
    × (parse_duration no_fraction ".s" ≡ none)
    × (parse_duration no_fraction "5" ≡ none)
    × (parse_duration no_fraction "9223372036854775808ns" ≡ none)
unfolding parse_duration
parse_duration_tests = (refl, refl, refl, refl, refl, refl)
