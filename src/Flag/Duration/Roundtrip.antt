-- ===== src/Flag/Duration/Roundtrip.antt =====
-- A number of nanoseconds in decimal digits is read back.
use Prim.Native.Char.{Char, code}
use Prim.Native.String.{◌∷◌}
use text.Mathlib.TextLemmas.{cons-append, nil-append}
use kro_lab.Prelude.{
  ℕ, zero, suc, ◌+◌, ◌-◌, ◌*◌, ◌/◌, ◌%◌, ◌^◌, ◌≤◌, ◌<◌, String, ◌<>◌, ◌==◌, eq_iff, ◌≡◌, refl, sym,
  ap, ◌∙◌, Bool, true, false, none, some, nat_eq, ltb, arith, inl, inr, Bool-cases, pos,
}
use kro_lab.Prelude.Decimal.{digit, code-digit, decimal_loop, decimal, decimal_loop-cons}
use kro_lab.Flag.Duration.{
  limit, is_digit, begins_with_digit, leading_int, split_unit, unit_of, scaled, with_unit,
  behind_int, term, duration_loop, unsigned_duration, parse_duration, size,
}

decimal_loop-append :
    (fuel n : ℕ) (acc t : String) → decimal_loop fuel n acc <> t ≡ decimal_loop fuel n (acc <> t)
unfolding decimal_loop
decimal_loop-append zero n acc t = refl
decimal_loop-append (suc fuel) n acc t = elim (Bool-cases (ltb n 10)) [
  | inl small ↦ rw small (cons-append (digit n) acc t)
  | inr large ↦ rw large (
      decimal_loop-append fuel (n / 10) (digit (n % 10) ∷ acc) t
      ∙ ap (decimal_loop fuel (n / 10)) (cons-append (digit (n % 10)) acc t))
]

leading_int-digit :
    (x d m : ℕ) (s : String)
    → d < 10
    → x * 10 + d ≡ m
    → m ≤ limit
    → leading_int x (digit d ∷ s) ≡ leading_int m s
unfolding leading_int is_digit
leading_int-digit x d m s h e i =
    let same : x * 10 + (48 + d - 48) ≡ m = omega arith in rw (code-digit d h, same) (ground arith)

leading_int-decimal_loop :
    (fuel n : ℕ) (t : String)
    → n < fuel
    → n ≤ limit
    → leading_int 0 (decimal_loop fuel n t) ≡ leading_int n t
unfolding decimal_loop
leading_int-decimal_loop zero n t h i = absurd (omega arith)
leading_int-decimal_loop (suc fuel) n t h i = elim (Bool-cases (ltb n 10)) [
  | inl small ↦ rw small (leading_int-digit 0 n n t (ground arith) (omega arith) i)
  | inr large ↦ rw large (
      leading_int-decimal_loop fuel (n / 10) (digit (n % 10) ∷ t) (ground arith) (omega arith)
      ∙ leading_int-digit (n / 10) (n % 10) n t (omega arith) (omega arith) i)
]

zero_rest : (n : ℕ) → leading_int 0 "0" ≡ some (n, "ns") → ⊥
unfolding leading_int is_digit
zero_rest n h =
    ground (arith, ap {B = Bool} (λ o. elim o [ none ↦ false | some p ↦ p.1 == "ns" ]) h)

leading_int-ns : (n : ℕ) → leading_int n "ns" ≡ some (n, "ns")
unfolding leading_int is_digit
leading_int-ns n = refl

begins_with_digit-digit : (d : ℕ) (t : String) → d < 10 → begins_with_digit (digit d ∷ t) ≡ true
unfolding begins_with_digit is_digit
begins_with_digit-digit d t h = rw (code-digit d h) (ground arith)

module _ (fraction : ℕ → ℕ → ℕ → ℕ) where
  with_unit-ns : (n : ℕ) → n ≤ limit → with_unit fraction n 0 0 (split_unit "ns") ≡ some (n, "")
  unfolding with_unit split_unit unit_of scaled is_digit
  with_unit-ns n h = let same : n * 1 ≡ n = omega arith in rw (with_unit, same) (ground arith)

  term-digits :
      (s t : String) (d n : ℕ)
      → s ≡ digit d ∷ t
      → d < 10
      → n ≤ limit
      → leading_int 0 s ≡ some (n, "ns")
      → term fraction s ≡ some (n, "")
  unfolding behind_int term
  term-digits s t d n e h i f =
      let begins : begins_with_digit s ≡ true = rw e (begins_with_digit-digit d t h) in
      rw (term, f, begins) (with_unit-ns n i)

  duration_loop-once :
      (c : Char) (s : String) (n : ℕ)
      → term fraction (c ∷ s) ≡ some (n, "")
      → n ≤ limit
      → duration_loop fraction (size (c ∷ s)) (c ∷ s) 0 ≡ some n
  unfolding duration_loop
  duration_loop-once c s n e i =
      let sum : (0 + n) % 2 ^ 64 ≡ n = omega arith in rw (duration_loop, e, sum) (ground arith)

  digits-not_zero :
      (c : Char) (t : String) (n : ℕ)
      → leading_int 0 (c ∷ t) ≡ some (n, "ns")
      → ((c ∷ t) == "0") ≡ false
  digits-not_zero c t n f = elim (Bool-cases ((c ∷ t) == "0")) [
    | inl bare ↦
        let zero_text = (eq_iff (c ∷ t) "0").0 bare in
        absurd (zero_rest n (sym (ap (leading_int 0) zero_text) ∙ f))
    | inr other ↦ other
  ]

  unsigned_duration-once :
      (c : Char) (t : String) (n : ℕ)
      → ((c ∷ t) == "0") ≡ false
      → term fraction (c ∷ t) ≡ some (n, "")
      → n < limit
      → unsigned_duration fraction false (c ∷ t) ≡ some (pos n)
  unfolding unsigned_duration
  unsigned_duration-once c t n other e h =
      rw (other, duration_loop-once c t n e (omega arith)) (ground arith)

  parse_duration-digits :
      (t : String) (d n : ℕ)
      → d < 10
      → n < limit
      → leading_int 0 (digit d ∷ t) ≡ some (n, "ns")
      → parse_duration fraction (digit d ∷ t) ≡ some (pos n)
  unfolding parse_duration
  parse_duration-digits t d n h i f =
      let plus : nat_eq (code (digit d)) b'+' ≡ false = rw (code-digit d h) (ground arith) in
      let minus : nat_eq (code (digit d)) b'-' ≡ false = rw (code-digit d h) (ground arith) in
      rw (parse_duration, minus, plus)
        (unsigned_duration-once (digit d) t n (digits-not_zero (digit d) t n f)
          (term-digits (digit d ∷ t) t d n refl h (omega arith) f) i)

  -- Every number of nanoseconds that fits a duration is read back from its decimal digits and `ns`.
  pub parse_duration-decimal :
      (n : ℕ) → n < limit → parse_duration fraction (decimal n <> "ns") ≡ some (pos n)
  unfolding decimal
  parse_duration-decimal n h =
      let whole =
        decimal_loop-append (suc n) n "" "ns" ∙ ap (decimal_loop (suc n) n) (nil-append "ns") in
      let (d, t, small, e) = decimal_loop-cons (suc n) n "ns" (omega arith) in
      ap (parse_duration fraction) (whole ∙ e)
      ∙ parse_duration-digits t d n small h (
          ap (leading_int 0) (sym e)
          ∙ leading_int-decimal_loop (suc n) n "ns" (omega arith) (omega arith)
          ∙ leading_int-ns n)
