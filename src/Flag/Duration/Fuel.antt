-- ===== src/Flag/Duration/Fuel.antt =====
-- Each round of ParseDuration shortens the text, so its length is fuel enough.
use Prim.Native.Char.{code}
use Prim.Native.String.{[], ◌∷◌}
use kro_lab.Prelude.{
  ℕ, zero, suc, ◌+◌, ◌-◌, ◌*◌, ◌/◌, ◌%◌, ◌^◌, ◌≤◌, ◌<◌, String, ◌≡◌, refl, sym, ap, Bool, false,
  not, ◌&&◌, ◌||◌, Option, none, some, Option-cases, nat_eq, ltb, if◌then◌else◌, arith, inl, inr,
  Bool-cases,
}
use kro_lab.Flag.Duration.{
  limit, is_digit, begins_with_digit, leading_int, leading_fraction, split_unit, unit_of, scaled,
  with_unit, behind_int, term, duration_loop, size,
}

same_rest :
    (x v : ℕ) (s r : String) → ◌≡◌ {A = Option (ℕ × String)} (some (x, s)) (some (v, r)) → s ≡ r
same_rest x v s r h = ap (λ o. elim o [ none ↦ "" | some p ↦ p.1 ]) h

leading_int-size : (s r : String) (x v : ℕ) → leading_int x s ≡ some (v, r) → size r ≤ size s
unfolding leading_int
leading_int-size [] r x v h = rw (← (same_rest x v [] r h)) (omega arith)
leading_int-size (c ∷ s) r x v h =
    let y = x * 10 + (code c - 48) in
    elim (Bool-cases (is_digit c)) [
      | inl more ↦ elim (Bool-cases (ltb (limit / 10) x || ltb limit y)) [
        | inl over ↦ absurd (ground (arith, rw (more, over) at h))
        | inr fine ↦ let shorter = leading_int-size s r y v (rw (more, fine) at h) in omega arith
      ]
      | inr last ↦ rw (← (same_rest x v (c ∷ s) r (rw last at h))) (omega arith)
    ]

leading_fraction-size :
    (overflow : Bool) (x k : ℕ) (s : String) → size (leading_fraction overflow x k s).2 ≤ size s
unfolding leading_fraction
leading_fraction-size overflow x k [] = omega arith
leading_fraction-size overflow x k (c ∷ s) = elim (Bool-cases (is_digit c)) [
  | inl more ↦
      let y = x * 10 + (code c - 48) in
      let over = overflow || ltb ((limit - 1) / 10) x || ltb limit y in
      rw more (
        omega
          (arith, leading_fraction-size over (if over then x else y) (if over then k else k + 1) s))
  | inr last ↦ rw last (omega arith)
]

split_unit-size : (s : String) → size (split_unit s).0 + size (split_unit s).1 ≡ size s
unfolding split_unit
split_unit-size [] = refl
split_unit-size (c ∷ s) = elim (Bool-cases (nat_eq (code c) b'.' || is_digit c)) [
  | inl last ↦ rw last (omega arith)
  | inr more ↦ rw more (omega (arith, split_unit-size s))
]

unit_of-some : (u : String) (unit : ℕ) → unit_of u ≡ some unit → 0 < size u
unfolding unit_of
unit_of-some [] unit h = absurd (ground arith)
unit_of-some (c ∷ u) unit h = omega arith

module _ (fraction : ℕ → ℕ → ℕ → ℕ) where
  with_unit-size :
      (v f k n : ℕ) (u s r : String)
      → with_unit fraction v f k (u, s) ≡ some (n, r)
      → (r ≡ s) × (0 < size u)
  unfolding with_unit
  with_unit-size v f k n u s r h = elim (Option-cases (unit_of u)) [
    | inl unknown ↦ absurd (ground (arith, rw (with_unit, unknown) at h))
    | inr (unit, e) ↦ elim (Option-cases (scaled fraction v f k unit)) [
      | inl over ↦ absurd (ground (arith, rw (with_unit, e, over) at h))
      | inr (m, fits) ↦
          (sym (same_rest m n s r (rw (with_unit, e, fits) at h)), unit_of-some u unit e)
    ]
  ]

  with_unit-shorter :
      (v f k n : ℕ) (s r : String)
      → with_unit fraction v f k (split_unit s) ≡ some (n, r)
      → size r < size s
  with_unit-shorter v f k n s r h =
      let (e, some_unit) = with_unit-size v f k n (split_unit s).0 (split_unit s).1 r h in
      let whole = split_unit-size s in rw e (omega arith)

  behind_int-shorter :
      (pre : Bool) (v n : ℕ) (s r : String)
      → behind_int fraction pre (v, s) ≡ some (n, r)
      → size r < size s
  unfolding behind_int
  behind_int-shorter pre v n [] r h = absurd (ground arith)
  behind_int-shorter pre v n (c ∷ s) r h =
      let (f, k, rest) = leading_fraction false 0 0 s in
      let shorter = leading_fraction-size false 0 0 s in
      elim (Bool-cases (nat_eq (code c) b'.')) [
        | inl point ↦ elim (Bool-cases (not pre && not (begins_with_digit s))) [
          | inl bare ↦ absurd (ground (arith, rw (behind_int, point, bare) at h))
          | inr digits ↦
              let unit = with_unit-shorter v f k n rest r (rw (behind_int, point, digits) at h) in
              omega arith
        ]
        | inr other ↦ elim (Bool-cases pre) [
          | inl digits ↦ with_unit-shorter v 0 0 n (c ∷ s) r (ground arith)
          | inr bare ↦ absurd (ground (arith, rw (behind_int, other, bare) at h))
        ]
      ]

  -- A round that reads something leaves a shorter text.
  term-shorter : (s r : String) (n : ℕ) → term fraction s ≡ some (n, r) → size r < size s
  unfolding term
  term-shorter s r n h = elim (Option-cases (leading_int 0 s)) [
    | inl over ↦ absurd (ground (arith, rw (term, over) at h))
    | inr ((v, t), e) ↦
        let shorter = behind_int-shorter (begins_with_digit s) v n t r (rw (term, e) at h) in
        let head = leading_int-size s t 0 v e in omega arith
  ]

  duration_loop-same :
      (m n : ℕ) (s : String) (d : ℕ)
      → size s ≤ m
      → size s ≤ n
      → duration_loop fraction m s d ≡ duration_loop fraction n s d
  unfolding duration_loop
  duration_loop-same m n [] d h i = refl
  duration_loop-same zero n (c ∷ s) d h i = absurd (omega arith)
  duration_loop-same (suc m) zero (c ∷ s) d h i = absurd (omega arith)
  duration_loop-same (suc m) (suc n) (c ∷ s) d h i = elim (Option-cases (term fraction (c ∷ s))) [
    | inl refused ↦ rw (duration_loop, refused) refl
    | inr ((v, rest), e) ↦
        let shorter = term-shorter (c ∷ s) rest v e in
        rw (duration_loop, e)
          (ap (λ o. if ltb limit ((d + v) % 2 ^ 64) then none else o)
            (duration_loop-same m n rest ((d + v) % 2 ^ 64) (omega arith) (omega arith)))
  ]

  -- The loop has rounds enough where it is given the length of the text: more of them give the same
  -- result.
  pub duration_loop_fuel :
      (fuel : ℕ) (s : String) (d : ℕ)
      → size s ≤ fuel
      → duration_loop fraction fuel s d ≡ duration_loop fraction (size s) s d
  duration_loop_fuel fuel s d h = duration_loop-same fuel (size s) s d h (omega arith)
