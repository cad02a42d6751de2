-- ===== src/Flag/Kinds.antt =====
-- Parsing flags changes no flag's type, and neither adds nor drops a flag.
use mathlib.Core.List.{List}
use kro_lab.Prelude.{
  ℕ, String, ◌==◌, eq_iff, ◌≡◌, refl, ap, ◌∙◌, Bool, Option, none, some, arith, inl, inr,
  Bool-cases, ℤ,
}
use kro_lab.Prelude.Dict.{insert, lookup, lookup-insert}
use kro_lab.Kube.Error.{Result, ok, err, Error}
use kro_lab.Flag.Duration.{parse_duration}
use kro_lab.Flag.{
  Setting, text, boolean, duration, FlagSet, parse_bool, Argument, operand, terminator, malformed,
  flag, argument, Step, stop, refuse, set_by_one, set_by_two, set_value, stored, set_flag,
  set_boolean, set_defined, step, after_step, parse_args,
}

pub data Kind : Type 0 where
  text_kind boolean_kind duration_kind : Kind

unfoldable pub kind_of : Setting → Kind
kind_of (text s) = text_kind
kind_of (boolean b) = boolean_kind
kind_of (duration d) = duration_kind

unfoldable pub kind_of_option : Option Setting → Option Kind
unfolding kind_of
kind_of_option none = none
kind_of_option (some v) = some (kind_of v)

-- The type of a flag, if it is defined.
unfoldable pub kind_at : String → FlagSet → Option Kind
unfolding kind_of_option lookup
kind_at k fs = kind_of_option (lookup k fs)

abbrev pub HasKinds : FlagSet → FlagSet → Type 0
HasKinds fs fs' = (k : String) → kind_at k fs' ≡ kind_at k fs

-- The set that a step leaves, if it leaves one.
abbrev KeepsKinds : FlagSet → Step → Type 0
KeepsKinds fs (set_by_one fs') = HasKinds fs fs'
KeepsKinds fs (set_by_two fs') = HasKinds fs fs'
KeepsKinds fs _ = Unit

pub insert-HasKinds :
    (name : String) (old new : Setting) (fs : FlagSet)
    → lookup name fs ≡ some old
    → kind_of new ≡ kind_of old
    → HasKinds fs (insert name new fs)
unfolding kind_at kind_of_option
insert-HasKinds name old new fs h e k = elim (Bool-cases (name == k)) [
  | inl same ↦
      let k_old : lookup k fs ≡ some old = rw (← (eq_iff name k).0 same) h in
      rw (lookup-insert name k new fs, same, k_old) (ap some e)
  | inr other ↦ rw (lookup-insert name k new fs, other) refl
]

-- A value that was read has the type of the old one.
abbrev HasKind : Setting → Option Setting → Type 0
HasKind old none = Unit
HasKind old (some new) = kind_of new ≡ kind_of old

stored-KeepsKinds :
    (name : String) (old : Setting) (fs : FlagSet) (e : Error)
    → lookup name fs ≡ some old
    → (o : Option Setting) → HasKind old o
    → KeepsKinds fs (stored set_by_one name fs e o) × KeepsKinds fs (stored set_by_two name fs e o)
unfolding stored
stored-KeepsKinds name old fs e h none k = (tt, tt)
stored-KeepsKinds name old fs e h (some new) k =
    (insert-HasKinds name old new fs h k, insert-HasKinds name old new fs h k)

ok-HasKinds :
    (fs gs fs' : FlagSet)
    → HasKinds fs gs
    → ◌≡◌ {A = Result FlagSet} (ok gs) (ok fs')
    → HasKinds fs fs'
ok-HasKinds fs gs fs' h e = rw (← (ap {B = FlagSet} (λ r. elim r [ ok x ↦ x | err _ ↦ gs ]) e)) h

after_step-HasKinds :
    (a : Step) (fs fs' : FlagSet) (one two : FlagSet → Result FlagSet)
    → KeepsKinds fs a
    → ((gs : FlagSet) → one gs ≡ ok fs' → HasKinds gs fs')
    → ((gs : FlagSet) → two gs ≡ ok fs' → HasKinds gs fs')
    → after_step a fs one two ≡ ok fs'
    → HasKinds fs fs'
unfolding after_step
after_step-HasKinds stop fs fs' one two k f g h = ok-HasKinds fs fs fs' (λ k. refl) h
after_step-HasKinds (refuse e) fs fs' one two k f g h = absurd (ground arith)
after_step-HasKinds (set_by_one gs) fs fs' one two k f g h = λ n. f gs h n ∙ k n
after_step-HasKinds (set_by_two gs) fs fs' one two k f g h = λ n. g gs h n ∙ k n

module _ (fraction : ℕ → ℕ → ℕ → ℕ) where
  set_value-HasKind : (old : Setting) (s : String) → HasKind old (set_value fraction old s)
  unfolding set_value kind_of
  set_value-HasKind (text old) s = refl
  set_value-HasKind (boolean old) s = go (parse_bool s)
    where
      go :
          (o : Option Bool)
          → HasKind (boolean old) (elim o [ none ↦ none | some b ↦ some (boolean b) ])
      go none = tt
      go (some b) = refl
  set_value-HasKind (duration old) s = go (parse_duration fraction s)
    where
      go :
          (o : Option ℤ)
          → HasKind (duration old) (elim o [ none ↦ none | some d ↦ some (duration d) ])
      go none = tt
      go (some d) = refl

  set_flag-KeepsKinds :
      (name s : String) (old : Setting) (fs : FlagSet)
      → lookup name fs ≡ some old
      → KeepsKinds fs (set_flag fraction set_by_one name old s fs)
        × KeepsKinds fs (set_flag fraction set_by_two name old s fs)
  unfolding set_flag
  set_flag-KeepsKinds name s old fs h =
      let (one, two) = stored-KeepsKinds name old fs _ h _ (set_value-HasKind old s) in (one, two)

  set_boolean-KeepsKinds :
      (name s : String) (old : Bool) (fs : FlagSet)
      → lookup name fs ≡ some (boolean old)
      → KeepsKinds fs (set_boolean fraction name old s fs)
  unfolding set_boolean
  set_boolean-KeepsKinds name s old fs h =
      (stored-KeepsKinds name (boolean old) fs _ h _ (set_value-HasKind (boolean old) s)).0

  set_defined-KeepsKinds :
      (name : String) (old : Setting) (value next : Option String) (fs : FlagSet)
      → lookup name fs ≡ some old
      → KeepsKinds fs (set_defined fraction name old value next fs)
  unfolding set_defined
  set_defined-KeepsKinds name (boolean old) none next fs h =
      set_boolean-KeepsKinds name "true" old fs h
  set_defined-KeepsKinds name (boolean old) (some v) next fs h =
      set_boolean-KeepsKinds name v old fs h
  set_defined-KeepsKinds name (text old) (some v) next fs h =
      (set_flag-KeepsKinds name v (text old) fs h).0
  set_defined-KeepsKinds name (duration old) (some v) next fs h =
      (set_flag-KeepsKinds name v (duration old) fs h).0
  set_defined-KeepsKinds name (text old) none (some v) fs h =
      (set_flag-KeepsKinds name v (text old) fs h).1
  set_defined-KeepsKinds name (duration old) none (some v) fs h =
      (set_flag-KeepsKinds name v (duration old) fs h).1
  set_defined-KeepsKinds name (text old) none none fs h = tt
  set_defined-KeepsKinds name (duration old) none none fs h = tt

  step-KeepsKinds :
      (a : Argument) (next : Option String) (fs : FlagSet) → KeepsKinds fs (step fraction a next fs)
  unfolding step
  step-KeepsKinds operand next fs = tt
  step-KeepsKinds terminator next fs = tt
  step-KeepsKinds (malformed whole) next fs = tt
  step-KeepsKinds (flag name value) next fs = go (lookup name fs) refl
    where
      go :
          (o : Option Setting)
          → lookup name fs ≡ o
          → KeepsKinds fs (step fraction (flag name value) next fs)
      go none e = rw (step, e) tt
      go (some old) e = rw (step, e) (set_defined-KeepsKinds name old value next fs e)

  -- Parsing the arguments, if they are accepted, leaves every flag that was defined with a value of the
  -- type it was defined with, and defines no other.
  pub parse_args-kinds :
      (args : List String) (fs fs' : FlagSet)
      → parse_args fraction args fs ≡ ok fs'
      → (k : String) → kind_at k fs' ≡ kind_at k fs
  unfolding parse_args
  parse_args-kinds List.[] fs fs' h = ok-HasKinds fs fs fs' (λ k. refl) h
  parse_args-kinds (List.◌∷◌ s List.[]) fs fs' h =
      after_step-HasKinds (step fraction (argument s) none fs) fs fs' ok ok
        (step-KeepsKinds (argument s) none fs) (λ gs. ok-HasKinds gs gs fs' (λ k. refl))
        (λ gs. ok-HasKinds gs gs fs' (λ k. refl)) h
  parse_args-kinds (List.◌∷◌ s (List.◌∷◌ next args)) fs fs' h =
      after_step-HasKinds (step fraction (argument s) (some next) fs) fs fs' _ _
        (step-KeepsKinds (argument s) (some next) fs)
        (λ gs. parse_args-kinds (List.◌∷◌ next args) gs fs') (λ gs. parse_args-kinds args gs fs') h
