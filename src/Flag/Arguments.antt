-- ===== src/Flag/Arguments.antt =====
-- Arguments of the form `--name=value`: each sets its flag.
use Prim.Native.Char.{code}
use Prim.Native.String.{[], ◌∷◌}
use mathlib.Core.List.{List}
use package.text.Mathlib.TextLemmas.{cons-append, nil-append}
use kro_lab.Prelude.{
  ℕ, String, ◌<>◌, ◌≡◌, refl, ap, ◌∙◌, Bool, true, false, not, ◌&&◌, Option, none, some, nat_eq,
  arith, ◌<◌, ℤ, pos, All,
}
use kro_lab.Prelude.Dict.{lookup, insert}
use kro_lab.Prelude.Decimal.{decimal}
use kro_lab.Flag.Duration.{limit}
use kro_lab.Flag.Duration.Roundtrip.{parse_duration-decimal}
use kro_lab.Kube.Error.{ok}
use kro_lab.Selector.{equals_code}
use kro_lab.Selector.Roundtrip.{has_char, cut_at-append}
use kro_lab.Flag.Kinds.{
  kind_of, kind_of_option, kind_at, text_kind, duration_kind, HasKinds, insert-HasKinds,
}
use kro_lab.Flag.{
  Setting, text, boolean, duration, FlagSet, flag, named, behind_dash, argument, set_by_one, stored,
  set_value, invalid_value, invalid_boolean, set_flag, set_boolean, set_defined, step, after_step,
  parse_args,
}

abbrev pub flag_argument : String → String → String
flag_argument name v = "--" <> (name <> ("=" <> v))

-- A name that an argument can give.
abbrev pub is_name : String → Bool
is_name [] = false
is_name (c ∷ name) = not (nat_eq (code c) b'-') && not (has_char equals_code (c ∷ name))

argument-flag_argument :
    (name v : String) → is_name name ≡ true → argument (flag_argument name v) ≡ flag name (some v)
unfolding argument behind_dash named
argument-flag_argument [] v h = absurd (ground arith)
argument-flag_argument (c ∷ name) v h =
    rw (cons-append, cons-append, cons-append, nil-append) (ground (arith, cut_at-append name v))

module _ (fraction : ℕ → ℕ → ℕ → ℕ) where
  set_defined-stored :
      (name v : String) (old new : Setting) (next : Option String) (fs : FlagSet)
      → set_value fraction old v ≡ some new
      → set_defined fraction name old (some v) next fs ≡ set_by_one (insert name new fs)
  unfolding set_defined set_flag set_boolean stored
  set_defined-stored name v (text old) new next fs h =
      ap (stored set_by_one name fs (invalid_value name v)) h
  set_defined-stored name v (boolean old) new next fs h =
      ap (stored set_by_one name fs (invalid_boolean name v)) h
  set_defined-stored name v (duration old) new next fs h =
      ap (stored set_by_one name fs (invalid_value name v)) h

  parse_args-flag :
      (s name v : String) (args : List String) (fs : FlagSet) (old new : Setting)
      → argument s ≡ flag name (some v)
      → lookup name fs ≡ some old
      → set_value fraction old v ≡ some new
      → parse_args fraction (List.◌∷◌ s args) fs ≡ parse_args fraction args (insert name new fs)
  unfolding parse_args step after_step
  parse_args-flag s name v List.[] fs old new h e f =
      rw (parse_args, h, step, e, set_defined-stored name v old new none fs f) refl
  parse_args-flag s name v (List.◌∷◌ next args) fs old new h e f =
      rw (parse_args, h, step, e, set_defined-stored name v old new (some next) fs f) refl

-- A value for a flag; a duration is given in nanoseconds.
pub data Given : Type 0 where
  given_text : String → String → Given
  given_duration : String → ℕ → Given

abbrev pub argument_of : Given → String
argument_of (given_text name v) = flag_argument name v
argument_of (given_duration name n) = flag_argument name (decimal n <> "ns")

abbrev pub set_given : Given → FlagSet → FlagSet
set_given (given_text name v) fs = insert name (text v) fs
set_given (given_duration name n) fs = insert name (duration (pos n)) fs

abbrev pub set_all : List Given → FlagSet → FlagSet
set_all List.[] fs = fs
set_all (List.◌∷◌ g gs) fs = set_all gs (set_given g fs)

abbrev pub arguments : List Given → List String
arguments List.[] = List.[]
arguments (List.◌∷◌ g gs) = List.◌∷◌ (argument_of g) (arguments gs)

-- The flag is defined with the type of the value.
abbrev pub IsGivenFor : FlagSet → Given → Type 0
IsGivenFor fs (given_text name v) = (is_name name ≡ true) × (kind_at name fs ≡ some text_kind)
IsGivenFor fs (given_duration name n) =
    (is_name name ≡ true) × (kind_at name fs ≡ some duration_kind) × (n < limit)

text_kind-lookup :
    (o : Option Setting)
    → kind_of_option o ≡ some text_kind
    → (old : String) × (o ≡ some (text old))
unfolding kind_of_option kind_of
text_kind-lookup none h = absurd (ground arith)
text_kind-lookup (some (text old)) h = (old, refl)
text_kind-lookup (some (boolean old)) h = absurd (ground arith)
text_kind-lookup (some (duration old)) h = absurd (ground arith)

duration_kind-lookup :
    (o : Option Setting)
    → kind_of_option o ≡ some duration_kind
    → (old : ℤ) × (o ≡ some (duration old))
unfolding kind_of_option kind_of
duration_kind-lookup none h = absurd (ground arith)
duration_kind-lookup (some (text old)) h = absurd (ground arith)
duration_kind-lookup (some (boolean old)) h = absurd (ground arith)
duration_kind-lookup (some (duration old)) h = (old, refl)

set_given-HasKinds : (g : Given) (fs : FlagSet) → IsGivenFor fs g → HasKinds fs (set_given g fs)
unfolding kind_at kind_of
set_given-HasKinds (given_text name v) fs (h, k) =
    let (old, e) = text_kind-lookup (lookup name fs) k in
    insert-HasKinds name (text old) (text v) fs e refl
set_given-HasKinds (given_duration name n) fs (h, k, i) =
    let (old, e) = duration_kind-lookup (lookup name fs) k in
    insert-HasKinds name (duration old) (duration (pos n)) fs e refl

HasKinds-IsGivenFor :
    (fs fs' : FlagSet) (g : Given) → HasKinds fs fs' → IsGivenFor fs g → IsGivenFor fs' g
HasKinds-IsGivenFor fs fs' (given_text name v) h (i, k) = (i, h name ∙ k)
HasKinds-IsGivenFor fs fs' (given_duration name n) h (i, k, l) = (i, h name ∙ k, l)

All-IsGivenFor :
    (fs fs' : FlagSet) (gs : List Given)
    → HasKinds fs fs'
    → All (IsGivenFor fs) gs
    → All (IsGivenFor fs') gs
All-IsGivenFor fs fs' List.[] h k = tt
All-IsGivenFor fs fs' (List.◌∷◌ g gs) h k =
    (HasKinds-IsGivenFor fs fs' g h k.0, All-IsGivenFor fs fs' gs h k.1)

module _ (fraction : ℕ → ℕ → ℕ → ℕ) where
  parse_args-cons :
      (g : Given) (args : List String) (fs : FlagSet)
      → IsGivenFor fs g
      → parse_args fraction (List.◌∷◌ (argument_of g) args) fs
        ≡ parse_args fraction args (set_given g fs)
  unfolding kind_at set_value
  parse_args-cons (given_text name v) args fs (h, k) =
      let (old, e) = text_kind-lookup (lookup name fs) k in
      parse_args-flag fraction _ name v args fs (text old) (text v)
        (argument-flag_argument name v h) e refl
  parse_args-cons (given_duration name n) args fs (h, k, small) =
      let v = decimal n <> "ns" in
      let (old, e) = duration_kind-lookup (lookup name fs) k in
      parse_args-flag fraction _ name v args fs (duration old) (duration (pos n))
        (argument-flag_argument name v h) e
        (ap (λ o. elim o [ none ↦ none | some d ↦ some (duration d) ])
          (parse_duration-decimal fraction n small))

  -- Arguments `--name=value` for flags that are defined, each with a value of its flag's type, set
  -- these flags in their order and are all accepted.
  pub parse_args-arguments :
      (gs : List Given) (fs : FlagSet)
      → All (IsGivenFor fs) gs
      → parse_args fraction (arguments gs) fs ≡ ok (set_all gs fs)
  unfolding parse_args
  parse_args-arguments List.[] fs h = refl
  parse_args-arguments (List.◌∷◌ g gs) fs h =
      parse_args-cons g (arguments gs) fs h.0
      ∙ parse_args-arguments gs (set_given g fs)
          (All-IsGivenFor fs (set_given g fs) gs (set_given-HasKinds g fs h.0) h.1)
