-- ===== src/Flag.antt =====
-- Go's `flag` package, as config/config.go of both controllers and main of the verifier use it: the
-- values of the flags by their names, set one after the other from the arguments.
pub mod Duration
pub mod Kinds
pub mod Arguments
use Prim.Native.Char.{code}
use Prim.Native.String.{[], ◌∷◌}
use mathlib.Core.List.{List}
use kro_lab.Prelude.{
  ℕ, String, ◌<>◌, ◌==◌, Bool, true, false, ◌||◌, Option, none, some, nat_eq, if◌then◌else◌, ℤ, pos,
  quote, contains,
}
use kro_lab.Prelude.Dict.{Dict, insert, lookup}
use kro_lab.Kube.Error.{Result, ok, err, Error, message}
use kro_lab.Selector.{cut_at, equals_code}
use kro_lab.Flag.Duration.{parse_duration}

pub data Setting : Type 0 where
  text : String → Setting
  boolean : Bool → Setting
  -- a number of nanoseconds
  duration : ℤ → Setting

-- The flags that are defined, with their values.
abbrev pub FlagSet : Type 0
FlagSet = Dict Setting

-- strconv.ParseBool
unfoldable pub parse_bool : String → Option Bool
unfolding contains
parse_bool s =
    if contains
      (List.◌∷◌ "1"
        (List.◌∷◌ "t" (List.◌∷◌ "T" (List.◌∷◌ "TRUE" (List.◌∷◌ "true" (List.◌∷◌ "True" List.[]))))))
      s
    then some true
    else if contains
        (List.◌∷◌ "0" (
          List.◌∷◌ "f"
            (List.◌∷◌ "F" (List.◌∷◌ "FALSE" (List.◌∷◌ "false" (List.◌∷◌ "False" List.[]))))))
        s
    then some false
    else none

-- What an argument is.
pub data Argument : Type 0 where
  -- the flags end before it
  operand : Argument
  -- `--` ends them
  terminator : Argument
  malformed : String → Argument
  flag : String → Option String → Argument

-- An argument, from its name on.
named : String → String → Argument
unfolding cut_at
named whole [] = malformed whole
named whole (c ∷ name) =
    if nat_eq (code c) b'-' || nat_eq (code c) equals_code
    then malformed whole
    else elim (cut_at equals_code (c ∷ name)) [
      | none ↦ flag (c ∷ name) none
      | some (k, v) ↦ flag k (some v)
    ]

behind_dash : String → String → Argument
unfolding named
behind_dash whole [] = operand
behind_dash whole (d ∷ []) = if nat_eq (code d) b'-' then terminator else named whole (d ∷ [])
behind_dash whole (d ∷ c ∷ s) =
    if nat_eq (code d) b'-' then named whole (c ∷ s) else named whole (d ∷ c ∷ s)

unfoldable pub argument : String → Argument
unfolding behind_dash
argument [] = operand
argument (c ∷ s) = if nat_eq (code c) b'-' then behind_dash (c ∷ s) s else operand

-- What one argument does: the flags end, or it is refused, or a flag is set, by the argument alone or
-- by the next one too.
pub data Step : Type 0 where
  stop : Step
  refuse : Error → Step
  set_by_one : FlagSet → Step
  set_by_two : FlagSet → Step

-- The set with the value that was read, or the error.
stored : (FlagSet → Step) → String → FlagSet → Error → Option Setting → Step
unfolding insert
stored done name fs e none = refuse e
stored done name fs e (some new) = done (insert name new fs)

invalid_value : String → String → Error
invalid_value name s =
    message ("invalid value " <> quote s <> " for flag -" <> name <> ": parse error")

invalid_boolean : String → String → Error
invalid_boolean name s =
    message ("invalid boolean value " <> quote s <> " for -" <> name <> ": parse error")

-- What follows a step, by whether it took the next argument too.
after_step :
    Step → FlagSet → (FlagSet → Result FlagSet) → (FlagSet → Result FlagSet) → Result FlagSet
after_step stop fs one two = ok fs
after_step (refuse e) fs one two = err e
after_step (set_by_one fs') fs one two = one fs'
after_step (set_by_two fs') fs one two = two fs'

undefined_flag : String → Error
undefined_flag name =
    if name == "help" || name == "h"
    then message "flag: help requested"
    else message ("flag provided but not defined: -" <> name)

module _ (fraction : ℕ → ℕ → ℕ → ℕ) where
  -- Value.Set of a flag that has this value.
  unfoldable pub set_value : Setting → String → Option Setting
  unfolding parse_bool parse_duration
  set_value (text old) s = some (text s)
  set_value (boolean old) s = elim (parse_bool s) [ none ↦ none | some b ↦ some (boolean b) ]
  set_value (duration old) s = elim (parse_duration fraction s) [
    | none ↦ none
    | some d ↦ some (duration d)
  ]

  set_flag : (FlagSet → Step) → String → Setting → String → FlagSet → Step
  unfolding set_value stored invalid_value invalid_boolean
  set_flag done name old s fs = stored done name fs (invalid_value name s) (set_value old s)

  set_boolean : String → Bool → String → FlagSet → Step
  unfolding set_value stored invalid_value invalid_boolean
  set_boolean name old s fs =
      stored set_by_one name fs (invalid_boolean name s) (set_value (boolean old) s)

  -- A flag that is defined with this value, the value behind its `=`, and the next argument.
  set_defined : String → Setting → Option String → Option String → FlagSet → Step
  unfolding set_boolean set_flag
  set_defined name (boolean old) none next fs = set_boolean name old "true" fs
  set_defined name (boolean old) (some v) next fs = set_boolean name old v fs
  set_defined name old (some v) next fs = set_flag set_by_one name old v fs
  set_defined name old none (some v) fs = set_flag set_by_two name old v fs
  set_defined name old none none fs = refuse (message ("flag needs an argument: -" <> name))

  unfoldable pub step : Argument → Option String → FlagSet → Step
  unfolding set_defined lookup undefined_flag
  step operand next fs = stop
  step terminator next fs = stop
  step (malformed whole) next fs = refuse (message ("bad flag syntax: " <> whole))
  step (flag name value) next fs = elim (lookup name fs) [
    | none ↦ refuse (undefined_flag name)
    | some old ↦ set_defined name old value next fs
  ]

  -- FlagSet.Parse; the operands are not read.
  unfoldable pub parse_args : List String → FlagSet → Result FlagSet
  unfolding step argument after_step
  parse_args List.[] fs = ok fs
  parse_args (List.◌∷◌ s List.[]) fs = after_step (step (argument s) none fs) fs ok ok
  parse_args (List.◌∷◌ s (List.◌∷◌ next args)) fs =
      after_step (step (argument s) (some next) fs) fs (parse_args (List.◌∷◌ next args))
        (parse_args args)

-- The variable that a text flag sets.
unfoldable pub text_value : String → FlagSet → String
unfolding lookup
text_value name fs = elim (lookup name fs) [ some (text s) ↦ s | _ ↦ "" ]

unfoldable pub boolean_value : String → FlagSet → Bool
unfolding lookup
boolean_value name fs = elim (lookup name fs) [ some (boolean b) ↦ b | _ ↦ false ]

unfoldable pub duration_value : String → FlagSet → ℤ
unfolding lookup
duration_value name fs = elim (lookup name fs) [ some (duration d) ↦ d | _ ↦ pos 0 ]
