-- ===== src/Selector.antt =====
-- parseSelector of config/config.go, which both controllers have.
pub mod Roundtrip
use Prim.Native.Char.{Char, code}
use Prim.Native.String.{[], ◌∷◌}
use mathlib.Core.List.{List}
use kro_lab.Prelude.{
  ℕ, String, ◌<>◌, Bool, true, false, ◌||◌, Option, none, some, nat_eq, if◌then◌else◌, ◌==◌, quote,
}
use kro_lab.Prelude.Dict.{Dict, insert}
use kro_lab.Kube.Error.{Result, ok, err, message}

abbrev pub comma_code : ℕ
comma_code = 44

abbrev pub equals_code : ℕ
equals_code = 61

abbrev pub prepend : Char → List String → List String
prepend c List.[] = List.◌∷◌ (c ∷ []) List.[]
prepend c (List.◌∷◌ w ws) = List.◌∷◌ (c ∷ w) ws

-- strings.Split at a separator of one character.
unfoldable pub split_on : ℕ → String → List String
split_on sep [] = List.◌∷◌ [] List.[]
split_on sep (c ∷ s) =
    let rest = split_on sep s in if nat_eq (code c) sep then List.◌∷◌ [] rest else prepend c rest

abbrev pub behind : Char → Option (String × String) → Option (String × String)
behind c none = none
behind c (some (k, v)) = some (c ∷ k, v)

-- strings.Cut at a separator of one character.
unfoldable pub cut_at : ℕ → String → Option (String × String)
cut_at sep [] = none
cut_at sep (c ∷ s) =
    let rest = cut_at sep s in if nat_eq (code c) sep then some ([], s) else behind c rest

-- The loop over the pairs, with the selector as far as it is read.
unfoldable pub read_pairs : List String → Dict String → Result (Dict String)
read_pairs List.[] selector = ok selector
read_pairs (List.◌∷◌ pair pairs) selector = elim (cut_at equals_code pair) [
  | none ↦ err (message ("invalid selector entry " <> quote pair <> ", want key=value"))
  | some (k, v) ↦
      if k == ""
      then err (message ("invalid selector entry " <> quote pair <> ", want key=value"))
      else read_pairs pairs (insert k v selector)
]

unfoldable pub parse_selector : String → Result (Dict String)
unfolding split_on read_pairs
parse_selector s = if s == "" then ok List.[] else read_pairs (split_on comma_code s) List.[]
