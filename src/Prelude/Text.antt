-- ===== src/Prelude/Text.antt =====
-- What the program uses of Go's `strings` package, over the native texts.
use Prim.Native.Char.{Char, code}
use Prim.Native.Nat.{ℕ, ◌/◌, ◌%◌}
use Prim.Native.String.{String, [], ◌∷◌, ◌++◌}
use mathlib.Core.Path.{◌≡◌, refl, sym, ap₂, ◌∙◌}
use mathlib.Core.Bool.{Bool, true, false, ◌||◌}
use mathlib.Core.Option.{Option, none, some}
use mathlib.Core.List.{List}
use native.Mathlib.Omega.{arith}
use text.Mathlib.Text.{char_at?, ◌==◌}
use text.Mathlib.TextEquality.{eq_iff, Char-path}
use mathlib.Core.Logic.{◌≢◌, inl, inr}
use text.Mathlib.TextLemmas.{cons-append, nil-append}
use kro_lab.Prelude.Tests.{ltb, nat_eq, Bool-cases, if◌then◌else◌}

-- strings.CutPrefix: the rest of the text behind the prefix, if it begins with it.
unfoldable pub cut_prefix : String → String → Option String
cut_prefix s [] = some s
cut_prefix [] (c ∷ p) = none
cut_prefix (d ∷ s) (c ∷ p) = if nat_eq (code d) (code c) then cut_prefix s p else none

pub cut_prefix-append : (p s : String) → cut_prefix (p ++ s) p ≡ some s
unfolding cut_prefix
cut_prefix-append [] s = rw nil-append
cut_prefix-append (c ∷ p) s = rw cons-append (ground (arith, cut_prefix-append p s))

pub cut_prefix-some : (s p t : String) → cut_prefix s p ≡ some t → s ≡ p ++ t
unfolding cut_prefix
cut_prefix-some s [] t h = rw nil-append (ground arith)
cut_prefix-some [] (c ∷ p) t h = absurd (ground arith)
cut_prefix-some (d ∷ s) (c ∷ p) t h = elim (Bool-cases (nat_eq (code d) (code c))) [
  | inl same ↦
      ap₂ (λ (x : Char) (y : String). x ∷ y) (Char-path d c (ground arith))
        (cut_prefix-some s p t (rw same at h))
      ∙ sym (cons-append c p t)
  | inr other ↦ absurd (ground arith)
]

-- `s < t` on texts.
unfoldable pub str_lt : String → String → Bool
str_lt [] [] = false
str_lt [] (d ∷ t) = true
str_lt (c ∷ s) [] = false
str_lt (c ∷ s) (d ∷ t) =
    if ltb (code c) (code d) then true else if ltb (code d) (code c) then false else str_lt s t

-- What is not below `b` is not below what is not above `b`.
pub str_lt-cotrans : (a b c : String) → str_lt b a ≡ false → str_lt c b ≡ false → str_lt c a ≡ false
unfolding str_lt
str_lt-cotrans [] [] [] h k = refl
str_lt-cotrans [] b [] h k = refl
str_lt-cotrans (x ∷ a) [] c h k = cc
str_lt-cotrans (x ∷ a) (d ∷ b) [] h k = cc
str_lt-cotrans [] b (e ∷ c) h k = refl
str_lt-cotrans (x ∷ a) (d ∷ b) (e ∷ c) h k = ground (arith, str_lt-cotrans a b c)

pub str_lt_asymm : (a b : String) → str_lt a b ≡ true → str_lt b a ≡ false
unfolding str_lt
str_lt_asymm [] [] h = cc
str_lt_asymm [] (d ∷ b) h = refl
str_lt_asymm (c ∷ a) [] h = cc
str_lt_asymm (c ∷ a) (d ∷ b) h = ground (arith, str_lt_asymm a b)

hex_digit : ℕ → String
hex_digit n = elim (char_at? "0123456789abcdef" n) [ none ↦ "" | some c ↦ c ∷ "" ]

quote_char : Char → String
unfolding hex_digit
quote_char c =
    let n = code c in
    if nat_eq n 34 || nat_eq n 92
    then "\\" ++ (c ∷ "")
    else if nat_eq n 7
    then "\\a"
    else if nat_eq n 8
    then "\\b"
    else if nat_eq n 12
    then "\\f"
    else if nat_eq n 10
    then "\\n"
    else if nat_eq n 13
    then "\\r"
    else if nat_eq n 9
    then "\\t"
    else if nat_eq n 11
    then "\\v"
    else if ltb n 32 || nat_eq n 127
    then "\\x" ++ hex_digit (n / 16) ++ hex_digit (n % 16)
    else c ∷ ""

quote_all : String → String
quote_all [] = ""
quote_all (c ∷ s) = quote_char c ++ quote_all s

-- `%q`; a character beyond ASCII is taken to be printable.
unfoldable pub quote : String → String
unfolding quote_all quote_char
quote s = "\"" ++ quote_all s ++ "\""

quote_test : quote "a\n\"" ≡ "\"a\\n\\\"\""
unfolding quote
quote_test = refl

pub eq-false_of_ne : (s t : String) → s ≢ t → (s == t) ≡ false
eq-false_of_ne s t h = ground (arith, eq_iff s t)

-- The code points of a text: its bytes, where it is ASCII.
abbrev pub codes : String → List ℕ
codes String.[] = List.[]
codes (String.◌∷◌ c s) = List.◌∷◌ (code c) (codes s)

pub str_lt_antisymm : (a b : String) → str_lt a b ≡ false → str_lt b a ≡ false → a ≡ b
unfolding str_lt
str_lt_antisymm [] [] h k = refl
str_lt_antisymm [] (d ∷ b) h k = cc
str_lt_antisymm (c ∷ a) [] h k = cc
str_lt_antisymm (c ∷ a) (d ∷ b) h k =
    ap₂ (λ (x : Char) (s : String). x ∷ s) (Char-path c d (ground arith))
      (str_lt_antisymm a b (ground arith) (ground arith))
