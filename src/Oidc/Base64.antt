-- ===== src/Oidc/Base64.antt =====
-- base64URLDecode of platform-mvp/oidc-verifier/main.go, with the decoder of Go's encoding/base64 that
-- it calls. A text is the list of its codes, a result the list of its bytes: a character beyond ASCII
-- has a code that no digit has, as each of its bytes.

pub mod Unpadded
pub mod Bounds
pub mod Roundtrip
use kro_lab.Prelude.{
  ℕ, ◌+◌, ◌-◌, ◌*◌, ◌/◌, ◌%◌, ◌^◌, ◌≡◌, refl, Bool, true, false, ◌&&◌, ◌||◌, Option, none, some,
  List, [], ◌∷◌, ◌++◌, nat_eq, leb, if◌then◌else◌, length,
}

-- What the decoder makes of one character.
pub data Symbol : Type 0 where
  digit : ℕ → Symbol
  line_break padding corrupt : Symbol

-- The value of a digit of the URL-safe alphabet.
unfoldable pub symbol : ℕ → Symbol
symbol c =
    if leb 65 c && leb c 90
    then digit (c - 65)
    else if leb 97 c && leb c 122
    then digit (c - 71)
    else if leb 48 c && leb c 57
    then digit (c + 4)
    else if nat_eq c 45
    then digit 62
    else if nat_eq c 95
    then digit 63
    else if nat_eq c 10 || nat_eq c 13
    then line_break
    else if nat_eq c 61
    then padding
    else corrupt

-- The digits of a quantum that is not complete.
pub data Quantum : Type 0 where
  empty : Quantum
  one : ℕ → Quantum
  two : ℕ → ℕ → Quantum
  three : ℕ → ℕ → ℕ → Quantum

-- Four digits, 24 bits.
unfoldable pub joined : ℕ → ℕ → ℕ → ℕ → ℕ
joined a b c d = a * 2 ^ 18 + b * 2 ^ 12 + c * 2 ^ 6 + d

unfoldable pub byte_0 : ℕ → ℕ
byte_0 v = v / 2 ^ 16 % 256

unfoldable pub byte_1 : ℕ → ℕ
byte_1 v = v / 2 ^ 8 % 256

unfoldable pub byte_2 : ℕ → ℕ
byte_2 v = v % 256

-- The bytes of a quantum that the end of the text or its padding cuts off.
unfoldable pub partial_bytes : Quantum → List ℕ
unfolding joined byte_0 byte_1
partial_bytes (two a b) = byte_0 (joined a b 0 0) ∷ []
partial_bytes (three a b c) = let v = joined a b c 0 in byte_0 v ∷ byte_1 v ∷ []
partial_bytes _ = []

unfoldable pub after_digit : Quantum → ℕ → Quantum
after_digit empty d = one d
after_digit (one a) d = two a d
after_digit (two a b) d = three a b d
after_digit (three a b c) d = empty

-- The bytes that a digit completes.
unfoldable pub completed : Quantum → ℕ → List ℕ
unfolding joined byte_0 byte_1 byte_2
completed (three a b c) d = let v = joined a b c d in byte_0 v ∷ byte_1 v ∷ byte_2 v ∷ []
completed _ d = []

unfoldable pub skip_breaks : List ℕ → List ℕ
skip_breaks [] = []
skip_breaks (c ∷ s) = let rest = skip_breaks s in if nat_eq c 10 || nat_eq c 13 then rest else c ∷ s

-- Nothing but line breaks may follow the padding.
unfoldable pub ended : List ℕ → List ℕ → Option (List ℕ)
unfolding skip_breaks
ended bytes s = elim (skip_breaks s) [ [] ↦ some bytes | _ ↦ none ]

-- The text behind a first padding character.
unfoldable pub end_padding : Quantum → List ℕ → Option (List ℕ)
unfolding skip_breaks ended partial_bytes
end_padding (two a b) s = elim (skip_breaks s) [
  | [] ↦ none
  | c ∷ r ↦ if nat_eq c 61 then ended (partial_bytes (two a b)) r else none
]
end_padding (three a b c) s = ended (partial_bytes (three a b c)) s
end_padding _ s = none

-- The end of the text without padding.
unfoldable pub end_text : Bool → Quantum → Option (List ℕ)
unfolding partial_bytes
end_text padded empty = some []
end_text padded (one a) = none
end_text true q = none
end_text false q = some (partial_bytes q)

unfoldable pub prepend : List ℕ → Option (List ℕ) → Option (List ℕ)
prepend bytes none = none
prepend bytes (some rest) = some (bytes ++ rest)

-- base64.URLEncoding is padded, base64.RawURLEncoding is not.
unfoldable pub decode : Bool → Quantum → List ℕ → Option (List ℕ)
unfolding symbol end_text end_padding completed after_digit prepend
decode padded q [] = end_text padded q
decode padded q (c ∷ s) = elim (symbol c) [
  | digit d ↦ prepend (completed q d) (decode padded (after_digit q d) s)
  | line_break ↦ decode padded q s
  | padding ↦ if padded then end_padding q s else none
  | corrupt ↦ none
]

unfoldable pub url_decode : List ℕ → Option (List ℕ)
unfolding decode
url_decode = decode true empty

unfoldable pub raw_url_decode : List ℕ → Option (List ℕ)
unfolding decode
raw_url_decode = decode false empty

-- strings.TrimRight(s, "=")
unfoldable pub trim_padding : List ℕ → List ℕ
trim_padding [] = []
trim_padding (c ∷ s) = elim (trim_padding s) [
  | [] ↦ if nat_eq c 61 then [] else c ∷ []
  | d ∷ r ↦ c ∷ d ∷ r
]

unfoldable pub pad : List ℕ → List ℕ
pad s =
    let r = length s % 4 in
    if nat_eq r 2 then s ++ (61 ∷ 61 ∷ []) else if nat_eq r 3 then s ++ (61 ∷ []) else s

-- The bytes of a padded text, none where neither decoder reads it.
unfoldable pub either : List ℕ → List ℕ
unfolding trim_padding url_decode raw_url_decode
either s = elim (url_decode s) [
  | some raw ↦ raw
  | none ↦ elim (raw_url_decode (trim_padding s)) [ some raw ↦ raw | none ↦ [] ]
]

unfoldable pub base64_url_decode : List ℕ → List ℕ
unfolding trim_padding pad either
base64_url_decode s = either (pad (trim_padding s))
