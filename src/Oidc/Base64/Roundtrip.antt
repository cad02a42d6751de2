-- ===== src/Oidc/Base64/Roundtrip.antt =====
-- Encoding bytes as RFC 4648 does it, and reading them back.
use kro_lab.Prelude.{
  ℕ, ◌+◌, ◌-◌, ◌*◌, ◌/◌, ◌%◌, ◌<◌, ◌≡◌, refl, ap, ◌∙◌, false, Option, none, some, List, [], ◌∷◌,
  ◌++◌, ◌≢◌, nat_eq, ltb, if◌then◌else◌, arith,
}
use mathlib.Core.Path.{ap₂}
use kro_lab.Oidc.Base64.{
  digit, symbol, Quantum, empty, one, two, three, after_digit, joined, byte_0, byte_1, byte_2,
  partial_bytes, completed, end_text, prepend, decode, raw_url_decode, base64_url_decode,
}
use kro_lab.Oidc.Base64.Bounds.{IsBytes}
use kro_lab.Oidc.Base64.Unpadded.{
  IsBare, base64_url_decode_unpadded, trim_padding-append, padding_of, trim_padding-bare,
}

-- The URL-safe alphabet.
digit_char : ℕ → ℕ
digit_char d =
    if ltb d 26
    then d + 65
    else if ltb d 52
    then d + 71
    else if ltb d 62
    then d - 4
    else if nat_eq d 62
    then 45
    else 95

-- The unpadded URL-safe encoding: three bytes are four digits of six bits.
unfoldable pub base64_url : List ℕ → List ℕ
unfolding digit_char
base64_url [] = []
base64_url (x ∷ []) = digit_char (x / 4) ∷ digit_char (x % 4 * 16) ∷ []
base64_url (x ∷ y ∷ []) =
    digit_char (x / 4) ∷ digit_char (x % 4 * 16 + y / 16) ∷ digit_char (y % 16 * 4) ∷ []
base64_url (x ∷ y ∷ z ∷ s) =
    digit_char (x / 4)
    ∷ digit_char (x % 4 * 16 + y / 16)
    ∷ digit_char (y % 16 * 4 + z / 64)
    ∷ digit_char (z % 64)
    ∷ base64_url s

symbol-digit_char : (d : ℕ) → d < 64 → symbol (digit_char d) ≡ digit d
unfolding symbol digit_char
symbol-digit_char d h = ground arith

digit_char-bare : (d : ℕ) → digit_char d ≢ 61
unfolding digit_char
digit_char-bare d e = ground arith

base64_url-IsBare : (s : List ℕ) → IsBare (base64_url s)
unfolding base64_url
base64_url-IsBare [] = tt
base64_url-IsBare (x ∷ []) = (digit_char-bare (x / 4), (digit_char-bare (x % 4 * 16), tt))
base64_url-IsBare (x ∷ y ∷ []) = (
  digit_char-bare (x / 4),
  (digit_char-bare (x % 4 * 16 + y / 16), (digit_char-bare (y % 16 * 4), tt)),
)
base64_url-IsBare (x ∷ y ∷ z ∷ s) = (
  digit_char-bare (x / 4),
  (
    digit_char-bare (x % 4 * 16 + y / 16),
    (digit_char-bare (y % 16 * 4 + z / 64), (digit_char-bare (z % 64), base64_url-IsBare s)),
  ),
)

-- One digit more.
decode-digit_char :
    (q : Quantum) (d : ℕ) (s : List ℕ)
    → d < 64
    → decode false q (digit_char d ∷ s) ≡ prepend (completed q d) (decode false (after_digit q d) s)
unfolding decode
decode-digit_char q d s h = rw (decode, symbol-digit_char d h) refl

byte_0-joined :
    (x b c d : ℕ)
    → x < 256
    → b < 16
    → c < 64
    → d < 64
    → byte_0 (joined (x / 4) (x % 4 * 16 + b) c d) ≡ x
unfolding byte_0 joined
byte_0-joined x b c d h i j k = omega arith

byte_1-joined :
    (a x y d c : ℕ)
    → a < 64
    → x < 4
    → y < 256
    → c < 4
    → d < 64
    → byte_1 (joined a (x * 16 + y / 16) (y % 16 * 4 + c) d) ≡ y
unfolding byte_1 joined
byte_1-joined a x y d c h i j k l = omega arith

byte_2-joined : (a b x z : ℕ) → z < 256 → byte_2 (joined a b (x * 4 + z / 64) (z % 64)) ≡ z
unfolding byte_2 joined
byte_2-joined a b x z h = omega arith

prepend-nil : (o : Option (List ℕ)) → prepend [] o ≡ o
unfolding prepend
prepend-nil none = refl
prepend-nil (some r) = refl

decode-two :
    (a b : ℕ) (s : List ℕ)
    → a < 64
    → b < 64
    → decode false empty (digit_char a ∷ digit_char b ∷ s) ≡ decode false (two a b) s
unfolding completed after_digit
decode-two a b s h i =
    rw (decode-digit_char empty a (digit_char b ∷ s) h, decode-digit_char (one a) b s i)
      (prepend-nil _ ∙ prepend-nil _)

decode-three :
    (a b c : ℕ) (s : List ℕ)
    → a < 64
    → b < 64
    → c < 64
    → decode false empty (digit_char a ∷ digit_char b ∷ digit_char c ∷ s)
      ≡ decode false (three a b c) s
unfolding completed after_digit
decode-three a b c s h i j =
    decode-two a b _ h i ∙ decode-digit_char (two a b) c s j ∙ prepend-nil _

decode-end : (q : Quantum) → decode false q [] ≡ end_text false q
unfolding decode
decode-end q = refl

end_text-two : (x : ℕ) → x < 256 → end_text false (two (x / 4) (x % 4 * 16)) ≡ some (x ∷ [])
unfolding end_text partial_bytes byte_0 joined
end_text-two x h = ap (λ v. some (v ∷ [])) (omega arith)

end_text-three :
    (x y : ℕ)
    → x < 256
    → y < 256
    → end_text false (three (x / 4) (x % 4 * 16 + y / 16) (y % 16 * 4)) ≡ some (x ∷ y ∷ [])
unfolding end_text partial_bytes byte_0 byte_1 joined
end_text-three x y h i = ap₂ (λ v w. some (v ∷ w ∷ [])) (omega arith) (omega arith)

completed-three :
    (x y z : ℕ)
    → x < 256
    → y < 256
    → z < 256
    → completed (three (x / 4) (x % 4 * 16 + y / 16) (y % 16 * 4 + z / 64)) (z % 64)
      ≡ x ∷ y ∷ z ∷ []
unfolding completed
completed-three x y z h i j =
    ap₂ (λ (v : ℕ) (r : List ℕ). v ∷ r)
      (byte_0-joined x (y / 16) (y % 16 * 4 + z / 64) (z % 64) h (omega arith) (omega arith)
        (omega arith))
      (ap₂ (λ v w. v ∷ w ∷ [])
        (byte_1-joined (x / 4) (x % 4) y (z % 64) (z / 64) (omega arith) (omega arith) i
          (omega arith) (omega arith))
        (byte_2-joined (x / 4) (x % 4 * 16 + y / 16) (y % 16) z j))

decode-base64_url : (s : List ℕ) → IsBytes s → decode false empty (base64_url s) ≡ some s
unfolding base64_url end_text after_digit prepend
decode-base64_url [] h = decode-end empty
decode-base64_url (x ∷ []) h =
    decode-two (x / 4) (x % 4 * 16) [] (omega arith) (omega arith)
    ∙ decode-end (two (x / 4) (x % 4 * 16))
    ∙ end_text-two x h.0
decode-base64_url (x ∷ y ∷ []) h =
    let b = x % 4 * 16 + y / 16 in
    let c = y % 16 * 4 in
    decode-three (x / 4) b c [] (omega arith) (omega arith) (omega arith)
    ∙ decode-end (three (x / 4) b c)
    ∙ end_text-three x y h.0 h.1.0
decode-base64_url (x ∷ y ∷ z ∷ s) h =
    let b = x % 4 * 16 + y / 16 in
    let c = y % 16 * 4 + z / 64 in
    decode-three (x / 4) b c _ (omega arith) (omega arith) (omega arith)
    ∙ decode-digit_char (three (x / 4) b c) (z % 64) (base64_url s) (omega arith)
    ∙ rw (completed-three x y z h.0 h.1.0 h.1.1.0, decode-base64_url s h.1.1.1) refl

-- Whatever the number of padding characters behind it, the URL-safe encoding of a list of bytes is
-- read back as these bytes.
pub base64_url_decode-base64_url :
    (s : List ℕ) (n : ℕ) → IsBytes s → base64_url_decode (base64_url s ++ padding_of n) ≡ s
unfolding raw_url_decode
base64_url_decode-base64_url s n h =
    let bare = base64_url-IsBare s in
    let e = trim_padding-append (base64_url s) n ∙ trim_padding-bare (base64_url s) bare in
    base64_url_decode_unpadded (base64_url s ++ padding_of n) (rw e bare)
    ∙ rw (e, decode-base64_url s h) refl
