-- ===== src/Oidc/Jwk/Exponent.antt =====
-- The exponent of an RSA key: a loop on a 64-bit int.
use kro_lab.Prelude.{
  ℕ, ◌+◌, ◌*◌, ◌%◌, ◌^◌, ◌<◌, String, ◌≡◌, refl, ap, ◌∙◌, List, [], ◌∷◌, codes, ℤ, pos, negsuc, ltb,
  Bool-cases, inl, inr, arith,
}
use kro_lab.Oidc.Base64.{base64_url_decode}
use kro_lab.Oidc.Base64.Bounds.{IsBytes, base64_url_decode-IsBytes}
use kro_lab.Oidc.Jwk.{big_endian, big_int, shift_in, exponent_bits, signed, exponent}

-- The range of an int64.
abbrev pub IsInt64 : ℤ → Type 0
IsInt64 (pos n) = n < 2 ^ 63
IsInt64 (negsuc n) = n < 2 ^ 63

shift_in-modulo : (m b : ℕ) → b < 256 → shift_in (m % 2 ^ 64) b ≡ (m * 256 + b) % 2 ^ 64
unfolding shift_in
shift_in-modulo m b h = omega arith

exponent_bits-modulo :
    (bytes : List ℕ) (m : ℕ)
    → IsBytes bytes
    → exponent_bits (m % 2 ^ 64) bytes ≡ big_endian m bytes % 2 ^ 64
unfolding exponent_bits big_endian
exponent_bits-modulo [] m h = refl
exponent_bits-modulo (b ∷ bytes) m h =
    rw (shift_in-modulo m b h.0) (exponent_bits-modulo bytes (m * 256 + b) h.1)

exponent_bits_modulo :
    (s : String) → exponent (base64_url_decode (codes s)) ≡ signed (big_int s % 2 ^ 64)
unfolding exponent big_int
exponent_bits_modulo s =
    ap signed
      (exponent_bits-modulo (base64_url_decode (codes s)) 0 (base64_url_decode-IsBytes (codes s)))

signed-IsInt64 : (v : ℕ) → v < 2 ^ 64 → IsInt64 (signed v)
unfolding signed
signed-IsInt64 v h = elim (Bool-cases (ltb v (2 ^ 63))) [
  | inl small ↦ rw small (ground arith)
  | inr large ↦ rw large (ground arith)
]

signed-pos : (v : ℕ) → v < 2 ^ 63 → signed v ≡ pos v
unfolding signed
signed-pos v h = ground arith

modulo_small : (v : ℕ) → v < 2 ^ 63 → v % 2 ^ 64 ≡ v
modulo_small v h = omega arith

-- The exponent of a text is an int64: the number that the decoded bytes are, reduced modulo 2^64 and
-- read in two's complement.
pub exponent_modulo :
    (s : String)
    → (exponent (base64_url_decode (codes s)) ≡ signed (big_int s % 2 ^ 64))
      × IsInt64 (exponent (base64_url_decode (codes s)))
exponent_modulo s =
    let e = exponent_bits_modulo s in (e, rw e (signed-IsInt64 (big_int s % 2 ^ 64) (omega arith)))

-- It is that number itself where it is below 2^63.
pub exponent_exact :
    (s : String) → big_int s < 2 ^ 63 → exponent (base64_url_decode (codes s)) ≡ pos (big_int s)
exponent_exact s h =
    let v = big_int s in (exponent_modulo s).0 ∙ rw (modulo_small v h) (signed-pos v h)
