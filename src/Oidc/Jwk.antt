-- ===== src/Oidc/Jwk.antt =====
-- JSON web keys: jwkFields, parseJWK, parseRSAJWK and parseECJWK of platform-mvp/oidc-verifier/main.go.
pub mod Exponent
pub mod Rsa
use kro_lab.Prelude.{
  ℕ, ◌+◌, ◌-◌, ◌*◌, ◌%◌, ◌^◌, String, ◌<>◌, ◌==◌, Bool, ◌||◌, Option, none, some, List, [], ◌∷◌,
  ltb, if◌then◌else◌, codes, ℤ, pos, negsuc,
}
use kro_lab.Prelude.Dict.{Dict, text_at}
use kro_lab.Kube.Value.{Value}
use kro_lab.Oidc.Base64.{base64_url_decode}
use kro_lab.Oidc.Error.{Result, ok, err, message, json}
use kro_lab.Oidc.Unmarshal.{unmarshal_texts}

pub data Curve : Type 0 where
  p256 p384 p521 : Curve

-- *rsa.PublicKey and *ecdsa.PublicKey.
pub data PublicKey : Type 0 where
  rsa : (modulus : ℕ) → (exponent : ℤ) → PublicKey
  ecdsa : Curve → (x : ℕ) → (y : ℕ) → PublicKey

pub record JwkFields : Type 0 where
  pub kty : String
  pub key_use : String
  pub alg : String
  pub kid : String
  pub n : String
  pub e : String
  pub x : String
  pub y : String
  pub crv : String

abbrev pub jwk_names : List String
jwk_names = "kty" ∷ "use" ∷ "alg" ∷ "kid" ∷ "n" ∷ "e" ∷ "x" ∷ "y" ∷ "crv" ∷ []

-- The struct of the texts that decoding stored.
unfoldable pub jwk_fields : Dict String → JwkFields
unfolding text_at
jwk_fields d = record {
  kty = text_at "kty" d;
  key_use = text_at "use" d;
  alg = text_at "alg" d;
  kid = text_at "kid" d;
  n = text_at "n" d;
  e = text_at "e" d;
  x = text_at "x" d;
  y = text_at "y" d;
  crv = text_at "crv" d;
}

-- big.Int.SetBytes, behind the bytes already read.
unfoldable pub big_endian : ℕ → List ℕ → ℕ
big_endian acc [] = acc
big_endian acc (b ∷ bytes) = big_endian (acc * 256 + b) bytes

-- new(big.Int).SetBytes(base64URLDecode(s))
unfoldable pub big_int : String → ℕ
unfolding big_endian base64_url_decode
big_int s = big_endian 0 (base64_url_decode (codes s))

-- The bits of `e<<8 | int(b)`, a 64-bit int: the shift leaves eight zeros for the byte.
unfoldable pub shift_in : ℕ → ℕ → ℕ
shift_in e b = e * 2 ^ 8 % 2 ^ 64 + b

unfoldable pub exponent_bits : ℕ → List ℕ → ℕ
unfolding shift_in
exponent_bits e [] = e
exponent_bits e (b ∷ bytes) = exponent_bits (shift_in e b) bytes

-- The number that 64 bits are in two's complement.
unfoldable pub signed : ℕ → ℤ
signed v = if ltb v (2 ^ 63) then pos v else negsuc (2 ^ 64 - 1 - v)

unfoldable pub exponent : List ℕ → ℤ
unfolding exponent_bits signed
exponent bytes = signed (exponent_bits 0 bytes)

unfoldable pub parse_rsa_jwk : JwkFields → Result PublicKey
unfolding big_int exponent
parse_rsa_jwk f =
    if f.n == "" || f.e == ""
    then err (message "RSA JWK missing 'n' or 'e'")
    else ok (rsa (big_int f.n) (exponent (base64_url_decode (codes f.e))))

unfoldable pub curve : String → Option Curve
curve crv =
    if crv == "P-256"
    then some p256
    else if crv == "P-384"
    then some p384
    else if crv == "P-521"
    then some p521
    else none

unfoldable pub parse_ec_jwk : JwkFields → Result PublicKey
unfolding curve big_int
parse_ec_jwk f =
    if f.x == "" || (f.y == "" || f.crv == "")
    then err (message "EC JWK missing 'x', 'y', or 'crv'")
    else elim (curve f.crv) [
      | none ↦ err (message ("unsupported EC curve: " <> f.crv))
      | some c ↦ ok (ecdsa c (big_int f.x) (big_int f.y))
    ]

unfoldable pub parse_fields : JwkFields → Result PublicKey
unfolding parse_rsa_jwk parse_ec_jwk
parse_fields f =
    if f.kty == "RSA"
    then parse_rsa_jwk f
    else if f.kty == "EC"
    then parse_ec_jwk f
    else err (message ("unsupported kty: " <> f.kty))

unfoldable pub parse_jwk : Value → Result PublicKey
unfolding unmarshal_texts jwk_fields parse_fields
parse_jwk raw = elim (unmarshal_texts jwk_names raw) [
  | none ↦ err json
  | some d ↦ parse_fields (jwk_fields d)
]
