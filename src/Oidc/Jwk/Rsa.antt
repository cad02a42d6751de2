-- ===== src/Oidc/Jwk/Rsa.antt =====
-- Reading back an RSA key that was written as a JSON web key.
use kro_lab.Prelude.{
  ℕ, ◌^◌, ◌<◌, String, ◌≡◌, ◌≢◌, refl, ap, ◌∙◌, List, [], ◌∷◌, ◌++◌, codes, eq-false_of_ne, pos,
}
use kro_lab.Kube.Value.{Value, str, obj, fields}
use kro_lab.Oidc.Base64.{base64_url_decode}
use kro_lab.Oidc.Base64.Bounds.{IsBytes}
use kro_lab.Oidc.Base64.Unpadded.{padding_of}
use kro_lab.Oidc.Base64.Roundtrip.{base64_url, base64_url_decode-base64_url}
use kro_lab.Oidc.Error.{ok}
use kro_lab.Oidc.Unmarshal.{unmarshal_texts}
use kro_lab.Oidc.Jwk.{
  rsa, big_endian, big_int, exponent, parse_rsa_jwk, parse_fields, parse_jwk, jwk_fields,
}
use kro_lab.Oidc.Jwk.Exponent.{exponent_exact}

-- A key as Dex publishes it.
abbrev pub rsa_jwk : String → String → String → Value
rsa_jwk kid n e = obj (
    fields (
      ("use", str "sig")
      ∷ ("kty", str "RSA")
      ∷ ("kid", str kid)
      ∷ ("alg", str "RS256")
      ∷ ("n", str n)
      ∷ ("e", str e)
      ∷ []))

big_int-base64_url :
    (s : String) (bytes : List ℕ) (p : ℕ)
    → IsBytes bytes
    → codes s ≡ base64_url bytes ++ padding_of p
    → big_int s ≡ big_endian 0 bytes
unfolding big_int
big_int-base64_url s bytes p h e =
    ap (big_endian 0) (ap base64_url_decode e ∙ base64_url_decode-base64_url bytes p h)

parse_jwk-fields :
    (kid n e : String)
    → n ≢ ""
    → e ≢ ""
    → parse_jwk (rsa_jwk kid n e) ≡ ok (rsa (big_int n) (exponent (base64_url_decode (codes e))))
unfolding parse_jwk unmarshal_texts jwk_fields parse_fields parse_rsa_jwk
parse_jwk-fields kid n e h i = rw (eq-false_of_ne n "" h, eq-false_of_ne e "" i) refl

-- A modulus and an exponent that are written in big-endian bytes, in the URL-safe base64 encoding
-- with or without padding, are read back from the JSON web key, if the exponent is below 2^63.
pub parse_jwk-rsa_jwk :
    (kid n e : String) (modulus bytes : List ℕ) (p q : ℕ)
    → n ≢ ""
    → e ≢ ""
    → IsBytes modulus
    → IsBytes bytes
    → codes n ≡ base64_url modulus ++ padding_of p
    → codes e ≡ base64_url bytes ++ padding_of q
    → big_endian 0 bytes < 2 ^ 63
    → parse_jwk (rsa_jwk kid n e) ≡ ok (rsa (big_endian 0 modulus) (pos (big_endian 0 bytes)))
parse_jwk-rsa_jwk kid n e modulus bytes p q h i j k f g small =
    let value = big_int-base64_url e bytes q k g in
    parse_jwk-fields kid n e h i
    ∙ rw (big_int-base64_url n modulus p j f, exponent_exact e (rw value small), value) refl
