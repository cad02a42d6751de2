-- ===== src/Tests/Keys.antt =====
-- Encodings and key sets of the verifier, and durations and flags.
use kro_lab.Prelude.{
  ◌%◌, ◌^◌, All, ◌≡◌, ◌≢◌, ◌↔◌, refl, List, [], ◌∷◌, ◌++◌, codes, pos, arith, eq_iff,
}
use kro_lab.Prelude.Dict.{lookup}
use kro_lab.Kube.Value.{Value, null, str, obj, fields}
use kro_lab.Oidc.Base64.{base64_url_decode, raw_url_decode}
use kro_lab.Oidc.Base64.Unpadded.{or_no_bytes, base64_url_decode_unpadded}
use kro_lab.Oidc.Base64.Roundtrip.{base64_url, base64_url_decode-base64_url}
use kro_lab.Oidc.Error.{ok}
use kro_lab.Oidc.Jwk.{PublicKey, rsa, big_endian, big_int, exponent, signed, parse_jwk}
use kro_lab.Oidc.Jwk.Exponent.{IsInt64, exponent_modulo}
use kro_lab.Oidc.Jwk.Rsa.{rsa_jwk, parse_jwk-rsa_jwk}
use kro_lab.Oidc.KeySet.{KeySet, parse_jwks_keys}
use kro_lab.Oidc.KeySet.Contents.{
  IsReadable, published, parse_jwks_keys_contents, parse_jwks_keys_iff,
}

-- RFC 4648 writes these bytes with both characters of the URL-safe alphabet.
alphabet_test : base64_url_decode (codes "-_-_") ≡ 251 ∷ 255 ∷ 191 ∷ []
unfolding base64_url_decode
alphabet_test = refl

-- Neither decoder reads a text of one digit.
too_short_test : base64_url_decode (codes "Q") ≡ []
unfolding base64_url_decode
too_short_test = refl

base64_url_decode-base64_url_example :
    base64_url_decode (base64_url (77 ∷ 255 ∷ 0 ∷ 110 ∷ []) ++ (61 ∷ 61 ∷ []))
    ≡ 77 ∷ 255 ∷ 0 ∷ 110 ∷ []
base64_url_decode-base64_url_example =
    base64_url_decode-base64_url (77 ∷ 255 ∷ 0 ∷ 110 ∷ []) 2
      (omega arith, (omega arith, (omega arith, (omega arith, tt))))

base64_url_decode_unpadded_example :
    base64_url_decode (codes "TQ==") ≡ or_no_bytes (raw_url_decode (84 ∷ 81 ∷ []))
unfolding kro_lab.Oidc.Base64.trim_padding
base64_url_decode_unpadded_example =
    base64_url_decode_unpadded (codes "TQ==") ((λ e. ground arith), ((λ e. ground arith), tt))

-- An exponent of nine bytes loses the first of them.
exponent_modulo_example :
    (exponent (base64_url_decode (codes "AQAAAAAAAAAD")) ≡ signed (big_int "AQAAAAAAAAAD" % 2 ^ 64))
    × IsInt64 (exponent (base64_url_decode (codes "AQAAAAAAAAAD")))
exponent_modulo_example = exponent_modulo "AQAAAAAAAAAD"

wrapped_test : exponent (base64_url_decode (codes "AQAAAAAAAAAD")) ≡ pos 3
unfolding exponent base64_url_decode
wrapped_test = refl

parse_jwk-rsa_jwk_example :
    parse_jwk (rsa_jwk "k1" "TWFu" "AQAB")
    ≡ ok (rsa (big_endian 0 (77 ∷ 97 ∷ 110 ∷ [])) (pos (big_endian 0 (1 ∷ 0 ∷ 1 ∷ []))))
unfolding base64_url big_endian
parse_jwk-rsa_jwk_example =
    parse_jwk-rsa_jwk "k1" "TWFu" "AQAB" (77 ∷ 97 ∷ 110 ∷ []) (1 ∷ 0 ∷ 1 ∷ []) 0 0
      (λ e. ground (arith, eq_iff "TWFu" "")) (λ e. ground (arith, eq_iff "AQAB" ""))
      (omega arith, (omega arith, (omega arith, tt)))
      (omega arith, (omega arith, (omega arith, tt))) refl refl (omega arith)

abbrev pub man : PublicKey
man = rsa 5071214 (pos 65537)

-- A key without an id, an id in capitals, and a key that comes twice.
abbrev raw_keys : List Value
raw_keys =
    rsa_jwk "k1" "AQAB" "AQAB"
    ∷ obj (fields (("kty", str "oct") ∷ []))
    ∷ null
    ∷ obj (
        fields
          (("KTY", str "RSA") ∷ ("kid", str "k2") ∷ ("n", str "TWFu") ∷ ("E", str "AQAB") ∷ []))
    ∷ rsa_jwk "k1" "TWFu" "AQAB"
    ∷ []

parsed_keys : parse_jwks_keys raw_keys ≡ ok (("k1", man) ∷ ("k2", man) ∷ [])
unfolding parse_jwks_keys
parsed_keys = refl

parse_jwks_keys_contents_example :
    lookup "k2" (("k1", man) ∷ ("k2", man) ∷ []) ≡ published "k2" raw_keys
parse_jwks_keys_contents_example =
    parse_jwks_keys_contents raw_keys (("k1", man) ∷ ("k2", man) ∷ []) parsed_keys "k2"

parse_jwks_keys_iff_example :
    ((out : KeySet) × (parse_jwks_keys (null ∷ []) ≡ ok out))
    ↔ ((null ∷ [] ≢ []) × All IsReadable (null ∷ []))
parse_jwks_keys_iff_example = parse_jwks_keys_iff (null ∷ [])
