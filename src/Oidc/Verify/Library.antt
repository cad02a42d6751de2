-- ===== src/Oidc/Verify/Library.antt =====
-- What handleVerify relies on of github.com/golang-jwt/jwt, as its documentation states it.
use kro_lab.Prelude.{String, ◌≡◌, Bool, true, false, ◌&&◌, ◌||◌, ◌==◌, Option, none, some, contains}
use kro_lab.Kube.Value.{Value, str, arr, Fields, get_field, Items, nil, item}
use kro_lab.Oidc.Error.{Result, ok}
use kro_lab.Oidc.Jwk.{PublicKey}
use kro_lab.Oidc.Verify.{ParserOptions, Claims, map_claims, Jwt, accepted, text_member}

any_text : String → Items → Bool
any_text a nil = false
any_text a (item (str s) xs) = s == a || any_text a xs
any_text a (item v xs) = any_text a xs

audience_is : String → Option Value → Bool
unfolding any_text
audience_is a (some (str s)) = s == a
audience_is a (some (arr xs)) = any_text a xs
audience_is a _ = false

-- The `aud` claim is the audience or a list that has it.
unfoldable pub has_audience : String → Fields → Bool
unfolding audience_is get_field
has_audience a claims = audience_is a (get_field "aud" claims)

-- The audience that is configured, if one is.
unfoldable pub for_audience : String → Fields → Bool
unfolding has_audience
for_audience a claims = a == "" || has_audience a claims

unfoldable pub has_issuer : String → Fields → Bool
unfolding text_member
has_issuer issuer claims = elim (text_member "iss" claims) [
  | some iss ↦ iss == issuer
  | none ↦ false
]

-- A token as the library reads it.
pub record Contents : Type 0 where
  pub header : Fields
  pub claims : Fields

-- The claims satisfy jwt.WithIssuer, which with an empty text asks for nothing, and jwt.WithAudience,
-- where it is given.
unfoldable pub are_wanted : ParserOptions → Fields → Bool
unfolding has_issuer has_audience
are_wanted o claims =
    (o.issuer == "" || has_issuer o.issuer claims)
    && elim (o.audience) [ none ↦ true | some a ↦ has_audience a claims ]

-- The header names one of the methods of jwt.WithValidMethods, the function gives a key for the
-- header, and the signature is good.
pub record IsSigned (Signed : String → PublicKey → String → Type 0) (o : ParserOptions)
    (key_for : Fields → Result PublicKey) (token : String) (header : Fields) : Type 0 where
  pub alg : String
  pub key : PublicKey
  pub named : text_member "alg" header ≡ some alg
  pub allowed : contains o.valid_methods alg ≡ true
  pub found : key_for header ≡ ok key
  pub good : Signed alg key token

-- `Signed alg key token`: the signature of the token is good for a key. `Timely token`: the claims on
-- time, where it has them, hold now.
pub record JwtLaws (jwt : Jwt) (contents : String → Option Contents)
    (Signed : String → PublicKey → String → Type 0) (Timely : String → Type 0) : Type 0 where
  -- Parse parses, validates and verifies the signature
  pub sound :
      (o : ParserOptions) (f : Fields → Result PublicKey) (token : String) (c : Claims)
      → jwt.parse o f token ≡ accepted c
      → (t : Contents) × (contents token ≡ some t)
        × (c ≡ map_claims t.claims)
        × IsSigned Signed o f token t.header
        × (are_wanted o t.claims ≡ true)
  -- and refuses no other token
  pub complete :
      (o : ParserOptions) (f : Fields → Result PublicKey) (token : String) (t : Contents)
      → contents token ≡ some t
      → IsSigned Signed o f token t.header
      → are_wanted o t.claims ≡ true
      → Timely token
      → jwt.parse o f token ≡ accepted (map_claims t.claims)
