-- ===== src/Oidc/Verify.antt =====
-- handleVerify and extractSub of platform-mvp/oidc-verifier/main.go, over the JWT library that they
-- call.
pub mod Library
pub mod Trust
pub mod Audit
pub mod Rotation
use kro_lab.Prelude.{
  String, ◌<>◌, ◌==◌, Bool, true, false, not, ◌&&◌, ◌||◌, Option, none, some, List, [], ◌∷◌,
  if◌then◌else◌, cut_prefix,
}
use kro_lab.Prelude.Dict.{lookup}
use kro_lab.Kube.Value.{Value, str, obj, Fields, fields, get_field}
use kro_lab.Oidc.Error.{Result, ok, err, message}
use kro_lab.Oidc.Jwk.{PublicKey}
use kro_lab.Oidc.KeySet.{KeySet}
use kro_lab.Oidc.Http.{Instant, Request, Response, write_json, http_error, log_audit}
use kro_lab.Oidc.Server.{Server}

pub record ParserOptions : Type 0 where
  pub valid_methods : List String
  pub issuer : String
  -- jwt.WithAudience, where it is given
  pub audience : Option String

pub data Claims : Type 0 where
  map_claims : Fields → Claims
  -- claims of another Go type
  other_claims : Claims

-- What jwt.Parser.Parse returns: the text of its error, or the claims of the token.
pub data Parsed : Type 0 where
  refused : String → Parsed
  accepted : Claims → Parsed

-- The calls of github.com/golang-jwt/jwt.
pub record Jwt : Type 0 where
  pub parse : ParserOptions → (Fields → Result PublicKey) → String → Parsed
  pub parse_unverified : String → Option Claims
  -- claims.GetSubject, the empty text where it fails
  pub get_subject : Fields → String

abbrev pub signing_methods : List String
signing_methods = "RS256" ∷ "RS384" ∷ "RS512" ∷ "ES256" ∷ "ES384" ∷ "ES512" ∷ []

unfoldable pub parser_options : Server → ParserOptions
parser_options s = record {
  valid_methods = signing_methods;
  issuer = s.issuer;
  audience = if s.audience == "" then none else some (s.audience);
}

-- `m[k].(string)`
unfoldable pub text_member : String → Fields → Option String
unfolding get_field
text_member k fs = elim (get_field k fs) [ some (str s) ↦ some s | _ ↦ none ]

-- The key of an id, or the error that there is none.
unfoldable pub known_key : String → Option PublicKey → Result PublicKey
known_key kid none = err (message ("unknown kid: " <> kid))
known_key kid (some key) = ok key

unfoldable pub key_for_id : KeySet → Option String → Result PublicKey
unfolding lookup known_key
key_for_id set none = err (message "missing kid in token header")
key_for_id set (some kid) = known_key kid (lookup kid set)

-- The key for the header of a token, in the set as it is at that moment.
unfoldable pub key_for : KeySet → Fields → Result PublicKey
unfolding text_member key_for_id
key_for set header = key_for_id set (text_member "kid" header)

pub record Handled : Type 0 where
  pub response : Response
  pub audit : List Value

-- A request without a token.
unfoldable pub unauthorized : Instant → Handled
unfolding write_json log_audit
unauthorized now = record {
  response = write_json 401 (obj (fields (("error", str "missing Authorization header") ∷ [])));
  audit = log_audit now "jwt_verify" "unknown" "failed" "missing Authorization header" ∷ [];
}

module _ (jwt : Jwt) where
  -- The `sub` of a token that was not verified, or its `client_id`.
  subject_of : Claims → String
  unfolding text_member
  subject_of other_claims = "unknown"
  subject_of (map_claims claims) = elim (text_member "sub" claims) [
    | some sub ↦ sub
    | none ↦ elim (text_member "client_id" claims) [ some cid ↦ cid | none ↦ "unknown" ]
  ]

  unfoldable pub extract_sub : String → String
  unfolding subject_of
  extract_sub token = elim (jwt.parse_unverified token) [
    | none ↦ "unknown"
    | some claims ↦ subject_of claims
  ]

  unfoldable pub answer_parsed : Instant → String → Parsed → Handled
  unfolding extract_sub write_json log_audit
  answer_parsed now token (refused error) = record {
    response =
        write_json 401
          (obj (fields (("error", str "token validation failed") ∷ ("detail", str error) ∷ [])));
    audit = log_audit now "jwt_verify" (extract_sub token) "failed" error ∷ [];
  }
  answer_parsed now token (accepted other_claims) = record {
    response = write_json 401 (obj (fields (("error", str "invalid token claims") ∷ [])));
    audit = log_audit now "jwt_verify" "unknown" "failed" "invalid claims type" ∷ [];
  }
  answer_parsed now token (accepted (map_claims claims)) = record {
    response =
        write_json 200 (obj (fields (("status", str "verified") ∷ ("claims", obj claims) ∷ [])));
    audit = log_audit now "jwt_verify" (jwt.get_subject claims) "success" "token validated" ∷ [];
  }

  -- The map of the keys is shared: `current` is what it holds when the parser asks for the key, which
  -- a refresh may have changed since the request came in.
  unfoldable pub verify_token : Instant → Server → KeySet → String → Handled
  unfolding parser_options key_for answer_parsed
  verify_token now s current token =
      answer_parsed now token (jwt.parse (parser_options s) (key_for current) token)

  -- Without a token there is no Authorization header, or one of another scheme.
  unfoldable pub handle_token : Instant → Server → KeySet → Option String → Handled
  unfolding unauthorized verify_token
  handle_token now s current none = unauthorized now
  handle_token now s current (some token) = verify_token now s current token

  unfoldable pub handle_verify : Instant → Server → KeySet → Request → Handled
  unfolding handle_token http_error cut_prefix
  handle_verify now s current r =
      if not (r.method == "POST") && not (r.method == "GET")
      then record { response = http_error "method not allowed" 405; audit = [] }
      else handle_token now s current (cut_prefix r.authorization "Bearer ")
