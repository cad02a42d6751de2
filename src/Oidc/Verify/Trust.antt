-- ===== src/Oidc/Verify/Trust.antt =====
-- Which tokens handleVerify accepts.
use kro_lab.Prelude.{
  String, ◌<>◌, ◌≡◌, ◌≢◌, ◌⊎◌, refl, true, eq-false_of_ne, Option, none, some, [], ◌∷◌, arith, inl,
  inr, contains, cut_prefix, cut_prefix-append, cut_prefix-some,
}
use kro_lab.Prelude.Dict.{lookup}
use kro_lab.Kube.Value.{str, obj, Fields, fields}
use kro_lab.Oidc.Error.{ok}
use kro_lab.Oidc.Jwk.{PublicKey}
use kro_lab.Oidc.KeySet.{KeySet}
use kro_lab.Oidc.Http.{Instant, Request, Response, write_json, http_error}
use kro_lab.Oidc.Server.{Server}
use kro_lab.Oidc.Verify.{
  Claims, map_claims, other_claims, Parsed, refused, accepted, Jwt, signing_methods, parser_options,
  text_member, known_key, key_for_id, key_for, unauthorized, answer_parsed, verify_token,
  handle_token, handle_verify,
}
use kro_lab.Oidc.Verify.Library.{for_audience, has_issuer, are_wanted, Contents, JwtLaws}

-- What a token has to be for a server with these keys.
pub record IsTrusted (Signed : String → PublicKey → String → Type 0) (s : Server) (set : KeySet)
    (token : String) (t : Contents) : Type 0 where
  pub kid : String
  pub alg : String
  pub key : PublicKey
  pub identified : text_member "kid" t.header ≡ some kid
  pub known : lookup kid set ≡ some key
  pub named : text_member "alg" t.header ≡ some alg
  pub allowed : contains signing_methods alg ≡ true
  pub good : Signed alg key token
  pub issued : has_issuer s.issuer t.claims ≡ true
  -- where an audience is configured
  pub meant : for_audience s.audience t.claims ≡ true

known_key-ok :
    (kid : String) (o : Option PublicKey) (key : PublicKey)
    → known_key kid o ≡ ok key
    → o ≡ some key
unfolding known_key
known_key-ok kid none key h = absurd (ground arith)
known_key-ok kid (some found) key h = ground arith

key_for_id-ok :
    (set : KeySet) (o : Option String) (key : PublicKey)
    → key_for_id set o ≡ ok key
    → (kid : String) × (o ≡ some kid) × (lookup kid set ≡ some key)
unfolding key_for_id
key_for_id-ok set none key h = absurd (ground arith)
key_for_id-ok set (some kid) key h = (kid, refl, known_key-ok kid (lookup kid set) key h)

key_for-ok :
    (set : KeySet) (header : Fields) (key : PublicKey)
    → key_for set header ≡ ok key
    → (kid : String) × (text_member "kid" header ≡ some kid) × (lookup kid set ≡ some key)
unfolding key_for
key_for-ok set header key h = key_for_id-ok set (text_member "kid" header) key h

key_for-known :
    (set : KeySet) (header : Fields) (kid : String) (key : PublicKey)
    → text_member "kid" header ≡ some kid
    → lookup kid set ≡ some key
    → key_for set header ≡ ok key
unfolding key_for key_for_id known_key
key_for-known set header kid key e f = rw (e, f) refl

wanted_parts :
    (s : Server) (claims : Fields)
    → s.issuer ≢ ""
    → are_wanted (parser_options s) claims ≡ true
    → (has_issuer s.issuer claims ≡ true) × (for_audience s.audience claims ≡ true)
unfolding are_wanted parser_options for_audience
wanted_parts s claims h e =
    (ground (arith, eq-false_of_ne s.issuer "" h), ground (arith, eq-false_of_ne s.issuer "" h))

parts_wanted :
    (s : Server) (claims : Fields)
    → has_issuer s.issuer claims ≡ true
    → for_audience s.audience claims ≡ true
    → are_wanted (parser_options s) claims ≡ true
unfolding are_wanted parser_options for_audience
parts_wanted s claims h e = ground arith

-- The response to a token with these claims.
abbrev pub verified : Fields → Response
verified claims =
    write_json 200 (obj (fields (("status", str "verified") ∷ ("claims", obj claims) ∷ [])))

module _ (jwt : Jwt) where
  answer_parsed-verified :
      (now : Instant) (token : String) (p : Parsed)
      → (answer_parsed jwt now token p).response.status ≡ 200
      → (claims : Fields) × (p ≡ accepted (map_claims claims))
  unfolding answer_parsed write_json
  answer_parsed-verified now token (refused error) h = absurd (omega arith)
  answer_parsed-verified now token (accepted other_claims) h = absurd (omega arith)
  answer_parsed-verified now token (accepted (map_claims claims)) h = (claims, refl)

  handle_token-verified :
      (now : Instant) (s : Server) (set : KeySet) (o : Option String)
      → (handle_token jwt now s set o).response.status ≡ 200
      → (token : String) × (claims : Fields) × (o ≡ some token)
        × (jwt.parse (parser_options s) (key_for set) token ≡ accepted (map_claims claims))
  unfolding handle_token unauthorized write_json verify_token
  handle_token-verified now s set none h = absurd (omega arith)
  handle_token-verified now s set (some token) h =
      let (claims, e) = answer_parsed-verified now token _ h in (token, claims, refl, e)

  handle_verify-token :
      (now : Instant) (s : Server) (set : KeySet) (r : Request)
      → (handle_verify jwt now s set r).response.status ≡ 200
      → (handle_token jwt now s set (cut_prefix r.authorization "Bearer ")).response.status ≡ 200
  unfolding handle_verify http_error
  handle_verify-token now s set r h = ground arith

  handle_verify-allowed :
      (now : Instant) (s : Server) (set : KeySet) (method authorization : String)
      → (method ≡ "GET") ⊎ (method ≡ "POST")
      → handle_verify jwt now s set (record { method = method; authorization = authorization })
        ≡ handle_token jwt now s set (cut_prefix authorization "Bearer ")
  unfolding handle_verify
  handle_verify-allowed now s set method authorization (inl e) = rw e refl
  handle_verify-allowed now s set method authorization (inr e) = rw e refl

  module _ (contents : String → Option Contents) (Signed : String → PublicKey → String → Type 0)
      (Timely : String → Type 0) (laws : JwtLaws jwt contents Signed Timely) where
    parse-IsTrusted :
        (s : Server) (set : KeySet) (token : String) (c : Claims)
        → s.issuer ≢ ""
        → jwt.parse (parser_options s) (key_for set) token ≡ accepted c
        → (t : Contents) × (contents token ≡ some t)
          × (c ≡ map_claims t.claims)
          × IsTrusted Signed s set token t
    unfolding parser_options
    parse-IsTrusted s set token c h e =
        let (t, f, g, signed, wanted) = laws.sound (parser_options s) (key_for set) token c e in
        let (kid, i, j) = key_for-ok set t.header signed.key signed.found in
        (
          t,
          f,
          g,
          record {
            kid = kid;
            alg = signed.alg;
            key = signed.key;
            identified = i;
            known = j;
            named = signed.named;
            allowed = signed.allowed;
            good = signed.good;
            issued = (wanted_parts s t.claims h wanted).0;
            meant = (wanted_parts s t.claims h wanted).1;
          },
        )

    -- The verifier answers 200 only to a request with the Bearer token in whose header stands the id
    -- of a key of the set and one of the six methods, that is signed with this key, whose claims have
    -- the issuer of the server and, where one is configured, its audience.
    pub handle_verify_sound :
        (now : Instant) (s : Server) (set : KeySet) (r : Request)
        → s.issuer ≢ ""
        → (handle_verify jwt now s set r).response.status ≡ 200
        → (token : String) × (t : Contents) × (r.authorization ≡ "Bearer " <> token)
          × (contents token ≡ some t)
          × IsTrusted Signed s set token t
    handle_verify_sound now s set r h e =
        let (token, claims, f, g) =
          handle_token-verified now s set (cut_prefix r.authorization "Bearer ")
            (handle_verify-token now s set r e) in
        let (t, i, j, trusted) = parse-IsTrusted s set token (map_claims claims) h g in
        (token, t, cut_prefix-some r.authorization "Bearer " token f, i, trusted)

    IsTrusted-parse :
        (s : Server) (set : KeySet) (token : String) (t : Contents)
        → contents token ≡ some t
        → IsTrusted Signed s set token t
        → Timely token
        → jwt.parse (parser_options s) (key_for set) token ≡ accepted (map_claims t.claims)
    unfolding parser_options
    IsTrusted-parse s set token t e h timely =
        laws.complete (parser_options s) (key_for set) token t e
          (record {
            alg = h.alg;
            key = h.key;
            named = h.named;
            allowed = h.allowed;
            found = key_for-known set t.header h.kid h.key h.identified h.known;
            good = h.good;
          })
          (parts_wanted s t.claims h.issued h.meant) timely

    -- A GET or POST with such a token, whose claims on time hold, is answered 200 with the claims.
    pub handle_verify_complete :
        (now : Instant) (s : Server) (set : KeySet) (token : String) (t : Contents)
        (method : String)
        → (method ≡ "GET") ⊎ (method ≡ "POST")
        → contents token ≡ some t
        → IsTrusted Signed s set token t
        → Timely token
        → (handle_verify jwt now s set
            (record { method = method; authorization = "Bearer " <> token })).response
          ≡ verified t.claims
    unfolding handle_token verify_token answer_parsed
    handle_verify_complete now s set token t method m e h timely =
        rw
          (
            handle_verify-allowed now s set method ("Bearer " <> token) m,
            cut_prefix-append "Bearer " token,
            IsTrusted-parse s set token t e h timely,
          )
          refl
