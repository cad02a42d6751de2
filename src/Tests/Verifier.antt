-- ===== src/Tests/Verifier.antt =====
-- A verifier over a JWT library that knows one token, from its start on.
use kro_lab.Prelude.{
  String, ◌≡◌, refl, sym, ap, ◌∙◌, Bool, true, ◌&&◌, ◌==◌, eq_iff, Option, none, some, List, [],
  ◌∷◌, arith, inl, inr, Bool-cases, if◌then◌else◌, contains,
}
use kro_lab.Kube.Value.{Value, str, obj, arr, Fields, fields, items}
use kro_lab.Oidc.Error.{Result, ok, err}
use kro_lab.Oidc.Jwk.{PublicKey}
use kro_lab.Oidc.Jwk.Rsa.{rsa_jwk}
use kro_lab.Oidc.KeySet.{Document, document}
use kro_lab.Oidc.Http.{Instant, Request}
use kro_lab.Oidc.Server.{Server, Answer, failed, answered, refresh_jwks}
use kro_lab.Oidc.Server.Refreshing.{Reach, here, next, refreshed}
use kro_lab.Oidc.Verify.{
  ParserOptions, Claims, map_claims, Parsed, refused, accepted, Jwt, text_member,
}
use kro_lab.Oidc.Verify.Library.{Contents, are_wanted, IsSigned, JwtLaws}
use kro_lab.Oidc.Main.{Options, start}
use kro_lab.Tests.Keys.{man}
use kro_lab.Tests.VmRules.{unordered}

abbrev pub alice : Contents
alice = record {
  header = fields (("alg", str "RS256") ∷ ("kid", str "k1") ∷ []);
  claims = fields (
      ("iss", str "https://idp/dex/")
      ∷ ("aud", arr (items (str "kro" ∷ [])))
      ∷ ("sub", str "alice")
      ∷ []);
}

-- The library reads one token, `good`.
unfoldable pub contents : String → Option Contents
contents token = if token == "good" then some alice else none

abbrev pub Signed : String → PublicKey → String → Type 0
Signed alg key token = (alg ≡ "RS256") × (token ≡ "good")

unfoldable pub checked : ParserOptions → Result PublicKey → Parsed
checked o (err e) = refused "token is unverifiable"
checked o (ok key) =
    if are_wanted o (alice.claims)
    then accepted (map_claims (alice.claims))
    else refused "token has invalid claims"

unfoldable pub parse : ParserOptions → (Fields → Result PublicKey) → String → Parsed
unfolding checked
parse o f token =
    if token == "good" && contains (o.valid_methods) "RS256"
    then checked o (f (alice.header))
    else refused "token is malformed"

abbrev pub library : Jwt
library = record {
  parse = parse;
  parse_unverified = λ token. none;
  get_subject = λ claims. "alice";
}

abbrev pub Timely : String → Type 0
Timely token = Unit

checked-accepted :
    (o : ParserOptions) (r : Result PublicKey) (c : Claims)
    → checked o r ≡ accepted c
    → (key : PublicKey) × (r ≡ ok key)
      × (are_wanted o (alice.claims) ≡ true)
      × (c ≡ map_claims (alice.claims))
unfolding checked
checked-accepted o (err e) c h = absurd (ground arith)
checked-accepted o (ok key) c h = elim (Bool-cases (are_wanted o (alice.claims))) [
  | inl wanted ↦ (key, refl, wanted, ground arith)
  | inr other ↦ absurd (ground arith)
]

contents-some :
    (token : String) (t : Contents)
    → contents token ≡ some t
    → ((token == "good") ≡ true) × (alice ≡ t)
unfolding contents
contents-some token t h = elim (Bool-cases (token == "good")) [
  | inl good ↦ (good, ap {B = Contents} (λ o. elim o [ some x ↦ x | none ↦ alice ]) (rw good at h))
  | inr other ↦ absurd (ground arith)
]

parse-accepted :
    (o : ParserOptions) (f : Fields → Result PublicKey) (token : String) (c : Claims)
    → parse o f token ≡ accepted c
    → ((token == "good") ≡ true)
      × (contains o.valid_methods "RS256" ≡ true)
      × (checked o (f alice.header) ≡ accepted c)
unfolding parse
parse-accepted o f token c h =
    elim (Bool-cases (token == "good" && contains o.valid_methods "RS256")) [
      | inl fine ↦ (ground arith, ground arith, rw fine at h)
      | inr other ↦ absurd (ground (arith, rw other at h))
    ]

library_sound :
    (o : ParserOptions) (f : Fields → Result PublicKey) (token : String) (c : Claims)
    → parse o f token ≡ accepted c
    → (t : Contents) × (contents token ≡ some t)
      × (c ≡ map_claims t.claims)
      × IsSigned Signed o f token t.header
      × (are_wanted o t.claims ≡ true)
unfolding contents text_member
library_sound o f token c h =
    let (good, allowed, e) = parse-accepted o f token c h in
    let (key, found, wanted, same) = checked-accepted o (f alice.header) c e in
    (
      alice,
      rw good refl,
      same,
      record {
        alg = "RS256";
        key = key;
        named = refl;
        allowed = allowed;
        found = found;
        good = (refl, (eq_iff token "good").0 good);
      },
      wanted,
    )

library_complete :
    (o : ParserOptions) (f : Fields → Result PublicKey) (token : String) (t : Contents)
    → contents token ≡ some t
    → IsSigned Signed o f token t.header
    → are_wanted o t.claims ≡ true
    → Timely token
    → parse o f token ≡ accepted (map_claims t.claims)
unfolding parse checked
library_complete o f token t e signed wanted timely =
    let (good, same) = contents-some token t e in
    let allowed : contains o.valid_methods "RS256" ≡ true =
      ap (contains o.valid_methods) (sym signed.good.0) ∙ signed.allowed in
    let found : f alice.header ≡ ok signed.key = ap f (ap (λ x. x.header) same) ∙ signed.found in
    let fits : are_wanted o alice.claims ≡ true = ap (λ x. are_wanted o x.claims) same ∙ wanted in
    rw (good, allowed, found, fits) (ap (λ x. accepted (map_claims x.claims)) same)

pub library-JwtLaws : JwtLaws library contents Signed Timely
library-JwtLaws = record { sound = library_sound; complete = library_complete }

abbrev pub now : Instant
now = record { nanoseconds = 1; rfc3339 = "2026-01-01T00:00:00Z" }

abbrev pub options : Options
options = record {
  issuer = "https://idp/dex/";
  audience = "kro";
  port = "8080";
  insecure_skip_verify = true;
  trust_jwks = "/etc/jwks.json";
}

abbrev pub jwks : List Value → Document
jwks keys = document (obj (fields (("keys", arr (items keys)) ∷ [])))

abbrev pub read_file : String → Option Document
read_file path = some (jwks (rsa_jwk "k1" "TWFu" "AQAB" ∷ []))

-- The issuer does not answer yet.
abbrev pub down : Bool → String → Answer
down insecure url = failed

-- The issuer has taken another key.
abbrev pub rotated : Bool → String → Answer
rotated insecure url = answered 200 (jwks (rsa_jwk "k2" "TWFu" "AQAB" ∷ []))

abbrev pub first : Server
first = record {
  issuer = "https://idp/dex/";
  audience = "kro";
  jwks_url = "https://idp/dex/keys";
  key_set = ("k1", man) ∷ [];
  last_load = 0;
  insecure_skip_verify = true;
}

pub started : start unordered read_file down now options ≡ ok first
unfolding start
started = refl

abbrev pub later : Server
later = record first { key_set = ("k1", man) ∷ ("k2", man) ∷ []; last_load = 1 }

pub path : Reach unordered first later
unfolding refresh_jwks
path = next here (refreshed rotated now first)

abbrev pub request : Request
request = record { method = "GET"; authorization = "Bearer good" }
