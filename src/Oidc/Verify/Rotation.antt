-- ===== src/Oidc/Verify/Rotation.antt =====
-- Verifying between refreshes: what becomes of a key that the issuer takes out of its list.
use kro_lab.Prelude.{String, ◌<>◌, ◌≡◌, refl, ap, ◌∙◌, Bool, Option, none, some, List, inl, IsRange}
use kro_lab.Prelude.Dict.{lookup}
use kro_lab.Oidc.Error.{ok}
use kro_lab.Oidc.Jwk.{PublicKey}
use kro_lab.Oidc.KeySet.{KeySet}
use kro_lab.Oidc.KeySet.Merging.{view}
use kro_lab.Oidc.Http.{Instant}
use kro_lab.Oidc.Server.{Server, Answer, fetched_keys, refresh_jwks}
use kro_lab.Oidc.Server.Refreshing.{here, next, refreshed, IsConfiguredAs, Reach-IsConfiguredAs}
use kro_lab.Oidc.Server.Views.{after_fetch-unlisted, view-refresh_jwks}
use kro_lab.Oidc.Verify.{Jwt, handle_verify}
use kro_lab.Oidc.Verify.Library.{Contents, JwtLaws}
use kro_lab.Oidc.Verify.Trust.{IsTrusted, verified, handle_verify_complete}

module _ (jwt : Jwt) (contents : String → Option Contents)
    (Signed : String → PublicKey → String → Type 0) (Timely : String → Type 0)
    (laws : JwtLaws jwt contents Signed Timely) (iterate : List String → List String)
    (range : IsRange iterate) where
  unlisted_kept :
      (get : Bool → String → Answer) (now : Instant) (s : Server) (new : KeySet) (kid : String)
      → fetched_keys (get s.insecure_skip_verify s.jwks_url) ≡ ok new
      → lookup kid new ≡ none
      → lookup kid (refresh_jwks iterate get now s).server.key_set ≡ lookup kid s.key_set
  unlisted_kept get now s new kid e f =
      ap (λ v. v kid) (view-refresh_jwks iterate range get now s)
      ∙ rw e (after_fetch-unlisted new (view s.key_set) kid f)

  IsTrusted-carried :
      (s s' : Server) (set other : KeySet) (token : String) (t : Contents)
      → (h : IsTrusted Signed s set token t) → IsConfiguredAs s s'
      → lookup h.kid other ≡ lookup h.kid set
      → IsTrusted Signed s' other token t
  IsTrusted-carried s s' set other token t h (issuer, audience, _, _) e = record {
    kid = h.kid;
    alg = h.alg;
    key = h.key;
    identified = h.identified;
    known = e ∙ h.known;
    named = h.named;
    allowed = h.allowed;
    good = h.good;
    issued = rw issuer h.issued;
    meant = rw audience h.meant;
  }

  -- A token whose key the server had is still accepted after a refresh that succeeded with a list
  -- in which this key no longer is: a key that the issuer has withdrawn verifies tokens as before.
  pub withdrawn_key_accepted :
      (get : Bool → String → Answer) (now : Instant) (s : Server) (new : KeySet) (token : String)
      (t : Contents) (h : IsTrusted Signed s s.key_set token t)
      → fetched_keys (get s.insecure_skip_verify s.jwks_url) ≡ ok new
      → lookup h.kid new ≡ none
      → contents token ≡ some t
      → Timely token
      → let s' = (refresh_jwks iterate get now s).server in
        (handle_verify jwt now s' s'.key_set
          (record { method = "GET"; authorization = "Bearer " <> token })).response
        ≡ verified t.claims
  withdrawn_key_accepted get now s new token t h e f read timely =
      let s' = (refresh_jwks iterate get now s).server in
      handle_verify_complete jwt contents Signed Timely laws now s' s'.key_set token t "GET"
        (inl refl) read
        (IsTrusted-carried s s' s.key_set s'.key_set token t h
          (Reach-IsConfiguredAs iterate s (next here (refreshed get now s)))
          (unlisted_kept get now s new h.kid e f))
        timely
