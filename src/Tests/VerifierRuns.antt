-- ===== src/Tests/VerifierRuns.antt =====
-- The theorems on the verifier applied to runs of it.
use kro_lab.Prelude.{String, ◌<>◌, ◌≡◌, ◌≢◌, ◌⊎◌, ◌↔◌, refl, true, some, [], ◌∷◌, inr, contains}
use kro_lab.Prelude.Dict.{lookup}
use kro_lab.Oidc.Error.{ok}
use kro_lab.Oidc.Jwk.{PublicKey}
use kro_lab.Oidc.KeySet.{KeySet}
use kro_lab.Oidc.KeySet.Merging.{view}
use kro_lab.Oidc.Server.{Server, failed, handle_healthz, refresh_jwks, fetched_keys}
use kro_lab.Oidc.Server.Refreshing.{here}
use kro_lab.Oidc.Server.Views.{after_fetches, refresh_all, view-refresh_all}
use kro_lab.Oidc.Verify.{text_member, handle_verify}
use kro_lab.Oidc.Verify.Audit.{IsLogged, handle_verify_audited}
use kro_lab.Oidc.Verify.Library.{Contents, are_wanted, has_issuer, for_audience}
use kro_lab.Oidc.Verify.Rotation.{withdrawn_key_accepted}
use kro_lab.Oidc.Verify.Trust.{IsTrusted, verified, handle_verify_complete}
use kro_lab.Oidc.Main.{read_trusted, start}
use kro_lab.Oidc.Main.Startup.{started_sound, started_trusted, start_iff}
use kro_lab.Tests.Keys.{man}
use kro_lab.Tests.VmRules.{unordered, unordered-IsRange}
use kro_lab.Tests.Verifier.{
  alice, contents, Signed, library, Timely, library-JwtLaws, now, options, jwks, read_file, down,
  rotated, first, started, later, path, request,
}

-- A refresh has added a key since the request came in.
verified_request : (handle_verify library now first later.key_set request).response.status ≡ 200
unfolding handle_verify kro_lab.Tests.Verifier.parse contains are_wanted
verified_request = refl

trusted_file : read_trusted read_file options.trust_jwks ≡ ok (("k1", man) ∷ [])
unfolding read_trusted
trusted_file = refl

started_sound_example :
    (token : String) × (c : Contents) × ("Bearer good" ≡ "Bearer " <> token)
    × (contents token ≡ some c)
    × IsTrusted Signed first later.key_set token c
    × (has_issuer "https://idp/dex/" c.claims ≡ true)
    × (for_audience "kro" c.claims ≡ true)
started_sound_example =
    started_sound unordered library contents Signed Timely library-JwtLaws read_file down now now
      options first first later.key_set request started here verified_request

started_trusted_example :
    ((other : PublicKey) × (lookup "k1" later.key_set ≡ some other))
    × ((handle_healthz later).status ≡ 200)
unfolding lookup
started_trusted_example =
    started_trusted unordered unordered-IsRange read_file down now options (("k1", man) ∷ []) first
      later "k1" man started trusted_file refl path

start_iff_test : ((s : Server) × (start unordered read_file down now options ≡ ok s)) ↔ (
    (options.issuer ≢ "")
    × (loaded : KeySet) × (read_trusted read_file options.trust_jwks ≡ ok loaded))
start_iff_test = start_iff unordered read_file down now options

view-refresh_all_example :
    view (refresh_all unordered ((now, failed) ∷ (now, rotated true "") ∷ []) first).key_set
    ≡ after_fetches (failed ∷ rotated true "" ∷ []) (view first.key_set)
view-refresh_all_example =
    view-refresh_all unordered unordered-IsRange ((now, failed) ∷ (now, rotated true "") ∷ []) first

trusted_alice : IsTrusted Signed first first.key_set "good" alice
unfolding text_member lookup contains has_issuer for_audience
trusted_alice = record {
  kid = "k1";
  alg = "RS256";
  key = man;
  identified = refl;
  known = refl;
  named = refl;
  allowed = refl;
  good = (refl, refl);
  issued = refl;
  meant = refl;
}

handle_verify_complete_example :
    (handle_verify library now first first.key_set
      (record { method = "POST"; authorization = "Bearer " <> "good" })).response
    ≡ verified alice.claims
unfolding contents
handle_verify_complete_example =
    handle_verify_complete library contents Signed Timely library-JwtLaws now first first.key_set
      "good" alice "POST" (inr refl) refl trusted_alice tt

withdrawn_key_accepted_example :
    (handle_verify library now
      (refresh_jwks unordered rotated now first).server
      (refresh_jwks unordered rotated now first).server.key_set
      (record { method = "GET"; authorization = "Bearer " <> "good" })).response
    ≡ verified alice.claims
unfolding fetched_keys trusted_alice contents
withdrawn_key_accepted_example =
    withdrawn_key_accepted library contents Signed Timely library-JwtLaws unordered
      unordered-IsRange rotated now first (("k2", man) ∷ []) "good" alice trusted_alice refl refl
      refl tt

handle_verify_audited_example :
    ((request.method ≢ "POST")
      × (request.method ≢ "GET")
      × ((handle_verify library now first [] request).response.status ≡ 405)
      × ((handle_verify library now first [] request).audit ≡ []))
    ⊎ (((request.method ≡ "POST") ⊎ (request.method ≡ "GET"))
        × IsLogged now (handle_verify library now first [] request))
handle_verify_audited_example = handle_verify_audited library now first [] request
