-- ===== src/Oidc/Verify/Audit.antt =====
-- What handleVerify logs: the audit trail of the requests.
use kro_lab.Prelude.{
  arith, eq_iff, ◌≢◌, String, ◌≡◌, ◌⊎◌, refl, ◌==◌, Option, none, some, [], ◌∷◌, inl, inr,
  Bool-cases,
}
use kro_lab.Oidc.KeySet.{KeySet}
use kro_lab.Oidc.Http.{Instant, Request, write_json, http_error, log_audit}
use kro_lab.Oidc.Server.{Server}
use kro_lab.Oidc.Verify.{
  map_claims, other_claims, Parsed, refused, accepted, Jwt, Handled, unauthorized, answer_parsed,
  verify_token, handle_token, handle_verify,
}

-- The one entry of an answer says `success` with 200 and `failed` with 401.
pub record IsLogged (now : Instant) (h : Handled) : Type 0 where
  pub subject : String
  pub result : String
  pub detail : String
  pub entry : h.audit ≡ log_audit now "jwt_verify" subject result detail ∷ []
  pub outcome :
      ((result ≡ "success") × (h.response.status ≡ 200))
      ⊎ ((result ≡ "failed") × (h.response.status ≡ 401))

module _ (jwt : Jwt) (now : Instant) where
  answer_parsed-IsLogged :
      (token : String) (p : Parsed) → IsLogged now (answer_parsed jwt now token p)
  unfolding answer_parsed write_json
  answer_parsed-IsLogged token (refused error) = record {
    subject = _;
    result = "failed";
    detail = error;
    entry = refl;
    outcome = inr (refl, refl);
  }
  answer_parsed-IsLogged token (accepted other_claims) = record {
    subject = "unknown";
    result = "failed";
    detail = "invalid claims type";
    entry = refl;
    outcome = inr (refl, refl);
  }
  answer_parsed-IsLogged token (accepted (map_claims claims)) = record {
    subject = jwt.get_subject claims;
    result = "success";
    detail = "token validated";
    entry = refl;
    outcome = inl (refl, refl);
  }

  handle_token-IsLogged :
      (s : Server) (set : KeySet) (o : Option String) → IsLogged now (handle_token jwt now s set o)
  unfolding handle_token unauthorized write_json verify_token
  handle_token-IsLogged s set none = record {
    subject = "unknown";
    result = "failed";
    detail = "missing Authorization header";
    entry = refl;
    outcome = inr (refl, refl);
  }
  handle_token-IsLogged s set (some token) = answer_parsed-IsLogged token _

  -- Whatever the library answers, a request of another method than GET and POST is answered 405 and
  -- leaves no trace, and a GET or a POST leaves exactly one audit entry, which says `success` if the
  -- answer is 200 and `failed` if it is 401; there is no other answer.
  pub handle_verify_audited :
      (s : Server) (set : KeySet) (r : Request)
      → ((r.method ≢ "POST")
          × (r.method ≢ "GET")
          × ((handle_verify jwt now s set r).response.status ≡ 405)
          × ((handle_verify jwt now s set r).audit ≡ []))
        ⊎ (((r.method ≡ "POST") ⊎ (r.method ≡ "GET"))
            × IsLogged now (handle_verify jwt now s set r))
  unfolding handle_verify http_error
  handle_verify_audited s set r = elim (Bool-cases (r.method == "POST")) [
    | inl post ↦
        rw post (inr (inl (ground (arith, eq_iff r.method "POST")), handle_token-IsLogged s set _))
    | inr no_post ↦ elim (Bool-cases (r.method == "GET")) [
      | inl get ↦
          rw (no_post, get)
            (inr (inr (ground (arith, eq_iff r.method "GET")), handle_token-IsLogged s set _))
      | inr no_get ↦
          rw (no_post, no_get)
            (inl (
              ground (arith, eq_iff r.method "POST"),
              ground (arith, eq_iff r.method "GET"),
              refl,
              refl,
            ))
    ]
  ]
