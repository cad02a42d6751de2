-- ===== src/Oidc/Server.antt =====
-- The server of platform-mvp/oidc-verifier/main.go: its keys, its readiness, and the refresh of its
-- keys.
pub mod Refreshing
pub mod Views
use kro_lab.Prelude.{
  ℕ, String, ◌<>◌, Bool, true, false, List, [], ◌∷◌, nat_eq, if◌then◌else◌, length, none,
}
use kro_lab.Prelude.Decimal.{decimal}
use kro_lab.Kube.Value.{Value, str, obj, fields}
use kro_lab.Oidc.Error.{Error, Result, ok, err, message, wrapped, fetch}
use kro_lab.Oidc.KeySet.{KeySet, Document, parse_jwks, merge}
use kro_lab.Oidc.Http.{Instant, Response, encoded, log_audit}

pub record Server : Type 0 where
  pub issuer : String
  pub audience : String
  pub jwks_url : String
  pub key_set : KeySet
  -- the nanoseconds of the last load, 0 before the first
  pub last_load : ℕ
  pub insecure_skip_verify : Bool

status_body : String → Value
status_body status = obj (fields (("status", str status) ∷ []))

unfoldable pub health : KeySet → Response
unfolding status_body
health [] = record {
  status = 503;
  content_type = none;
  payload = encoded (status_body "no_keys_loaded");
}
health (entry ∷ set) = record {
  status = 200;
  content_type = none;
  payload = encoded (status_body "ok");
}

unfoldable pub handle_healthz : Server → Response
unfolding health
handle_healthz s = health s.key_set

-- What client.Get returns: an error, or a status and a body. Of a body only the first JSON value is
-- read.
pub data Answer : Type 0 where
  failed : Answer
  answered : ℕ → Document → Answer

unfoldable pub fetched_keys : Answer → Result KeySet
unfolding parse_jwks
fetched_keys failed = err (wrapped "fetching JWKS" fetch)
fetched_keys (answered status d) =
    if nat_eq status 200
    then parse_jwks d
    else err (message ("JWKS endpoint returned " <> decimal status))

pub record Refreshed : Type 0 where
  pub server : Server
  pub outcome : Result (Unit {0})
  pub audit : List Value

module _ (iterate : List String → List String) where
  unfoldable pub load : Instant → Result KeySet → Server → Refreshed
  unfolding merge log_audit
  load now (err e) s = record { server = s; outcome = err e; audit = [] }
  load now (ok new) s = record {
    server = record s { key_set = merge iterate new s.key_set; last_load = now.nanoseconds };
    outcome = ok tt;
    audit =
        log_audit now "jwks_refresh" "system" "success"
          ("loaded " <> (decimal (length new) <> " keys"))
        ∷ [];
  }

  -- refreshJWKS, where `get` is the HTTP client by its InsecureSkipVerify.
  unfoldable pub refresh_jwks : (Bool → String → Answer) → Instant → Server → Refreshed
  unfolding load fetched_keys
  refresh_jwks get now s = load now (fetched_keys (get s.insecure_skip_verify s.jwks_url)) s
