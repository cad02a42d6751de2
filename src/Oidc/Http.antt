-- ===== src/Oidc/Http.antt =====
-- Requests, responses and audit entries of platform-mvp/oidc-verifier/main.go.
use kro_lab.Prelude.{ℕ, String, ◌<>◌, Option, some, [], ◌∷◌}
use kro_lab.Kube.Value.{Value, str, obj, fields}

-- A reading of the clock, with its text in UTC by time.RFC3339.
pub record Instant : Type 0 where
  pub nanoseconds : ℕ
  pub rfc3339 : String

pub record Request : Type 0 where
  pub method : String
  -- the first Authorization header, empty where there is none
  pub authorization : String

pub data Payload : Type 0 where
  text : String → Payload
  -- what json.NewEncoder writes
  encoded : Value → Payload

pub record Response : Type 0 where
  pub status : ℕ
  -- the Content-Type that the handler sets
  pub content_type : Option String
  pub payload : Payload

unfoldable pub write_json : ℕ → Value → Response
write_json status v = record {
  status = status;
  content_type = some "application/json";
  payload = encoded v;
}

-- http.Error, which ends the line.
unfoldable pub http_error : String → ℕ → Response
http_error error status = record {
  status = status;
  content_type = some "text/plain; charset=utf-8";
  payload = text (error <> "\n");
}

-- The entry that logAudit prints.
unfoldable pub log_audit : Instant → String → String → String → String → Value
log_audit now action subject result detail = obj (
    fields (
      ("timestamp", str (now.rfc3339))
      ∷ ("action", str action)
      ∷ ("subject", str subject)
      ∷ ("result", str result)
      ∷ ("detail", str detail)
      ∷ ("component", str "oidc-verifier")
      ∷ []))
