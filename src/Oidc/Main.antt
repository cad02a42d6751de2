-- ===== src/Oidc/Main.antt =====
-- main of platform-mvp/oidc-verifier/main.go: the flags, the keys that a file adds, the server, and its
-- first refresh.
pub mod Startup
pub mod CommandLine
use kro_lab.Prelude.{
  String, ◌<>◌, ◌==◌, ℕ, Bool, false, Option, none, some, List, [], ◌∷◌, nat_eq, if◌then◌else◌,
}
use kro_lab.Prelude.Dict.{Dict}
use kro_lab.Flag.{FlagSet, text, boolean, text_value, boolean_value, parse_args}
use Prim.Native.Char.{code}
use kro_lab.Oidc.Error.{Error, Result, ok, err, message, wrapped, file, bind, wrap_error}
use kro_lab.Oidc.KeySet.{KeySet, Document, parse_jwks, merge}
use kro_lab.Oidc.Http.{Instant}
use kro_lab.Oidc.Server.{Server, Answer, Refreshed, refresh_jwks}

-- What main comes to: it exits with a status, or it listens on an address.
pub data Begun : Type 0 where
  exits : ℕ → Begun
  listens : String → Server → Begun

pub record Options : Type 0 where
  pub issuer : String
  pub audience : String
  pub port : String
  pub insecure_skip_verify : Bool
  pub trust_jwks : String

-- The flags that main defines, whose defaults are environment variables in part.
abbrev pub default_flags : (String → String) → FlagSet
default_flags getenv =
    ("issuer", text (getenv "OIDC_ISSUER"))
    ∷ ("audience", text (getenv "OIDC_AUDIENCE"))
    ∷ ("port", text "8080")
    ∷ ("insecure-skip-verify", boolean false)
    ∷ ("trust-jwks", text "")
    ∷ []

unfoldable pub options_of : FlagSet → Options
unfolding text_value boolean_value
options_of fs = record {
  issuer = text_value "issuer" fs;
  audience = text_value "audience" fs;
  port = text_value "port" fs;
  insecure_skip_verify = boolean_value "insecure-skip-verify" fs;
  trust_jwks = text_value "trust-jwks" fs;
}

-- strings.TrimRight(s, "/")
unfoldable pub trim_slashes : String → String
trim_slashes String.[] = String.[]
trim_slashes (String.◌∷◌ c s) =
    let rest = trim_slashes s in
    if rest == "" then if nat_eq (code c) b'/' then "" else String.◌∷◌ c "" else String.◌∷◌ c rest

-- The keys of the file that --trust-jwks names.
unfoldable pub read_trusted : (String → Option Document) → String → Result KeySet
unfolding parse_jwks wrap_error
read_trusted read_file path = if path == "" then ok [] else elim (read_file path) [
  | none ↦ err (wrapped "failed to read trust-jwks file" file)
  | some d ↦ wrap_error "failed to parse trust-jwks file" (parse_jwks d)
]

module _ (iterate : List String → List String) where
  unfoldable pub new_server : Options → KeySet → Server
  unfolding trim_slashes merge
  new_server o loaded = record {
    issuer = o.issuer;
    audience = o.audience;
    jwks_url = trim_slashes o.issuer <> "/keys";
    key_set = merge iterate loaded [];
    last_load = 0;
    insecure_skip_verify = o.insecure_skip_verify;
  }

  -- Up to the server, or the error that log.Fatal prints.
  unfoldable pub build : (String → Option Document) → Options → Result Server
  unfolding read_trusted new_server bind
  build read_file o =
      if o.issuer == ""
      then err (message "--issuer or OIDC_ISSUER is required")
      else bind (read_trusted read_file o.trust_jwks) (λ loaded. ok (new_server o loaded))

  -- The server as it begins to listen: an error of the first refresh is only logged.
  unfoldable pub start :
      (String → Option Document) → (Bool → String → Answer) → Instant → Options → Result Server
  unfolding build refresh_jwks bind
  start read_file get now o =
      bind (build read_file o) (λ s. ok (refresh_jwks iterate get now s).server)

-- log.Fatal exits with the status 1.
unfoldable pub listen : Options → Result Server → Begun
listen o (err e) = exits 1
listen o (ok s) = listens (":" <> o.port) s
