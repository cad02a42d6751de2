-- ===== src/Oidc/Main/CommandLine.antt =====
-- main of the verifier from its command line and its environment on.
use kro_lab.Prelude.{
  ℕ, String, ◌<>◌, ◌==◌, ◌≡◌, ◌≢◌, ◌↔◌, refl, Bool, Option, List, arith, if◌then◌else◌,
}
use kro_lab.Kube.Error.{Error, Result, ok, err, message}
use kro_lab.Flag.{FlagSet, parse_args}
use kro_lab.Oidc.Error as Own
use kro_lab.Oidc.KeySet.{KeySet, Document}
use kro_lab.Oidc.Http.{Instant}
use kro_lab.Oidc.Server.{Server, Answer}
use kro_lab.Oidc.Main.{
  Begun, exits, listens, Options, default_flags, options_of, read_trusted, start, listen,
}
use kro_lab.Oidc.Main.Startup.{start_iff}

-- flag.Parse exits by itself if it cannot parse the command line, or if it is asked for help.
unfoldable pub usage_status : Error → ℕ
usage_status (message text) = if text == "flag: help requested" then 0 else 2
usage_status _ = 2

module _ (iterate : List String → List String) (read_file : String → Option Document)
    (get : Bool → String → Answer) (now : Instant) where
  unfoldable pub begin_with : Result FlagSet → Begun
  unfolding usage_status options_of start listen
  begin_with (err e) = exits (usage_status e)
  begin_with (ok fs) = let o = options_of fs in listen o (start iterate read_file get now o)

  -- main, with the values of the environment variables.
  unfoldable pub begin : (ℕ → ℕ → ℕ → ℕ) → (String → String) → List String → Begun
  unfolding begin_with parse_args
  begin fraction getenv args = begin_with (parse_args fraction args (default_flags getenv))

  listen-listens :
      (o : Options) (r : Own.Result Server) (address : String) (s : Server)
      → listen o r ≡ listens address s
      → (address ≡ ":" <> o.port) × (r ≡ Own.ok s)
  unfolding listen
  listen-listens o (Own.err e) address s h = absurd (ground arith)
  listen-listens o (Own.ok t) address s h = (ground arith, ground arith)

  -- The command line can be parsed, and what it gives lets the verifier start on this address.
  pub record IsUsable (fraction : ℕ → ℕ → ℕ → ℕ) (getenv : String → String) (args : List String)
      (address : String) : Type 0 where
    pub flags : FlagSet
    pub loaded : KeySet
    pub parsed : parse_args fraction args (default_flags getenv) ≡ ok flags
    pub has_issuer : (options_of flags).issuer ≢ ""
    pub trusted : read_trusted read_file (options_of flags).trust_jwks ≡ Own.ok loaded
    pub at_port : address ≡ ":" <> (options_of flags).port

  begin_with-IsUsable :
      (fraction : ℕ → ℕ → ℕ → ℕ) (getenv : String → String) (args : List String) (address : String)
      (s : Server) (r : Result FlagSet)
      → parse_args fraction args (default_flags getenv) ≡ r
      → begin_with r ≡ listens address s
      → IsUsable fraction getenv args address
  unfolding begin_with
  begin_with-IsUsable fraction getenv args address s (err e) parsed h = absurd (ground arith)
  begin_with-IsUsable fraction getenv args address s (ok fs) parsed h =
      let o = options_of fs in
      let (at_port, begun) = listen-listens o (start iterate read_file get now o) address s h in
      let (has_issuer, loaded, trusted) = (start_iff iterate read_file get now o).0 (s, begun) in
      record {
        flags = fs;
        loaded = loaded;
        parsed = parsed;
        has_issuer = has_issuer;
        trusted = trusted;
        at_port = at_port;
      }

  IsUsable-begin :
      (fraction : ℕ → ℕ → ℕ → ℕ) (getenv : String → String) (args : List String) (address : String)
      → IsUsable fraction getenv args address
      → (s : Server) × (begin fraction getenv args ≡ listens address s)
  unfolding begin begin_with listen
  IsUsable-begin fraction getenv args address u =
      let o = options_of u.flags in
      let (s, begun) =
        (start_iff iterate read_file get now o).1 (u.has_issuer, u.loaded, u.trusted) in
      (s, rw (u.parsed, begun, u.at_port) refl)

  -- The verifier listens on an address exactly if its command line can be parsed, the flags or the
  -- environment name an issuer, the file of trusted keys, if one is named, can be read and parsed, and
  -- the address is that of the port: an issuer that does not answer does not keep it from starting.
  pub begin_iff :
      (fraction : ℕ → ℕ → ℕ → ℕ) (getenv : String → String) (args : List String) (address : String)
      → ((s : Server) × (begin fraction getenv args ≡ listens address s))
        ↔ IsUsable fraction getenv args address
  unfolding begin
  begin_iff fraction getenv args address = (
    λ (s, h).
        begin_with-IsUsable fraction getenv args address s
          (parse_args fraction args (default_flags getenv)) refl h,
    IsUsable-begin fraction getenv args address,
  )
