-- ===== src/Oidc/Main/Startup.antt =====
-- The verifier from its start on, through any refreshes.
use kro_lab.Prelude.{
  String, ◌<>◌, ◌==◌, eq_iff, eq-false_of_ne, ◌≡◌, ◌≢◌, ◌↔◌, refl, sym, ap, ◌∙◌, Bool, true, Option,
  none, some, List, [], arith, inl, inr, Bool-cases, IsRange,
}
use kro_lab.Prelude.Dict.{lookup}
use kro_lab.Oidc.Error.{Result, ok, err, bind}
use kro_lab.Oidc.Jwk.{PublicKey}
use kro_lab.Oidc.KeySet.{KeySet, Document}
use kro_lab.Oidc.KeySet.Merging.{view, override, view-merge}
use kro_lab.Oidc.Http.{Instant, Request}
use kro_lab.Oidc.Server.{Server, Answer, refresh_jwks, handle_healthz}
use kro_lab.Oidc.Server.Refreshing.{
  Reach, here, next, refreshed, Reach-IsConfiguredAs, Reach-kept, Reach-append,
  handle_healthz-status,
}
use kro_lab.Oidc.Verify.{Jwt, handle_verify}
use kro_lab.Oidc.Verify.Library.{Contents, JwtLaws, for_audience, has_issuer}
use kro_lab.Oidc.Verify.Trust.{IsTrusted, handle_verify_sound}
use kro_lab.Oidc.Main.{Options, read_trusted, new_server, build, start}

module _ (iterate : List String → List String) where
  -- The server that main builds.
  record IsBuilt (read_file : String → Option Document) (o : Options) (s : Server) : Type 0 where
    loaded : KeySet
    has_issuer : o.issuer ≢ ""
    trusted : read_trusted read_file o.trust_jwks ≡ ok loaded
    built : s ≡ new_server iterate o loaded

  bind_loaded :
      (r : Result KeySet) (o : Options) (s : Server)
      → bind r (λ loaded. ok (new_server iterate o loaded)) ≡ ok s
      → (loaded : KeySet) × (r ≡ ok loaded) × (s ≡ new_server iterate o loaded)
  unfolding bind
  bind_loaded (err e) o s h = absurd (ground arith)
  bind_loaded (ok loaded) o s h =
      (loaded, refl, sym (ap {B = Server} (λ r. elim r [ ok x ↦ x | err _ ↦ s ]) h))

  build-IsBuilt :
      (read_file : String → Option Document) (o : Options) (s : Server)
      → build iterate read_file o ≡ ok s
      → IsBuilt read_file o s
  unfolding build
  build-IsBuilt read_file o s h = elim (Bool-cases (o.issuer == "")) [
    | inl bare ↦ absurd (ground (arith, rw (build, bare) at h))
    | inr given ↦
        let (loaded, e, f) =
          bind_loaded (read_trusted read_file o.trust_jwks) o s (rw (build, given) at h) in
        record {
          loaded = loaded;
          has_issuer = λ i. ground (arith, eq_iff o.issuer "");
          trusted = e;
          built = f;
        }
  ]

  bind_refreshed :
      (r : Result Server) (get : Bool → String → Answer) (now : Instant) (s : Server)
      → bind r (λ s0. ok (refresh_jwks iterate get now s0).server) ≡ ok s
      → (s0 : Server) × (r ≡ ok s0) × (s ≡ (refresh_jwks iterate get now s0).server)
  unfolding bind
  bind_refreshed (err e) get now s h = absurd (ground arith)
  bind_refreshed (ok s0) get now s h =
      (s0, refl, sym (ap {B = Server} (λ r. elim r [ ok x ↦ x | err _ ↦ s ]) h))

  start-Reach :
      (read_file : String → Option Document) (get : Bool → String → Answer) (now : Instant)
      (o : Options) (s : Server)
      → start iterate read_file get now o ≡ ok s
      → (s0 : Server) × IsBuilt read_file o s0 × Reach iterate s0 s
  unfolding start
  start-Reach read_file get now o s h =
      let (s0, e, f) = bind_refreshed (build iterate read_file o) get now s h in
      (s0, build-IsBuilt read_file o s0 e, rw f (next here (refreshed get now s0)))

  IsBuilt-start :
      (read_file : String → Option Document) (get : Bool → String → Answer) (now : Instant)
      (o : Options) (loaded : KeySet)
      → o.issuer ≢ ""
      → read_trusted read_file o.trust_jwks ≡ ok loaded
      → (s : Server) × (start iterate read_file get now o ≡ ok s)
  unfolding start build bind
  IsBuilt-start read_file get now o loaded h e = (
    (refresh_jwks iterate get now (new_server iterate o loaded)).server,
    rw (start, build, eq-false_of_ne o.issuer "" h, e) refl,
  )

  -- The verifier starts exactly if an issuer is configured and the file of trusted keys, if one is
  -- named, can be read and parsed: an issuer that does not answer does not keep it from starting.
  pub start_iff :
      (read_file : String → Option Document) (get : Bool → String → Answer) (now : Instant)
      (o : Options)
      → ((s : Server) × (start iterate read_file get now o ≡ ok s))
        ↔ ((o.issuer ≢ "") × (loaded : KeySet) × (read_trusted read_file o.trust_jwks ≡ ok loaded))
  start_iff read_file get now o = (
    λ (s, h).
        let (s0, built, r) = start-Reach read_file get now o s h in
        (built.has_issuer, built.loaded, built.trusted),
    λ (h, loaded, e). IsBuilt-start read_file get now o loaded h e,
  )

  built_configured :
      (read_file : String → Option Document) (o : Options) (s0 t : Server)
      → IsBuilt read_file o s0
      → Reach iterate s0 t
      → (t.issuer ≡ o.issuer) × (t.audience ≡ o.audience)
  unfolding new_server
  built_configured read_file o s0 t h r =
      let (issuer, audience, _, _) = Reach-IsConfiguredAs iterate s0 r in
      (issuer ∙ ap (λ s. s.issuer) h.built, audience ∙ ap (λ s. s.audience) h.built)

  -- From the start on, through any refreshes, whatever they answer, the verifier answers 200 only to
  -- the Bearer token that is signed, by one of the six methods, with the key for the id in its header
  -- that the set holds at the moment when the library asks for it, whichever set a refresh has made
  -- of it by then, and that was issued by the configured issuer and, where one is configured, for the
  -- configured audience.
  pub started_sound :
      (jwt : Jwt) (contents : String → Option Contents)
      (Signed : String → PublicKey → String → Type 0) (Timely : String → Type 0)
      → JwtLaws jwt contents Signed Timely
      → (read_file : String → Option Document) (get : Bool → String → Answer) (now later : Instant)
        (o : Options) (s t : Server) (current : KeySet) (r : Request)
      → start iterate read_file get now o ≡ ok s
      → Reach iterate s t
      → (handle_verify jwt later t current r).response.status ≡ 200
      → (token : String) × (c : Contents) × (r.authorization ≡ "Bearer " <> token)
        × (contents token ≡ some c)
        × IsTrusted Signed t current token c
        × (has_issuer o.issuer c.claims ≡ true)
        × (for_audience o.audience c.claims ≡ true)
  started_sound jwt contents Signed Timely laws read_file get now later o s t current r h path e =
      let (s0, built, first) = start-Reach read_file get now o s h in
      let (issuer, audience) =
        built_configured read_file o s0 t built (Reach-append iterate first path) in
      let (token, c, f, g, trusted) =
        handle_verify_sound jwt contents Signed Timely laws later t current r
          (λ i. built.has_issuer (sym issuer ∙ i)) e in
      (token, c, f, g, trusted, rw issuer at (trusted.issued), rw audience at (trusted.meant))

  built_trusted :
      IsRange iterate
      → (o : Options) (loaded : KeySet) (k : String) (key : PublicKey) → lookup k loaded ≡ some key
      → lookup k (new_server iterate o loaded).key_set ≡ some key
  unfolding new_server override
  built_trusted range o loaded k key h =
      ap (λ v. v k) (view-merge iterate range loaded [])
      ∙ ap (λ o. elim o [ some key ↦ some key | none ↦ view [] k ]) h

  -- Every id of the file of trusted keys has a key from the start on, through any refreshes: a
  -- verifier with such a file is ready without its issuer and stays so.
  pub started_trusted :
      IsRange iterate
      → (read_file : String → Option Document) (get : Bool → String → Answer) (now : Instant)
        (o : Options) (loaded : KeySet) (s t : Server) (k : String) (key : PublicKey)
      → start iterate read_file get now o ≡ ok s
      → read_trusted read_file o.trust_jwks ≡ ok loaded
      → lookup k loaded ≡ some key
      → Reach iterate s t
      → ((other : PublicKey) × (lookup k t.key_set ≡ some other))
        × ((handle_healthz t).status ≡ 200)
  started_trusted range read_file get now o loaded s t k key h e f path =
      let (s0, built, first) = start-Reach read_file get now o s h in
      let same : built.loaded ≡ loaded =
        ap {B = KeySet} (λ r. elim r [ ok x ↦ x | err _ ↦ loaded ]) (sym built.trusted ∙ e) in
      let at_start : lookup k s0.key_set ≡ some key =
        rw (built.built, same) (built_trusted range o loaded k key f) in
      let (_, other, kept) =
        Reach-kept iterate range s0 k key (Reach-append iterate first path) at_start in
      ((other, kept), (handle_healthz-status t).1 (k, other, kept))
