-- ===== src/Oidc/Server/Refreshing.antt =====
-- What stays true of the server whatever refreshes answer and however many there are.
use kro_lab.Prelude.{
  String, ◌≡◌, ◌↔◌, refl, ap, ◌∙◌, Bool, eq_refl, Option, none, some, List, [], ◌∷◌, IsRange, arith,
}
use kro_lab.Prelude.Dict.{lookup}
use kro_lab.Oidc.Error.{Result, ok, err}
use kro_lab.Oidc.Jwk.{PublicKey}
use kro_lab.Oidc.KeySet.{KeySet}
use kro_lab.Oidc.KeySet.Merging.{View, view, override}
use kro_lab.Oidc.Http.{Instant}
use kro_lab.Oidc.Server.{Server, Answer, fetched_keys, load, refresh_jwks, health, handle_healthz}
use kro_lab.Oidc.Server.Views.{after_fetch, view-refresh_jwks}

abbrev pub HasKey : KeySet → Type 0
HasKey set = (k : String) × (key : PublicKey) × (lookup k set ≡ some key)

health-status : (set : KeySet) → ((health set).status ≡ 200) ↔ HasKey set
unfolding health lookup
health-status [] = (λ h. absurd (ground arith), λ (k, key, e). absurd (ground (arith, e)))
health-status ((k, key) ∷ set) = (λ h. (k, key, rw eq_refl refl), λ h. refl)

-- The server is ready exactly if it has a key.
pub handle_healthz-status : (s : Server) → ((handle_healthz s).status ≡ 200) ↔ HasKey s.key_set
unfolding handle_healthz
handle_healthz-status s = health-status s.key_set

-- What a server was started with.
abbrev pub IsConfiguredAs : Server → Server → Type 0
IsConfiguredAs s t =
    (t.issuer ≡ s.issuer)
    × (t.audience ≡ s.audience)
    × (t.jwks_url ≡ s.jwks_url)
    × (t.insecure_skip_verify ≡ s.insecure_skip_verify)

module _ (iterate : List String → List String) where
  -- A refresh, whatever the client answers and whenever it happens.
  pub data Step : Server → Server → Type 0 where
    refreshed :
        (get : Bool → String → Answer) (now : Instant) (s : Server)
        → Step s (refresh_jwks iterate get now s).server

  pub data Reach (s : Server) : Server → Type 0 where
    here : Reach s s
    next : {t u : Server} → Reach s t → Step t u → Reach s u

  pub Reach-append : {s t u : Server} → Reach s t → Reach t u → Reach s u
  Reach-append p here = p
  Reach-append p (next q step) = next (Reach-append p q) step

  load-IsConfiguredAs :
      (now : Instant) (r : Result KeySet) (s t : Server)
      → IsConfiguredAs t s
      → IsConfiguredAs t (load iterate now r s).server
  unfolding load
  load-IsConfiguredAs now (err e) s t h = h
  load-IsConfiguredAs now (ok new) s t h = h

  pub Reach-IsConfiguredAs : (s : Server) {t : Server} → Reach s t → IsConfiguredAs s t
  unfolding refresh_jwks
  Reach-IsConfiguredAs s here = (refl, refl, refl, refl)
  Reach-IsConfiguredAs s (next r (refreshed get now t)) =
      load-IsConfiguredAs now (fetched_keys (get t.insecure_skip_verify t.jwks_url)) t s
        (Reach-IsConfiguredAs s r)

  module _ (range : IsRange iterate) where
    -- A key that was there is there, or another one is.
    abbrev Kept : String → View → View → Type 0
    Kept k before after =
        (key : PublicKey) → before k ≡ some key → (other : PublicKey) × (after k ≡ some other)

    after_fetch-Kept :
        (k : String) (r : Result KeySet) (old : View) → Kept k old (after_fetch r old)
    unfolding after_fetch override
    after_fetch-Kept k (err e) old key h = (key, h)
    after_fetch-Kept k (ok new) old key h = go (lookup k new)
      where
        go :
            (o : Option PublicKey)
            → (other : PublicKey) × (elim o [ some key ↦ some key | none ↦ old k ] ≡ some other)
        go none = (key, h)
        go (some other) = (other, refl)

    Reach-Kept : {s t : Server} (k : String) → Reach s t → Kept k (view s.key_set) (view t.key_set)
    Reach-Kept k here key h = (key, h)
    Reach-Kept k (next r (refreshed get now t)) key h =
        let (other, e) = Reach-Kept k r key h in
        let (last, f) =
          after_fetch-Kept k (fetched_keys (get t.insecure_skip_verify t.jwks_url)) (view t.key_set)
            other e in
        (last, ap (λ v. v k) (view-refresh_jwks iterate range get now t) ∙ f)

    -- Whatever refreshes answer, the server keeps the configuration that it was started with, and
    -- an id that had a key still has one, that one or another: no refresh takes an id away, also
    -- not one whose list no longer has it.
    pub Reach-kept :
        (s : Server) {t : Server} (k : String) (key : PublicKey)
        → Reach s t
        → lookup k s.key_set ≡ some key
        → IsConfiguredAs s t × (other : PublicKey) × (lookup k t.key_set ≡ some other)
    Reach-kept s k key r h =
        let (other, e) = Reach-Kept k r key h in (Reach-IsConfiguredAs s r, other, e)

    -- A server that was ready once stays ready, whatever refreshes answer: it answers 200, never 503.
    pub Reach-ready :
        (s t : Server)
        → Reach s t
        → (handle_healthz s).status ≡ 200
        → (handle_healthz t).status ≡ 200
    Reach-ready s t r h =
        let (k, key, e) = (handle_healthz-status s).0 h in
        let (other, f) = Reach-Kept k r key e in (handle_healthz-status t).1 (k, other, f)
