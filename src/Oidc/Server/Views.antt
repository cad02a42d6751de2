-- ===== src/Oidc/Server/Views.antt =====
-- The set of keys of a server as a function from ids, and what refreshes do to it.
use kro_lab.Prelude.{String, ◌≡◌, refl, ap, ◌∙◌, Bool, List, [], ◌∷◌, map, none, some, IsRange}
use kro_lab.Prelude.Dict.{lookup}
use kro_lab.Oidc.Error.{Result, ok, err}
use kro_lab.Oidc.KeySet.{KeySet}
use kro_lab.Oidc.KeySet.Merging.{View, view, override, view-merge}
use kro_lab.Oidc.Http.{Instant}
use kro_lab.Oidc.Server.{Server, Answer, fetched_keys, load, refresh_jwks}

-- A refresh in the abstract: the keys that were fetched take the place of those with their ids.
unfoldable pub after_fetch : Result KeySet → View → View
unfolding override
after_fetch (err e) old = old
after_fetch (ok new) old = override (view new) old

-- The ids that are not listed keep their keys.
pub after_fetch-unlisted :
    (new : KeySet) (old : View) (k : String)
    → lookup k new ≡ none
    → after_fetch (ok new) old k ≡ old k
unfolding after_fetch override
after_fetch-unlisted new old k h = ap (λ o. elim o [ some key ↦ some key | none ↦ old k ]) h

unfoldable pub after_fetches : List Answer → View → View
unfolding after_fetch
after_fetches [] old = old
after_fetches (a ∷ answers) old = after_fetches answers (after_fetch (fetched_keys a) old)

module _ (iterate : List String → List String) where
  -- The endless loop of main, for as many rounds as there are answers: a round sleeps, fetches and
  -- leaves what an error says to the log.
  unfoldable pub refresh_all : List (Instant × Answer) → Server → Server
  unfolding refresh_jwks
  refresh_all [] s = s
  refresh_all ((now, a) ∷ rounds) s =
      refresh_all rounds (refresh_jwks iterate (λ insecure url. a) now s).server

  module _ (range : IsRange iterate) where
    view-load :
        (now : Instant) (r : Result KeySet) (s : Server)
        → view (load iterate now r s).server.key_set ≡ after_fetch r (view s.key_set)
    unfolding load after_fetch
    view-load now (err e) s = refl
    view-load now (ok new) s = view-merge iterate range new s.key_set

    pub view-refresh_jwks :
        (get : Bool → String → Answer) (now : Instant) (s : Server)
        → view (refresh_jwks iterate get now s).server.key_set
          ≡ after_fetch (fetched_keys (get s.insecure_skip_verify s.jwks_url)) (view s.key_set)
    unfolding refresh_jwks
    view-refresh_jwks get now s =
        view-load now (fetched_keys (get s.insecure_skip_verify s.jwks_url)) s

    -- Any number of refreshes refines the same number of overrides of a function from ids to keys: a
    -- refresh that fails changes nothing, one that succeeds replaces the keys of the ids it brings
    -- and keeps all others, and the order in which Go ranges over a map makes no difference.
    pub view-refresh_all :
        (rounds : List (Instant × Answer)) (s : Server)
        → view (refresh_all rounds s).key_set
          ≡ after_fetches (map (λ r. r.1) rounds) (view s.key_set)
    unfolding refresh_all after_fetches
    view-refresh_all [] s = refl
    view-refresh_all ((now, a) ∷ rounds) s =
        view-refresh_all rounds _
        ∙ ap (after_fetches (map (λ r. r.1) rounds)) (view-refresh_jwks (λ insecure url. a) now s)
