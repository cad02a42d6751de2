-- ===== src/Provider/Discovery.antt =====
-- What polls do to the engaged clusters.
use kro_lab.Prelude.{
  ℕ, zero, suc, String, ◌≡◌, refl, true, false, ◌&&◌, List, [], ◌∷◌, ◌==◌, eq_refl, arith, inl, inr,
  Bool-cases, if◌then◌else◌, contains, contains-perm, IsRange,
}
use kro_lab.Prelude.Dict.{Dict, lookup, keys, has_key, text_at, contains-keys}
use kro_lab.Kube.Error.{Result, ok, err}
use kro_lab.Provider.{
  Provider, Environment, Profile, disengage_cluster, set_label_selector, new_provider,
}
use kro_lab.Provider.Polling.{
  engage_new, connect, with_key, with_key_result, visit, visit_all, discover, names_of,
  finish_discovery, run,
}
use kro_lab.Provider.Engaged.{
  IsConsistent, engaged_or_dropped-IsConsistent, disengage_cluster-IsConsistent,
  disengage_cluster-gone, sweep-IsConsistent, sweep-has_key,
}

module _ {W : Type 0} (env : Environment W) (iterate : List String → List String) where
  open env use {Cluster, Index}

  engage_new-IsConsistent :
      (name key : String) (r : Result Cluster) (p : Provider Cluster Index) (w : W)
      → IsConsistent p
      → has_key name p.clusters ≡ false
      → IsConsistent (engage_new env iterate name key r p w).0
  unfolding engage_new
  engage_new-IsConsistent name key (err e) p w h new = h
  engage_new-IsConsistent name key (ok c) p w h new =
      engaged_or_dropped-IsConsistent name key c p _ h new

  cleared : String → Provider Cluster Index → Provider Cluster Index
  cleared name p = if has_key name p.clusters then disengage_cluster name p else p

  cleared-IsConsistent :
      (name : String) (p : Provider Cluster Index)
      → IsConsistent p
      → IsConsistent (cleared name p) × (has_key name (cleared name p).clusters ≡ false)
  unfolding cleared
  cleared-IsConsistent name p h = elim (Bool-cases (has_key name p.clusters)) [
    | inl old ↦ rw old (
      disengage_cluster-IsConsistent p h name,
      ground (arith, disengage_cluster-gone p h name name, eq_refl name),
    )
    | inr new ↦ rw new (h, new)
  ]

  connect-IsConsistent :
      (cp : Profile) (key : String) (p : Provider Cluster Index) (w : W)
      → IsConsistent p
      → IsConsistent (connect env iterate cp key p w).0
  unfolding connect cleared
  connect-IsConsistent cp key p w h =
      let (fine, new) = cleared-IsConsistent cp.name p h in
      engage_new-IsConsistent cp.name key _ _ _ fine new

  with_key-IsConsistent :
      (cp : Profile) (key : String) (p : Provider Cluster Index) (w : W)
      → IsConsistent p
      → IsConsistent (with_key env iterate cp key p w).0
  unfolding with_key
  with_key-IsConsistent cp key p w h =
      elim (Bool-cases (has_key cp.name p.clusters && key == text_at cp.name p.cluster_keys)) [
        | inl same ↦ rw same h
        | inr other ↦ rw other (connect-IsConsistent cp key p w h)
      ]

  with_key_result-IsConsistent :
      (cp : Profile) (r : Result String) (p : Provider Cluster Index) (w : W)
      → IsConsistent p
      → IsConsistent (with_key_result env iterate cp r p w).0
  unfolding with_key_result
  with_key_result-IsConsistent cp (ok key) p w h = with_key-IsConsistent cp key p w h
  with_key_result-IsConsistent cp (err e) p w h = elim (Bool-cases (has_key cp.name p.clusters)) [
    | inl old ↦ rw old h
    | inr new ↦ rw new (with_key-IsConsistent cp "" p w h)
  ]

  visit-IsConsistent :
      (cp : Profile) (p : Provider Cluster Index) (w : W)
      → IsConsistent p
      → IsConsistent (visit env iterate cp p w).0
  unfolding visit
  visit-IsConsistent cp p w h = with_key_result-IsConsistent cp _ p _ h

  pub visit_all-IsConsistent :
      (cps : List Profile) (p : Provider Cluster Index) (w : W)
      → IsConsistent p
      → IsConsistent (visit_all env iterate cps p w).0
  unfolding visit_all
  visit_all-IsConsistent [] p w h = h
  visit_all-IsConsistent (cp ∷ cps) p w h =
      visit_all-IsConsistent cps _ _ (visit-IsConsistent cp p w h)

  discover-IsConsistent :
      (p : Provider Cluster Index) (w : W)
      → IsConsistent p
      → IsConsistent (discover env iterate p w).0
  unfolding discover
  discover-IsConsistent p w h = go (env.list_profiles p.selector w).0
    where
      go :
          (r : Result (List Profile))
          → IsConsistent (finish_discovery env iterate r p (env.list_profiles p.selector w).1).0
      go (err e) = h
      go (ok cps) = sweep-IsConsistent (names_of cps) _ _ (visit_all-IsConsistent cps p _ h)

  new_provider-IsConsistent :
      (token_dir : String)
      → IsConsistent (new_provider {Cluster = Cluster} {Index = Index} token_dir)
  unfolding new_provider has_key lookup
  new_provider-IsConsistent token_dir = record {
    has_context = λ n. refl;
    has_cluster_key = λ n. refl;
    alive = λ n i e. cc;
    own = λ n k i e f. cc;
    engaged = λ i lt live. absurd (omega arith);
    old = λ i e. cc;
  }

  run-IsConsistent_from :
      (ticks : ℕ) (p : Provider Cluster Index) (w : W)
      → IsConsistent p
      → IsConsistent (run env iterate ticks p w).0
  unfolding run
  run-IsConsistent_from zero p w h = discover-IsConsistent p w h
  run-IsConsistent_from (suc ticks) p w h =
      run-IsConsistent_from ticks _ _ (discover-IsConsistent p w h)

  selected-IsConsistent :
      (selector : Dict String) (p : Provider Cluster Index)
      → IsConsistent p
      → IsConsistent (set_label_selector selector p)
  unfolding set_label_selector
  selected-IsConsistent selector p h = record {
    has_context = h.has_context;
    has_cluster_key = h.has_cluster_key;
    alive = h.alive;
    own = h.own;
    engaged = h.engaged;
    old = h.old;
  }

  -- From a new provider on, after any number of polls and whatever the calls answer, the three maps
  -- have the same keys, each engaged cluster has a running context of its own, and every other
  -- context that was started has been cancelled.
  pub run-IsConsistent :
      (token_dir : String) (selector : Dict String) (ticks : ℕ) (w : W)
      → IsConsistent
          (run env iterate ticks (set_label_selector selector (new_provider token_dir)) w).0
  run-IsConsistent token_dir selector ticks w =
      run-IsConsistent_from ticks _ w
        (selected-IsConsistent selector _ (new_provider-IsConsistent token_dir))

  -- After a poll whose list was answered, only listed clusters are engaged.
  pub discover_listed :
      IsRange iterate
      → (p : Provider Cluster Index) (w : W) (cps : List Profile) (n : String) → IsConsistent p
      → (env.list_profiles p.selector w).0 ≡ ok cps
      → has_key n (discover env iterate p w).0.clusters ≡ true
      → contains (names_of cps) n ≡ true
  unfolding discover
  discover_listed range p w cps n h listed e =
      let v = (env.list_profiles p.selector w).1 in
      let p' = (visit_all env iterate cps p v).0 in
      let after : has_key n (finish_discovery env iterate (ok cps) p v).0.clusters ≡ true =
        rw listed at e in
      ground (
        arith,
        sweep-has_key (names_of cps) (iterate (keys p'.clusters)) p'
            (visit_all-IsConsistent cps p v h) n,
        contains-perm (range.perm (keys p'.clusters)) n,
        contains-keys p'.clusters n,
        after,
      )
