-- ===== src/Provider/Reengaging.antt =====
-- What a poll does to a cluster that is engaged already.
use kro_lab.Prelude.{ℕ, String, ◌≡◌, ◌≢◌, refl, true, some, List, eq_iff, eq-false_of_ne, arith}
use kro_lab.Prelude.Dict.{lookup, erase, has_key, text_at, lookup-insert_self, text_at-insert_self}
use kro_lab.Kube.Error.{Result, ok, err}
use kro_lab.Provider.{Provider, Environment, Profile, disengage_cluster, store, engaged_or_dropped}
use kro_lab.Provider.Polling.{
  engage_new, connect, with_key, with_key_result, visit, index_all, read_cluster_key,
  cluster_from_profile,
}
use kro_lab.Provider.Engaged.{is_in}

module _ {W : Type 0} (env : Environment W) (iterate : List String → List String) where
  open env use {Cluster, Index}

  with_key_result-stable :
      (cp : Profile) (r : Result String) (p : Provider Cluster Index) (w : W)
      → has_key cp.name p.clusters ≡ true
      → ((key : String) → r ≡ ok key → key ≡ text_at cp.name p.cluster_keys)
      → with_key_result env iterate cp r p w ≡ (p, w)
  unfolding with_key_result with_key
  with_key_result-stable cp (ok key) p w here same =
      rw (here, (eq_iff key (text_at cp.name p.cluster_keys)).1 (same key refl)) refl
  with_key_result-stable cp (err e) p w here same = rw here refl

  -- A poll leaves an engaged cluster as it is when its key cannot be read or is the one it had: it
  -- calls nothing but what reads the key.
  pub visit_stable :
      (cp : Profile) (p : Provider Cluster Index) (w : W)
      → has_key cp.name p.clusters ≡ true
      → ((key : String)
          → (read_cluster_key env iterate cp w).0 ≡ ok key
          → key ≡ text_at cp.name p.cluster_keys)
      → visit env iterate cp p w ≡ (p, (read_cluster_key env iterate cp w).1)
  unfolding visit
  visit_stable cp p w here same = with_key_result-stable cp _ p _ here same

  -- An engaged cluster whose key has changed is engaged anew: if the new cluster can be made and the
  -- manager takes it, it stands in the place of the old one with the new key, and the context of the
  -- old one is cancelled.
  pub visit_changed :
      (cp : Profile) (p : Provider Cluster Index) (w v u : W) (key : String) (c : Cluster) (i : ℕ)
      → has_key cp.name p.clusters ≡ true
      → lookup cp.name p.cancel_fns ≡ some i
      → read_cluster_key env iterate cp w ≡ (ok key, v)
      → key ≢ text_at cp.name p.cluster_keys
      → cluster_from_profile env iterate p.token_dir cp v ≡ (ok c, u)
      → (env.engage cp.name c (index_all env iterate c p.indexes u)).0 ≡ ok tt
      → (lookup cp.name (visit env iterate cp p w).0.clusters ≡ some c)
        × (text_at cp.name (visit env iterate cp p w).0.cluster_keys ≡ key)
        × (is_in i (visit env iterate cp p w).0.cancelled ≡ true)
  unfolding visit with_key_result with_key connect engage_new disengage_cluster store
      engaged_or_dropped
  visit_changed cp p w v u key c i here context read other made engaged =
      rw
        (
          read,
          here,
          eq-false_of_ne key (text_at cp.name p.cluster_keys) other,
          context,
          made,
          engaged,
        )
        (
          lookup-insert_self cp.name c (erase cp.name p.clusters),
          text_at-insert_self cp.name key (erase cp.name p.cluster_keys),
          ground arith,
        )
