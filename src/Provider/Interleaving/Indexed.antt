-- ===== src/Provider/Interleaving/Indexed.antt =====
-- No index is missed, however registrations and new clusters interleave.
use mathlib.Core.List.{Memᴰ}
use mathlib.Core.List.Memᴰ
use kro_lab.Prelude.{
  ℕ, String, ◌≡◌, ◌⊎◌, refl, sym, ap, ◌∙◌, Bool, ◌==◌, none, some, List, [], ◌∷◌, ◌++◌, arith, inl,
  inr, Bool-cases,
}
use kro_lab.Prelude.Dict.{lookup, has_key, lookup-insert, lookup-erase}
use kro_lab.Provider.{Provider, clusters_of, new_provider, disengage_cluster, store}
use kro_lab.Provider.Interleaving.{
  Shared, Event, register, publish, withdraw, call, pairs_with, pairs_of, advance, step, run_events,
  at_rest,
}
use kro_lab.Provider.Interleaving.Waiting.{
  clusters_of-Memᴰ, pairs_with-Memᴰ, pairs_of-Memᴰ, all_waiting, advance-kept,
}

module _ {Cluster Index : Type 0} where
  -- The call of a cluster and an index was made, or is to be made.
  abbrev IsTracked : Shared Cluster Index → Cluster × Index → Type 0
  IsTracked s pair =
      Memᴰ pair s.indexed ⊎ (Memᴰ pair s.given_up ⊎ Memᴰ pair (all_waiting s.running))

  -- Every engaged cluster has, or is to get, every index.
  pub IsCovered : Shared Cluster Index → Type 0
  IsCovered s =
      (name : String) (c : Cluster) (i : Index)
      → lookup name s.provider.clusters ≡ some c
      → Memᴰ i s.provider.indexes
      → IsTracked s (c, i)

  module _ (order : List Cluster → List Cluster)
      (order_all : (cs : List Cluster) (c : Cluster) → Memᴰ c cs → Memᴰ c (order cs)) where
    tracked_more :
        (c : Cluster) (i : Index) (s : Shared Cluster Index) (more : List (Cluster × Index))
        → IsTracked s (c, i)
        → Memᴰ (c, i) s.indexed
          ⊎ (Memᴰ (c, i) s.given_up ⊎ Memᴰ (c, i) (more ++ all_waiting s.running))
    tracked_more c i s more (inl done) = inl done
    tracked_more c i s more (inr (inl lost)) = inr (inl lost)
    tracked_more c i s more (inr (inr later)) = inr (inr (Memᴰ.append_right more later))

    register-IsCovered :
        (i : Index) (s : Shared Cluster Index) → IsCovered s → IsCovered (step order (register i) s)
    unfolding IsCovered step
    register-IsCovered i s h name c j found listed =
        let new = pairs_with i (order (clusters_of s.provider.clusters)) in
        elim (Memᴰ.append_cases s.provider.indexes listed) [
          | inl old ↦ tracked_more c j s new (h name c j found old)
          | inr added ↦ rw (Memᴰ.eq_of_singleton added) (
              inr (
                inr (
                  Memᴰ.append_left (all_waiting s.running) (
                    pairs_with-Memᴰ i _
                      (order_all _ c (clusters_of-Memᴰ name c s.provider.clusters found))))))
        ]

    publish-IsCovered :
        (name key : String) (c : Cluster) (s : Shared Cluster Index)
        → IsCovered s
        → IsCovered (step order (publish name key c) s)
    unfolding IsCovered step store
    publish-IsCovered name key c s h other d i found listed =
        let e = sym (lookup-insert name other c s.provider.clusters) ∙ found in
        let new = pairs_of c s.provider.indexes in
        elim (Bool-cases (name == other)) [
          | inl same ↦
              let same_cluster : c ≡ d =
                ap {B = Cluster} (λ o. elim o [ some x ↦ x | none ↦ c ]) (rw same at e) in
              rw (← same_cluster)
                (inr (inr (Memᴰ.append_left (all_waiting s.running) (pairs_of-Memᴰ c _ listed))))
          | inr different ↦ tracked_more d i s new (h other d i (rw different at e) listed)
        ]

    disengaged_before :
        (name other : String) (d : Cluster) (p : Provider Cluster Index)
        → lookup other (disengage_cluster name p).clusters ≡ some d
        → lookup other p.clusters ≡ some d
    unfolding disengage_cluster
    disengaged_before name other d p h = elim (Bool-cases (has_key name p.clusters)) [
      | inl engaged ↦
          let e = sym (lookup-erase name other p.clusters) ∙ rw engaged at h in ground arith
      | inr absent ↦ rw absent at h
    ]

    disengage_cluster-indexes :
        (name : String) (p : Provider Cluster Index)
        → (disengage_cluster name p).indexes ≡ p.indexes
    unfolding disengage_cluster
    disengage_cluster-indexes name p = ground arith

    withdraw-IsCovered :
        (name : String) (s : Shared Cluster Index)
        → IsCovered s
        → IsCovered (step order (withdraw name) s)
    unfolding IsCovered step
    withdraw-IsCovered name s h other d i found listed =
        h other d i (disengaged_before name other d s.provider found)
          (rw (disengage_cluster-indexes name s.provider) at listed)

    call-IsCovered :
        (k : ℕ) (well : Bool) (s : Shared Cluster Index)
        → IsCovered s
        → IsCovered (step order (call k well) s)
    unfolding IsCovered step
    call-IsCovered k well s h name c i found listed = go (h name c i found listed)
      where
        go : IsTracked s (c, i) → IsTracked (step order (call k well) s) (c, i)
        go (inl done) = inl (Memᴰ.append_right (advance k well s.running).done done)
        go (inr (inl lost)) = inr (inl (Memᴰ.append_right (advance k well s.running).lost lost))
        go (inr (inr later)) = elim (advance-kept k well s.running later) [
          | inl done ↦ inl (Memᴰ.append_left s.indexed done)
          | inr (inl lost) ↦ inr (inl (Memᴰ.append_left s.given_up lost))
          | inr (inr rest) ↦ inr (inr rest)
        ]

    step-IsCovered :
        (e : Event Cluster Index) (s : Shared Cluster Index)
        → IsCovered s
        → IsCovered (step order e s)
    step-IsCovered (register i) s h = register-IsCovered i s h
    step-IsCovered (publish name key c) s h = publish-IsCovered name key c s h
    step-IsCovered (withdraw name) s h = withdraw-IsCovered name s h
    step-IsCovered (call k well) s h = call-IsCovered k well s h

    run_events-IsCovered :
        (es : List (Event Cluster Index)) (s : Shared Cluster Index)
        → IsCovered s
        → IsCovered (run_events order es s)
    unfolding run_events
    run_events-IsCovered [] s h = h
    run_events-IsCovered (e ∷ es) s h = run_events-IsCovered es _ (step-IsCovered e s h)

    step-indexes :
        (e : Event Cluster Index) (s : Shared Cluster Index) {i : Index}
        → Memᴰ i s.provider.indexes
        → Memᴰ i (step order e s).provider.indexes
    unfolding step store
    step-indexes (register j) s h = Memᴰ.append_left (j ∷ []) h
    step-indexes (publish name key c) s h = h
    step-indexes (withdraw name) s h = rw (disengage_cluster-indexes name s.provider) h
    step-indexes (call k well) s h = h

    run_events-indexes :
        (es : List (Event Cluster Index)) (s : Shared Cluster Index) {i : Index}
        → Memᴰ i s.provider.indexes
        → Memᴰ i (run_events order es s).provider.indexes
    unfolding run_events
    run_events-indexes [] s h = h
    run_events-indexes (e ∷ es) s h = run_events-indexes es _ (step-indexes e s h)

    step-registered :
        (i : Index) (s : Shared Cluster Index) → Memᴰ i (step order (register i) s).provider.indexes
    unfolding step
    step-registered i s = Memᴰ.append_right s.provider.indexes (Memᴰ.head refl)

    run_events-registered :
        (i : Index) (es : List (Event Cluster Index)) (s : Shared Cluster Index)
        → Memᴰ (register i) es
        → Memᴰ i (run_events order es s).provider.indexes
    unfolding run_events
    run_events-registered i [] s h = absurd (Memᴰ.not-nil h)
    run_events-registered i (e ∷ es) s h = elim (Memᴰ.cases_cons h) [
      | inl now ↦ run_events-indexes es _ (rw (← now) (step-registered i s))
      | inr later ↦ run_events-registered i es _ later
    ]

    no_indexes-IsCovered : (s : Shared Cluster Index) → s.provider.indexes ≡ [] → IsCovered s
    unfolding IsCovered
    no_indexes-IsCovered s none_yet name c i found listed =
        absurd (Memᴰ.not-nil (rw none_yet at listed))

    -- However the registrations of indexes, the new and the withdrawn clusters and the single calls of
    -- all goroutines interleave from a new provider on: once no goroutine has a call left to make, each
    -- index that was registered was set up in every engaged cluster, unless that very call failed or
    -- was given up behind one that failed. It is supposed that IndexField ranges over all clusters.
    pub run_events_indexed :
        (es : List (Event Cluster Index)) (token_dir : String) (name : String) (c : Cluster)
        (i : Index)
        → let s = run_events order es (at_rest (new_provider token_dir)) in
          all_waiting s.running ≡ []
          → lookup name s.provider.clusters ≡ some c
          → Memᴰ (register i) es
          → Memᴰ (c, i) s.indexed ⊎ Memᴰ (c, i) s.given_up
    unfolding IsCovered new_provider
    run_events_indexed es token_dir name c i idle found registered =
        let start = at_rest (new_provider token_dir) in
        let listed = run_events-registered i es start registered in
        let covered = run_events-IsCovered es start (no_indexes-IsCovered start refl) in
        elim (covered name c i found listed) [
          | inl done ↦ inl done
          | inr (inl lost) ↦ inr lost
          | inr (inr later) ↦ absurd (Memᴰ.not-nil (rw idle at later))
        ]
