-- ===== src/Provider/Engaged.antt =====
-- The maps of the provider agree, and no cluster runs that is not engaged.
use kro_lab.Prelude.{
  ℕ, ◌<◌, String, ◌≡◌, ◌∙◌, Bool, true, false, not, ◌&&◌, ◌||◌, some, List, [], ◌∷◌, ◌==◌, nat_eq,
  eq_iff, eq_refl, arith, inl, inr, Bool-cases, Option-cases, if◌then◌else◌, contains,
}
use kro_lab.Prelude.Dict.{lookup, has_key, lookup-insert, lookup-erase, has_key-erase}
use kro_lab.Kube.Error.{Result, ok, err}
use kro_lab.Provider.{Provider, disengage_cluster, sweep, store, engaged_or_dropped, keep_seen}

abbrev pub is_in : ℕ → List ℕ → Bool
is_in i [] = false
is_in i (j ∷ js) = nat_eq j i || is_in i js

-- The three maps have the same keys; the context of an engaged cluster is its own and not cancelled;
-- every context that is not cancelled is the one of an engaged cluster.
pub record IsConsistent {Cluster Index : Type 0} (p : Provider Cluster Index) : Type 0 where
  pub has_context : (n : String) → has_key n p.cancel_fns ≡ has_key n p.clusters
  pub has_cluster_key : (n : String) → has_key n p.cluster_keys ≡ has_key n p.clusters
  pub alive :
      (n : String) (i : ℕ)
      → lookup n p.cancel_fns ≡ some i
      → (i < p.started) × (is_in i p.cancelled ≡ false)
  pub own :
      (n k : String) (i : ℕ)
      → lookup n p.cancel_fns ≡ some i
      → lookup k p.cancel_fns ≡ some i
      → n ≡ k
  pub engaged :
      (i : ℕ)
      → i < p.started
      → is_in i p.cancelled ≡ false
      → (n : String) × (lookup n p.cancel_fns ≡ some i)
  pub old : (i : ℕ) → is_in i p.cancelled ≡ true → i < p.started

module _ {Cluster Index : Type 0} (p : Provider Cluster Index) (h : IsConsistent p) where
  pub store-IsConsistent :
      (name key : String) (c : Cluster)
      → has_key name p.clusters ≡ false
      → IsConsistent (store name key c p)
  unfolding store has_key
  store-IsConsistent name key c new = record {
    has_context = λ n. ground (
      arith,
      lookup-insert name n p.started p.cancel_fns,
      lookup-insert name n c p.clusters,
      h.has_context n,
    );
    has_cluster_key = λ n. ground (
      arith,
      lookup-insert name n key p.cluster_keys,
      lookup-insert name n c p.clusters,
      h.has_cluster_key n,
    );
    alive = λ n i e.
        ground (arith, lookup-insert name n p.started p.cancel_fns, h.alive n i, h.old p.started);
    own = λ n k i e f. ground (
      arith,
      lookup-insert name n p.started p.cancel_fns,
      lookup-insert name k p.started p.cancel_fns,
      eq_iff name n,
      eq_iff name k,
      h.own n k i,
      h.alive n i,
      h.alive k i,
    );
    engaged = λ i lt live. elim (Bool-cases (nat_eq i p.started)) [
      | inl new_one ↦ (name, rw lookup-insert (ground (arith, eq_refl name)))
      | inr old_one ↦
          let (n, e) = h.engaged i (ground arith) live in
          (
            n,
            ground (
              arith,
              lookup-insert name n p.started p.cancel_fns,
              eq_iff name n,
              h.has_context name,
            ),
          )
    ];
    old = λ i e. ground (arith, h.old i);
  }

  context_of :
      (name : String)
      → has_key name p.clusters ≡ true
      → (i : ℕ) × (lookup name p.cancel_fns ≡ some i)
  unfolding has_key
  context_of name present = elim (Option-cases (lookup name p.cancel_fns)) [
    | inl missing ↦ absurd (ground (arith, h.has_context name))
    | inr found ↦ found
  ]

  without_cluster :
      (name : String) (i : ℕ)
      → has_key name p.clusters ≡ true
      → lookup name p.cancel_fns ≡ some i
      → IsConsistent (disengage_cluster name p)
  unfolding disengage_cluster
  without_cluster name i present context =
      rw (present, context)
        (record {
          has_context = λ n. ground (
            arith,
            has_key-erase name n p.cancel_fns,
            has_key-erase name n p.clusters,
            h.has_context n,
          );
          has_cluster_key = λ n. ground (
            arith,
            has_key-erase name n p.cluster_keys,
            has_key-erase name n p.clusters,
            h.has_cluster_key n,
          );
          alive = λ n j e.
              ground (
                arith,
                lookup-erase name n p.cancel_fns,
                h.alive n j,
                h.own name n i,
                eq_iff name n,
              );
          own = λ n k j e f. ground (
            arith,
            lookup-erase name n p.cancel_fns,
            lookup-erase name k p.cancel_fns,
            h.own n k j,
          );
          engaged = λ j lt live.
              let (n, e) = h.engaged j lt (ground arith) in
              (n, ground (arith, lookup-erase name n p.cancel_fns, eq_iff name n));
          old = λ j e. ground (arith, h.old j, h.alive name i);
        })

  pub disengage_cluster-IsConsistent : (name : String) → IsConsistent (disengage_cluster name p)
  disengage_cluster-IsConsistent name = elim (Bool-cases (has_key name p.clusters)) [
    | inr out ↦ unfold disengage_cluster in rw out h
    | inl present ↦
        let (i, context) = context_of name present in without_cluster name i present context
  ]

  pub disengage_cluster-gone :
      (name n : String)
      → has_key n (disengage_cluster name p).clusters
        ≡ (if name == n then false else has_key n p.clusters)
  unfolding disengage_cluster
  disengage_cluster-gone name n = ground (arith, has_key-erase name n p.clusters, eq_iff name n)

module _ {Cluster Index : Type 0} (p : Provider Cluster Index) (h : IsConsistent p) where
  keep_seen-IsConsistent :
      (seen : List String) (name : String) → IsConsistent (keep_seen seen name p)
  unfolding keep_seen
  keep_seen-IsConsistent seen name = elim (Bool-cases (contains seen name)) [
    | inl listed ↦ rw listed h
    | inr gone ↦ rw gone (disengage_cluster-IsConsistent p h name)
  ]

  keep_seen-has_key :
      (seen : List String) (name n : String)
      → has_key n (keep_seen seen name p).clusters
        ≡ (has_key n p.clusters && (contains seen name || not (name == n)))
  unfolding keep_seen
  keep_seen-has_key seen name n = ground (arith, disengage_cluster-gone p h name n)

module _ {Cluster Index : Type 0} (seen : List String) where
  pub sweep-IsConsistent :
      (names : List String) (p : Provider Cluster Index)
      → IsConsistent p
      → IsConsistent (sweep seen names p)
  unfolding sweep
  sweep-IsConsistent [] p h = h
  sweep-IsConsistent (name ∷ names) p h =
      sweep-IsConsistent names (keep_seen seen name p) (keep_seen-IsConsistent p h seen name)

  -- A sweep keeps what was seen and drops the rest of the names that it goes through.
  pub sweep-has_key :
      (names : List String) (p : Provider Cluster Index)
      → IsConsistent p
      → (n : String)
      → has_key n (sweep seen names p).clusters
        ≡ (has_key n p.clusters && (contains seen n || not (contains names n)))
  unfolding sweep contains
  sweep-has_key [] p h n = ground arith
  sweep-has_key (name ∷ names) p h n =
      sweep-has_key names (keep_seen seen name p) (keep_seen-IsConsistent p h seen name) n
      ∙ ground (arith, keep_seen-has_key p h seen name n, eq_iff name n)

module _ {Cluster Index : Type 0} (name key : String) (c : Cluster)
    (p : Provider Cluster Index) where
  pub engaged_or_dropped-IsConsistent :
      (r : Result (Unit {0}))
      → IsConsistent p
      → has_key name p.clusters ≡ false
      → IsConsistent (engaged_or_dropped name r (store name key c p))
  unfolding engaged_or_dropped
  engaged_or_dropped-IsConsistent (ok u) h new = store-IsConsistent p h name key c new
  engaged_or_dropped-IsConsistent (err e) h new =
      disengage_cluster-IsConsistent (store name key c p) (store-IsConsistent p h name key c new)
        name
