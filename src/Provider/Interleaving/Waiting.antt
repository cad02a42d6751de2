-- ===== src/Provider/Interleaving/Waiting.antt =====
-- The calls of the goroutines: those of a new index and of a new cluster, and what a call that ends
-- leaves to make.
use mathlib.Core.List.{Memᴰ}
use mathlib.Core.List.Memᴰ
use kro_lab.Prelude.{
  ℕ, zero, suc, String, ◌≡◌, ◌⊎◌, sym, ap, Bool, true, false, ◌==◌, none, some, List, [], ◌∷◌, ◌++◌,
  arith, inl, inr, Bool-cases,
}
use kro_lab.Prelude.Dict.{Dict, lookup}
use kro_lab.Provider.{clusters_of}
use kro_lab.Provider.Interleaving.{Calls, pairs_with, pairs_of, next_call, advance}

pub clusters_of-Memᴰ :
    {Cluster : Type 0} (name : String) (c : Cluster) (clusters : Dict Cluster)
    → lookup name clusters ≡ some c
    → Memᴰ c (clusters_of clusters)
unfolding lookup
clusters_of-Memᴰ name c [] h = absurd (ground arith)
clusters_of-Memᴰ {Cluster} name c ((j, d) ∷ clusters) h = elim (Bool-cases (j == name)) [
  | inl same ↦
      let e : d ≡ c = ap {B = Cluster} (λ o. elim o [ some x ↦ x | none ↦ d ]) (rw same at h) in
      Memᴰ.head (sym e)
  | inr other ↦ Memᴰ.tail (clusters_of-Memᴰ name c clusters (rw other at h))
]

module _ {Cluster Index : Type 0} where
  pub pairs_with-Memᴰ :
      (i : Index) {c : Cluster} (cs : List Cluster) → Memᴰ c cs → Memᴰ (c, i) (pairs_with i cs)
  pairs_with-Memᴰ i [] h = absurd (Memᴰ.not-nil h)
  pairs_with-Memᴰ i (d ∷ cs) h = elim (Memᴰ.cases_cons h) [
    | inl same ↦ Memᴰ.head (ap {B = Cluster × Index} (λ x. (x, i)) same)
    | inr later ↦ Memᴰ.tail (pairs_with-Memᴰ i cs later)
  ]

  pub pairs_of-Memᴰ :
      (c : Cluster) {i : Index} (is : List Index) → Memᴰ i is → Memᴰ (c, i) (pairs_of c is)
  pairs_of-Memᴰ c [] h = absurd (Memᴰ.not-nil h)
  pairs_of-Memᴰ c (j ∷ is) h = elim (Memᴰ.cases_cons h) [
    | inl same ↦ Memᴰ.head (ap {B = Cluster × Index} (λ x. (c, x)) same)
    | inr later ↦ Memᴰ.tail (pairs_of-Memᴰ c is later)
  ]

  -- The calls that goroutines have still to make.
  abbrev pub all_waiting : List (Calls Cluster Index) → List (Cluster × Index)
  all_waiting [] = []
  all_waiting (g ∷ gs) = g.waiting ++ all_waiting gs

  -- A call that was to be made still is, or has ended.
  next_call-kept :
      (well stops : Bool) (waiting : List (Cluster × Index)) (others : List (Calls Cluster Index))
      {pair : Cluster × Index}
      → Memᴰ pair (waiting ++ all_waiting others)
      → let p = next_call well stops waiting others in
        Memᴰ pair p.done ⊎ (Memᴰ pair p.lost ⊎ Memᴰ pair (all_waiting p.left))
  unfolding next_call
  next_call-kept well stops [] others h = inr (inr h)
  next_call-kept true stops (q ∷ rest) others h = elim (Memᴰ.cases_cons h) [
    | inl now ↦ inl (Memᴰ.head now)
    | inr later ↦ inr (inr later)
  ]
  next_call-kept false true (q ∷ rest) others h = inr (Memᴰ.append_cases (q ∷ rest) h)
  next_call-kept false false (q ∷ rest) others h = elim (Memᴰ.cases_cons h) [
    | inl now ↦ inr (inl (Memᴰ.head now))
    | inr later ↦ inr (inr later)
  ]

  pub advance-kept :
      (k : ℕ) (well : Bool) (running : List (Calls Cluster Index)) {pair : Cluster × Index}
      → Memᴰ pair (all_waiting running)
      → let p = advance k well running in
        Memᴰ pair p.done ⊎ (Memᴰ pair p.lost ⊎ Memᴰ pair (all_waiting p.left))
  unfolding advance
  advance-kept k well [] h = inr (inr h)
  advance-kept zero well (g ∷ others) h = next_call-kept well g.stops g.waiting others h
  advance-kept (suc k) well (g ∷ others) h = elim (Memᴰ.append_cases g.waiting h) [
    | inl own ↦ inr (inr (Memᴰ.append_left (all_waiting (advance k well others).left) own))
    | inr rest ↦ elim (advance-kept k well others rest) [
      | inl done ↦ inl done
      | inr (inl lost) ↦ inr (inl lost)
      | inr (inr later) ↦ inr (inr (Memᴰ.append_right g.waiting later))
    ]
  ]
