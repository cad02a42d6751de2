-- ===== src/Bucket/Domain/Resolution.antt =====
-- Which cluster serves a region.
use kro_lab.Prelude.{
  String, ◌≡◌, refl, ap, ◌↔◌, ◌⊎◌, true, false, Option, none, some, List, [], ◌∷◌, ◌==◌, ◌&&◌,
  arith, eq_iff, eq_refl, contains, All-contains, str_lt_antisymm, str_lt, str_lt_asymm,
  str_lt-cotrans, Bool-cases, inl, inr,
}
use kro_lab.Prelude.Dict.{text_at}
use kro_lab.Prelude.Sort.{IsOrder, IsSortedBy, sort_by-IsSortedBy, contains-sort_by}
use kro_lab.Bucket.Domain.{Profile, candidates, first_of_sorted, resolve_cluster}

str_lt-IsOrder : IsOrder str_lt
str_lt-IsOrder = record { asymm = str_lt_asymm; cotrans = str_lt-cotrans }

str_lt_irrefl : (a : String) → str_lt a a ≡ false
str_lt_irrefl a = elim (Bool-cases (str_lt a a)) [
  | inl below ↦ str_lt_asymm a a below
  | inr no_lt ↦ no_lt
]

-- The profile `name` of the list carries the region under the label.
abbrev pub Serves : String → String → String → List Profile → Type 0
Serves region region_label name [] = ⊥
Serves region region_label name (p ∷ ps) =
    ((p.name ≡ name) × (text_at region_label p.labels ≡ region))
    ⊎ Serves region region_label name ps

module _ (region region_label : String) where
  candidates_of_Serves :
      (name : String) (ps : List Profile)
      → Serves region region_label name ps
      → contains (candidates region region_label ps) name ≡ true
  unfolding candidates contains
  candidates_of_Serves name [] h = absurd h
  candidates_of_Serves name (p ∷ ps) (inl (e, f)) =
      ground (arith, eq_iff p.name name, eq_iff (text_at region_label p.labels) region)
  candidates_of_Serves name (p ∷ ps) (inr h) = ground (arith, candidates_of_Serves name ps h)

  Serves-of_candidates :
      (name : String) (ps : List Profile)
      → contains (candidates region region_label ps) name ≡ true
      → Serves region region_label name ps
  unfolding candidates contains
  Serves-of_candidates name [] h = absurd (ground arith)
  Serves-of_candidates name (p ∷ ps) h =
      elim (Bool-cases (text_at region_label p.labels == region && p.name == name)) [
        | inl fits ↦
            inl (ground (arith, eq_iff p.name name, eq_iff (text_at region_label p.labels) region))
        | inr other ↦ inr (Serves-of_candidates name ps (ground arith))
      ]

  -- The cluster that serves the region: none if no profile does, else the first of those by name.
  abbrev pub Resolved : List Profile → Option String → Type 0
  Resolved ps none = (name : String) → ¬ (Serves region region_label name ps)
  Resolved ps (some name) =
      Serves region region_label name ps
      × ((k : String) → Serves region region_label k ps → str_lt k name ≡ false)

  Resolved-of_sorted :
      (ps : List Profile) (names : List String)
      → IsSortedBy str_lt names
      → ((a : String) → contains names a ≡ contains (candidates region region_label ps) a)
      → Resolved ps (first_of_sorted names)
  unfolding contains
  Resolved-of_sorted ps [] sorted same =
      λ name h. absurd (ground (arith, same name, candidates_of_Serves name ps h))
  Resolved-of_sorted ps (name ∷ names) sorted same = (
    Serves-of_candidates name ps (ground (arith, same name, eq_refl name)),
    λ k h. elim (Bool-cases (name == k)) [
      | inl eq ↦ rw (← (eq_iff name k).0 eq) (str_lt_irrefl name)
      | inr ne ↦
          All-contains (λ y. str_lt y name ≡ false) names k sorted.0
            (ground (arith, same k, candidates_of_Serves k ps h))
    ],
  )

  -- A region resolves to the first name, in the order of texts, among the profiles that carry it under
  -- the label, and to nothing exactly if there is none.
  pub resolve_cluster-Resolved :
      (ps : List Profile) → Resolved ps (resolve_cluster region region_label ps)
  unfolding resolve_cluster
  resolve_cluster-Resolved ps =
      Resolved-of_sorted ps _
        (sort_by-IsSortedBy str_lt str_lt-IsOrder (candidates region region_label ps))
        (contains-sort_by str_lt (candidates region region_label ps))

  Resolved-unique :
      (ps qs : List Profile) (o p : Option String)
      → ((name : String) → Serves region region_label name ps ↔ Serves region region_label name qs)
      → Resolved ps o
      → Resolved qs p
      → o ≡ p
  Resolved-unique ps qs none none same h k = refl
  Resolved-unique ps qs none (some b) same h k = absurd (h b ((same b).1 k.0))
  Resolved-unique ps qs (some a) none same h k = absurd (k a ((same a).0 h.0))
  Resolved-unique ps qs (some a) (some b) same h k =
      ap some (str_lt_antisymm a b (k.1 a ((same a).0 h.0)) (h.1 b ((same b).1 k.0)))

  -- The choice is stable: lists that hold the same serving profiles, in whatever order and however
  -- often, resolve the region alike.
  pub resolve_cluster-stable :
      (ps qs : List Profile)
      → ((name : String) → Serves region region_label name ps ↔ Serves region region_label name qs)
      → resolve_cluster region region_label ps ≡ resolve_cluster region region_label qs
  resolve_cluster-stable ps qs same =
      Resolved-unique ps qs _ _ same (resolve_cluster-Resolved ps) (resolve_cluster-Resolved qs)
