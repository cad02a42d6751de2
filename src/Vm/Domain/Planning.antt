-- ===== src/Vm/Domain/Planning.antt =====
-- `plan_vms` and `ready_status`: what a plan changes, in which order, and what counts as ready.
use kro_lab.Prelude.{
  String, ◌≡◌, true, false, not, Option, some, none, inl, inr, List, [], ◌∷◌, ◌++◌, ◌&&◌, arith, ℤ,
  contains, IsRange, to_set, contains-to_set, contains-missing_from, contains-perm, contains-append,
  missing_from, ltb_int, All, str_lt, str_lt-cotrans, str_lt_asymm, Option-cases,
}
use kro_lab.Prelude.Sort.{sort_by, IsOrder, IsSortedBy, sort_by-IsSortedBy, contains-sort_by}
use kro_lab.Vm.Domain.{
  Request, Plan, vm_index, desired_vm_names, plan_vms, index_before, deletes_before,
}

-- The VMs after a plan's deletions and creations.
pub apply_plan : Plan → List String → List String
apply_plan plan existing = missing_from plan.delete existing ++ plan.create

module _ (iterate : List String → List String) (r : Request) where
  -- The plan that `plan_vms` returns, once the wanted names are known.
  abbrev plan_of : List String → List String → Plan
  plan_of existing names = record {
    create = missing_from (to_set existing) names;
    delete =
        sort_by (deletes_before r.name) (missing_from (to_set names) (iterate (to_set existing)));
  }

  plan_vms-eq_some :
      (existing : List String) {plan : Plan}
      → plan_vms iterate r existing ≡ some plan
      → (names : List String) × (desired_vm_names r ≡ some names) × (plan ≡ plan_of existing names)
  unfolding plan_vms
  plan_vms-eq_some existing e = elim (Option-cases (desired_vm_names r)) [
    | inl panics ↦ cc (rw (panics, plan_vms) at e)
    | inr (names, d) ↦ (names, d, ground arith)
  ]

  create_exact :
      (existing names : List String) (plan : Plan)
      → desired_vm_names r ≡ some names
      → plan_vms iterate r existing ≡ some plan
      → (a : String) → contains plan.create a ≡ (contains names a && not (contains existing a))
  unfolding plan_vms
  create_exact existing names plan d e a =
      ground (arith, contains-missing_from (to_set existing) names a, contains-to_set existing a)

module _ (iterate : List String → List String) (range : IsRange iterate) (r : Request) where
  delete_exact :
      (existing names : List String) (plan : Plan)
      → desired_vm_names r ≡ some names
      → plan_vms iterate r existing ≡ some plan
      → (a : String) → contains plan.delete a ≡ (contains existing a && not (contains names a))
  unfolding plan_vms
  delete_exact existing names plan d e a = ground (
    arith,
    contains-sort_by (deletes_before r.name)
        (missing_from (to_set names) (iterate (to_set existing))) a,
    contains-missing_from (to_set names) (iterate (to_set existing)) a,
    contains-perm (range.perm (to_set existing)) a,
    contains-to_set existing a,
    contains-to_set names a,
  )

  -- A plan creates exactly the wanted VMs that do not exist and deletes exactly the existing ones
  -- that are not wanted.
  pub plan_vms_exact :
      (existing names : List String) (plan : Plan)
      → desired_vm_names r ≡ some names
      → plan_vms iterate r existing ≡ some plan
      → (a : String)
      → (contains plan.create a ≡ (contains names a && not (contains existing a)))
        × (contains plan.delete a ≡ (contains existing a && not (contains names a)))
  plan_vms_exact existing names plan d e a =
      (create_exact iterate r existing names plan d e a, delete_exact existing names plan d e a)

-- Deletion order.
index_before_asymm :
    (o p : Option ℤ) (a b : String) → index_before o p a b ≡ true → index_before p o b a ≡ false
unfolding index_before
index_before_asymm o p a b h = ground (arith, str_lt_asymm a b)

index_before-cotrans :
    (o p q : Option ℤ) (a b c : String)
    → index_before p o b a ≡ false
    → index_before q p c b ≡ false
    → index_before q o c a ≡ false
unfolding index_before
index_before-cotrans o p q a b c h k = ground (arith, str_lt-cotrans a b c)

deletes_before-IsOrder : (request : String) → IsOrder (deletes_before request)
unfolding deletes_before
deletes_before-IsOrder request = record {
  asymm = λ a b. index_before_asymm (vm_index request a) (vm_index request b) a b;
  cotrans = λ a b c.
      index_before-cotrans (vm_index request a) (vm_index request b) (vm_index request c) a b c;
}

-- How two names may follow one another among the deletions: the higher index first, a name with no
-- index behind those that have one, and names with none in the order of texts.
abbrev pub InOrder : Option ℤ → Option ℤ → String → String → Type 0
InOrder (some i) (some j) a b = ltb_int i j ≡ false
InOrder (some i) none a b = Unit
InOrder none (some j) a b = ⊥
InOrder none none a b = str_lt b a ≡ false

InOrder-of_index_before :
    (o p : Option ℤ) (a b : String) → index_before p o b a ≡ false → InOrder o p a b
unfolding index_before
InOrder-of_index_before (some i) (some j) a b h = h
InOrder-of_index_before (some i) none a b h = tt
InOrder-of_index_before none (some j) a b h = cc
InOrder-of_index_before none none a b h = h

-- Each name of a list may stand before every later one.
abbrev pub InDeletionOrder : String → List String → Type 0
InDeletionOrder request [] = Unit
InDeletionOrder request (a ∷ names) =
    All (λ b. InOrder (vm_index request a) (vm_index request b) a b) names
    × InDeletionOrder request names

All-InOrder :
    (request a : String) (names : List String)
    → All (λ b. deletes_before request b a ≡ false) names
    → All (λ b. InOrder (vm_index request a) (vm_index request b) a b) names
unfolding deletes_before
All-InOrder request a [] h = tt
All-InOrder request a (b ∷ names) h = (
  InOrder-of_index_before (vm_index request a) (vm_index request b) a b h.0,
  All-InOrder request a names h.1,
)

InDeletionOrder-of_sorted :
    (request : String) (names : List String)
    → IsSortedBy (deletes_before request) names
    → InDeletionOrder request names
InDeletionOrder-of_sorted request [] h = tt
InDeletionOrder-of_sorted request (a ∷ names) h =
    (All-InOrder request a names h.0, InDeletionOrder-of_sorted request names h.1)

-- Whatever the order in which the run ranges over the existing VMs, deletions go from the highest
-- index to the lowest, and the names with no index come last, in the order of texts.
pub delete-InDeletionOrder :
    (iterate : List String → List String) (r : Request) (existing : List String) (plan : Plan)
    → plan_vms iterate r existing ≡ some plan
    → InDeletionOrder r.name plan.delete
delete-InDeletionOrder iterate r existing plan e =
    let (names, d, shape) = plan_vms-eq_some iterate r existing e in
    rw shape (
      InDeletionOrder-of_sorted r.name _
        (sort_by-IsSortedBy (deletes_before r.name) (deletes_before-IsOrder r.name) _))

module _ (iterate : List String → List String) (range : IsRange iterate) (r : Request) where
  -- Carrying a plan out takes any set of VMs to exactly the wanted set.
  pub apply_plan-converges :
      (existing names : List String) (plan : Plan)
      → desired_vm_names r ≡ some names
      → plan_vms iterate r existing ≡ some plan
      → (a : String) → contains (apply_plan plan existing) a ≡ contains names a
  unfolding apply_plan
  apply_plan-converges existing names plan d e a = ground (
    arith,
    contains-append (missing_from plan.delete existing) plan.create a,
    contains-missing_from plan.delete existing a,
    create_exact iterate r existing names plan d e a,
    delete_exact iterate range r existing names plan d e a,
  )
