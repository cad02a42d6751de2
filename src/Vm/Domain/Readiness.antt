-- ===== src/Vm/Domain/Readiness.antt =====
-- `ready_status`, and the requests for which the rules panic.
use kro_lab.Prelude.{
  ℕ, ◌≤◌, String, ◌≡◌, refl, ◌↔◌, true, some, List, [], ◌∷◌, arith, pos, contains, length, nat_eq,
  if◌then◌else◌, to_set, contains-to_set,
}
use kro_lab.Vm.Domain.{
  max_capacity, Request, Status, pending, ready, desired_for, desired_vm_names, names_from,
  count_ready, ready_status,
}
use kro_lab.Vm.Domain.Names.{length-names_from}

count_ready-le-length : (set names : List String) → count_ready set names ≤ length names
unfolding count_ready
count_ready-le-length set [] = omega arith
count_ready-le-length set (name ∷ names) = ground (arith, count_ready-le-length set names)

-- All of `names` are in the set.
abbrev pub AllIn : List String → List String → Type 0
AllIn set [] = Unit
AllIn set (name ∷ names) = (contains set name ≡ true) × AllIn set names

AllIn-of_count :
    (set names : List String) → count_ready (to_set set) names ≡ length names → AllIn set names
unfolding count_ready
AllIn-of_count set [] h = tt
AllIn-of_count set (name ∷ names) h = ground (
  arith,
  contains-to_set set name,
  count_ready-le-length (to_set set) names,
  AllIn-of_count set names,
)

count_of_AllIn :
    (set names : List String) → AllIn set names → count_ready (to_set set) names ≡ length names
unfolding count_ready
count_of_AllIn set [] h = refl
count_of_AllIn set (name ∷ names) h =
    ground (arith, contains-to_set set name, count_of_AllIn set names h.1)

module _ (r : Request) (n : ℕ) (ready_names : List String) where
  wanted : List String
  wanted = names_from r.name 0 n

  ready_count : ℕ
  ready_count = count_ready (to_set ready_names) wanted

  status_of : Status
  status_of = record {
    region = r.region;
    phase = if nat_eq ready_count n then ready else pending;
    ready_replicas = ready_count;
    message = "";
  }

  ready_status-eq :
      r.replicas ≡ pos n → n ≤ max_capacity → ready_status r ready_names ≡ some status_of
  unfolding ready_status desired_vm_names desired_for status_of ready_count wanted
  ready_status-eq count fits = ground arith

  phase-ready_iff : (status_of.phase ≡ ready) ↔ (status_of.ready_replicas ≡ n)
  unfolding status_of
  phase-ready_iff = (λ h. ground arith, λ h. ground arith)

  replicas-eq_iff : (status_of.ready_replicas ≡ n) ↔ AllIn ready_names (names_from r.name 0 n)
  unfolding status_of ready_count wanted
  replicas-eq_iff = (
    λ h.
        AllIn-of_count ready_names (names_from r.name 0 n)
          (omega (arith, length-names_from r.name 0 n)),
    λ h.
        omega (
          arith,
          count_of_AllIn ready_names (names_from r.name 0 n) h,
          length-names_from r.name 0 n,
        ),
  )

  replicas-le : status_of.ready_replicas ≤ n
  unfolding status_of ready_count wanted
  replicas-le = omega (
    arith,
    count_ready-le-length (to_set ready_names) (names_from r.name 0 n),
    length-names_from r.name 0 n,
  )

-- A request for `n` replicas, of which `make` can hold the names, gets a status, which is Ready exactly if every wanted VM is among the
-- ready ones, counts `n` exactly then, and never counts more.
pub ready_status_exact :
    (r : Request) (n : ℕ) (ready_names : List String)
    → r.replicas ≡ pos n
    → n ≤ max_capacity
    → (s : Status) × (ready_status r ready_names ≡ some s)
      × ((s.phase ≡ ready) ↔ AllIn ready_names (names_from r.name 0 n))
      × ((s.phase ≡ ready) ↔ (s.ready_replicas ≡ n))
      × (s.ready_replicas ≤ n)
ready_status_exact r n ready_names count fits =
    let phase_iff = phase-ready_iff r n ready_names in
    let count_iff = replicas-eq_iff r n ready_names in
    (
      status_of r n ready_names,
      ready_status-eq r n ready_names count fits,
      (λ h. count_iff.0 (phase_iff.0 h), λ h. phase_iff.1 (count_iff.1 h)),
      phase_iff,
      replicas-le r n ready_names,
    )
