-- ===== src/Vm/Controller/Convergence.antt =====
-- What a successful run leaves on a spoke.
use kro_lab.Prelude.{
  String, ◌≡◌, inl, inr, ap, Bool, true, false, not, ◌&&◌, Option, none, some, List, [], ◌∷◌, ◌==◌,
  arith, eq_iff, contains, IsRange, Bool-cases,
}
use kro_lab.Kube.Error.{Result, ok, is_not_found, is_already_exists}
use kro_lab.Kube.Exec.{lift, each}
use kro_lab.Kube.Exec.Inversion.{
  bind-eq_ok, wrap-eq_ok, lift-eq_ok, each-cons_eq_ok, each-nil_eq_ok, tolerate-eq_ok,
}
use kro_lab.Kube.Value.{Fields}
use kro_lab.Kube.Machinery.{Machinery, IsMachinery}
use kro_lab.Vm.Domain.{Request, Plan, desired_vm_names, plan_vms}
use kro_lab.Vm.Domain.Planning.{plan_vms_exact}
use kro_lab.Vm.Adapter.{Key, owner_labels, vm_states}
use kro_lab.Vm.Rendering.{virtual_machine}
use kro_lab.Vm.Adapter.Ownership.{get_name-virtual_machine, get_namespace-virtual_machine}
use kro_lab.Vm.Controller.{
  Clients, Settings, or_panic, list_owned, create_one, delete_one, carry_out, sync_vms,
}
use kro_lab.Vm.Controller.Spoke.{IsSpoke}

module _ {W : Type 0} (m : Machinery) (law : IsMachinery m) (iterate : List String → List String)
    (range : IsRange iterate) (clients : Clients W) (config : Settings) (c : clients.Cluster)
    (present leaving : W → Key → Bool) (spoke : IsSpoke m clients c present leaving)
    (req : Request) where
  abbrev pub key_of : String → Key
  key_of name = record { namespace = req.tenant; name = name }

  create_one-ok :
      (name : String) (w v : W)
      → create_one m iterate clients config c req name w ≡ (ok tt, v)
      → ((k : Key) → present w k ≡ true → present v k ≡ true) × (present v (key_of name) ≡ true)
  unfolding create_one
  create_one-ok name w v h =
      let (done, same) = tolerate-eq_ok is_already_exists _ _ w v h in
      let vm : Fields = virtual_machine req name config.run_strategy in
      (
        λ k p. rw same at (spoke.create_present vm w k p),
        rw same at (
            spoke.created vm w (key_of name)
              (get_namespace-virtual_machine m law req name config.run_strategy)
              (get_name-virtual_machine m law req name config.run_strategy) done),
      )

  creations :
      (names : List String) (w w' : W)
      → each (create_one m iterate clients config c req) tt names w ≡ (ok tt, w')
      → ((k : Key) → present w k ≡ true → present w' k ≡ true)
        × ((a : String) → contains names a ≡ true → present w' (key_of a) ≡ true)
  unfolding contains
  creations [] w w' h =
      let same = each-nil_eq_ok (create_one m iterate clients config c req) w w' h in
      (λ k p. rw same at p, λ a e. cc)
  creations (name ∷ names) w w' h =
      let (v, first, rest) =
        each-cons_eq_ok (create_one m iterate clients config c req) name names w w' h in
      let (kept, made) = creations names v w' rest in
      let (grows, here) = create_one-ok name w v first in
      (
        λ k p. kept k (grows k p),
        λ a e. elim (Bool-cases (name == a)) [
          | inl eq ↦ rw (← (eq_iff name a).0 eq) (kept (key_of name) here)
          | inr ne ↦ made a (ground arith)
        ],
      )

  delete_one-ok :
      (name : String) (w v : W)
      → delete_one m iterate clients config c req name w ≡ (ok tt, v)
      → ((a : String)
          → (name == a) ≡ false
          → present w (key_of a) ≡ true
          → present v (key_of a) ≡ true)
        × ((k : Key) → leaving w k ≡ true → leaving v k ≡ true)
        × (leaving v (key_of name) ≡ true)
  unfolding delete_one
  delete_one-ok name w v h =
      let (done, same) = tolerate-eq_ok is_not_found _ _ w v h in
      (
        λ a ne p. rw same at (
            spoke.delete_present (key_of name) (key_of a) w
              (λ e. ground (arith, eq_iff name a, ap (λ (k : Key). k.name) e)) p),
        λ k p. rw same at (spoke.delete_leaving (key_of name) k w p),
        rw same at (spoke.deleted (key_of name) w done),
      )

  deletions :
      (names : List String) (w w' : W)
      → each (delete_one m iterate clients config c req) tt names w ≡ (ok tt, w')
      → ((a : String)
          → contains names a ≡ false
          → present w (key_of a) ≡ true
          → present w' (key_of a) ≡ true)
        × ((k : Key) → leaving w k ≡ true → leaving w' k ≡ true)
        × ((a : String) → contains names a ≡ true → leaving w' (key_of a) ≡ true)
  unfolding contains
  deletions [] w w' h =
      let same = each-nil_eq_ok (delete_one m iterate clients config c req) w w' h in
      (λ a e p. rw same at p, λ k p. rw same at p, λ a e. cc)
  deletions (name ∷ names) w w' h =
      let (v, first, rest) =
        each-cons_eq_ok (delete_one m iterate clients config c req) name names w w' h in
      let (kept, stays, gone) = deletions names v w' rest in
      let (other, grows, here) = delete_one-ok name w v first in
      (
        λ a e p. kept a (ground arith) (other a (ground arith) p),
        λ k p. stays k (grows k p),
        λ a e. elim (Bool-cases (name == a)) [
          | inl eq ↦ rw (← (eq_iff name a).0 eq) (stays (key_of name) here)
          | inr ne ↦ gone a (ground arith)
        ],
      )

  -- The names of the VMs that a listing returned.
  abbrev pub names_of : List Fields → List String
  names_of vms = (vm_states m vms).0

  list_owned-ok :
      (w v : W) (vms : List Fields)
      → list_owned m iterate clients config c req w ≡ (ok vms, v)
      → (a : String) → contains (names_of vms) a ≡ true
      → present v (key_of a) ≡ true
  unfolding list_owned
  list_owned-ok w v vms h a e =
      spoke.list_present req.tenant (owner_labels req) w v vms a (wrap-eq_ok _ _ w v vms h) e

  -- The wanted VMs are present and the other listed ones are being deleted or gone.
  abbrev pub Converged : List String → List String → W → Type 0
  Converged names listed w =
      ((a : String) → contains names a ≡ true → present w (key_of a) ≡ true)
      × ((a : String)
          → contains listed a ≡ true
          → contains names a ≡ false
          → leaving w (key_of a) ≡ true)

  carry_out-converges :
      (plan : Plan) (names listed : List String) (w w' : W)
      → ((a : String)
          → (contains plan.create a ≡ (contains names a && not (contains listed a)))
            × (contains plan.delete a ≡ (contains listed a && not (contains names a))))
      → ((a : String) → contains listed a ≡ true → present w (key_of a) ≡ true)
      → carry_out m iterate clients config c req plan w ≡ (ok tt, w')
      → Converged names listed w'
  unfolding carry_out
  carry_out-converges plan names listed w w' exact here h =
      let (u, v, made, removed) = bind-eq_ok _ _ w w' tt h in
      let (kept, created) = creations plan.create w v made in
      let (spared, _, gone) = deletions plan.delete v w' removed in
      (
        λ a e. elim (Bool-cases (contains listed a)) [
          | inl old ↦ spared a (ground (arith, exact a)) (kept (key_of a) (here a old))
          | inr new ↦ spared a (ground (arith, exact a)) (created a (ground (arith, exact a)))
        ],
        λ a e f. gone a (ground (arith, exact a)),
      )

  or_panic-eq_ok : {A : Type 0} (o : Option A) (a : A) → or_panic o ≡ ok a → o ≡ some a
  or_panic-eq_ok none a h = cc
  or_panic-eq_ok (some b) a h = ground arith

  planned :
      (listed names : List String) (plan : Plan) (w v : W)
      → desired_vm_names req ≡ some names
      → lift (or_panic (plan_vms iterate req listed)) w ≡ (ok plan, v)
      → (w ≡ v)
        × ((a : String)
            → (contains plan.create a ≡ (contains names a && not (contains listed a)))
              × (contains plan.delete a ≡ (contains listed a && not (contains names a))))
  planned listed names plan w v d h =
      let (made, same) = lift-eq_ok _ w v plan h in
      (
        same,
        plan_vms_exact iterate range req listed names plan d
            (or_panic-eq_ok (plan_vms iterate req listed) plan made),
      )

  -- A run of `sync_vms` that succeeds has listed the VMs of the request. Afterwards every wanted VM
  -- is present, and every listed VM that is not wanted is being deleted or gone.
  pub sync_vms-converges :
      (w w' : W) (names : List String)
      → desired_vm_names req ≡ some names
      → sync_vms m iterate clients config c req w ≡ (ok tt, w')
      → (vms : List Fields) × ((list_owned m iterate clients config c req w).0 ≡ ok vms)
        × Converged names (names_of vms) w'
  unfolding sync_vms
  sync_vms-converges w w' names d h =
      let (vms, v, listed, rest) = bind-eq_ok _ _ w w' tt h in
      let (plan, v', made, rest') = bind-eq_ok _ _ v w' tt rest in
      let (same, exact) = planned (names_of vms) names plan v v' d made in
      (
        vms,
        ap (λ (p : Result (List Fields) × W). p.0) listed,
        carry_out-converges plan names (names_of vms) v w' exact (list_owned-ok w v vms listed)
            (rw (← same) at rest'),
      )
