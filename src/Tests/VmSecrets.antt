-- ===== src/Tests/VmSecrets.antt =====
-- A spoke that holds Secrets, and `sync_secret` on it.
use kro_lab.Prelude.{ap, ◌≡◌, refl, true, Option, some, none, List, [], ◌∷◌, arith, if◌then◌else◌}
use kro_lab.Kube.Error.{api, not_found, other, Result, ok, err}
use kro_lab.Vm.Adapter.{Key, Secret}
use kro_lab.Vm.Controller.{Clients, sync_secret}
use kro_lab.Vm.Controller.Secrets.{secret_id, HoldsSecrets, HasData, sync_secret-HasData}
use kro_lab.Tests.Plain.{plain, plain-same_data}
use kro_lab.Tests.VmRules.{web, unordered}
use kro_lab.Tests.VmWorld.{settings, init, key_eq, key_eq_refl, key_eq-true}

unfoldable secret_at : List Secret → Key → Option Secret
secret_at [] k = none
secret_at (s ∷ ss) k = let rest = secret_at ss k in if key_eq (secret_id s) k then some s else rest

abbrev answer : Option Secret → Result Secret
answer none = err (api not_found)
answer (some s) = ok s

-- The latest Secret of a key is the one that counts.
abbrev vault : Clients (List Secret)
vault = record {
  Cluster = Unit;
  get_request = λ k w. (err (api not_found), w);
  patch = λ o o' w. (err (api other), w);
  patch_status = λ o o' w. (err (api other), w);
  read_hub_secret = λ k w. (ok init, w);
  get_cluster = λ name w. (ok tt, w);
  read_secret = λ c k w. (answer (secret_at w k), w);
  create_secret = λ c s w. (ok tt, s ∷ w);
  update_secret = λ c s w. (ok tt, s ∷ w);
  delete_secret = λ c k w. (err (api other), w);
  get_vm = λ c k w. (err (api not_found), w);
  list_vms = λ c ns labels w. (ok [], w);
  create_vm = λ c o w. (err (api other), w);
  delete_vm = λ c k w. (err (api other), w);
}

answer-eq_ok : (o : Option Secret) (s : Secret) → answer o ≡ ok s → o ≡ some s
answer-eq_ok none s h = cc
answer-eq_ok (some t) s h = ground arith

id_of_found :
    (ss : List Secret) (k : Key) (s : Secret)
    → secret_at ss k ≡ some s
    → key_eq (secret_id s) k ≡ true
unfolding secret_at
id_of_found [] k s h = cc
id_of_found (t ∷ ss) k s h = ground (arith, id_of_found ss k s)

latest : (s : Secret) (w : List Secret) → secret_at (s ∷ w) (secret_id s) ≡ some s
unfolding secret_at
latest s w = rw (key_eq_refl (secret_id s)) refl

same_world :
    (s : Secret) (w w' : List Secret) → vault.create_secret tt s w ≡ (ok tt, w') → s ∷ w ≡ w'
same_world s w w' h = ap (λ (p : Result (Unit {0}) × List Secret). p.1) h

vault-HoldsSecrets : HoldsSecrets vault tt secret_at
vault-HoldsSecrets = record {
  read_found = λ k w s h. (
    answer-eq_ok (secret_at w k) s h,
    key_eq-true (secret_id s) k (id_of_found w k s (answer-eq_ok (secret_at w k) s h)),
  );
  created = λ s w w' h. rw (same_world s w w' h) at (latest s w);
  updated = λ s w w' h. rw (same_world s w w' h) at (latest s w);
}

abbrev stale : List Secret
stale = record init { namespace = "acme"; data_of = ("user-data", 9 ∷ []) ∷ [] } ∷ []

abbrev fresh : List Secret
fresh = record init { namespace = "acme" } ∷ stale

copies : sync_secret plain unordered vault settings tt web stale ≡ (ok tt, fresh)
unfolding sync_secret kro_lab.Kube.Exec.◌>>=◌ kro_lab.Vm.Controller.store_secret secret_at
    kro_lab.Vm.Rendering.spoke_secret
copies = refl

sync_secret-HasData_example :
    (hub : Secret) × ((vault.read_hub_secret (record { namespace = "team"; name = "init" }) stale).0
      ≡ ok hub)
    × HasData plain plain-same_data unordered vault settings tt secret_at vault-HoldsSecrets hub
        (record { namespace = "acme"; name = "init" })
        fresh
sync_secret-HasData_example =
    sync_secret-HasData plain plain-same_data unordered vault settings tt secret_at
      vault-HoldsSecrets web stale fresh copies
