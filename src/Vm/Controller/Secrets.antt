-- ===== src/Vm/Controller/Secrets.antt =====
-- `sync_secret`: the cloud-init Secret of a request on its spoke holds the data of the hub's.
use kro_lab.Prelude.{String, ◌≡◌, refl, ap, true, Option, some, Bool-cases, inl, inr, List, ℕ}
use kro_lab.Prelude.Dict.{Dict}
use kro_lab.Kube.Error.{Result, ok, err, is_not_found}
use kro_lab.Kube.Exec.{attempt, pure, raise, ◌>>=◌}
use kro_lab.Kube.Exec.Inversion.{bind-eq_ok, wrap-eq_ok}
use kro_lab.Kube.Machinery.{Machinery}
use kro_lab.Vm.Domain.{Request}
use kro_lab.Vm.Adapter.{Key, Secret}
use kro_lab.Vm.Rendering.{spoke_secret}
use kro_lab.Vm.Controller.{Clients, Settings, store_secret, sync_secret}

abbrev pub secret_id : Secret → Key
secret_id s = record { namespace = s.namespace; name = s.name }

-- A spoke that nobody else changes during the run: `stored` is the Secret that it holds under a key.
pub record HoldsSecrets {W : Type 0} (clients : Clients W) (c : clients.Cluster)
    (stored : W → Key → Option Secret) : Type 0 where
  pub read_found :
      (k : Key) (w : W) (s : Secret)
      → (clients.read_secret c k w).0 ≡ ok s
      → (stored (clients.read_secret c k w).1 k ≡ some s) × (secret_id s ≡ k)
  pub created :
      (s : Secret) (w w' : W)
      → clients.create_secret c s w ≡ (ok tt, w')
      → stored w' (secret_id s) ≡ some s
  pub updated :
      (s : Secret) (w w' : W)
      → clients.update_secret c s w ≡ (ok tt, w')
      → stored w' (secret_id s) ≡ some s

module _ {W : Type 0} (m : Machinery) (same_data : (d : Dict (List ℕ)) → m.data_equal d d ≡ true)
    (iterate : List String → List String) (clients : Clients W) (config : Settings)
    (c : clients.Cluster) (stored : W → Key → Option Secret)
    (spoke : HoldsSecrets clients c stored) where
  -- The Secret under the key has the data of `desired`.
  abbrev pub HasData : Secret → Key → W → Type 0
  HasData desired k w =
      (s : Secret) × (stored w k ≡ some s) × (m.data_equal s.data_of desired.data_of ≡ true)

  store_secret-HasData :
      (desired : Secret) (r : Result Secret) (w w' : W)
      → ((s : Secret)
          → r ≡ ok s
          → (stored w (secret_id desired) ≡ some s) × (secret_id s ≡ secret_id desired))
      → store_secret m iterate clients config c desired r w ≡ (ok tt, w')
      → HasData desired (secret_id desired) w'
  unfolding store_secret pure raise
  store_secret-HasData desired (err e) w w' read h = elim (Bool-cases (is_not_found e)) [
    | inl missing ↦
        (desired, spoke.created desired w w' (rw missing at h), same_data desired.data_of)
    | inr other ↦ cc (ap (λ (p : Result (Unit {0}) × W). p.0) (rw other at h))
  ]
  store_secret-HasData desired (ok current) w w' read h =
      let (there, id) = read current refl in
      elim (Bool-cases (m.data_equal current.data_of desired.data_of)) [
        | inl same ↦
            let still : w ≡ w' = ap (λ (p : Result (Unit {0}) × W). p.1) (rw same at h) in
            (current, rw (← still) there, same)
        | inr differs ↦ (
          record current { data_of = desired.data_of },
          rw (← id)
              (spoke.updated (record current { data_of = desired.data_of }) w w' (rw differs at h)),
          same_data desired.data_of,
        )
      ]

  stored_after :
      (req : Request) (hub : Secret) (w w' : W)
      → (attempt (
              clients.read_secret c
                (record { namespace = req.tenant; name = req.cloud_init_secret }))
            >>= store_secret m iterate clients config c (spoke_secret hub req))
          w
        ≡ (ok tt, w')
      → HasData hub (record { namespace = req.tenant; name = req.cloud_init_secret }) w'
  unfolding spoke_secret ◌>>=◌ attempt
  stored_after req hub w w' h =
      let k : Key = record { namespace = req.tenant; name = req.cloud_init_secret } in
      store_secret-HasData (spoke_secret hub req) (clients.read_secret c k w).0
        (clients.read_secret c k w).1 w' (λ s e. spoke.read_found k w s e) h

  -- When `sync_secret` succeeds, the hub answered with the cloud-init Secret of the request, and the
  -- spoke holds a Secret of that name in the tenant's namespace with the same data, as the comparison
  -- of the controller sees them, whether it was created, updated or left alone.
  pub sync_secret-HasData :
      (req : Request) (w w' : W)
      → sync_secret m iterate clients config c req w ≡ (ok tt, w')
      → (hub : Secret) × ((clients.read_hub_secret
            (record { namespace = req.namespace; name = req.cloud_init_secret })
            w).0
          ≡ ok hub)
        × HasData hub (record { namespace = req.tenant; name = req.cloud_init_secret }) w'
  unfolding sync_secret spoke_secret
  sync_secret-HasData req w w' h =
      let (hub, v, asked, rest) = bind-eq_ok _ _ w w' tt h in
      (
        hub,
        ap (λ (p : Result Secret × W). p.0) (wrap-eq_ok _ _ w v hub asked),
        stored_after req hub v w' rest,
      )
