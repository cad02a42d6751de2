-- ===== src/Bucket/Controller/Claims.antt =====
-- `sync_claim`: the claim is there afterwards, and a claim that was there is never changed.
use kro_lab.Prelude.{◌≡◌, refl, ◌∙◌, ap, Option, some, Bool-cases, inl, inr}
use kro_lab.Kube.Error.{Result, ok, err, is_not_found, is_already_exists}
use kro_lab.Kube.Exec.{attempt, pure, raise, ◌>>=◌}
use kro_lab.Kube.Exec.Inversion.{Tolerated, tolerate-eq_ok}
use kro_lab.Kube.Value.{Fields}
use kro_lab.Kube.Machinery.{Machinery, IsMachinery}
use kro_lab.Bucket.Domain.{Request}
use kro_lab.Bucket.Adapter.{Key, object_bucket_claim}
use kro_lab.Bucket.Adapter.Ownership.{
  get_name-object_bucket_claim, get_namespace-object_bucket_claim,
}
use kro_lab.Bucket.Controller.{create_missing, sync_claim}
use kro_lab.Bucket.Calls.{Clients, Settings, Local, claim_key, call}

-- A spoke that nobody else changes during the run: `stored` is the claim that it holds under a key.
pub record HoldsClaims {W : Type 0} (m : Machinery) (clients : Clients W) (c : clients.Cluster)
    (stored : W → Key → Option Fields) : Type 0 where
  pub get_same : (k j : Key) (w : W) → stored (clients.get_claim c k w).1 j ≡ stored w j
  pub get_found :
      (k : Key) (w : W) (o : Fields) → (clients.get_claim c k w).0 ≡ ok o → stored w k ≡ some o
  pub create_same :
      (o : Fields) (k : Key) (w : W) (old : Fields)
      → stored w k ≡ some old
      → stored (clients.create_claim c o w).1 k ≡ some old
  pub created :
      (o : Fields) (k : Key) (w : W)
      → m.get_namespace o ≡ k.namespace
      → m.get_name o ≡ k.name
      → Tolerated is_already_exists (clients.create_claim c o w).0
      → (new : Fields) × (stored (clients.create_claim c o w).1 k ≡ some new)

module _ {W : Type 0} (m : Machinery) (law : IsMachinery m) (clients : Clients W)
    (config : Settings) (c : clients.Cluster) (stored : W → Key → Option Fields)
    (spoke : HoldsClaims m clients c stored) where
  -- There is a claim under the key, and the claims that were there are there unchanged.
  abbrev pub Ordered : Key → W → W → Type 0
  Ordered k w w' =
      ((o : Fields) × (stored w' k ≡ some o))
      × ((j : Key) (old : Fields) → stored w j ≡ some old → stored w' j ≡ some old)

  create_missing-Ordered :
      (req : Request) (r : Result Fields) (s t : Local W)
      → ((o : Fields) → r ≡ ok o → stored s.world (claim_key req) ≡ some o)
      → create_missing m clients config c req r s ≡ (ok tt, t)
      → Ordered (claim_key req) s.world t.world
  unfolding create_missing pure raise call
  create_missing-Ordered req (ok o) s t found h =
      let same : s ≡ t = ap (λ (p : Result (Unit {0}) × Local W). p.1) h in
      rw (← same) ((o, found o refl), λ j old e. e)
  create_missing-Ordered req (err e) s t found h = elim (Bool-cases (is_not_found e)) [
    | inr other ↦ cc (rw other at h)
    | inl missing ↦
        let claim : Fields = object_bucket_claim req config.storage_class in
        let (done, same) =
          tolerate-eq_ok is_already_exists _ (call (clients.create_claim c claim)) s t
            (rw missing at h) in
        let world : (clients.create_claim c claim s.world).1 ≡ t.world =
          ap (λ (l : Local W). l.world) same in
        rw (← world) (
          spoke.created claim (claim_key req) s.world
              (get_namespace-object_bucket_claim m law req config.storage_class)
              (get_name-object_bucket_claim m law req config.storage_class) done,
          λ j old e. spoke.create_same claim j s.world old e,
        )
  ]

  -- When `sync_claim` succeeds, the request's claim is on the spoke; and every claim that was on the
  -- spoke before, the request's own too, is still there as it was, so a quota once ordered stays.
  pub sync_claim-orders :
      (req : Request) (s t : Local W)
      → sync_claim m clients config c req s ≡ (ok tt, t)
      → Ordered (claim_key req) s.world t.world
  unfolding sync_claim ◌>>=◌ attempt call
  sync_claim-orders req s t h =
      let (there, kept) =
        create_missing-Ordered req (clients.get_claim c (claim_key req) s.world).0
          (record { world = (clients.get_claim c (claim_key req) s.world).1; object = s.object }) t
          (λ o e.
            spoke.get_same (claim_key req) (claim_key req) s.world
            ∙ spoke.get_found (claim_key req) s.world o e)
          h in
      (there, λ j old e. kept j old (spoke.get_same (claim_key req) j s.world ∙ e))
