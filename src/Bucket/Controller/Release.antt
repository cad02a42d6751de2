-- ===== src/Bucket/Controller/Release.antt =====
-- The finalizer of a bucket request waits for its claim to be gone.
use kro_lab.Prelude.{
  Bool-cases, inl, inr, ◌≡◌, refl, ◌≢◌, Bool, true, some, none, ◌<>◌, eq-false_of_ne, if◌then◌else◌,
}
use kro_lab.Kube.Error.{Error, Result, ok, err, is_not_found, wrapped}
use kro_lab.Kube.Exec.{tolerate, attempt, pure, raise, Outcome, tolerated, ◌>>=◌}
use kro_lab.Kube.Exec.Inversion.{Tolerated}
use kro_lab.Kube.Value.{Fields}
use kro_lab.Kube.Machinery.{Machinery}
use kro_lab.Bucket.Domain.{Request}
use kro_lab.Bucket.Controller.{
  finalizer, spoke_for, is_gone, delete_claim, clean_found, clean, release_if, finalize,
}
use kro_lab.Bucket.Calls.{Clients, Settings, Local, claim_key, call, current}

module _ {W : Type 0} (m : Machinery) (clients : Clients W) (config : Settings) where
  -- What `finalize` does on each answer of the read after the deletion of the claim.
  abbrev pub after_read : Request → Result Fields → Local W → Result Outcome × Local W
  after_read req (ok claim) s =
      (ok (record { requeue_after = some config.cleanup_interval; error = none }), s)
  after_read req (err e) s =
      if is_not_found e
      then release_if m clients config true s
      else (err (wrapped ("reading claim " <> req.name) e), s)

  tolerated_of :
      (test : Error → Bool) (explain : Error → Error) (r : Result (Unit {0}))
      → Tolerated test r
      → tolerated test explain r ≡ ok tt
  tolerated_of test explain r (inl done) = rw done refl
  tolerated_of test explain r (inr (e, failed, fine)) = rw (failed, fine) refl

  finalize_from_read :
      (req : Request) (r : Result Fields) (s : Local W)
      → (is_gone m clients config req r >>= release_if m clients config) s ≡ after_read req r s
  unfolding is_gone ◌>>=◌ release_if pure raise
  finalize_from_read req (ok claim) s = refl
  finalize_from_read req (err e) s = elim (Bool-cases (is_not_found e)) [
    | inl missing ↦ rw missing refl
    | inr other ↦ rw other refl
  ]

  delete_claim-eq :
      (req : Request) (c : clients.Cluster) (s : Local W) (r : Result Fields) (v : W)
      → Tolerated is_not_found (clients.delete_claim c (claim_key req) s.world).0
      → clients.read_claim c (claim_key req) (clients.delete_claim c (claim_key req) s.world).1
        ≡ (r, v)
      → delete_claim m clients config c req s
        ≡ is_gone m clients config req r (record { world = v; object = s.object })
  unfolding delete_claim ◌>>=◌ tolerate call attempt
  delete_claim-eq req c s r v deleted read =
      rw
        (
          tolerated_of is_not_found (wrapped ("deleting claim " <> req.name))
              (clients.delete_claim c (claim_key req) s.world).0 deleted,
          read,
        )
        refl

  clean-eq :
      (req : Request) (c : clients.Cluster) (s t : Local W) (r : Result Fields) (v : W)
      → req.tenant ≢ ""
      → spoke_for m clients config req.region s ≡ (ok (some c), t)
      → Tolerated is_not_found (clients.delete_claim c (claim_key req) t.world).0
      → clients.read_claim c (claim_key req) (clients.delete_claim c (claim_key req) t.world).1
        ≡ (r, v)
      → clean m clients config req none s
        ≡ is_gone m clients config req r (record { world = v; object = t.object })
  unfolding clean clean_found ◌>>=◌
  clean-eq req c s t r v tenant placed deleted read =
      rw (eq-false_of_ne req.tenant "" tenant, placed) (delete_claim-eq req c t r v deleted read)

  -- For a placed request that has the finalizer and whose spoke was found, `finalize` asks for the
  -- deletion of the claim and reads it. If the claim can still be read, the object is not patched and
  -- the run is repeated after the cleanup interval; the finalizer is released only on NotFound; any
  -- other error of the read ends the run.
  pub finalize-waits :
      (req : Request) (c : clients.Cluster) (s t : Local W) (r : Result Fields) (v : W)
      → m.contains_finalizer s.object finalizer ≡ true
      → req.tenant ≢ ""
      → spoke_for m clients config req.region s ≡ (ok (some c), t)
      → Tolerated is_not_found (clients.delete_claim c (claim_key req) t.world).0
      → clients.read_claim c (claim_key req) (clients.delete_claim c (claim_key req) t.world).1
        ≡ (r, v)
      → finalize m clients config req none s
        ≡ after_read req r (record { world = v; object = t.object })
  unfolding finalize current ◌>>=◌
  finalize-waits req c s t r v has tenant placed deleted read =
      rw (has, clean-eq req c s t r v tenant placed deleted read)
        (finalize_from_read req r (record { world = v; object = t.object }))
