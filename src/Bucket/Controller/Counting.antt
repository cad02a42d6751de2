-- ===== src/Bucket/Controller/Counting.antt =====
-- The deferred count: every run that found its object counts once, under the result it had.
use kro_lab.Prelude.{
  ℕ, ◌+◌, String, ◌≡◌, ◌≢◌, ◌⊎◌, refl, ◌∙◌, ap, inl, inr, Option-cases, Option, none, some,
}
use kro_lab.Kube.Error.{Error, Result, ok, err}
use kro_lab.Kube.Exec.Keeps.{Keeps}
use kro_lab.Kube.Value.{Fields}
use kro_lab.Kube.Machinery.{Machinery}
use kro_lab.Bucket.Domain.{Request}
use kro_lab.Bucket.Adapter.{Key}
use kro_lab.Bucket.Controller.{
  create_missing, sync_claim, ensure_finalizer, place, reconcile_live, reconcile_object, reconcile,
  result_text,
}
use kro_lab.Bucket.Calls.{Clients, Settings}
use kro_lab.Bucket.Controller.Keeps.{
  KeptByReads, InWorld, local_rules, spoke_for-Keeps, patch_status-Keeps, sync_status-Keeps,
}
use kro_lab.Bucket.Controller.Frames.{finalize-Keeps}

-- `P` is kept by every call of the clients but the count.
pub record KeptByCalls {W : Type 0} (P : W → Type 0) (clients : Clients W) : Type 0 where
  pub by_reads : KeptByReads P clients
  pub by_patch : (o o' : Fields) → Keeps P (clients.patch o o')
  pub by_patch_status : (o o' : Fields) → Keeps P (clients.patch_status o o')
  pub by_create_claim : (c : clients.Cluster) (o : Fields) → Keeps P (clients.create_claim c o)
  pub by_delete_claim : (c : clients.Cluster) (k : Key) → Keeps P (clients.delete_claim c k)

module _ {W : Type 0} {P : W → Type 0} (m : Machinery) (clients : Clients W) (config : Settings)
    (calls : KeptByCalls P clients) where
  create_missing-Keeps :
      (c : clients.Cluster) (req : Request) (r : Result Fields)
      → Keeps (InWorld P) (create_missing m clients config c req r)
  unfolding create_missing
  create_missing-Keeps c req (ok o) = search local_rules
  create_missing-Keeps c req (err e) = search (local_rules, calls.by_create_claim)

  sync_claim-Keeps :
      (c : clients.Cluster) (req : Request) → Keeps (InWorld P) (sync_claim m clients config c req)
  unfolding sync_claim
  sync_claim-Keeps c req = search (local_rules, calls.by_reads.by_get_claim, create_missing-Keeps)

  place-Keeps :
      (req : Request) (o : Option clients.Cluster)
      → Keeps (InWorld P) (place m clients config req o)
  unfolding place
  place-Keeps req none =
      search (local_rules, patch_status-Keeps m clients config calls.by_reads calls.by_patch_status)
  place-Keeps req (some c) = search (
    local_rules,
    sync_claim-Keeps,
    sync_status-Keeps m clients config calls.by_reads calls.by_patch_status,
  )

  ensure_finalizer-Keeps : Keeps (InWorld P) (ensure_finalizer m clients config)
  unfolding ensure_finalizer
  ensure_finalizer-Keeps = search (local_rules, calls.by_patch)

  reconcile_live-Keeps :
      (req : Request) (e : Option Error) → Keeps (InWorld P) (reconcile_live m clients config req e)
  unfolding reconcile_live
  reconcile_live-Keeps req (some e) = search local_rules
  reconcile_live-Keeps req none = search (
    local_rules,
    patch_status-Keeps m clients config calls.by_reads calls.by_patch_status,
    ensure_finalizer-Keeps,
    spoke_for-Keeps m clients config calls.by_reads,
    place-Keeps,
  )

  pub object_run-Keeps : Keeps (InWorld P) (reconcile_object m clients config)
  unfolding reconcile_object
  object_run-Keeps = search (
    local_rules,
    finalize-Keeps m clients config calls.by_reads calls.by_patch calls.by_delete_claim,
    reconcile_live-Keeps,
  )

-- The counts of a world, by result.
abbrev pub Counts : {W : Type 0} → (W → String → ℕ) → (String → ℕ) → W → Type 0
Counts total f w = (result : String) → total w result ≡ f result

-- One was added to the count of this result, and nothing to any other.
abbrev pub CountsOne : {W : Type 0} → (W → String → ℕ) → String → W → W → Type 0
CountsOne total result w w' =
    (total w' result ≡ total w result + 1)
    × ((other : String) → other ≢ result → total w' other ≡ total w other)

module _ {W : Type 0} (m : Machinery) (clients : Clients W) (config : Settings)
    (total : W → String → ℕ) (calls : (f : String → ℕ) → KeptByCalls (Counts total f) clients)
    (adds_one : (tenant region result : String) (w : W)
      → total (clients.count tenant region result w) result ≡ total w result + 1)
    (adds_nothing_else : (tenant region result other : String) (w : W)
      → other ≢ result
      → total (clients.count tenant region result w) other ≡ total w other) where
  counted_as :
      (key : Key) (w : W) (o : Fields)
      → (clients.get_request key w).0 ≡ ok o
      → let (outcome, w') = reconcile m clients config key w in
        CountsOne total (result_text m clients config outcome) w w'
  unfolding reconcile
  counted_as key w o found =
      let v : W = (clients.get_request key w).1 in
      let same = (calls (total w)).by_reads in
      let start : Counts total (total w) v = (same.by_get_request key).at w (λ r. refl) in
      let done =
        (object_run-Keeps m clients config (calls (total w))).at (record { world = v; object = o })
          start in
      rw found (
        adds_one _ _ _ _ ∙ ap (λ n. n + 1) (done _),
        λ other ne. adds_nothing_else _ _ _ other _ ne ∙ done other,
      )

  -- A run that found its request adds one to exactly one count, and nothing to any other: to that of
  -- `success` if it returns no error, and to that of `error` if it returns one.
  pub reconcile-counts_once :
      (key : Key) (w : W) (o : Fields)
      → (clients.get_request key w).0 ≡ ok o
      → let (outcome, w') = reconcile m clients config key w in
        ((outcome.error ≡ none) × CountsOne total "success" w w')
        ⊎ ((e : Error) × (outcome.error ≡ some e) × CountsOne total "error" w w')
  reconcile-counts_once key w o found =
      let outcome = (reconcile m clients config key w).0 in
      let counted = counted_as key w o found in
      elim (Option-cases outcome.error) [
        | inl fine ↦ inl (fine, rw (result_text, fine) at counted)
        | inr (e, failed) ↦ inr (e, failed, rw (result_text, failed) at counted)
      ]
