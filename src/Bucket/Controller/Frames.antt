-- ===== src/Bucket/Controller/Frames.antt =====
-- What the bucket reconciler leaves alone while a request is being deleted.
use kro_lab.Prelude.{◌≡◌, refl, true, Option, none, some, Bool, false, String}
use kro_lab.Kube.Error.{Error, Result, ok, err}
use kro_lab.Kube.Exec.{◌>>=◌}
use kro_lab.Kube.Exec.Keeps.{Keeps}
use kro_lab.Kube.Value.{Fields}
use kro_lab.Kube.Machinery.{Machinery}
use kro_lab.Bucket.Domain.{Request}
use kro_lab.Bucket.Adapter.{Key}
use kro_lab.Bucket.Controller.{
  is_gone, delete_claim, clean_found, clean, release_if, finalize, reconcile_object, reconcile,
  begin,
}
use kro_lab.Bucket.Calls.{Clients, Settings, current}
use kro_lab.Bucket.Controller.Keeps.{KeptByReads, InWorld, local_rules, spoke_for-Keeps}

module _ {W : Type 0} {P : W → Type 0} (m : Machinery) (clients : Clients W) (config : Settings)
    (reads : KeptByReads P clients) (by_patch : (o o' : Fields) → Keeps P (clients.patch o o'))
    (by_delete_claim : (c : clients.Cluster) (k : Key) → Keeps P (clients.delete_claim c k)) where
  is_gone-Keeps :
      (req : Request) (r : Result Fields) → Keeps (InWorld P) (is_gone m clients config req r)
  unfolding is_gone
  is_gone-Keeps req (ok o) = search local_rules
  is_gone-Keeps req (err e) = search local_rules

  delete_claim-Keeps :
      (c : clients.Cluster) (req : Request)
      → Keeps (InWorld P) (delete_claim m clients config c req)
  unfolding delete_claim
  delete_claim-Keeps c req =
      search (local_rules, by_delete_claim, reads.by_read_claim, is_gone-Keeps)

  clean_found-Keeps :
      (req : Request) (o : Option clients.Cluster)
      → Keeps (InWorld P) (clean_found m clients config req o)
  unfolding clean_found
  clean_found-Keeps req none = search local_rules
  clean_found-Keeps req (some c) = delete_claim-Keeps c req

  clean-Keeps :
      (req : Request) (e : Option Error) → Keeps (InWorld P) (clean m clients config req e)
  unfolding clean
  clean-Keeps req (some e) = search local_rules
  clean-Keeps req none =
      search (local_rules, spoke_for-Keeps m clients config reads, clean_found-Keeps)

  release_if-Keeps : (b : Bool) → Keeps (InWorld P) (release_if m clients config b)
  unfolding release_if
  release_if-Keeps false = search local_rules
  release_if-Keeps true = search (local_rules, by_patch)

  pub finalize-Keeps :
      (req : Request) (e : Option Error) → Keeps (InWorld P) (finalize m clients config req e)
  unfolding finalize
  finalize-Keeps req e = search (local_rules, clean-Keeps, release_if-Keeps)

  reconcile_object-Keeps :
      (o : Fields) (w : W)
      → m.is_deleting o ≡ true
      → P w
      → P (reconcile_object m clients config (record { world = w; object = o })).1.world
  unfolding reconcile_object current ◌>>=◌
  reconcile_object-Keeps o w h p =
      rw h ((finalize-Keeps _ _).at (record { world = w; object = o }) p)

  module _
      (by_count : (tenant region result : String) (w : W)
        → P w
        → P (clients.count tenant region result w)) where
    begin-Keeps :
        (r : Result Fields) (w : W)
        → ((o : Fields) → r ≡ ok o → m.is_deleting o ≡ true)
        → P w
        → P (begin m clients config r w).1
    begin-Keeps (ok o) w h p = by_count _ _ _ _ (reconcile_object-Keeps o w (h o refl) p)
    begin-Keeps (err e) w h p = p

    -- A bucket request that is being deleted is only ever cleaned up: what the reads, the deletion of
    -- a claim, the patch of the finalizers and the count keep, the reconciler keeps. So it creates no
    -- claim and writes no status.
    pub bucket_reconcile-keeps_when_deleting :
        (key : Key) (w : W)
        → ((o : Fields) → (clients.get_request key w).0 ≡ ok o → m.is_deleting o ≡ true)
        → P w
        → P (reconcile m clients config key w).1
    unfolding reconcile
    bucket_reconcile-keeps_when_deleting key w h p =
        begin-Keeps (clients.get_request key w).0 _ h ((reads.by_get_request key).at w p)
