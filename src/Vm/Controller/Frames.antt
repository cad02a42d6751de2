-- ===== src/Vm/Controller/Frames.antt =====
-- What the reconciler of requests leaves alone: properties of the world that the calls it makes keep.
use kro_lab.Prelude.{String, ◌≡◌, refl, true, Option, none, some, List}
use kro_lab.Prelude.Dict.{Dict}
use kro_lab.Kube.Error.{Error, Result, ok, err}
use kro_lab.Kube.Exec.{run, ◌>>=◌}
use kro_lab.Kube.Exec.Keeps.{Keeps, keeps_rules}
use kro_lab.Kube.Value.{Fields}
use kro_lab.Kube.Machinery.{Machinery}
use kro_lab.Vm.Domain.{Request, Status}
use kro_lab.Vm.Adapter.{Key}
use kro_lab.Vm.Controller.{
  Clients, Settings, list_owned, write_status, sync_status, clean_spoke, clean_found, clean_placed,
  delete_listed, release, finalize, reconcile_object, reconcile,
}

-- `P` is kept by the calls that only read.
pub record KeptByReads {W : Type 0} (P : W → Type 0) (clients : Clients W) : Type 0 where
  pub by_get_request : (k : Key) → Keeps P (clients.get_request k)
  pub by_read_hub_secret : (k : Key) → Keeps P (clients.read_hub_secret k)
  pub by_get_cluster : (name : String) → Keeps P (clients.get_cluster name)
  pub by_read_secret : (c : clients.Cluster) (k : Key) → Keeps P (clients.read_secret c k)
  pub by_get_vm : (c : clients.Cluster) (k : Key) → Keeps P (clients.get_vm c k)
  pub by_list_vms :
      (c : clients.Cluster) (ns : String) (labels : Dict String)
      → Keeps P (clients.list_vms c ns labels)

-- `P` is kept by deletions on the spokes.
pub record KeptByDeletes {W : Type 0} (P : W → Type 0) (clients : Clients W) : Type 0 where
  pub by_delete_secret : (c : clients.Cluster) (k : Key) → Keeps P (clients.delete_secret c k)
  pub by_delete_vm : (c : clients.Cluster) (k : Key) → Keeps P (clients.delete_vm c k)

module _ {W : Type 0} {P : W → Type 0} (m : Machinery) (iterate : List String → List String)
    (clients : Clients W) (config : Settings) (reads : KeptByReads P clients) where
  list_owned-Keeps :
      (c : clients.Cluster) (req : Request) → Keeps P (list_owned m iterate clients config c req)
  unfolding list_owned
  list_owned-Keeps c req = search (keeps_rules, reads.by_list_vms)

  module _ (by_patch_status : (o o' : Fields) → Keeps P (clients.patch_status o o')) where
    write_status-Keeps :
        (o : Fields) (s : Status) → Keeps P (write_status m iterate clients config o s)
    unfolding write_status
    write_status-Keeps o s = search (keeps_rules, by_patch_status)

    pub sync_status-Keeps :
        (c : clients.Cluster) (o : Fields) (req : Request)
        → Keeps P (sync_status m iterate clients config c o req)
    unfolding sync_status
    sync_status-Keeps c o req = search (keeps_rules, list_owned-Keeps, write_status-Keeps)

  module _ (deletes : KeptByDeletes P clients)
      (by_patch : (o o' : Fields) → Keeps P (clients.patch o o')) where
    delete_listed-Keeps :
        (c : clients.Cluster) (vm : Fields) → Keeps P (delete_listed m iterate clients config c vm)
    unfolding delete_listed
    delete_listed-Keeps c vm = search (keeps_rules, deletes.by_delete_vm)

    clean_spoke-Keeps :
        (c : clients.Cluster) (req : Request) → Keeps P (clean_spoke m iterate clients config c req)
    unfolding clean_spoke
    clean_spoke-Keeps c req =
        search (keeps_rules, list_owned-Keeps, delete_listed-Keeps, deletes.by_delete_secret)

    clean_found-Keeps :
        (req : Request) (r : Result clients.Cluster)
        → Keeps P (clean_found m iterate clients config req r)
    unfolding clean_found
    clean_found-Keeps req (ok c) = clean_spoke-Keeps c req
    clean_found-Keeps req (err e) = search keeps_rules

    clean_placed-Keeps :
        (req : Request) (e : Option Error) → Keeps P (clean_placed m iterate clients config req e)
    unfolding clean_placed
    clean_placed-Keeps req none = search (keeps_rules, clean_found-Keeps, reads.by_get_cluster)
    clean_placed-Keeps req (some e) = search keeps_rules

    finalize-Keeps :
        (o : Fields) (req : Request) (e : Option Error)
        → Keeps P (finalize m iterate clients config o req e)
    unfolding finalize release
    finalize-Keeps o req e = search (keeps_rules, clean_placed-Keeps, by_patch)

    reconcile_object-Keeps :
        (r : Result Fields)
        → ((o : Fields) → r ≡ ok o → m.is_deleting o ≡ true)
        → Keeps P (reconcile_object m iterate clients config r)
    unfolding reconcile_object
    reconcile_object-Keeps (ok o) h = rw (h o refl) (search (keeps_rules, finalize-Keeps))
    reconcile_object-Keeps (err e) h = search keeps_rules

    -- A request that is being deleted is only ever cleaned up: what the reads, the deletions on the
    -- spokes and the patch of the finalizers keep, the reconciler keeps. So it creates and updates
    -- nothing on a spoke, and writes no status.
    pub reconcile-keeps_when_deleting :
        (key : Key) (w : W)
        → ((o : Fields) → (clients.get_request key w).0 ≡ ok o → m.is_deleting o ≡ true)
        → P w
        → P (reconcile m iterate clients config key w).1
    unfolding reconcile ◌>>=◌ run
    reconcile-keeps_when_deleting key w h p =
        (reconcile_object-Keeps (clients.get_request key w).0 h).at _
          ((reads.by_get_request key).at w p)
