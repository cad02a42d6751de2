-- ===== src/Tests/BucketRuns.antt =====
-- Runs of the bucket controller over the hub and the spoke in memory.
use kro_lab.Prelude.{
  ◌⊎◌, inl, ℕ, ◌+◌, ◌≡◌, refl, ◌≢◌, ap, true, false, Option, some, none, List, [], ◌∷◌, ◌==◌, pos,
  arith, eq_iff, String, if◌then◌else◌,
}
use kro_lab.Kube.Error.{Error, ok, err, Result}
use kro_lab.Kube.Exec.{Outcome}
use kro_lab.Kube.Exec.Keeps.{Keeps}
use kro_lab.Kube.Value.{Value, str, obj, arr, Fields, field, fields, items, strings, get_field}
use kro_lab.Bucket.Domain.{Request}
use kro_lab.Bucket.Adapter.{Key, object_bucket_claim, request_from_object}
use kro_lab.Bucket.Controller.{finalizer, sync_claim, spoke_for, finalize, reconcile, result_text}
use kro_lab.Bucket.Calls.{Clients, Local, claim_key}
use kro_lab.Bucket.Controller.Keeps.{KeptByReads}
use kro_lab.Bucket.Controller.Frames.{bucket_reconcile-keeps_when_deleting}
use kro_lab.Bucket.Controller.Counting.{CountsOne, reconcile-counts_once}
use kro_lab.Bucket.Controller.Claims.{Ordered, sync_claim-orders}
use kro_lab.Bucket.Controller.Requeue.{bucket_reconcile-requeues}
use kro_lab.Bucket.Controller.Release.{finalize-waits}
use kro_lab.Bucket.StatusController.{reconcile_status}
use kro_lab.Bucket.StatusController.Frames.{bucket_status-keeps}
use kro_lab.Tests.Plain.{plain, plain-IsMachinery}
use kro_lab.Tests.BucketRules.{shop, shop_object, shop_labels, read_shop}
use kro_lab.Tests.BucketWorld.{
  World, memory, settings, stored, total, find, answer, memory-HoldsClaims, memory-KeptByCalls,
  count-adds_one, count-adds_nothing_else, is_there,
}

abbrev shop_key : Key
shop_key = record { namespace = "team"; name = "shop" }

abbrev start : World
start = record { request = some shop_object; claims = []; results = [] }

abbrev own_claim : Fields
unfolding object_bucket_claim
own_claim = object_bucket_claim shop "rook"

abbrev ordered : World
ordered = record start { claims = own_claim ∷ [] }

run_bucket : Key → World → Outcome × World
unfolding kro_lab.Bucket.Calls.call kro_lab.Bucket.Calls.current kro_lab.Bucket.Calls.send
    kro_lab.Bucket.Calls.known kro_lab.Bucket.Controller.patch_status
    kro_lab.Bucket.Controller.cluster_name_for kro_lab.Bucket.Controller.spoke_found
    kro_lab.Bucket.Controller.spoke_named kro_lab.Bucket.Controller.spoke_for
    kro_lab.Bucket.Controller.create_missing kro_lab.Bucket.Controller.sync_claim
    kro_lab.Bucket.Controller.is_gone kro_lab.Bucket.Controller.delete_claim
    kro_lab.Bucket.Controller.claim_config kro_lab.Bucket.Controller.sync_status
    kro_lab.Bucket.Controller.clean_found kro_lab.Bucket.Controller.clean
    kro_lab.Bucket.Controller.release_if kro_lab.Bucket.Controller.finalize
    kro_lab.Bucket.Controller.ensure_finalizer kro_lab.Bucket.Controller.place
    kro_lab.Bucket.Controller.reconcile_live kro_lab.Bucket.Controller.reconcile_object
    kro_lab.Bucket.Controller.region_of kro_lab.Bucket.Controller.reconcile
    kro_lab.Bucket.Adapter.checked kro_lab.Bucket.Adapter.read_fields
    kro_lab.Bucket.Adapter.str_field kro_lab.Bucket.Adapter.num_field
    kro_lab.Bucket.Adapter.blank_request kro_lab.Bucket.Adapter.request_from_object
    kro_lab.Bucket.Adapter.owner_labels kro_lab.Bucket.Adapter.request_key
    kro_lab.Bucket.Adapter.claim_labels kro_lab.Bucket.Adapter.claim_metadata
    kro_lab.Bucket.Adapter.object_bucket_claim kro_lab.Bucket.Adapter.claim_of
    kro_lab.Bucket.Adapter.profiles_from_list kro_lab.Bucket.Adapter.status_entry
    kro_lab.Bucket.Adapter.status_object kro_lab.Bucket.Adapter.is_map
    kro_lab.Bucket.Adapter.status_changed kro_lab.Bucket.Adapter.set_status
    kro_lab.Bucket.Domain.bucket_name kro_lab.Bucket.Domain.check_bucket_name
    kro_lab.Bucket.Domain.tenant_namespace kro_lab.Bucket.Domain.candidates
    kro_lab.Bucket.Domain.resolve_cluster kro_lab.Bucket.Domain.endpoint
    kro_lab.Bucket.Domain.ready_status kro_lab.Bucket.Domain.unschedulable_status
    kro_lab.Bucket.Domain.missing_tenant_status kro_lab.Bucket.StatusController.report_from
    kro_lab.Bucket.StatusController.report kro_lab.Bucket.StatusController.with_object
    kro_lab.Bucket.StatusController.report_found kro_lab.Bucket.StatusController.report_owner
    kro_lab.Bucket.StatusController.report_claim kro_lab.Bucket.StatusController.reconcile_status
    kro_lab.Kube.Exec.pure kro_lab.Kube.Exec.raise kro_lab.Kube.Exec.lift kro_lab.Kube.Exec.attempt
    kro_lab.Kube.Exec.wrap kro_lab.Kube.Exec.◌>>=◌ kro_lab.Kube.Exec.tolerate kro_lab.Kube.Exec.each
    kro_lab.Kube.Exec.finish kro_lab.Kube.Exec.run kro_lab.Kube.Value.get_field
    kro_lab.Kube.Value.set_field kro_lab.Kube.Value.strings kro_lab.Kube.Value.truncate
    kro_lab.Kube.Machinery.int_of_float kro_lab.Kube.Error.is_not_found
    kro_lab.Kube.Error.is_already_exists kro_lab.Kube.Error.is_cluster_not_found
    kro_lab.Kube.Error.ignore_not_found kro_lab.Kube.Json.json_eq kro_lab.Prelude.Sort.sort_by
    kro_lab.Prelude.Dict.lookup kro_lab.Prelude.Dict.insert kro_lab.Prelude.Dict.erase
    kro_lab.Prelude.Dict.keys kro_lab.Prelude.Dict.has_key kro_lab.Prelude.Dict.text_at
    kro_lab.Prelude.Decimal.decimal kro_lab.Prelude.Decimal.decimal_int kro_lab.Prelude.Decimal.atoi
    kro_lab.Prelude.cut_prefix kro_lab.Prelude.str_lt kro_lab.Prelude.quote kro_lab.Prelude.contains
    kro_lab.Prelude.to_set kro_lab.Prelude.missing_from kro_lab.Tests.Plain.nested
    kro_lab.Tests.Plain.set_at kro_lab.Tests.Plain.add_plain kro_lab.Tests.BucketWorld.find
    kro_lab.Tests.BucketWorld.drop kro_lab.Tests.BucketWorld.total kro_lab.Kube.Json.marshal
run_bucket = reconcile plain memory settings

orders_well :
    sync_claim plain memory settings tt shop (record { world = start; object = shop_object })
    ≡ (ok tt, record { world = ordered; object = shop_object })
unfolding run_bucket
orders_well = refl

sync_claim-orders_example :
    Ordered plain plain-IsMachinery memory settings tt stored memory-HoldsClaims
      (claim_key shop)
      start
      ordered
sync_claim-orders_example =
    sync_claim-orders plain plain-IsMachinery memory settings tt stored memory-HoldsClaims shop
      (record { world = start; object = shop_object })
      (record { world = ordered; object = shop_object }) orders_well

runs_well : (reconcile plain memory settings shop_key start).0.error ≡ none
unfolding run_bucket
runs_well = refl

bucket_reconcile-requeues_test :
    (reconcile plain memory settings shop_key start).0.requeue_after ≡ some (pos 30)
unfolding get_field
bucket_reconcile-requeues_test =
    bucket_reconcile-requeues plain memory settings shop_key start shop_object shop refl refl
      read_shop (ground (arith, eq_iff "acme" "")) runs_well

reconcile-counts_once_example :
    (((reconcile plain memory settings shop_key start).0.error ≡ none)
      × CountsOne total "success" start (reconcile plain memory settings shop_key start).1)
    ⊎ ((e : Error) × ((reconcile plain memory settings shop_key start).0.error ≡ some e)
        × CountsOne total "error" start (reconcile plain memory settings shop_key start).1)
reconcile-counts_once_example =
    reconcile-counts_once plain memory settings total memory-KeptByCalls count-adds_one
      count-adds_nothing_else shop_key start shop_object refl

abbrev deleting_object : Fields
deleting_object =
    field "metadata"
      (obj (
        fields (
          ("name", str "shop")
          ∷ ("namespace", str "team")
          ∷ ("labels", obj (strings shop_labels))
          ∷ ("deletionTimestamp", str "2026-01-01T00:00:00Z")
          ∷ ("finalizers", arr (items (str finalizer ∷ [])))
          ∷ [])))
      shop_object

abbrev deleting : World
deleting = record ordered { request = some deleting_object }

abbrev NoClaim : World → Type 0
NoClaim w = w.claims ≡ []

abbrev empty : World
empty = record deleting { claims = [] }

reads_keep : KeptByReads NoClaim memory
reads_keep = record {
  by_get_request = λ k. record { at = λ w h. h };
  by_list_profiles = λ labels. record { at = λ w h. h };
  by_get_cluster = λ name. record { at = λ w h. h };
  by_get_claim = λ c k. record { at = λ w h. h };
  by_read_claim = λ c k. record { at = λ w h. h };
  by_read_config = λ c k. record { at = λ w h. h };
}

is_deleting_found :
    (o : Fields) → (memory.get_request shop_key empty).0 ≡ ok o → plain.is_deleting o ≡ true
unfolding get_field
is_deleting_found o e = let same : deleting_object ≡ o = ground arith in rw (← same) refl

delete-Keeps : (c : memory.Cluster) (k : Key) → Keeps NoClaim (memory.delete_claim c k)
unfolding kro_lab.Tests.BucketWorld.drop
delete-Keeps c k = record { at = λ w h. rw h refl }

bucket_reconcile-keeps_when_deleting_test :
    (reconcile plain memory settings shop_key empty).1.claims ≡ []
bucket_reconcile-keeps_when_deleting_test =
    bucket_reconcile-keeps_when_deleting plain memory settings reads_keep
      (λ o o'. record { at = λ w h. h }) delete-Keeps (λ tenant region result w h. h) shop_key empty
      is_deleting_found refl

bucket_status-keeps_test :
    (reconcile_status plain memory settings "spoke-a" (claim_key shop) start).1.claims ≡ []
bucket_status-keeps_test =
    bucket_status-keeps plain memory settings reads_keep (λ o o'. record { at = λ w h. h })
      "spoke-a" (claim_key shop) start refl

-- A spoke on which the claim goes on existing while it is being deleted.
abbrev slow : Clients World
slow = record memory { delete_claim = λ c k w. (ok tt, w) }

abbrev here : Local World
here = record { world = deleting; object = deleting_object }

placed : spoke_for plain slow settings "eu" here ≡ (ok (some tt), here)
unfolding run_bucket
placed = refl

still_there : slow.read_claim tt (claim_key shop) deleting ≡ (ok own_claim, deleting)
unfolding run_bucket
still_there = refl

finalize-waits_example :
    finalize plain slow settings shop none here
    ≡ (ok (record { requeue_after = some (pos 5); error = none }), here)
unfolding get_field kro_lab.Prelude.contains
finalize-waits_example =
    finalize-waits plain slow settings shop tt here here (ok own_claim) deleting refl
      (ground (arith, eq_iff "acme" "")) placed (inl refl) still_there
