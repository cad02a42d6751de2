-- ===== src/Tests/BucketRules.antt =====
-- The rules and the objects of the bucket service on a request of one tenant.
use Prim.Native.String.{len}
use kro_lab.Prelude.{
  true, false, inl, inr, ◌≡◌, refl, ◌≢◌, ◌≤◌, ◌↔◌, ap, Option, some, none, List, [], ◌∷◌, pos,
  arith, eq_iff, String, ◌<>◌,
}
use kro_lab.Prelude.Dict.{Dict, text_at}
use kro_lab.Kube.Error.{ok, message}
use kro_lab.Kube.Value.{int, str, obj, arr, Fields, field, fields, strings, get_field}
use kro_lab.Bucket.Domain.{
  Request, Profile, Claim, Status, ready, pending, label_tenant, label_bucket, label_request,
  label_request_namespace, claim_bound, check_bucket_name, resolve_cluster, ready_status, endpoint,
  bucket_name,
}
use kro_lab.Bucket.Domain.Readiness.{check_bucket_name_iff}
use kro_lab.Bucket.Adapter.ClaimStatus.{Reports, claim_status_exact}
use kro_lab.Bucket.Domain.Naming.{bucket_name_collides}
use kro_lab.Bucket.Domain.Resolution.{
  Serves, Resolved, resolve_cluster-Resolved, resolve_cluster-stable,
}
use kro_lab.Bucket.Adapter.{
  claim_of, request_from_object, claim_labels, object_bucket_claim, request_key, status_object,
  status_changed, set_status,
}
use kro_lab.Bucket.Adapter.Parsing.{IsOrder, bucket_request_from_object_iff}
use kro_lab.Bucket.Adapter.Ownership.{request_key-object_bucket_claim}
use kro_lab.Bucket.Adapter.StatusText.{
  bucket_status_changed-set_status, bucket_status_changed_of_ne,
}
use kro_lab.Tests.Plain.{plain, plain-IsMachinery}

abbrev pub shop : Request
shop = record {
  name = "shop";
  namespace = "team";
  region = "eu";
  tenant = "acme";
  bucket = "media";
  max_size = "1Gi";
  max_objects = pos 100;
}

abbrev bound : Claim
bound = record { phase = "Bound"; host = "rgw"; port = "80" }

abbrev bound_claim : Fields
bound_claim = fields (("status", obj (fields (("phase", str "Bound") ∷ []))) ∷ [])

abbrev claim_data : Dict String
claim_data = ("BUCKET_HOST", "rgw") ∷ ("BUCKET_PORT", "80") ∷ []

claim_status_exact_example :
    Reports plain
      (some bound_claim)
      (some claim_data)
      (ready_status shop (claim_of plain (some bound_claim) (some claim_data)))
    × ((ready_status shop (claim_of plain (some bound_claim) (some claim_data))).region ≡ "eu")
    × ((ready_status shop (claim_of plain (some bound_claim) (some claim_data))).bucket_name
        ≡ "acme" <> "-" <> "shop")
claim_status_exact_example = claim_status_exact plain shop (some bound_claim) (some claim_data)

claim_read : claim_of plain (some bound_claim) (some claim_data) ≡ bound
unfolding claim_of get_field text_at kro_lab.Tests.Plain.nested
claim_read = refl

bound_status : ready_status shop bound ≡ record {
  region = "eu";
  phase = ready;
  bucket_name = "acme-shop";
  endpoint = "http://rgw:80";
  message = "";
}
unfolding ready_status
bound_status = refl

fitting_name :
    (check_bucket_name "acme-shop" ≡ none) ↔ ((3 ≤ len "acme-shop") × (len "acme-shop" ≤ 63))
fitting_name = check_bucket_name_iff "acme-shop"

short_name : check_bucket_name "ab" ≡ some (message "bucket name \"ab\" is 2 characters, want 3-63")
unfolding check_bucket_name kro_lab.Prelude.quote kro_lab.Prelude.Decimal.decimal
short_name = refl

abbrev site : String → String → Profile
site name region = record { name = name; labels = ("region", region) ∷ [] }

abbrev sites : List Profile
sites = site "spoke-b" "eu" ∷ site "spoke-us" "us" ∷ site "spoke-a" "eu" ∷ []

first_site : resolve_cluster "eu" "region" sites ≡ some "spoke-a"
unfolding resolve_cluster kro_lab.Prelude.Sort.sort_by text_at kro_lab.Prelude.str_lt
first_site = refl

resolve_cluster-Resolved_example :
    Resolved "eu" "region" sites (resolve_cluster "eu" "region" sites)
resolve_cluster-Resolved_example = resolve_cluster-Resolved "eu" "region" sites

swapped :
    (name : String)
    → Serves "eu" "region" name (site "spoke-a" "eu" ∷ site "spoke-b" "eu" ∷ [])
      ↔ Serves "eu" "region" name (site "spoke-b" "eu" ∷ site "spoke-a" "eu" ∷ [])
swapped name = (swap "spoke-a" "spoke-b", swap "spoke-b" "spoke-a")
  where
    swap :
        (a b : String)
        → Serves "eu" "region" name (site a "eu" ∷ site b "eu" ∷ [])
        → Serves "eu" "region" name (site b "eu" ∷ site a "eu" ∷ [])
    swap a b (inl first) = inr (inl first)
    swap a b (inr (inl second)) = inl second
    swap a b (inr (inr none_left)) = absurd none_left

resolve_cluster-stable_test :
    resolve_cluster "eu" "region" (site "spoke-a" "eu" ∷ site "spoke-b" "eu" ∷ [])
    ≡ resolve_cluster "eu" "region" (site "spoke-b" "eu" ∷ site "spoke-a" "eu" ∷ [])
resolve_cluster-stable_test =
    resolve_cluster-stable "eu" "region" (site "spoke-a" "eu" ∷ site "spoke-b" "eu" ∷ [])
      (site "spoke-b" "eu" ∷ site "spoke-a" "eu" ∷ []) swapped

abbrev pub shop_labels : Dict String
shop_labels = (label_tenant, "acme") ∷ (label_bucket, "media") ∷ []

abbrev pub object_with : String → Fields
object_with max_size = fields (
    (
      "metadata",
      obj (
          fields (
            ("name", str "shop")
            ∷ ("namespace", str "team")
            ∷ ("labels", obj (strings shop_labels))
            ∷ [])),
    )
    ∷ (
      "spec",
      obj (
          fields (
            ("region", str "eu") ∷ ("maxSize", str max_size) ∷ ("maxObjects", int (pos 100)) ∷ [])),
    )
    ∷ [])

abbrev pub shop_object : Fields
shop_object = object_with "1Gi"

pub read_shop : request_from_object plain shop_object ≡ (shop, none)
unfolding request_from_object kro_lab.Bucket.Adapter.read_fields kro_lab.Bucket.Adapter.str_field
    kro_lab.Tests.Plain.nested kro_lab.Bucket.Adapter.num_field kro_lab.Bucket.Adapter.checked
    check_bucket_name bucket_name kro_lab.Bucket.Domain.tenant_namespace text_at strings
read_shop = refl

bucket_request_from_object_iff_example :
    (request_from_object plain shop_object ≡ (shop, none)) ↔ IsOrder plain shop_object shop
bucket_request_from_object_iff_example = bucket_request_from_object_iff plain shop_object shop

request_key-object_bucket_claim_test :
    (plain.get_name (object_bucket_claim shop "rook") ≡ "shop")
    × (plain.get_namespace (object_bucket_claim shop "rook") ≡ "acme")
    × (request_key (plain.get_labels (object_bucket_claim shop "rook"))
        ≡ some (record { namespace = "team"; name = "shop" }))
request_key-object_bucket_claim_test =
    request_key-object_bucket_claim plain plain-IsMachinery shop "rook"
      (ground (arith, eq_iff "shop" "")) (ground (arith, eq_iff "team" ""))

abbrev waiting : Status
waiting = record {
  region = "eu";
  phase = pending;
  bucket_name = "acme-shop";
  endpoint = "";
  message = "";
}

abbrev done : Status
done = record {
  region = "eu";
  phase = ready;
  bucket_name = "acme-shop";
  endpoint = "http://rgw:80";
  message = "";
}

abbrev shop_waiting : Fields
unfolding status_object
shop_waiting =
    field "metadata"
      (obj (
        fields (
          ("name", str "shop")
          ∷ ("namespace", str "team")
          ∷ ("labels", obj (strings shop_labels))
          ∷ [])))
      (field "spec"
        (obj (
          fields
            (("region", str "eu") ∷ ("maxSize", str "1Gi") ∷ ("maxObjects", int (pos 100)) ∷ [])))
        (field "status" (obj (fields (("regions", arr (status_object waiting)) ∷ []))) (fields [])))

status_set : set_status plain shop_object waiting ≡ ok shop_waiting
unfolding set_status kro_lab.Tests.Plain.set_at kro_lab.Bucket.Adapter.is_map shop_waiting
status_set = refl

bucket_status_changed-set_status_test : status_changed plain shop_waiting waiting ≡ false
bucket_status_changed-set_status_test =
    bucket_status_changed-set_status plain plain-IsMachinery shop_object shop_waiting waiting
      status_set

bucket_status_changed_of_ne_test : status_changed plain shop_waiting done ≡ true
bucket_status_changed_of_ne_test =
    bucket_status_changed_of_ne plain shop_waiting waiting done
      bucket_status_changed-set_status_test
      (λ e. ground (arith, eq_iff "" "http://rgw:80", ap (λ (s : Status). s.endpoint) e))

bucket_name_collides_example :
    bucket_name (record shop { tenant = "acme-eu"; name = "shop" })
    ≡ bucket_name (record shop { tenant = "acme"; name = "eu-shop" })
bucket_name_collides_example =
    bucket_name_collides "acme" "eu" "shop" (record shop { tenant = "acme-eu"; name = "shop" })
      (record shop { tenant = "acme"; name = "eu-shop" }) refl refl refl refl
