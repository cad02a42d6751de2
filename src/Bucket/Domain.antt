-- ===== src/Bucket/Domain.antt =====
-- domain/domain.go of the bucket controller: the pure rules of the bucket service.
pub mod Resolution
pub mod Readiness
pub mod Naming
use Prim.Native.String.{len}
use kro_lab.Prelude.{
  ℕ, zero, String, ◌<>◌, Bool, true, false, not, ◌&&◌, ◌||◌, Option, none, some, List, [], ◌∷◌,
  ◌==◌, ltb, if◌then◌else◌, str_lt, quote, ℤ, pos,
}
use kro_lab.Prelude.Dict.{Dict, text_at}
use kro_lab.Prelude.Sort.{sort_by}
use kro_lab.Prelude.Decimal.{decimal}
use kro_lab.Kube.Error.{Error, message}

abbrev pub label_tenant : String
label_tenant = "platform.example.com/tenant"

abbrev pub label_bucket : String
label_bucket = "platform.example.com/bucket"

abbrev pub label_request : String
label_request = "platform.example.com/bucket-request"

abbrev pub label_request_namespace : String
label_request_namespace = "platform.example.com/bucket-request-namespace"

abbrev pub min_bucket_name_len : ℕ
min_bucket_name_len = 3

abbrev pub max_bucket_name_len : ℕ
max_bucket_name_len = 63

abbrev pub claim_bound : String
claim_bound = "Bound"

pub record Request : Type 0 where
  pub name : String
  pub namespace : String
  pub region : String
  pub tenant : String
  pub bucket : String
  pub max_size : String
  pub max_objects : ℤ

pub record Profile : Type 0 where
  pub name : String
  pub labels : Dict String

pub record Claim : Type 0 where
  pub phase : String
  pub host : String
  pub port : String

pub data Phase : Type 0 where
  pending ready unschedulable : Phase

abbrev pub phase_text : Phase → String
phase_text pending = "Pending"
phase_text ready = "Ready"
phase_text unschedulable = "Unschedulable"

pub record Status : Type 0 where
  pub region : String
  pub phase : Phase
  pub bucket_name : String
  pub endpoint : String
  pub message : String

unfoldable pub bucket_name : Request → String
bucket_name r = r.tenant <> "-" <> r.name

-- The error of a name that S3 would refuse.
unfoldable pub check_bucket_name : String → Option Error
check_bucket_name name =
    if ltb (len name) min_bucket_name_len || ltb max_bucket_name_len (len name)
    then some (
        message (
          "bucket name "
          <> quote name
          <> " is "
          <> decimal (len name)
          <> " characters, want "
          <> decimal min_bucket_name_len
          <> "-"
          <> decimal max_bucket_name_len))
    else none

unfoldable pub tenant_namespace : Dict String → String × Bool
tenant_namespace labels = let tenant = text_at label_tenant labels in (tenant, not (tenant == ""))

-- The names of the profiles whose label is the region.
unfoldable pub candidates : String → String → List Profile → List String
candidates region region_label [] = []
candidates region region_label (p ∷ ps) =
    let rest = candidates region region_label ps in
    if text_at region_label p.labels == region then p.name ∷ rest else rest

abbrev pub first_of_sorted : List String → Option String
first_of_sorted [] = none
first_of_sorted (name ∷ names) = some name

unfoldable pub resolve_cluster : String → String → List Profile → Option String
unfolding candidates
resolve_cluster region region_label profiles =
    first_of_sorted (sort_by str_lt (candidates region region_label profiles))

unfoldable pub endpoint : Claim → String
endpoint c = if c.port == "" then "http://" <> c.host else "http://" <> c.host <> ":" <> c.port

unfoldable pub ready_status : Request → Claim → Status
unfolding endpoint bucket_name
ready_status r c =
    if c.phase == claim_bound && not (c.host == "")
    then record {
      region = r.region;
      phase = ready;
      bucket_name = bucket_name r;
      endpoint = endpoint c;
      message = "";
    }
    else record {
      region = r.region;
      phase = pending;
      bucket_name = bucket_name r;
      endpoint = "";
      message = "";
    }

unfoldable pub unschedulable_status : String → Status
unschedulable_status region = record {
  region = region;
  phase = unschedulable;
  bucket_name = "";
  endpoint = "";
  message = "region " <> quote region <> " does not offer object storage";
}

unfoldable pub missing_tenant_status : String → Status
missing_tenant_status region = record {
  region = region;
  phase = unschedulable;
  bucket_name = "";
  endpoint = "";
  message = "missing label " <> label_tenant;
}
