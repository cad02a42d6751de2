-- ===== src/Bucket/Domain/Readiness.antt =====
-- Which names of buckets are accepted.
use Prim.Native.String.{len}
use kro_lab.Prelude.{◌≤◌, String, ◌≡◌, ◌↔◌, none, arith}
use kro_lab.Bucket.Domain.{check_bucket_name}

-- A bucket name passes the check exactly if it has 3 to 63 characters.
pub check_bucket_name_iff :
    (name : String) → (check_bucket_name name ≡ none) ↔ ((3 ≤ len name) × (len name ≤ 63))
unfolding check_bucket_name
check_bucket_name_iff name = (λ h. (ground arith, ground arith), λ h. ground arith)
