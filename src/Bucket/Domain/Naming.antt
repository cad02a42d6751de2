-- ===== src/Bucket/Domain/Naming.antt =====
-- Bucket names of different tenants.
use kro_lab.Prelude.{String, ◌≡◌, ◌<>◌, ◌∙◌, ap}
use text.Mathlib.TextLemmas.{append_assoc}
use kro_lab.Bucket.Domain.{Request, bucket_name}

-- A dash in a tenant's name lets two tenants share a bucket's name: the request `c` of the tenant
-- `a-b` and the request `b-c` of the tenant `a` have the same one.
pub bucket_name_collides :
    (a b c : String) (r s : Request)
    → r.tenant ≡ a <> "-" <> b
    → r.name ≡ c
    → s.tenant ≡ a
    → s.name ≡ b <> "-" <> c
    → bucket_name r ≡ bucket_name s
unfolding bucket_name
bucket_name_collides a b c r s e f g h =
    rw (e, f, g, h)
      (append_assoc a ("-" <> b) ("-" <> c) ∙ ap (λ t. a <> t) (append_assoc "-" b ("-" <> c)))
