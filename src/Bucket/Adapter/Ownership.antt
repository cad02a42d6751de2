-- ===== src/Bucket/Adapter/Ownership.antt =====
-- The labels that lead from a claim back to its request.
use kro_lab.Prelude.{String, ◌≡◌, refl, ◌≢◌, ◌∙◌, some, arith, eq_iff}
use kro_lab.Prelude.Dict.{text_at, lookup, insert}
use kro_lab.Kube.Value.{get_field}
use kro_lab.Kube.Machinery.{Machinery, IsMachinery}
use kro_lab.Bucket.Domain.{
  Request, label_tenant, label_bucket, label_request, label_request_namespace,
}
use kro_lab.Bucket.Adapter.{claim_labels, request_key, object_bucket_claim, claim_metadata}

-- The labels of the claim of a request: its own name, those of its namespace, tenant and bucket.
pub claim_labels_values :
    (r : Request)
    → (text_at label_request (claim_labels r) ≡ r.name)
      × (text_at label_request_namespace (claim_labels r) ≡ r.namespace)
      × (text_at label_tenant (claim_labels r) ≡ r.tenant)
      × (text_at label_bucket (claim_labels r) ≡ r.bucket)
unfolding claim_labels text_at lookup insert
claim_labels_values r = (refl, refl, refl, refl)

module _ (m : Machinery) (law : IsMachinery m) where
  label_of_claim :
      (r : Request) (storage_class k : String)
      → text_at k (m.get_labels (object_bucket_claim r storage_class)) ≡ text_at k (claim_labels r)
  unfolding object_bucket_claim get_field
  label_of_claim r storage_class k =
      law.get_labels-strings (object_bucket_claim r storage_class) (claim_metadata r)
        (claim_labels r) k refl refl

  pub get_name-object_bucket_claim :
      (r : Request) (storage_class : String)
      → m.get_name (object_bucket_claim r storage_class) ≡ r.name
  unfolding object_bucket_claim get_field
  get_name-object_bucket_claim r storage_class =
      law.get_name-text (object_bucket_claim r storage_class) (claim_metadata r) r.name refl refl

  pub get_namespace-object_bucket_claim :
      (r : Request) (storage_class : String)
      → m.get_namespace (object_bucket_claim r storage_class) ≡ r.tenant
  unfolding object_bucket_claim get_field
  get_namespace-object_bucket_claim r storage_class =
      law.get_namespace-text (object_bucket_claim r storage_class) (claim_metadata r) r.tenant refl
        refl

  -- A claim is made in the tenant's namespace under the request's name, and the claim of a request
  -- with a name and a namespace leads back to that request.
  pub request_key-object_bucket_claim :
      (r : Request) (storage_class : String)
      → r.name ≢ ""
      → r.namespace ≢ ""
      → (m.get_name (object_bucket_claim r storage_class) ≡ r.name)
        × (m.get_namespace (object_bucket_claim r storage_class) ≡ r.tenant)
        × (request_key (m.get_labels (object_bucket_claim r storage_class))
            ≡ some (record { namespace = r.namespace; name = r.name }))
  unfolding request_key
  request_key-object_bucket_claim r storage_class h k =
      let (own, own_ns, _, _) = claim_labels_values r in
      (
        get_name-object_bucket_claim r storage_class,
        get_namespace-object_bucket_claim r storage_class,
        rw
            (
              label_of_claim r storage_class label_request ∙ own,
              label_of_claim r storage_class label_request_namespace ∙ own_ns,
            )
            (ground (arith, eq_iff r.name "", eq_iff r.namespace "")),
      )
