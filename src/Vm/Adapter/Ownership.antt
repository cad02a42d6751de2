-- ===== src/Vm/Adapter/Ownership.antt =====
-- The labels that lead from a VM back to its request.
use kro_lab.Prelude.{String, ◌≡◌, refl, ◌≢◌, ◌∙◌, some, arith, eq_iff}
use kro_lab.Prelude.Dict.{text_at, lookup, insert}
use kro_lab.Kube.Value.{get_field}
use kro_lab.Kube.Machinery.{Machinery, IsMachinery}
use kro_lab.Vm.Domain.{Request, label_tenant, label_vmset, label_request, label_request_namespace}
use kro_lab.Vm.Adapter.{object_labels, request_key}
use kro_lab.Vm.Rendering.{virtual_machine, metadata_of}

-- The labels of an object of a request: its own, those of its namespace, tenant and set.
pub object_labels_values :
    (r : Request)
    → (text_at label_request (object_labels r) ≡ r.name)
      × (text_at label_request_namespace (object_labels r) ≡ r.namespace)
      × (text_at label_tenant (object_labels r) ≡ r.tenant)
      × (text_at label_vmset (object_labels r) ≡ r.vmset)
unfolding object_labels text_at lookup insert
object_labels_values r = (refl, refl, refl, refl)

module _ (m : Machinery) (law : IsMachinery m) where
  label_of_machine :
      (r : Request) (name strategy k : String)
      → text_at k (m.get_labels (virtual_machine r name strategy)) ≡ text_at k (object_labels r)
  unfolding virtual_machine get_field
  label_of_machine r name strategy k =
      law.get_labels-strings (virtual_machine r name strategy) (metadata_of r name)
        (object_labels r) k refl refl

  pub get_name-virtual_machine :
      (r : Request) (name strategy : String) → m.get_name (virtual_machine r name strategy) ≡ name
  unfolding virtual_machine get_field
  get_name-virtual_machine r name strategy =
      law.get_name-text (virtual_machine r name strategy) (metadata_of r name) name refl refl

  pub get_namespace-virtual_machine :
      (r : Request) (name strategy : String)
      → m.get_namespace (virtual_machine r name strategy) ≡ r.tenant
  unfolding virtual_machine get_field
  get_namespace-virtual_machine r name strategy =
      law.get_namespace-text (virtual_machine r name strategy) (metadata_of r name) r.tenant refl
        refl

  -- A VM that was rendered for a request with a name and a namespace leads back to that request.
  pub request_key-virtual_machine :
      (r : Request) (name strategy : String)
      → r.name ≢ ""
      → r.namespace ≢ ""
      → request_key (m.get_labels (virtual_machine r name strategy))
        ≡ some (record { namespace = r.namespace; name = r.name })
  unfolding request_key
  request_key-virtual_machine r name strategy h k =
      let (own, own_ns, _, _) = object_labels_values r in
      rw
        (
          label_of_machine r name strategy label_request ∙ own,
          label_of_machine r name strategy label_request_namespace ∙ own_ns,
        )
        (ground (arith, eq_iff r.name "", eq_iff r.namespace ""))
