-- ===== src/Tests/VmObjects.antt =====
-- A hub object of the VM service and the objects that are made of it.
use kro_lab.Prelude.{
  ◌≡◌, refl, ◌↔◌, ap, true, false, some, none, [], ◌∷◌, pos, arith, eq_iff, String,
}
use kro_lab.Prelude.Dict.{text_at, Dict}
use kro_lab.Kube.Error.{ok, message}
use kro_lab.Kube.Value.{
  Value, int, float, str, obj, arr, Fields, fields, items, strings, set_field, get_field,
}
use kro_lab.Vm.Domain.{
  Status, ready, pending, label_tenant, label_vmset, label_request, label_request_namespace,
}
use kro_lab.Vm.Adapter.{
  request_from_object, object_labels, request_key, status_object, status_changed, set_status,
}
use kro_lab.Vm.Rendering.{virtual_machine}
use kro_lab.Vm.Adapter.Parsing.{IsRead, request_from_object_iff}
use kro_lab.Vm.Adapter.Ownership.{object_labels_values, request_key-virtual_machine}
use kro_lab.Vm.Adapter.StatusText.{status_changed-set_status, status_changed_of_ne}
use kro_lab.Tests.Plain.{plain, plain-IsMachinery}
use kro_lab.Tests.VmRules.{web}

abbrev pub hub_labels : Dict String
hub_labels = (label_tenant, "acme") ∷ (label_vmset, "front") ∷ []

abbrev pub object_with : Value → Fields
object_with replicas = fields (
    (
      "metadata",
      obj (
          fields (
            ("name", str "web")
            ∷ ("namespace", str "team")
            ∷ ("labels", obj (strings hub_labels))
            ∷ [])),
    )
    ∷ (
      "spec",
      obj (
          fields (
            ("region", str "eu")
            ∷ ("replicas", replicas)
            ∷ ("cpu", float (pos 5) 1)
            ∷ ("memory", str "4Gi")
            ∷ ("image", str "debian")
            ∷ ("cloudInitSecretName", str "init")
            ∷ [])),
    )
    ∷ [])

abbrev pub web_object : Fields
web_object = object_with (int (pos 3))

pub read_web : request_from_object plain web_object ≡ (web, none)
unfolding request_from_object kro_lab.Vm.Adapter.read_fields kro_lab.Vm.Adapter.str_field
    kro_lab.Tests.Plain.nested kro_lab.Vm.Adapter.num_field kro_lab.Vm.Domain.tenant_namespace
    text_at kro_lab.Kube.Value.truncate kro_lab.Kube.Machinery.int_of_float strings
read_web = refl

no_number :
    (request_from_object plain (object_with (str "3"))).1
    ≡ some (message "regional vm set request web: spec.replicas must be an integer")
unfolding request_from_object kro_lab.Vm.Adapter.read_fields kro_lab.Vm.Adapter.str_field
    kro_lab.Tests.Plain.nested kro_lab.Vm.Adapter.num_field
no_number = refl

request_from_object_iff_example :
    (request_from_object plain web_object ≡ (web, none)) ↔ IsRead plain web_object web
request_from_object_iff_example = request_from_object_iff plain web_object web

labels_of_web :
    (text_at label_request (object_labels web) ≡ "web")
    × (text_at label_request_namespace (object_labels web) ≡ "team")
    × (text_at label_tenant (object_labels web) ≡ "acme")
    × (text_at label_vmset (object_labels web) ≡ "front")
labels_of_web = object_labels_values web

request_key-virtual_machine_test :
    request_key (plain.get_labels (virtual_machine web "web-0" "Always"))
    ≡ some (record { namespace = "team"; name = "web" })
request_key-virtual_machine_test =
    request_key-virtual_machine plain plain-IsMachinery web "web-0" "Always"
      (ground (arith, eq_iff "web" "")) (ground (arith, eq_iff "team" ""))

abbrev two_ready : Status
two_ready = record { region = "eu"; phase = pending; ready_replicas = 2; message = "" }

abbrev all_ready : Status
all_ready = record { region = "eu"; phase = ready; ready_replicas = 3; message = "" }

abbrev web_with_status : Fields
unfolding set_field
web_with_status =
    set_field "status" (obj (fields (("regions", arr (status_object two_ready)) ∷ []))) web_object

status_set : set_status plain web_object two_ready ≡ ok web_with_status
unfolding set_status kro_lab.Tests.Plain.set_at
status_set = refl

status_changed-set_status_test : status_changed plain web_with_status two_ready ≡ false
status_changed-set_status_test =
    status_changed-set_status plain plain-IsMachinery web_object web_with_status two_ready
      status_set

status_changed_of_ne_example : status_changed plain web_with_status all_ready ≡ true
status_changed_of_ne_example =
    status_changed_of_ne plain web_with_status two_ready all_ready status_changed-set_status_test
      (λ e. cc (ap (λ (s : Status). s.ready_replicas) e))
