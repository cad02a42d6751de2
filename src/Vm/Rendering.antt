-- ===== src/Vm/Rendering.antt =====
-- VirtualMachine and SpokeSecret of adapter/adapter.go: what the VM controller writes on a spoke.
use kro_lab.Prelude.{String, true, [], ◌∷◌}
use kro_lab.Kube.Value.{Value, bool, int, str, obj, arr, Fields, fields, items, strings}
use kro_lab.Vm.Domain.{Request}
use kro_lab.Vm.Adapter.{Secret, object_labels}

abbrev virtio : Value
virtio = obj (fields (("bus", str "virtio") ∷ []))

disk : String → Value
disk name = obj (fields (("name", str name) ∷ ("disk", virtio) ∷ []))

abbrev singleton : String → Value → Value
singleton key v = obj (fields ((key, v) ∷ []))

-- spec.template.spec
machine_spec : Request → Value
unfolding disk
machine_spec r = obj (
    fields (
      (
        "domain",
        obj (
            fields (
              ("cpu", singleton "cores" (int r.cpu))
              ∷ ("memory", singleton "guest" (str r.memory))
              ∷ (
                "devices",
                obj (
                    fields (
                      ("logSerialConsole", bool true)
                      ∷ ("disks", arr (items (disk "root" ∷ disk "cloudinit" ∷ [])))
                      ∷ [])),
              )
              ∷ [])),
      )
      ∷ (
        "volumes",
        arr (
            items (
              obj (
                fields
                  (("name", str "root") ∷ ("containerDisk", singleton "image" (str r.image)) ∷ []))
              ∷ obj (
                  fields (
                    ("name", str "cloudinit")
                    ∷ (
                      "cloudInitNoCloud",
                      singleton "secretRef" (singleton "name" (str r.cloud_init_secret)),
                    )
                    ∷ []))
              ∷ [])),
      )
      ∷ []))

unfoldable pub metadata_of : Request → String → Fields
metadata_of r name = fields (
    ("name", str name)
    ∷ ("namespace", str r.tenant)
    ∷ ("labels", obj (strings (object_labels r)))
    ∷ [])

unfoldable pub virtual_machine : Request → String → String → Fields
unfolding metadata_of machine_spec
virtual_machine r name run_strategy = fields (
    ("apiVersion", str "kubevirt.io/v1")
    ∷ ("kind", str "VirtualMachine")
    ∷ ("metadata", obj (metadata_of r name))
    ∷ (
      "spec",
      obj (
          fields (
            ("runStrategy", str run_strategy)
            ∷ ("template", singleton "spec" (machine_spec r))
            ∷ [])),
    )
    ∷ [])

-- The data are values here, so the copy of each entry is the entry.
unfoldable pub spoke_secret : Secret → Request → Secret
spoke_secret hub r = record {
  name = r.cloud_init_secret;
  namespace = r.tenant;
  labels = object_labels r;
  kind = hub.kind;
  data_of = hub.data_of;
}
