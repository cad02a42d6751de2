-- ===== src/Tests/VmRuns.antt =====
-- Runs of the VM controller over the hub and the spoke in memory.
use kro_lab.Prelude.{
  ◌≡◌, refl, ◌≢◌, ap, ◌∙◌, sym, Bool, true, false, Option, some, none, List, [], ◌∷◌, pos, arith,
  eq_iff, String, if◌then◌else◌, contains,
}
use kro_lab.Kube.Error.{api, other, message, terminal, wrapped, Result, ok, err, Error}
use kro_lab.Kube.Exec.{Outcome}
use kro_lab.Kube.Value.{
  Value, int, str, obj, arr, Fields, field, fields, items, strings, set_field, get_field,
}
use kro_lab.Vm.Domain.{Request}
use kro_lab.Vm.Adapter.{Key, request_from_object}
use kro_lab.Vm.Controller.{
  Clients, Settings, finalizer, list_owned, clean_spoke, sync_vms, release, finalize, reconcile,
}
use kro_lab.Vm.StatusController.{reconcile_status}
use kro_lab.Vm.Controller.Frames.{KeptByReads, KeptByDeletes, reconcile-keeps_when_deleting}
use kro_lab.Vm.StatusController.Frames.{reconcile_status-keeps}
use kro_lab.Vm.Controller.Requeue.{reconcile-requeues, reconcile-malformed}
use kro_lab.Vm.Controller.Convergence.{Converged, names_of, sync_vms-converges}
use kro_lab.Vm.Controller.Cleanup.{Cleaned, finalize-cleans, finalize-failed}
use kro_lab.Tests.Plain.{plain, plain-IsMachinery}
use kro_lab.Tests.VmRules.{web, wanted, unordered, unordered-IsRange, wanted_names}
use kro_lab.Tests.VmObjects.{web_object, object_with, read_web, hub_labels}
use kro_lab.Tests.VmWorld.{
  World, memory, settings, present, leaving, secret_leaving, memory-IsSpoke, memory-DeletesForGood,
  is_key, is_key-drop_key,
}

abbrev key : String → Key
key name = record { namespace = "acme"; name = name }

abbrev web_key : Key
web_key = record { namespace = "team"; name = "web" }

abbrev start : World
start = record { request = some web_object; vms = key "web-1" ∷ key "web-9" ∷ []; secrets = [] }

abbrev KeptVms : World → Type 0
KeptVms w = w.vms ≡ key "web-1" ∷ key "web-9" ∷ []

reads_keep : KeptByReads KeptVms memory
reads_keep = record {
  by_get_request = λ k. record { at = λ w h. h };
  by_read_hub_secret = λ k. record { at = λ w h. h };
  by_get_cluster = λ name. record { at = λ w h. h };
  by_read_secret = λ c k. record { at = λ w h. h };
  by_get_vm = λ c k. record { at = λ w h. h };
  by_list_vms = λ c ns labels. record { at = λ w h. h };
}

reconcile_status-keeps_test :
    (reconcile_status plain unordered memory settings "eu" (key "web-1") start).1.vms ≡ start.vms
reconcile_status-keeps_test =
    reconcile_status-keeps plain unordered memory settings reads_keep
      (λ o o'. record { at = λ w h. h }) "eu" (key "web-1") start refl

run_vm : Key → World → Outcome × World
unfolding reconcile kro_lab.Kube.Exec.run kro_lab.Kube.Exec.◌>>=◌
    kro_lab.Vm.Controller.reconcile_object get_field kro_lab.Vm.Controller.reconcile_live
    request_from_object kro_lab.Vm.Adapter.read_fields kro_lab.Vm.Adapter.str_field
    kro_lab.Tests.Plain.nested kro_lab.Vm.Adapter.num_field kro_lab.Vm.Domain.tenant_namespace
    kro_lab.Kube.Value.strings kro_lab.Vm.Controller.ensure_finalizer kro_lab.Prelude.contains
    kro_lab.Vm.Controller.place kro_lab.Vm.Controller.sync_secret sync_vms
    kro_lab.Vm.Controller.sync_status list_owned kro_lab.Vm.Rendering.spoke_secret
    kro_lab.Vm.Controller.store_secret kro_lab.Tests.VmWorld.objects_in kro_lab.Vm.Adapter.vm_states
    kro_lab.Vm.Adapter.is_ready kro_lab.Vm.Domain.plan_vms kro_lab.Vm.Domain.desired_vm_names
    kro_lab.Prelude.missing_from kro_lab.Prelude.Sort.sort_by kro_lab.Vm.Domain.names_from
    kro_lab.Prelude.to_set kro_lab.Vm.Domain.vm_name kro_lab.Prelude.Decimal.decimal_int
    kro_lab.Vm.Domain.deletes_before kro_lab.Vm.Domain.index_before kro_lab.Vm.Domain.vm_index
    kro_lab.Prelude.cut_prefix kro_lab.Prelude.Decimal.atoi kro_lab.Vm.Controller.carry_out
    kro_lab.Vm.Controller.create_one kro_lab.Vm.Controller.delete_one kro_lab.Kube.Exec.each
    kro_lab.Kube.Exec.tolerate is_key kro_lab.Tests.VmWorld.drop_key
    kro_lab.Vm.Rendering.virtual_machine kro_lab.Vm.Adapter.object_labels
    kro_lab.Vm.Adapter.owner_labels kro_lab.Vm.Domain.ready_status kro_lab.Vm.Domain.count_ready
    kro_lab.Vm.Controller.write_status kro_lab.Vm.Adapter.status_changed
    kro_lab.Vm.Adapter.set_status kro_lab.Tests.Plain.set_at set_field
    kro_lab.Vm.Adapter.status_object kro_lab.Vm.Adapter.status_entry kro_lab.Vm.Adapter.is_map
    kro_lab.Kube.Json.json_eq kro_lab.Kube.Json.marshal kro_lab.Tests.Plain.add_plain
    kro_lab.Kube.Error.is_not_found kro_lab.Kube.Error.is_already_exists
    kro_lab.Kube.Error.is_cluster_not_found kro_lab.Vm.Adapter.request_key finalize
    kro_lab.Vm.Controller.clean_placed kro_lab.Vm.Controller.clean_found clean_spoke
    kro_lab.Vm.Controller.delete_listed release kro_lab.Kube.Exec.finish
run_vm = reconcile plain unordered memory settings

runs_well : (reconcile plain unordered memory settings web_key start).0.error ≡ none
unfolding run_vm
runs_well = refl

reconcile-requeues_example :
    (reconcile plain unordered memory settings web_key start).0.requeue_after ≡ some (pos 30)
unfolding get_field
reconcile-requeues_example =
    reconcile-requeues plain unordered memory settings web_key start web_object web refl refl
      read_web (ground (arith, eq_iff "acme" "")) runs_well

malformed_run :
    reconcile plain unordered memory settings web_key
      (record start { request = some (object_with (str "3")) })
    ≡ (
      record {
        requeue_after = none;
        error =
            some
              (terminal (message "regional vm set request web: spec.replicas must be an integer"));
      },
      record start { request = some (object_with (str "3")) },
    )
unfolding get_field request_from_object kro_lab.Vm.Adapter.read_fields kro_lab.Vm.Adapter.str_field
    kro_lab.Tests.Plain.nested kro_lab.Vm.Adapter.num_field
malformed_run =
    reconcile-malformed plain unordered memory settings web_key
      (record start { request = some (object_with (str "3")) }) (object_with (str "3"))
      (request_from_object plain (object_with (str "3"))).0
      (message "regional vm set request web: spec.replicas must be an integer") refl refl refl

abbrev settled_world : World
settled_world = record start { vms = key "web-2" ∷ key "web-0" ∷ key "web-1" ∷ [] }

syncs_well : sync_vms plain unordered memory settings tt web start ≡ (ok tt, settled_world)
unfolding run_vm
syncs_well = refl

sync_vms-converges_example :
    (vms : List Fields) × ((list_owned plain unordered memory settings tt web start).0 ≡ ok vms)
    × Converged plain plain-IsMachinery unordered unordered-IsRange memory settings tt present
        leaving memory-IsSpoke web wanted
        (names_of plain plain-IsMachinery unordered unordered-IsRange memory settings tt present
          leaving memory-IsSpoke web vms)
        settled_world
sync_vms-converges_example =
    sync_vms-converges plain plain-IsMachinery unordered unordered-IsRange memory settings tt
      present leaving memory-IsSpoke web start settled_world wanted wanted_names syncs_well

-- A request that is being deleted, with the controller's finalizer.
abbrev pub deleting_object : Fields
deleting_object =
    field "metadata"
      (obj (
        fields (
          ("name", str "web")
          ∷ ("namespace", str "team")
          ∷ ("labels", obj (strings hub_labels))
          ∷ ("deletionTimestamp", str "2026-01-01T00:00:00Z")
          ∷ ("finalizers", arr (items (str finalizer ∷ [])))
          ∷ [])))
      web_object

abbrev pub deleting : World
deleting = record start { request = some deleting_object; secrets = key "init" ∷ [] }

abbrev NoNewVm : World → Type 0
NoNewVm w = is_key w.vms (key "web-0") ≡ false

reads_keep_absence : KeptByReads NoNewVm memory
reads_keep_absence = record {
  by_get_request = λ k. record { at = λ w h. h };
  by_read_hub_secret = λ k. record { at = λ w h. h };
  by_get_cluster = λ name. record { at = λ w h. h };
  by_read_secret = λ c k. record { at = λ w h. h };
  by_get_vm = λ c k. record { at = λ w h. h };
  by_list_vms = λ c ns labels. record { at = λ w h. h };
}

deletes_keep_absence : KeptByDeletes NoNewVm memory
deletes_keep_absence = record {
  by_delete_secret = λ c k. record { at = λ w h. h };
  by_delete_vm =
      λ c k. record { at = λ w h. ground (arith, is_key-drop_key k (key "web-0") w.vms) };
}

is_deleting_found :
    (o : Fields) → (memory.get_request web_key deleting).0 ≡ ok o → plain.is_deleting o ≡ true
unfolding get_field
is_deleting_found o e = let same : deleting_object ≡ o = ground arith in rw (← same) refl

reconcile-keeps_when_deleting_example :
    is_key (reconcile plain unordered memory settings web_key deleting).1.vms (key "web-0") ≡ false
unfolding is_key
reconcile-keeps_when_deleting_example =
    reconcile-keeps_when_deleting plain unordered memory settings reads_keep_absence
      deletes_keep_absence (λ o o'. record { at = λ w h. h }) web_key deleting is_deleting_found
      refl

abbrev cleaned : World
cleaned = record {
  request = some (plain.remove_finalizer deleting_object finalizer);
  vms = [];
  secrets = [];
}

cleans_well :
    finalize plain unordered memory settings deleting_object web none deleting ≡ (ok tt, cleaned)
unfolding run_vm
cleans_well = refl

finalize-cleans_example :
    (vms : List Fields) × (u : World) × ((list_owned plain unordered memory settings tt web
        deleting).0
      ≡ ok vms)
    × Cleaned plain unordered memory settings tt leaving secret_leaving memory-DeletesForGood web
        vms u
    × (release plain unordered memory settings deleting_object u ≡ (ok tt, cleaned))
unfolding get_field contains
finalize-cleans_example =
    finalize-cleans plain unordered memory settings tt leaving secret_leaving memory-DeletesForGood
      deleting_object web deleting deleting cleaned refl (ground (arith, eq_iff "acme" "")) refl
      cleans_well

-- A spoke that refuses to delete Secrets.
abbrev refusing : Clients World
refusing = record memory { delete_secret = λ c k w. (err (api other), w) }

abbrev left : World
left = record deleting { vms = [] }

refused :
    clean_spoke plain unordered refusing settings tt web deleting
    ≡ (err (wrapped "deleting spoke secret" (api other)), left)
unfolding run_vm
refused = refl

finalize-failed_test :
    finalize plain unordered refusing settings deleting_object web none deleting
    ≡ (err (wrapped "deleting spoke secret" (api other)), left)
unfolding get_field contains
finalize-failed_test =
    finalize-failed plain unordered refusing settings tt deleting_object web deleting deleting left
      (wrapped "deleting spoke secret" (api other)) refl (ground (arith, eq_iff "acme" "")) refl
      refused
