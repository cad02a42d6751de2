-- ===== src/Vm/Adapter/StatusText.antt =====
-- When a status is written: the JSON text of the one that the object holds is another.
use kro_lab.Prelude.{
  ◌≡◌, ◌≢◌, sym, ◌∙◌, true, false, arith, ◌==◌, eq_iff, pos, List, [], ◌∷◌, if◌then◌else◌,
  Bool-cases, inl, inr, str_lt,
}
use kro_lab.Prelude.Sort.{sort_by}
use kro_lab.Kube.Error.{ok}
use kro_lab.Kube.Value.{arr, Fields, set_field}
use kro_lab.Kube.Json.{
  Token, open_map, close_map, open_list, close_list, colon, comma, quoted, number, marshal,
}
use kro_lab.Kube.Json.Equality.{json_eq_refl, json_eq-true}
use kro_lab.Kube.Machinery.{Machinery, IsMachinery}
use kro_lab.Vm.Domain.{Status, Phase, phase_text}
use kro_lab.Vm.Adapter.{status_object, status_changed, set_status, value_or_null, status_path}

module _ (m : Machinery) (law : IsMachinery m) where
  -- Once a status is set in an object, writing it again is no change.
  pub status_changed-set_status :
      (o o' : Fields) (s : Status) → set_status m o s ≡ ok o' → status_changed m o' s ≡ false
  unfolding set_status status_changed
  status_changed-set_status o o' s h =
      rw (law.nested_field-set _ (status_object s) status_path o' h) (rw json_eq_refl)

-- The text that a status is written as.
abbrev status_text : Status → List Token
status_text s = marshal (arr (status_object s))

-- The members of a status, in the order of their keys.
members : Status → List Token
members s =
    quoted "phase"
    ∷ colon
    ∷ quoted (phase_text s.phase)
    ∷ comma
    ∷ quoted "readyReplicas"
    ∷ colon
    ∷ number (pos s.ready_replicas)
    ∷ comma
    ∷ quoted "region"
    ∷ colon
    ∷ quoted s.region
    ∷ close_map
    ∷ close_list
    ∷ []

tokens : Status → List Token
unfolding members
tokens s =
    if s.message == ""
    then open_list ∷ open_map ∷ members s
    else open_list ∷ open_map ∷ quoted "message" ∷ colon ∷ quoted s.message ∷ comma ∷ members s

status_text-eq : (s : Status) → status_text s ≡ tokens s
unfolding status_object marshal set_field sort_by str_lt tokens
status_text-eq s = ground arith

phase_text_injective : (p q : Phase) → phase_text p ≡ phase_text q → p ≡ q
phase_text_injective p q h = ground (
  arith,
  eq_iff "Pending" "Ready",
  eq_iff "Pending" "Unschedulable",
  eq_iff "Ready" "Unschedulable",
)

tokens_injective : (s t : Status) → tokens s ≡ tokens t → s ≡ t
unfolding tokens
tokens_injective s t h =
    ground (arith, phase_text_injective s.phase t.phase, eq_iff s.message "", eq_iff t.message "")

module _ (m : Machinery) (o : Fields) where
  unchanged_text :
      (s : Status)
      → status_changed m o s ≡ false
      → marshal (value_or_null (m.nested_field o status_path)) ≡ tokens s
  unfolding status_changed
  unchanged_text s h = ground (
    arith,
    status_text-eq s,
    json_eq-true (marshal (value_or_null (m.nested_field o status_path))) (status_text s),
  )

  -- No change of the status is missed: if an object counts as holding the status `s` already, then
  -- every other status counts as a change.
  pub status_changed_of_ne :
      (s t : Status) → status_changed m o s ≡ false → s ≢ t → status_changed m o t ≡ true
  status_changed_of_ne s t h ne = elim (Bool-cases (status_changed m o t)) [
    | inl changed ↦ changed
    | inr same ↦
        absurd (ne (tokens_injective s t (sym (unchanged_text s h) ∙ unchanged_text t same)))
  ]
