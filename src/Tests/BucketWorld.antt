-- ===== src/Tests/BucketWorld.antt =====
-- A hub and one spoke in memory for the bucket controller, and the laws its theorems ask of them.
use mathlib.Core.Path.{subst}
use kro_lab.Prelude.{
  ℕ, suc, ◌+◌, ◌≡◌, refl, ◌≢◌, Bool, true, false, ◌&&◌, Option, some, none, inl, inr, List, [], ◌∷◌,
  ◌==◌, pos, arith, eq_iff, eq_refl, String, if◌then◌else◌, Bool-cases, Option-cases,
}
use kro_lab.Kube.Error.{api, not_found, already_exists, cluster_not_found, Result, ok, err}
use kro_lab.Kube.Value.{str, obj, Fields, fields, strings}
use kro_lab.Bucket.Adapter.{Key}
use kro_lab.Bucket.Calls.{Clients, Settings}
use kro_lab.Bucket.Controller.Claims.{HoldsClaims}
use kro_lab.Bucket.Controller.Counting.{KeptByCalls, Counts}
use kro_lab.Tests.Plain.{plain}

pub record World : Type 0 where
  pub request : Option Fields
  pub claims : List Fields
  pub results : List String

abbrev pub key_eq : Key → Key → Bool
key_eq a b = a.namespace == b.namespace && a.name == b.name

abbrev pub key_of : Fields → Key
key_of o = record { namespace = plain.get_namespace o; name = plain.get_name o }

unfoldable pub find : List Fields → Key → Option Fields
find [] k = none
find (o ∷ os) k = let rest = find os k in if key_eq (key_of o) k then some o else rest

unfoldable pub drop : Key → List Fields → List Fields
drop k [] = []
drop k (o ∷ os) = let rest = drop k os in if key_eq (key_of o) k then rest else o ∷ rest

abbrev pub answer : Option Fields → Result Fields
answer none = err (api not_found)
answer (some o) = ok o

abbrev pub is_there : Option Fields → Bool
is_there none = false
is_there (some o) = true

abbrev pub profile : String → String → Fields
profile name region = fields (
    (
      "metadata",
      obj (fields (("name", str name) ∷ ("labels", obj (strings (("region", region) ∷ []))) ∷ [])),
    )
    ∷ [])

abbrev pub memory : Clients World
memory = record {
  Cluster = Unit;
  get_request = λ k w. (answer w.request, w);
  patch = λ o o' w. (ok o', record w { request = some o' });
  patch_status = λ o o' w. (ok o', record w { request = some o' });
  list_profiles = λ selector w. (ok (profile "spoke-b" "eu" ∷ profile "spoke-a" "eu" ∷ []), w);
  get_cluster = λ name w. (if name == "spoke-a" then ok tt else err cluster_not_found, w);
  get_claim = λ c k w. (answer (find w.claims k), w);
  read_claim = λ c k w. (answer (find w.claims k), w);
  read_config = λ c k w. (ok (("BUCKET_HOST", "rgw") ∷ ("BUCKET_PORT", "80") ∷ []), w);
  create_claim = λ c o w. (
    if is_there (find w.claims (key_of o)) then err (api already_exists) else ok tt,
    record w { claims = if is_there (find w.claims (key_of o)) then w.claims else o ∷ w.claims },
  );
  delete_claim = λ c k w. (
    if is_there (find w.claims k) then ok tt else err (api not_found),
    record w { claims = drop k w.claims },
  );
  count = λ tenant region result w. record w { results = result ∷ w.results };
}

abbrev pub settings : Settings
settings = record {
  storage_class = "rook";
  region_label = "region";
  cluster_selector = ("bucket", "yes") ∷ [];
  requeue_interval = pos 30;
  cleanup_interval = pos 5;
}

abbrev pub stored : World → Key → Option Fields
stored w k = find w.claims k

unfoldable pub total : World → String → ℕ
total w result = count_in w.results
  where
    count_in : List String → ℕ
    count_in [] = 0
    count_in (r ∷ rs) = let rest = count_in rs in if r == result then suc rest else rest

key_eq_refl : (k : Key) → key_eq k k ≡ true
key_eq_refl k = ground (arith, eq_refl k.namespace, eq_refl k.name)

key_eq-true : (k j : Key) → key_eq k j ≡ true → k ≡ j
key_eq-true k j h = ground (arith, eq_iff k.namespace j.namespace, eq_iff k.name j.name)

find_answer : (x : Option Fields) (o : Fields) → answer x ≡ ok o → x ≡ some o
find_answer none o h = cc
find_answer (some p) o h = ground arith

create_same :
    (o : Fields) (k : Key) (w : World) (old : Fields)
    → stored w k ≡ some old
    → stored (memory.create_claim tt o w).1 k ≡ some old
unfolding find
create_same o k w old h = elim (Bool-cases (is_there (find w.claims (key_of o)))) [
  | inl there ↦ rw there h
  | inr new ↦ elim (Bool-cases (key_eq (key_of o) k)) [
    | inl same ↦ cc (
        rw h at (
          subst (λ (j : Key). is_there (find w.claims j) ≡ false) (key_eq-true (key_of o) k same)
            new))
    | inr other ↦ rw (new, other) h
  ]
]

created :
    (o : Fields) (k : Key) (w : World)
    → plain.get_namespace o ≡ k.namespace
    → plain.get_name o ≡ k.name
    → (new : Fields) × (stored (memory.create_claim tt o w).1 k ≡ some new)
unfolding find
created o k w e f =
    let same : key_of o ≡ k = cc in
    elim (Option-cases (find w.claims (key_of o))) [
      | inl new ↦ (
        o,
        subst (λ (j : Key). stored (memory.create_claim tt o w).1 j ≡ some o) same
            (rw (new, key_eq_refl (key_of o)) refl),
      )
      | inr (old, there) ↦ (
        old,
        subst (λ (j : Key). stored (memory.create_claim tt o w).1 j ≡ some old) same
            (rw there there),
      )
    ]

pub memory-HoldsClaims : HoldsClaims plain memory tt stored
memory-HoldsClaims = record {
  get_same = λ k j w. refl;
  get_found = λ k w o e. find_answer (find w.claims k) o e;
  create_same = create_same;
  created = λ o k w e f done. created o k w e f;
}

pub memory-KeptByCalls : (f : String → ℕ) → KeptByCalls (Counts total f) memory
unfolding total
memory-KeptByCalls f = record {
  by_reads = record {
    by_get_request = λ k. record { at = λ w h. h };
    by_list_profiles = λ labels. record { at = λ w h. h };
    by_get_cluster = λ name. record { at = λ w h. h };
    by_get_claim = λ c k. record { at = λ w h. h };
    by_read_claim = λ c k. record { at = λ w h. h };
    by_read_config = λ c k. record { at = λ w h. h };
  };
  by_patch = λ o o'. record { at = λ w h. h };
  by_patch_status = λ o o'. record { at = λ w h. h };
  by_create_claim = λ c o. record { at = λ w h. h };
  by_delete_claim = λ c k. record { at = λ w h. h };
}

pub count-adds_one :
    (tenant region result : String) (w : World)
    → total (memory.count tenant region result w) result ≡ total w result + 1
unfolding total
count-adds_one tenant region result w = ground (arith, eq_refl result)

pub count-adds_nothing_else :
    (tenant region result other : String) (w : World)
    → other ≢ result
    → total (memory.count tenant region result w) other ≡ total w other
unfolding total
count-adds_nothing_else tenant region result other w ne = ground (arith, eq_iff result other)
