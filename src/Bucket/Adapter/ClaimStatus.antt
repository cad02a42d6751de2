-- ===== src/Bucket/Adapter/ClaimStatus.antt =====
-- The status of a bucket request, by its claim and the ConfigMap of the claim.
use kro_lab.Prelude.{
  String, ◌<>◌, ◌≡◌, ◌≢◌, ◌⊎◌, refl, ◌==◌, Option, none, some, [], ◌∷◌, arith, eq_iff, ap, inl, inr,
  Bool-cases,
}
use kro_lab.Prelude.Dict.{Dict, text_at}
use kro_lab.Kube.Value.{Fields}
use kro_lab.Kube.Machinery.{Machinery, Nested, found, absent, mistyped}
use kro_lab.Bucket.Domain.{
  Request, Claim, Status, pending, ready, bucket_name, endpoint, ready_status,
}
use kro_lab.Bucket.Adapter.{claim_of, string_or_empty}

-- The claim is there and Bound.
abbrev pub IsBound : Machinery → Option Fields → Type 0
IsBound m none = ⊥
IsBound m (some claim) = m.nested_string claim ("status" ∷ "phase" ∷ []) ≡ found "Bound"

-- The ConfigMap is there and names a host.
abbrev pub HasHost : Option (Dict String) → Type 0
HasHost none = ⊥
HasHost (some config) = text_at "BUCKET_HOST" config ≢ ""

-- The URL of a host, with the port if there is one.
abbrev pub IsUrl : String → String → String → Type 0
IsUrl url host port =
    ((port ≡ "") × (url ≡ "http://" <> host))
    ⊎ ((port ≢ "") × (url ≡ "http://" <> host <> ":" <> port))

endpoint-IsUrl : (c : Claim) → IsUrl (endpoint c) c.host c.port
unfolding endpoint
endpoint-IsUrl c = elim (Bool-cases (c.port == "")) [
  | inl bare ↦ rw bare (inl (ground (arith, eq_iff c.port ""), refl))
  | inr given ↦ rw given (inr (ground (arith, eq_iff c.port ""), refl))
]

-- The URL is that of the ConfigMap.
abbrev pub HasUrl : Option (Dict String) → String → Type 0
HasUrl none url = ⊥
HasUrl (some config) url = IsUrl url (text_at "BUCKET_HOST" config) (text_at "BUCKET_PORT" config)

-- The endpoint and the phase that belong to a claim and its ConfigMap.
abbrev pub Reports : Machinery → Option Fields → Option (Dict String) → Status → Type 0
Reports m claim config s =
    ((s.phase ≡ ready) × IsBound m claim × HasHost config × HasUrl config s.endpoint)
    ⊎ ((s.phase ≡ pending) × (s.endpoint ≡ "") × ¬ (IsBound m claim × HasHost config))

Bound-of_text : (answer : Nested String) → string_or_empty answer ≡ "Bound" → answer ≡ found "Bound"
Bound-of_text (found phase) h = ap found h
Bound-of_text absent h = absurd (ground (arith, eq_iff "" "Bound"))
Bound-of_text mistyped h = absurd (ground (arith, eq_iff "" "Bound"))

-- The two cases of the rule.
settled :
    (r : Request) (c : Claim)
    → let s = ready_status r c in
      ((c.phase ≡ "Bound") × (c.host ≢ "") × (s.phase ≡ ready) × (s.endpoint ≡ endpoint c))
      ⊎ ((¬ ((c.phase ≡ "Bound") × (c.host ≢ ""))) × (s.phase ≡ pending) × (s.endpoint ≡ ""))
unfolding ready_status
settled r c = elim (Bool-cases (c.phase == "Bound")) [
  | inr other ↦ rw other (inr (λ (bound, _). ground (arith, eq_iff c.phase "Bound"), refl, refl))
  | inl bound ↦ elim (Bool-cases (c.host == "")) [
    | inl no_host ↦
        rw (bound, no_host) (inr (λ (_, host). host (ground (arith, eq_iff c.host "")), refl, refl))
    | inr host ↦
        rw (bound, host)
          (inl
            (ground (arith, eq_iff c.phase "Bound"), ground (arith, eq_iff c.host ""), refl, refl))
  ]
]

ready_status-request :
    (r : Request) (c : Claim)
    → ((ready_status r c).region ≡ r.region)
      × ((ready_status r c).bucket_name ≡ r.tenant <> "-" <> r.name)
unfolding ready_status bucket_name
ready_status-request r c = (ground arith, ground arith)

module _ (m : Machinery) (r : Request) where
  reported :
      (claim : Option Fields) (config : Option (Dict String))
      → Reports m claim config (ready_status r (claim_of m claim config))
  unfolding claim_of
  reported none config = elim (settled r (claim_of m none config)) [
    | inl (bound, _, _, _) ↦ absurd (ground (arith, eq_iff "" "Bound"))
    | inr (_, phase, no_endpoint) ↦ inr (phase, no_endpoint, λ h. h.0)
  ]
  reported (some o) none = elim (settled r (claim_of m (some o) none)) [
    | inl (_, host, _, _) ↦ absurd (host refl)
    | inr (_, phase, no_endpoint) ↦ inr (phase, no_endpoint, λ h. h.1)
  ]
  reported (some o) (some config) = elim (settled r (claim_of m (some o) (some config))) [
    | inl (bound, host, phase, same) ↦ inl (
      phase,
      Bound-of_text (m.nested_string o ("status" ∷ "phase" ∷ [])) bound,
      host,
      rw same (endpoint-IsUrl (claim_of m (some o) (some config))),
    )
    | inr (other, phase, no_endpoint) ↦
        inr (phase, no_endpoint, λ (bound, host). other (ap string_or_empty bound, host))
  ]

  -- With the claim that was read and the data of its ConfigMap, either of which may be missing, a
  -- request is Ready exactly if the claim is there and Bound and the ConfigMap is there and names a
  -- host, and its endpoint is then the URL of that host, with the port of the ConfigMap if it names
  -- one; otherwise it is Pending and has no endpoint. The region is always the request's, and the
  -- bucket name joins tenant and name.
  pub claim_status_exact :
      (claim : Option Fields) (config : Option (Dict String))
      → let s = ready_status r (claim_of m claim config) in
        Reports m claim config s
        × (s.region ≡ r.region)
        × (s.bucket_name ≡ r.tenant <> "-" <> r.name)
  claim_status_exact claim config =
      let (region, name) = ready_status-request r (claim_of m claim config) in
      (reported claim config, region, name)
