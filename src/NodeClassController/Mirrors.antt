-- ===== src/NodeClassController/Mirrors.antt =====
-- Mirrors without TLS secrets and the configuration hash,
-- pkg/controllers/nodeclass/controller_reconcilers.go.
use karpenter_provider_exosc.Kube.{ApiError}
use karpenter_provider_exosc.NodeClass.{
  ContainerRegistryMirror, ContainerRegistryMirrorEndpoint, ContainerRegistryCredential,
  ExoscaleNodeClass,
}
use karpenter_provider_exosc.Prelude.{
  ◌≡◌, refl, ap, inl, inr, Option, none, some, String, List, [], ◌∷◌, Map, In, Result, ok, ◌>>=◌,
  collect, Result-cases,
}
use karpenter_provider_exosc.UserData.Registry.{
  ResolvedEndpoint, ResolvedMirror, resolve_endpoint, resolve_mirror, endpoint_tls,
  load_credentials,
}
use karpenter_provider_exosc.NodeClassController.Hash.{
  gather, mirror_entries, tls_entries, secrets_entry, container_registry_hash_entries,
  registry_entries, reconcile_configuration_hash,
}

-- No endpoint of the mirrors refers to a TLS secret.
abbrev pub Plain : List ContainerRegistryMirror → Type 0
Plain ms =
    (m : ContainerRegistryMirror) (ep : ContainerRegistryMirrorEndpoint)
    → In m ms
    → In ep m.endpoints
    → ep.tls_secret_ref ≡ none

module _ (pem : String → Option String) (get : String → Result ApiError (Map String)) where
  abbrev Silent : List ContainerRegistryMirrorEndpoint → String → Type 0
  Silent eps registry =
      (rs : List ResolvedEndpoint) × (collect (resolve_endpoint pem get) eps ≡ ok rs)
      × (gather (λ ep. tls_entries registry ep.url ep.tls) rs ≡ [])

  resolved_plain :
      (ep : ContainerRegistryMirrorEndpoint)
      → ep.tls_secret_ref ≡ none
      → resolve_endpoint pem get ep
        ≡ ok (record {
          url = ep.url;
          override_path = ep.override_path;
          skip_verify = ep.skip_verify;
          tls = none;
        })
  unfolding resolve_endpoint
  resolved_plain ep h =
      ap
        (λ r. endpoint_tls pem get r >>= λ t. ok (record {
          url = ep.url;
          override_path = ep.override_path;
          skip_verify = ep.skip_verify;
          tls = t;
        }))
        h

  one_more :
      (ep : ContainerRegistryMirrorEndpoint) (r : ResolvedEndpoint)
      (eps : List ContainerRegistryMirrorEndpoint) (rs : List ResolvedEndpoint)
      → resolve_endpoint pem get ep ≡ ok r
      → collect (resolve_endpoint pem get) eps ≡ ok rs
      → collect (resolve_endpoint pem get) (ep ∷ eps) ≡ ok (r ∷ rs)
  one_more ep r eps rs p q = rw (p, q) refl

  collect_plain-Silent :
      (eps : List ContainerRegistryMirrorEndpoint) (registry : String)
      → ((ep : ContainerRegistryMirrorEndpoint) → In ep eps → ep.tls_secret_ref ≡ none)
      → Silent eps registry
  unfolding resolve_endpoint
  collect_plain-Silent [] registry h = ([], refl, refl)
  collect_plain-Silent (ep ∷ eps) registry h =
      let (rs, e, s) = collect_plain-Silent eps registry (λ x at. h x (inr at)) in
      let bare : ep.tls_secret_ref ≡ none = h ep (inl refl) in
      let r : ResolvedEndpoint = record {
        url = ep.url;
        override_path = ep.override_path;
        skip_verify = ep.skip_verify;
        tls = none;
      } in
      (r ∷ rs, one_more ep r eps rs (resolved_plain ep bare) e, s)

  collect-Plain :
      (ms : List ContainerRegistryMirror)
      → Plain ms
      → (rs : List ResolvedMirror) × (collect (resolve_mirror pem get) ms ≡ ok rs)
        × (gather mirror_entries rs ≡ [])
  unfolding resolve_mirror
  collect-Plain [] h = ([], refl, refl)
  collect-Plain (m ∷ ms) h =
      let (rs, e, s) = collect-Plain ms (λ x ep at. h x ep (inr at)) in
      let (es, f, t) =
        collect_plain-Silent m.endpoints m.registry (λ ep at. h m ep (inl refl) at) in
      (record { registry = m.registry; endpoints = es } ∷ rs, rw (f, e) refl, rw (t, s) refl)

  registry_entries-Plain :
      (ms : List ContainerRegistryMirror) (cs : List ContainerRegistryCredential)
      → Plain ms
      → registry_entries pem get (some (record { mirrors = ms; credentials = cs })) ≡ (
          load_credentials pem get 0 cs >>= λ rs.
          ok (gather (λ c. secrets_entry c.registry c.secrets ∷ []) rs))
  unfolding registry_entries container_registry_hash_entries
  registry_entries-Plain ms cs h =
      let (rs, e, s) = collect-Plain ms h in
      elim (Result-cases (load_credentials pem get 0 cs)) [
        | inr (f, p) ↦ rw (e, p) refl
        | inl (l, p) ↦ rw (e, p, s) refl
      ]

  abbrev pub with_mirrors :
      List ContainerRegistryMirror
      → List ContainerRegistryCredential
      → ExoscaleNodeClass
      → ExoscaleNodeClass
  with_mirrors ms cs nc = record nc {
    spec = record nc.spec { container_registry = some (record { mirrors = ms; credentials = cs }) };
  }

  -- Mirrors whose endpoints refer to no TLS secret leave no trace in the configuration hash: with any
  -- two lists of such mirrors the outcome is the same.
  pub reconcile_configuration_hash-Plain :
      (sha : String → String) (nc : ExoscaleNodeClass) (ms ms' : List ContainerRegistryMirror)
      (cs : List ContainerRegistryCredential)
      → Plain ms
      → Plain ms'
      → reconcile_configuration_hash pem get sha (with_mirrors ms cs nc)
        ≡ reconcile_configuration_hash pem get sha (with_mirrors ms' cs nc)
  unfolding reconcile_configuration_hash
  reconcile_configuration_hash-Plain sha nc ms ms' cs h h' =
      rw (registry_entries-Plain ms cs h, registry_entries-Plain ms' cs h') refl
