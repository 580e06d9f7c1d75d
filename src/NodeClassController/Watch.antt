-- ===== src/NodeClassController/Watch.antt =====
-- pkg/controllers/nodeclass/controller.go: which NodeClasses `secretToNodeClasses` names for a Secret.
use karpenter_provider_exosc.Kube.{ApiError}
use karpenter_provider_exosc.NodeClass.{
  SecretReference, SecretKeySelector, ContainerRegistrySpec, ContainerRegistryMirror,
  ContainerRegistryMirrorEndpoint, ContainerRegistryCredential, ContainerRegistryBasicAuth,
  ExoscaleNodeClass,
}
use karpenter_provider_exosc.Prelude.{
  ◌≡◌, ◌≢◌, ◌⊎◌, refl, inl, inr, Bool, true, false, ◌||◌, Option, none, some, String, List, [], ◌∷◌,
  Map, In, Result, ok, err, collect, arith, if◌then◌else◌, ◌==◌, eq_iff, ℕ, suc, Bool-cases,
}
use karpenter_provider_exosc.UserData.Registry.{
  load_tls_secret, load_secret_key, load_secrets, load_credential, load_credentials,
  resolve_endpoint, resolve_mirror, resolve, endpoint_tls,
}

abbrev pub tls_named : Option SecretReference → String → Bool
tls_named none name = false
tls_named (some ref) name = ref.name == name

abbrev pub basic_named : Option ContainerRegistryBasicAuth → String → Bool
basic_named none name = false
basic_named (some b) name = b.username_secret_ref.name == name || b.password_secret_ref.name == name

abbrev pub key_named : Option SecretKeySelector → String → Bool
key_named none name = false
key_named (some ref) name = ref.name == name

abbrev pub endpoints_named : List ContainerRegistryMirrorEndpoint → String → Bool
endpoints_named [] name = false
endpoints_named (ep ∷ eps) name = tls_named ep.tls_secret_ref name || endpoints_named eps name

abbrev pub mirrors_named : List ContainerRegistryMirror → String → Bool
mirrors_named [] name = false
mirrors_named (m ∷ ms) name = endpoints_named m.endpoints name || mirrors_named ms name

abbrev pub credential_named : ContainerRegistryCredential → String → Bool
credential_named c name =
    basic_named c.basic name || key_named c.auth name || key_named c.identity_token name

abbrev pub credentials_named : List ContainerRegistryCredential → String → Bool
credentials_named [] name = false
credentials_named (c ∷ cs) name = credential_named c name || credentials_named cs name

unfoldable pub references_secret : ContainerRegistrySpec → String → Bool
references_secret spec name =
    mirrors_named spec.mirrors name || credentials_named spec.credentials name

abbrev pub wants : Option ContainerRegistrySpec → String → Bool
wants none name = false
wants (some spec) name = references_secret spec name

abbrev pub requests : List ExoscaleNodeClass → String → List String
requests [] name = []
requests (nc ∷ ncs) name =
    let rest = requests ncs name in
    if wants nc.spec.container_registry name then nc.name ∷ rest else rest

abbrev requests_of : Result ApiError (List ExoscaleNodeClass) → String → List String
requests_of (err e) name = []
requests_of (ok ncs) name = requests ncs name

-- `secretToNodeClasses` for a Secret by its namespace and name, with the answer to the listing of
-- the NodeClasses; a request is the name of a NodeClass, which has no namespace.
unfoldable pub secret_to_node_classes :
    Result ApiError (List ExoscaleNodeClass) → String → String → List String
secret_to_node_classes classes namespace name =
    if namespace == "kube-system" then requests_of classes name else []

wanted-In :
    (ncs : List ExoscaleNodeClass) (nc : ExoscaleNodeClass) (name : String)
    → In nc ncs
    → wants nc.spec.container_registry name ≡ true
    → In nc.name (requests ncs name)
wanted-In [] nc name at h = absurd at
wanted-In (c ∷ ncs) nc name (inl same) h = rw (← same, h) (inl refl)
wanted-In (c ∷ ncs) nc name (inr at) h = elim (Bool-cases (wants c.spec.container_registry name)) [
  | inl e ↦ rw e (inr (wanted-In ncs nc name at h))
  | inr e ↦ rw e (wanted-In ncs nc name at h)
]

-- The resolver reads the same, in two states of the Secrets of kube-system that agree on the names
-- that a reference has.
module _ (pem : String → Option String) (before after : String → Result ApiError (Map String)) where
  abbrev Same : (String → Bool) → Type 0
  Same named = (name : String) → named name ≡ true → before name ≡ after name

  same_key :
      (ref : SecretKeySelector)
      → before ref.name ≡ after ref.name
      → load_secret_key pem before ref ≡ load_secret_key pem after ref
  unfolding load_secret_key
  same_key ref e = rw e refl

  load_secrets-Same :
      (i : ℕ) (registry : String) (b : Option ContainerRegistryBasicAuth)
      (a t : Option SecretKeySelector)
      → Same (λ name. basic_named b name || key_named a name || key_named t name)
      → load_secrets pem before i registry b a t ≡ load_secrets pem after i registry b a t
  load_secrets-Same i registry (some b) a t h =
      let u = b.username_secret_ref in
      let p = b.password_secret_ref in
      rw
        (
          same_key u (h u.name (ground (arith, eq_iff u.name u.name))),
          same_key p (h p.name (ground (arith, eq_iff p.name p.name))),
        )
        refl
  load_secrets-Same i registry none (some a) t h =
      rw (same_key a (h a.name (ground (arith, eq_iff a.name a.name)))) refl
  load_secrets-Same i registry none none (some t) h =
      rw (same_key t (h t.name (ground (arith, eq_iff t.name t.name)))) refl
  load_secrets-Same i registry none none none h = refl

  load_credentials-Same :
      (i : ℕ) (cs : List ContainerRegistryCredential)
      → Same (credentials_named cs)
      → load_credentials pem before i cs ≡ load_credentials pem after i cs
  unfolding load_credentials load_credential
  load_credentials-Same i [] h = refl
  load_credentials-Same i (c ∷ cs) h =
      rw
        (
          load_secrets-Same i c.registry c.basic c.auth c.identity_token
              (λ name q. h name (ground arith)),
          load_credentials-Same (suc i) cs (λ name q. h name (ground arith)),
        )
        refl

  endpoint_tls-Same :
      (r : Option SecretReference)
      → Same (tls_named r)
      → endpoint_tls pem before r ≡ endpoint_tls pem after r
  unfolding load_tls_secret
  endpoint_tls-Same none h = refl
  endpoint_tls-Same (some ref) h = rw (h ref.name (ground (arith, eq_iff ref.name ref.name))) refl

  collect_endpoints-Same :
      (eps : List ContainerRegistryMirrorEndpoint)
      → Same (endpoints_named eps)
      → collect (resolve_endpoint pem before) eps ≡ collect (resolve_endpoint pem after) eps
  unfolding resolve_endpoint
  collect_endpoints-Same [] h = refl
  collect_endpoints-Same (ep ∷ eps) h =
      rw
        (
          endpoint_tls-Same ep.tls_secret_ref (λ name q. h name (ground arith)),
          collect_endpoints-Same eps (λ name q. h name (ground arith)),
        )
        refl

  collect_mirrors-Same :
      (ms : List ContainerRegistryMirror)
      → Same (mirrors_named ms)
      → collect (resolve_mirror pem before) ms ≡ collect (resolve_mirror pem after) ms
  unfolding resolve_mirror
  collect_mirrors-Same [] h = refl
  collect_mirrors-Same (m ∷ ms) h =
      rw
        (
          collect_endpoints-Same m.endpoints (λ name q. h name (ground arith)),
          collect_mirrors-Same ms (λ name q. h name (ground arith)),
        )
        refl

  resolve-Same :
      (spec : Option ContainerRegistrySpec)
      → Same (wants spec)
      → resolve pem before spec ≡ resolve pem after spec
  unfolding resolve references_secret
  resolve-Same none h = refl
  resolve-Same (some spec) h =
      rw
        (
          collect_mirrors-Same spec.mirrors (λ name q. h name (ground arith)),
          load_credentials-Same 0 spec.credentials (λ name q. h name (ground arith)),
        )
        refl

  -- If one Secret of kube-system differs and the NodeClasses can be listed, each NodeClass is either
  -- among those that `secretToNodeClasses` names for it, or its container registry resolves to the
  -- same result.
  pub resolve-secret_to_node_classes :
      (changed : String) (ncs : List ExoscaleNodeClass) (nc : ExoscaleNodeClass)
      → ((name : String) → name ≢ changed → before name ≡ after name)
      → In nc ncs
      → In nc.name (secret_to_node_classes (ok ncs) "kube-system" changed)
        ⊎ (resolve pem before nc.spec.container_registry
            ≡ resolve pem after nc.spec.container_registry)
  unfolding secret_to_node_classes
  resolve-secret_to_node_classes changed ncs nc h at =
      elim (Bool-cases (wants nc.spec.container_registry changed)) [
        | inl e ↦ inl (wanted-In ncs nc changed at e)
        | inr e ↦ inr (
            resolve-Same nc.spec.container_registry
              (λ name q. h name (λ same. let clash = rw same at q in ground arith)))
      ]
