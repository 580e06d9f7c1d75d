-- ===== src/UserData/Endpoints.antt =====
-- The TLS settings that a node gets for the endpoints of its registry mirrors,
-- pkg/providers/userdata/registry_resolver.go.
use karpenter_provider_exosc.Kube.{ApiError}
use karpenter_provider_exosc.NodeClass.{
  ContainerRegistrySpec, ContainerRegistryMirror, ContainerRegistryMirrorEndpoint, SecretReference,
}
use karpenter_provider_exosc.Prelude.{
  ◌≡◌, refl, sym, ◌∙◌, inl, inr, Option, none, some, String, List, [], ◌∷◌, Map, lookup,
  lookup-insert, In, Result, ok, collect, In-collect, arith, eq_cases, Result-cases, ap, some_inj,
}
use karpenter_provider_exosc.UserData.Registry.{
  Resolved, ResolvedEndpoint, ResolvedMirror, RegistrySettings, TlsConfig, TlsSecret, tls_config,
  add_endpoint, endpoints_tls, mirrors_tls, resolve_endpoint, resolve_mirror, load_credentials,
  load_tls_secret, resolve, to_bootstrap,
}

module _ (base64 : String → String) (url : String) where
  -- Each endpoint with the URL has no TLS secret.
  abbrev Bare : List ResolvedEndpoint → Type 0
  Bare eps = (ep : ResolvedEndpoint) → In ep eps → ep.url ≡ url → ep.tls ≡ none

  add_endpoint-Bare :
      (ep : ResolvedEndpoint) (t : Option TlsSecret) (m : Map TlsConfig)
      → (ep.url ≡ url → t ≡ none)
      → lookup url (add_endpoint base64 ep t m) ≡ lookup url m
  add_endpoint-Bare ep none m h = refl
  add_endpoint-Bare ep (some t) m h = elim (eq_cases ep.url url) [
    | inl (e, same) ↦ absurd (let f = h same in ground arith)
    | inr (e, differ) ↦ rw (lookup-insert ep.url url (tls_config base64 ep t) m, e) refl
  ]

  endpoints_tls-Bare :
      (eps : List ResolvedEndpoint) (m : Map TlsConfig)
      → Bare eps
      → lookup url (endpoints_tls base64 eps m) ≡ lookup url m
  unfolding endpoints_tls
  endpoints_tls-Bare [] m h = refl
  endpoints_tls-Bare (ep ∷ eps) m h =
      endpoints_tls-Bare eps (add_endpoint base64 ep ep.tls m) (λ e at. h e (inr at))
      ∙ add_endpoint-Bare ep ep.tls m (h ep (inl refl))

  mirrors_tls-Bare :
      (ms : List ResolvedMirror) (m : Map TlsConfig)
      → ((r : ResolvedMirror) → In r ms → Bare r.endpoints)
      → lookup url (mirrors_tls base64 ms m) ≡ lookup url m
  unfolding mirrors_tls
  mirrors_tls-Bare [] m h = refl
  mirrors_tls-Bare (r ∷ rs) m h =
      mirrors_tls-Bare rs (endpoints_tls base64 r.endpoints m) (λ e at. h e (inr at))
      ∙ endpoints_tls-Bare r.endpoints m (h r (inl refl))

  module _ (pem : String → Option String) (get : String → Result ApiError (Map String)) where
    resolved_endpoint :
        (ep : ContainerRegistryMirrorEndpoint) (t : Option SecretReference) (r : ResolvedEndpoint)
        → ep.tls_secret_ref ≡ t
        → resolve_endpoint pem get ep ≡ ok r
        → (r.url ≡ ep.url) × (t ≡ none → r.tls ≡ none)
    unfolding resolve_endpoint
    resolved_endpoint ep none r e h = let h' = rw e at h in (ground arith, λ _. ground arith)
    resolved_endpoint ep (some ref) r e h = elim (Result-cases (load_tls_secret pem get ref)) [
      | inr (f, p) ↦ absurd (let h' = rw (e, p) at h in ground arith)
      | inl (t, p) ↦ let h' = rw (e, p) at h in (ground arith, λ n. absurd (ground arith))
    ]

    resolved_mirror :
        (m : ContainerRegistryMirror) (r : ResolvedMirror)
        → resolve_mirror pem get m ≡ ok r
        → collect (resolve_endpoint pem get) m.endpoints ≡ ok r.endpoints
    unfolding resolve_mirror
    resolved_mirror m r h = elim (Result-cases (collect (resolve_endpoint pem get) m.endpoints)) [
      | inr (f, p) ↦ absurd (let h' = rw p at h in ground arith)
      | inl (es, p) ↦ let h' = rw p at h in p ∙ ap ok (ground arith)
    ]

    resolved_spec :
        (spec : ContainerRegistrySpec) (r : Resolved)
        → resolve pem get (some spec) ≡ ok (some r)
        → collect (resolve_mirror pem get) spec.mirrors ≡ ok r.mirrors
    unfolding resolve
    resolved_spec spec r h = elim (Result-cases (collect (resolve_mirror pem get) spec.mirrors)) [
      | inr (f, p) ↦ absurd (let h' = rw p at h in ground arith)
      | inl (ms, p) ↦ elim (Result-cases (load_credentials pem get 0 spec.credentials)) [
        | inr (f, q) ↦ absurd (let h' = rw (p, q) at h in ground arith)
        | inl (cs, q) ↦ let h' = rw (p, q) at h in p ∙ ap ok (ground arith)
      ]
    ]

    -- If the container registry resolves and no endpoint with a given URL refers to a TLS secret, the
    -- node gets no TLS settings for this URL, whatever `skipVerify` and `overridePath` say there.
    pub to_bootstrap-resolve :
        (spec : ContainerRegistrySpec) (r : Resolved) (s : RegistrySettings)
        → resolve pem get (some spec) ≡ ok (some r)
        → to_bootstrap base64 (some r) ≡ some s
        → ((m : ContainerRegistryMirror) (ep : ContainerRegistryMirrorEndpoint)
            → In m spec.mirrors
            → In ep m.endpoints
            → ep.url ≡ url
            → ep.tls_secret_ref ≡ none)
        → lookup url s.tls ≡ none
    unfolding to_bootstrap
    to_bootstrap-resolve spec r s found made bare =
        let tls : mirrors_tls base64 r.mirrors [] ≡ s.tls = ap (λ x. x.tls) (some_inj made) in
        rw (← tls) (
          mirrors_tls-Bare r.mirrors [] (λ m at ep here same.
            let (m', at', e') =
              In-collect (resolve_mirror pem get) m spec.mirrors r.mirrors
                (resolved_spec spec r found) at in
            let (ep', here', e'') =
              In-collect (resolve_endpoint pem get) ep m'.endpoints m.endpoints
                (resolved_mirror m' m e') here in
            let (urls, tls_of) = resolved_endpoint ep' ep'.tls_secret_ref ep refl e'' in
            tls_of (bare m' ep' at' here' (sym urls ∙ same))))
