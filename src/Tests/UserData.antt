-- ===== src/Tests/UserData.antt =====
-- The user data of a node at concrete inputs.
use karpenter_provider_exosc.Kube.{Taint, ApiError, not_found}
use karpenter_provider_exosc.NodeClass.{
  ContainerRegistryMirrorEndpoint, ContainerRegistryMirror, ContainerRegistrySpec,
}
use karpenter_provider_exosc.Prelude.{
  ◌≡◌, ◌≢◌, ◌↔◌, refl, true, false, none, some, String, List, [], ◌∷◌, Map, lookup, In, Option,
  Result, ok, err, arith, eq_iff, if◌then◌else◌, ◌==◌, ◌^^◌, inl, inr, subst, ap,
}
use karpenter_provider_exosc.Samples.{node_claim, node_class}
use karpenter_provider_exosc.UserData.Boot.{Chosen, generate_lem}
use karpenter_provider_exosc.UserData.Bootstrap.{
  BootstrapError, Config, build_config, bootstrap_generate, merge_failed, add_taints, taints_at,
  add_taint, taint_string,
}
use karpenter_provider_exosc.UserData.Documents.{view, overlay, is_leaf, view-deep_merge}
use karpenter_provider_exosc.UserData.Endpoints.{to_bootstrap-resolve}
use karpenter_provider_exosc.UserData.Generate.{
  Options, CaError, bootstrap_options, generate, new_options,
}
use karpenter_provider_exosc.UserData.Merge.{
  Fields, leaf, table, field, end, deep_merge, merged, Distinct, DistinctWithin,
}
use karpenter_provider_exosc.UserData.Registry.{
  Resolved, RegistrySettings, resolve, to_bootstrap, resolve_mirror, resolve_endpoint,
  load_credentials, mirrors_tls, endpoints_tls,
}
use karpenter_provider_exosc.UserData.Taints.{Unique, Tainted, add_taints_lem}

-- The user sets the cluster's domain and a token, the generated document only the token.
abbrev user_document : Fields String
user_document =
    field "settings" (table (field "token" (leaf "mine") (field "domain" (leaf "example.org") end)))
      end

abbrev generated_document : Fields String
generated_document = field "settings" (table (field "token" (leaf "theirs") end)) end

generated_document-Distinct : Distinct generated_document
unfolding Distinct DistinctWithin
generated_document-Distinct = (refl, (refl, tt, tt), tt)

abbrev domain_path : List String
domain_path = "settings" ∷ "domain" ∷ []

merged_domain :
    view (some (table (deep_merge user_document generated_document))) domain_path
    ≡ some (is_leaf "example.org")
unfolding deep_merge merged
merged_domain = refl

view-deep_merge_example :
    view (some (table (deep_merge user_document generated_document))) domain_path
    ≡ overlay
        (view (some (table user_document)))
        (view (some (table generated_document)))
        domain_path
view-deep_merge_example =
    view-deep_merge user_document generated_document domain_path generated_document-Distinct

abbrev two_taints : List Taint
two_taints =
    record { key = "dedicated"; value = ""; effect = "NoSchedule" }
    ∷ record { key = "dedicated"; value = "true"; effect = "NoSchedule" }
    ∷ []

two_taints_once : taints_at "dedicated" (add_taints [] two_taints) ≡ "true:NoSchedule" ∷ []
unfolding add_taints add_taint taint_string
two_taints_once = refl

add_taints_lem_example :
    Unique (taints_at "dedicated" (add_taints [] two_taints))
    × ((s : String)
        → In s (taints_at "dedicated" (add_taints [] two_taints))
          ↔ Tainted two_taints "dedicated" s)
add_taints_lem_example = add_taints_lem two_taints "dedicated"

-- An encoder, a decoder that fails on the user's text, and a compression that changes nothing.
abbrev encode : Config → Result BootstrapError String
encode c = ok "generated"

abbrev decode : String → Result BootstrapError (Fields String)
decode text = if text == "generated" then ok generated_document else err merge_failed

abbrev print : Fields String → Result BootstrapError String
print d = ok "merged"

abbrev gzip : String → Result BootstrapError String
gzip text = ok text

abbrev base64 : String → String
base64 text = "64:" ^^ text

abbrev same : String → String
same s = s

gzip_works : (t : String) → (z : String) × (gzip t ≡ ok z)
gzip_works t = (t, refl)

abbrev node_options : Options
node_options = record (new_options node_class node_claim) {
  bootstrap_token = "abcdef.0123456789abcdef";
  user_data = some "[not toml";
}

abbrev cluster_ca : Result CaError String
cluster_ca = ok "ca"

abbrev boot_config : Config
boot_config = build_config base64 same (bootstrap_options base64 node_options node_claim "ca" none)

tokened : node_options.bootstrap_token ≢ ""
unfolding new_options
tokened e = ground (arith, eq_iff "abcdef.0123456789abcdef" "")

bundled : ◌≢◌ {A = String} "ca" ""
bundled e = ground (arith, eq_iff "ca" "")

generate_lem_example :
    (t : String) × (z : String) × Chosen encode decode print boot_config "generated"
      (some "[not toml")
      t
    × (gzip t ≡ ok z)
    × (generate base64
          (bootstrap_generate encode decode print base64 same gzip)
          cluster_ca
          (λ spec. ok none)
          node_claim
          node_options
        ≡ ok (base64 z))
unfolding new_options
generate_lem_example =
    generate_lem encode decode print base64 same gzip gzip_works (λ spec. ok none) cluster_ca
      node_claim node_options "ca" "generated" none refl refl tokened bundled refl

abbrev endpoint : ContainerRegistryMirrorEndpoint
endpoint = record {
  url = "https://mirror.example";
  tls_secret_ref = none;
  override_path = false;
  skip_verify = true;
}

abbrev mirror : ContainerRegistryMirror
mirror = record { registry = "docker.io"; endpoints = endpoint ∷ [] }

abbrev registry : ContainerRegistrySpec
registry = record { mirrors = mirror ∷ []; credentials = [] }

abbrev no_secrets : String → Result ApiError (Map String)
no_secrets name = err not_found

abbrev pem : String → Option String
pem s = some s

abbrev resolved : Resolved
resolved = record {
  mirrors =
      record {
        registry = "docker.io";
        endpoints =
            record {
              url = "https://mirror.example";
              override_path = false;
              skip_verify = true;
              tls = none;
            }
            ∷ [];
      }
      ∷ [];
  credentials = [];
}

abbrev settings : RegistrySettings
settings = record {
  mirrors = record { registry = "docker.io"; endpoint = "https://mirror.example" ∷ [] } ∷ [];
  tls = [];
  credentials = [];
}

registry_resolves : resolve pem no_secrets (some registry) ≡ ok (some resolved)
unfolding resolve resolve_mirror resolve_endpoint load_credentials
registry_resolves = refl

registry_settings : to_bootstrap base64 (some resolved) ≡ some settings
unfolding to_bootstrap mirrors_tls endpoints_tls
registry_settings = refl

plain_endpoint :
    (m : ContainerRegistryMirror) (ep : ContainerRegistryMirrorEndpoint)
    → In m registry.mirrors
    → In ep m.endpoints
    → ep.url ≡ "https://mirror.example"
    → ep.tls_secret_ref ≡ none
plain_endpoint m ep (inl is) at url =
    let at' : In ep mirror.endpoints = subst (λ x. In ep x.endpoints) is at in
    elim at' [ inl e ↦ ap (λ x. x.tls_secret_ref) e | inr never ↦ absurd never ]
plain_endpoint m ep (inr never) at url = absurd never

to_bootstrap-resolve_example : lookup "https://mirror.example" settings.tls ≡ none
to_bootstrap-resolve_example =
    to_bootstrap-resolve base64 "https://mirror.example" pem no_secrets registry resolved settings
      registry_resolves registry_settings plain_endpoint
