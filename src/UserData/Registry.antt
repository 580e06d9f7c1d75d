-- ===== src/UserData/Registry.antt =====
-- pkg/providers/userdata/registry_resolver.go. A Go []byte and the string of its bytes are one
-- here. `pem` is `pem.Decode`, with the bytes of the block; `base64` is the standard encoding.
use karpenter_provider_exosc.Kube.{ApiError, not_found}
use karpenter_provider_exosc.NodeClass.{
  SecretReference, SecretKeySelector, ContainerRegistrySpec, ContainerRegistryMirror,
  ContainerRegistryMirrorEndpoint, ContainerRegistryCredential, ContainerRegistryBasicAuth,
}
use karpenter_provider_exosc.Prelude.{
  ℕ, suc, Bool, not, ◌&&◌, ◌||◌, Option, none, some, String, List, [], ◌∷◌, map, Map, lookup,
  insert, Result, ok, err, ◌>>=◌, collect, if◌then◌else◌, ◌==◌,
}

pub record TlsSecret : Type 0 where
  pub ca : String
  pub cert : String
  pub key : String
  pub ca_dec : String
  pub cert_dec : String
  pub key_dec : String

pub record ResolvedEndpoint : Type 0 where
  pub url : String
  pub override_path : Bool
  pub skip_verify : Bool
  pub tls : Option TlsSecret

pub record ResolvedMirror : Type 0 where
  pub registry : String
  pub endpoints : List ResolvedEndpoint

-- One credential, with the values that its kind uses.
pub data Secrets : Type 0 where
  basic : String → String → Secrets
  auth : String → Secrets
  identity_token : String → Secrets

pub record ResolvedCredential : Type 0 where
  pub registry : String
  pub secrets : Secrets

pub record Resolved : Type 0 where
  pub mirrors : List ResolvedMirror
  pub credentials : List ResolvedCredential

pub data ResolveError : Type 0 where
  secret_namespace_invalid secret_missing get_secret_failed tls_secret_inconsistent :
      String → ResolveError
  invalid_pem secret_key_missing : String → String → ResolveError
  no_auth_method : ℕ → String → ResolveError

abbrev pub value_or_empty : Option String → String
value_or_empty none = ""
value_or_empty (some v) = v

abbrev secret_error : String → ApiError → ResolveError
secret_error name not_found = secret_missing name
secret_error name _ = get_secret_failed name

-- A Secret of kube-system, by the answer to the request for it.
abbrev pub found : String → Result ApiError (Map String) → Result ResolveError (Map String)
found name (ok data_of) = ok data_of
found name (err e) = err (secret_error name e)

module _ (pem : String → Option String) where
  abbrev decoded : String → String → Option String → Result ResolveError String
  decoded name key none = err (invalid_pem name key)
  decoded name key (some block) = ok block

  abbrev decode : String → String → String → Result ResolveError String
  decode name key text = decoded name key (pem text)

  -- The certificate authority and its block, both empty where there is none.
  abbrev pub load_ca : String → Map String → Result ResolveError (String × String)
  load_ca name secret =
      let b = value_or_empty (lookup "ca.crt" secret) in
      if b == "" then ok ("", "") else decode name "ca.crt" b >>= λ block. ok (b, block)

  -- The certificate and the key with their blocks.
  abbrev pub load_pair :
      String → Map String → Result ResolveError ((String × String) × (String × String))
  load_pair name secret =
      let cert = value_or_empty (lookup "tls.crt" secret) in
      let key = value_or_empty (lookup "tls.key" secret) in
      if ((cert == "") && not (key == "")) || (not (cert == "") && (key == ""))
      then err (tls_secret_inconsistent name)
      else if cert == ""
      then ok (("", ""), ("", ""))
      else decode name "tls.crt" cert >>= λ c.
          decode name "tls.key" key >>= λ k. ok ((cert, c), (key, k))

  abbrev pub tls_of : String → Map String → Result ResolveError TlsSecret
  tls_of name secret = load_ca name secret >>= λ a. load_pair name secret >>= λ p. ok (record {
    ca = a.0;
    cert = p.0.0;
    key = p.1.0;
    ca_dec = a.1;
    cert_dec = p.0.1;
    key_dec = p.1.1;
  })

  module _ (get : String → Result ApiError (Map String)) where
    unfoldable pub load_tls_secret : SecretReference → Result ResolveError TlsSecret
    load_tls_secret ref =
        if not (ref.namespace == "") && not (ref.namespace == "kube-system")
        then err (secret_namespace_invalid ref.name)
        else found ref.name (get ref.name) >>= λ secret. tls_of ref.name secret

    abbrev pub key_of : SecretKeySelector → Option String → Result ResolveError String
    key_of ref none = err (secret_key_missing ref.name ref.key)
    key_of ref (some b) = ok b

    unfoldable pub load_secret_key : SecretKeySelector → Result ResolveError String
    load_secret_key ref =
        found ref.name (get ref.name) >>= λ secret. key_of ref (lookup ref.key secret)

    -- The first method that is set counts, in the order basic, auth, identity token.
    abbrev pub load_secrets :
        ℕ
        → String
        → Option ContainerRegistryBasicAuth
        → Option SecretKeySelector
        → Option SecretKeySelector
        → Result ResolveError Secrets
    load_secrets i registry (some b) a t = load_secret_key b.username_secret_ref >>= λ u.
        load_secret_key b.password_secret_ref >>= λ p. ok (basic u p)
    load_secrets i registry none (some a) t = load_secret_key a >>= λ s. ok (auth s)
    load_secrets i registry none none (some t) = load_secret_key t >>= λ s. ok (identity_token s)
    load_secrets i registry none none none = err (no_auth_method i registry)

    unfoldable pub load_credential :
        ℕ → ContainerRegistryCredential → Result ResolveError ResolvedCredential
    load_credential i c = load_secrets i c.registry c.basic c.auth c.identity_token >>= λ s.
        ok (record { registry = c.registry; secrets = s })

    -- The loop over the credentials, with the index of the next.
    unfoldable pub load_credentials :
        ℕ → List ContainerRegistryCredential → Result ResolveError (List ResolvedCredential)
    load_credentials i [] = ok []
    load_credentials i (c ∷ cs) =
        let rest = load_credentials (suc i) cs in
        load_credential i c >>= λ r. rest >>= λ rs. ok (r ∷ rs)

    abbrev pub endpoint_tls : Option SecretReference → Result ResolveError (Option TlsSecret)
    endpoint_tls none = ok none
    endpoint_tls (some ref) = load_tls_secret ref >>= λ t. ok (some t)

    unfoldable pub resolve_endpoint :
        ContainerRegistryMirrorEndpoint → Result ResolveError ResolvedEndpoint
    resolve_endpoint ep = endpoint_tls ep.tls_secret_ref >>= λ t. ok (record {
      url = ep.url;
      override_path = ep.override_path;
      skip_verify = ep.skip_verify;
      tls = t;
    })

    unfoldable pub resolve_mirror : ContainerRegistryMirror → Result ResolveError ResolvedMirror
    resolve_mirror m = collect resolve_endpoint m.endpoints >>= λ es.
        ok (record { registry = m.registry; endpoints = es })

    abbrev pub resolve_spec : ContainerRegistrySpec → Result ResolveError Resolved
    resolve_spec spec = collect resolve_mirror spec.mirrors >>= λ ms.
        load_credentials 0 spec.credentials >>= λ cs. ok (record { mirrors = ms; credentials = cs })

    -- `Resolve`; a nil spec resolves to nil.
    unfoldable pub resolve : Option ContainerRegistrySpec → Result ResolveError (Option Resolved)
    resolve none = ok none
    resolve (some spec) = resolve_spec spec >>= λ r. ok (some r)

-- The settings of the agent (pkg/providers/userdata/bootstrap/sks.go).
pub record TlsConfig : Type 0 where
  pub ca : String
  pub cert : String
  pub key : String
  pub override_path : Bool
  pub skip_verify : Bool

pub record MirrorConfig : Type 0 where
  pub registry : String
  pub endpoint : List String

pub record CredentialConfig : Type 0 where
  pub registry : String
  pub username : String
  pub password : String
  pub auth : String
  pub identity_token : String

pub record RegistrySettings : Type 0 where
  pub mirrors : List MirrorConfig
  pub tls : Map TlsConfig
  pub credentials : List CredentialConfig

module _ (base64 : String → String) where
  abbrev encoded : String → String
  encoded b = if b == "" then "" else base64 b

  abbrev pub tls_config : ResolvedEndpoint → TlsSecret → TlsConfig
  tls_config ep t = record {
    ca = encoded t.ca;
    cert = encoded t.cert;
    key = if t.cert == "" then "" else base64 t.key;
    override_path = ep.override_path;
    skip_verify = ep.skip_verify;
  }

  abbrev pub add_endpoint : ResolvedEndpoint → Option TlsSecret → Map TlsConfig → Map TlsConfig
  add_endpoint ep none m = m
  add_endpoint ep (some t) m = insert ep.url (tls_config ep t) m

  -- The TLS settings by URL, added to those so far.
  unfoldable pub endpoints_tls : List ResolvedEndpoint → Map TlsConfig → Map TlsConfig
  endpoints_tls [] m = m
  endpoints_tls (ep ∷ eps) m = endpoints_tls eps (add_endpoint ep ep.tls m)

  unfoldable pub mirrors_tls : List ResolvedMirror → Map TlsConfig → Map TlsConfig
  mirrors_tls [] m = m
  mirrors_tls (r ∷ rs) m = mirrors_tls rs (endpoints_tls r.endpoints m)

  abbrev pub mirror_config : ResolvedMirror → MirrorConfig
  mirror_config r = record { registry = r.registry; endpoint = map (λ e. e.url) r.endpoints }

  abbrev pub credential_config : String → Secrets → CredentialConfig
  credential_config registry (basic u p) = record {
    registry = registry;
    username = u;
    password = p;
    auth = "";
    identity_token = "";
  }
  credential_config registry (auth a) = record {
    registry = registry;
    username = "";
    password = "";
    auth = a;
    identity_token = "";
  }
  credential_config registry (identity_token t) = record {
    registry = registry;
    username = "";
    password = "";
    auth = "";
    identity_token = t;
  }

  -- `ToBootstrap`
  unfoldable pub to_bootstrap : Option Resolved → Option RegistrySettings
  to_bootstrap none = none
  to_bootstrap (some r) = some (record {
    mirrors = map mirror_config r.mirrors;
    tls = mirrors_tls r.mirrors [];
    credentials = map (λ c. credential_config c.registry c.secrets) r.credentials;
  })
