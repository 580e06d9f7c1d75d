-- ===== src/UserData/Generate.antt =====
-- pkg/providers/userdata/provider.go and options.go: the user data of a NodeClaim. The ConfigMaps
-- are read by namespace and name, the Secrets of kube-system by name.
use karpenter_provider_exosc.Kube.{ApiError, NodeClaim, Taint, not_found}
use karpenter_provider_exosc.NodeClass.{
  ContainerRegistrySpec, ExoscaleNodeClass, ResourceReservation,
}
use karpenter_provider_exosc.Prelude.{
  ℕ, Bool, false, not, Option, none, some, String, List, Map, lookup, insert_all, Result, ok, err,
  wrap, ◌>>=◌, if◌then◌else◌, ◌==◌,
}
use karpenter_provider_exosc.UserData.Bootstrap
use karpenter_provider_exosc.UserData.Bootstrap.{BootstrapError, Config, bootstrap_generate}
use karpenter_provider_exosc.UserData.Registry.{ResolveError, Resolved, to_bootstrap}

pub record Options : Type 0 where
  pub cluster_endpoint : String
  pub cluster_domain : String
  pub bootstrap_token : String
  pub ca_bundle : String
  pub taints : List Taint
  pub labels : Map String
  pub cluster_dns : List String
  pub kube_reserved : ResourceReservation
  pub system_reserved : ResourceReservation
  pub image_gc_high_threshold_percent : Option ℕ
  pub image_gc_low_threshold_percent : Option ℕ
  pub image_minimum_gc_age : String
  pub feature_gates : Map Bool
  pub user_data : Option String
  pub container_registry : Option ContainerRegistrySpec
  pub cpu_manager_policy : String
  pub cpu_manager_policy_options : List String
  pub cpu_manager_reconcile_period : String
  pub max_pods : Option ℕ

-- `NewOptions`; the fields that it leaves out are empty, for the caller to fill in.
unfoldable pub new_options : ExoscaleNodeClass → NodeClaim → Options
new_options nc claim =
    let kubelet = nc.spec.kubelet in
    record {
      cluster_endpoint = "";
      cluster_domain = "";
      bootstrap_token = "";
      ca_bundle = "";
      taints = claim.taints;
      labels = claim.labels;
      cluster_dns = kubelet.cluster_dns;
      kube_reserved = kubelet.kube_reserved;
      system_reserved = kubelet.system_reserved;
      image_gc_high_threshold_percent = kubelet.image_gc_high_threshold_percent;
      image_gc_low_threshold_percent = kubelet.image_gc_low_threshold_percent;
      image_minimum_gc_age = kubelet.image_minimum_gc_age;
      feature_gates = kubelet.feature_gates;
      user_data = nc.spec.user_data;
      container_registry = nc.spec.container_registry;
      cpu_manager_policy = kubelet.cpu_manager_policy;
      cpu_manager_policy_options = kubelet.cpu_manager_policy_options;
      cpu_manager_reconcile_period = kubelet.cpu_manager_reconcile_period;
      max_pods = kubelet.max_pods;
    }

-- A value of a parsed kubeconfig, as far as the code tells values apart.
mutual
  pub data Yaml : Type 0 where
    text : String → Yaml
    sequence : Items → Yaml
    mapping : Entries → Yaml
    scalar : Yaml

  pub data Items : Type 0 where
    nil : Items
    cons : Yaml → Items → Items

  pub data Entries : Type 0 where
    end : Entries
    entry : String → Yaml → Entries → Entries

pub data CaError : Type 0 where
  cluster_info_not_found kubeconfig_missing bad_kubeconfig no_clusters invalid_cluster
        no_cluster_data no_ca_data bad_ca_data ca_missing :
      CaError
  get_cluster_info_failed get_root_ca_failed : ApiError → CaError

abbrev entry_at : String → Entries → Option Yaml
entry_at k end = none
entry_at k (entry j v es) = if j == k then some v else entry_at k es

-- The type assertions, each on a value or on a key that is missing.
abbrev first_item : Option Yaml → Result CaError Yaml
first_item (some (sequence (cons c cs))) = ok c
first_item _ = err no_clusters

abbrev mapping_or : CaError → Option Yaml → Result CaError Entries
mapping_or e (some (mapping es)) = ok es
mapping_or e _ = err e

abbrev text_or : CaError → Option Yaml → Result CaError String
text_or e (some (text s)) = ok s
text_or e _ = err e

abbrev or_else : {A : Type 0} → CaError → Option A → Result CaError A
or_else e none = err e
or_else e (some a) = ok a

-- `yaml` parses into a `map[string]interface{}`, `decode64` is the standard base64 decoding.
module _ (yaml : String → Option Entries) (decode64 : String → Option String) where
  unfoldable pub extract_ca_cert_from_kubeconfig : String → Result CaError String
  extract_ca_cert_from_kubeconfig kubeconfig =
      or_else bad_kubeconfig (yaml kubeconfig) >>= λ config.
      first_item (entry_at "clusters" config) >>= λ first.
      mapping_or invalid_cluster (some first) >>= λ cluster.
      mapping_or no_cluster_data (entry_at "cluster" cluster) >>= λ found.
      text_or no_ca_data (entry_at "certificate-authority-data" found) >>= λ encoded.
      or_else bad_ca_data (decode64 encoded)

  abbrev info_error : ApiError → CaError
  info_error not_found = cluster_info_not_found
  info_error e = get_cluster_info_failed e

  module _ (config_map : String → String → Result ApiError (Map String)) where
    unfoldable pub get_ca_cert_from_cluster_info : Result CaError String
    get_ca_cert_from_cluster_info =
        wrap info_error (config_map "kube-public" "cluster-info") >>= λ found.
        or_else kubeconfig_missing (lookup "kubeconfig" found) >>= λ kubeconfig.
        extract_ca_cert_from_kubeconfig kubeconfig

    unfoldable pub get_ca_cert_from_kube_root_ca : Result CaError String
    get_ca_cert_from_kube_root_ca =
        wrap get_root_ca_failed (config_map "kube-system" "kube-root-ca.crt") >>= λ found.
        or_else ca_missing (lookup "ca.crt" found)

    abbrev pub first_ok : Result CaError String → Result CaError String → Result CaError String
    first_ok (ok ca) next = ok ca
    first_ok (err e) next = next

    unfoldable pub get_cluster_ca : Result CaError String
    get_cluster_ca = first_ok get_ca_cert_from_cluster_info get_ca_cert_from_kube_root_ca

pub data GenerateError : Type 0 where
  ca_failed : CaError → GenerateError
  resolve_failed : ResolveError → GenerateError
  generate_failed : BootstrapError → GenerateError

-- The CA bundle of the options, or else the cluster's.
abbrev pub ca_bundle_of : Options → Result CaError String → Result GenerateError String
ca_bundle_of o cluster_ca = if o.ca_bundle == "" then wrap ca_failed cluster_ca else ok o.ca_bundle

module _ (base64 : String → String) where
  -- The options of the bootstrap, with the labels of the claim over those of the options.
  unfoldable pub bootstrap_options :
      Options → NodeClaim → String → Option Resolved → Bootstrap.Options
  bootstrap_options o claim ca registry = record {
    cluster_endpoint = o.cluster_endpoint;
    cluster_dns = o.cluster_dns;
    cluster_domain = o.cluster_domain;
    bootstrap_token = o.bootstrap_token;
    ca_bundle = ca;
    taints = o.taints;
    labels = insert_all claim.labels o.labels;
    image_gc_high_threshold_percent = o.image_gc_high_threshold_percent;
    image_gc_low_threshold_percent = o.image_gc_low_threshold_percent;
    image_minimum_gc_age = o.image_minimum_gc_age;
    kube_reserved = o.kube_reserved;
    system_reserved = o.system_reserved;
    feature_gates = o.feature_gates;
    user_data = o.user_data;
    container_registry = to_bootstrap base64 registry;
    cpu_manager_policy = o.cpu_manager_policy;
    cpu_manager_policy_options = o.cpu_manager_policy_options;
    cpu_manager_reconcile_period = o.cpu_manager_reconcile_period;
    max_pods = o.max_pods;
  }

abbrev pub without_user_data : Bootstrap.Options → Bootstrap.Options
without_user_data o = record o { user_data = none }

abbrev has_user_data : Option String → Bool
has_user_data none = false
has_user_data (some raw) = not (raw == "")

-- The answer of the bootstrap, which is asked again without user data where it failed with some.
abbrev pub retried :
    Option String
    → Result BootstrapError String
    → Result BootstrapError String
    → Result BootstrapError String
retried raw (ok t) again = ok t
retried raw (err e) again = if has_user_data raw then again else err e

-- `Generate`, by the answers about the cluster's CA and the container registry, and the bootstrap.
unfoldable pub generate :
    (base64 : String → String)
    → (Bootstrap.Options → Result BootstrapError String)
    → Result CaError String
    → (Option ContainerRegistrySpec → Result ResolveError (Option Resolved))
    → NodeClaim
    → Options
    → Result GenerateError String
generate base64 boot cluster_ca resolver claim o = ca_bundle_of o cluster_ca >>= λ ca.
    wrap resolve_failed (resolver o.container_registry) >>= λ registry.
    let b = bootstrap_options base64 o claim ca registry in
    wrap generate_failed (retried b.user_data (boot b) (boot (without_user_data b)))
