-- ===== src/UserData/Bootstrap.antt =====
-- pkg/providers/userdata/bootstrap/sks.go: the configuration of a node and its text. Go bytes and
-- the string of these bytes are one here.
use karpenter_provider_exosc.Kube.{Taint}
use karpenter_provider_exosc.NodeClass.{ResourceReservation, default_cpu_manager_reconcile_period}
use karpenter_provider_exosc.Prelude.{
  ℕ, Bool, true, false, not, ◌||◌, Option, none, some, String, List, [], ◌∷◌, ◌++◌, map, Map,
  lookup, insert, insert_all, contains, Result, ok, err, wrap, ◌>>=◌, ◌^^◌, if◌then◌else◌, ◌==◌,
}
use karpenter_provider_exosc.UserData.Merge.{Fields, deep_merge}
use karpenter_provider_exosc.UserData.Registry.{RegistrySettings}

pub record Options : Type 0 where
  pub cluster_endpoint : String
  pub cluster_dns : List String
  pub cluster_domain : String
  pub bootstrap_token : String
  pub ca_bundle : String
  pub taints : List Taint
  pub labels : Map String
  pub image_gc_high_threshold_percent : Option ℕ
  pub image_gc_low_threshold_percent : Option ℕ
  pub image_minimum_gc_age : String
  pub kube_reserved : ResourceReservation
  pub system_reserved : ResourceReservation
  pub feature_gates : Map Bool
  pub user_data : Option String
  pub container_registry : Option RegistrySettings
  pub cpu_manager_policy : String
  pub cpu_manager_policy_options : List String
  pub cpu_manager_reconcile_period : String
  pub max_pods : Option ℕ

-- The encoder leaves out a field that is empty, except the first four.
pub record KubernetesSettings : Type 0 where
  pub api_server : String
  pub bootstrap_token : String
  pub cloud_provider : String
  pub cluster_certificate : String
  pub cluster_dns_ip : List String
  pub cluster_domain : String
  pub image_gc_high_threshold_percent : Option ℕ
  pub image_gc_low_threshold_percent : Option ℕ
  pub image_minimum_gc_age : String
  pub kube_reserved : Option ResourceReservation
  pub system_reserved : Option ResourceReservation
  pub node_taints : Map (List String)
  pub node_labels : Map String
  pub feature_gates : Map Bool
  pub cpu_manager_policy : String
  pub cpu_manager_policy_options : List String
  pub cpu_manager_reconcile_period : String
  pub max_pods : Option ℕ

pub record Config : Type 0 where
  pub kubernetes : KubernetesSettings
  pub container_registry : Option RegistrySettings

pub data BootstrapError : Type 0 where
  token_required ca_required merge_failed marshal_failed compress_failed : BootstrapError

-- A taint without a value gets the value `true`.
unfoldable pub taint_string : Taint → String
taint_string t = (if t.value == "" then "true" else t.value) ^^ ":" ^^ t.effect

abbrev pub values : Option (List String) → List String
values none = []
values (some vs) = vs

-- The values of a key so far, `NodeTaints[key]`.
abbrev pub taints_at : String → Map (List String) → List String
taints_at key m = values (lookup key m)

unfoldable pub add_taint : Map (List String) → Taint → Map (List String)
add_taint m t =
    let s = taint_string t in
    let existing = taints_at t.key m in
    if contains existing s then m else insert t.key (existing ++ s ∷ []) m

unfoldable pub add_taints : Map (List String) → List Taint → Map (List String)
add_taints m [] = m
add_taints m (t ∷ ts) = add_taints (add_taint m t) ts

-- `convertKubeResourceReservation` and `convertSystemResourceReservation`
abbrev pub convert_resource_reservation : ResourceReservation → ResourceReservation
convert_resource_reservation rr = record {
  cpu = if not (rr.cpu == "") then rr.cpu else "";
  memory = if not (rr.memory == "") then rr.memory else "";
  ephemeral_storage = if not (rr.ephemeral_storage == "") then rr.ephemeral_storage else "";
}

abbrev pub reservation : ResourceReservation → Option ResourceReservation
reservation rr =
    if not (rr.cpu == "") || not (rr.memory == "") || not (rr.ephemeral_storage == "")
    then some (convert_resource_reservation rr)
    else none

abbrev pub is_empty : List String → Bool
is_empty [] = true
is_empty (x ∷ xs) = false

-- The parameters: the standard base64 encoding, `strings.TrimSpace`, the TOML encoder on a
-- configuration, the TOML decoder and the encoder on documents with any kind of leaf, and gzip.
module _ (base64 trim_space : String → String) where
  unfoldable pub build_config : Options → Config
  build_config o = record {
    kubernetes = record {
      api_server = o.cluster_endpoint;
      bootstrap_token = o.bootstrap_token;
      cloud_provider = "external";
      cluster_certificate = base64 o.ca_bundle;
      cluster_dns_ip = map trim_space o.cluster_dns;
      cluster_domain = o.cluster_domain;
      image_gc_high_threshold_percent = o.image_gc_high_threshold_percent;
      image_gc_low_threshold_percent = o.image_gc_low_threshold_percent;
      image_minimum_gc_age = o.image_minimum_gc_age;
      kube_reserved = reservation o.kube_reserved;
      system_reserved = reservation o.system_reserved;
      node_taints = add_taints [] o.taints;
      node_labels = insert_all o.labels [];
      feature_gates = o.feature_gates;
      cpu_manager_policy = o.cpu_manager_policy;
      cpu_manager_policy_options =
          if o.cpu_manager_policy == "static" then o.cpu_manager_policy_options else [];
      cpu_manager_reconcile_period =
          if o.cpu_manager_reconcile_period == default_cpu_manager_reconcile_period
          then ""
          else o.cpu_manager_reconcile_period;
      max_pods = o.max_pods;
    };
    container_registry = o.container_registry;
  }

-- `compressAndEncode`
unfoldable pub compress_and_encode :
    (String → String)
    → (String → Result BootstrapError String)
    → String
    → Result BootstrapError String
compress_and_encode base64 gzip text = gzip text >>= λ zipped. ok (base64 zipped)

module _ {Leaf : Type 0} (encode : Config → Result BootstrapError String)
    (decode : String → Result BootstrapError (Fields Leaf))
    (print : Fields Leaf → Result BootstrapError String) where
  -- `mergeUserData`
  unfoldable pub merge_user_data : Config → String → Result BootstrapError String
  merge_user_data config raw = encode config >>= λ text.
      decode text >>= λ generated. decode raw >>= λ user. print (deep_merge user generated)

  abbrev pub text_of : Config → Option String → Result BootstrapError String
  text_of config none = wrap (λ _. marshal_failed) (encode config)
  text_of config (some raw) =
      if not (raw == "")
      then wrap (λ _. merge_failed) (merge_user_data config raw)
      else wrap (λ _. marshal_failed) (encode config)

  -- `SKSBootstrap.Generate`, with options that are not nil
  unfoldable pub bootstrap_generate :
      (base64 trim_space : String → String)
      → (gzip : String → Result BootstrapError String) → Options
      → Result BootstrapError String
  bootstrap_generate base64 trim_space gzip o =
      if o.bootstrap_token == ""
      then err token_required
      else if o.ca_bundle == ""
      then err ca_required
      else text_of (build_config base64 trim_space o) o.user_data >>= λ text.
          wrap (λ _. compress_failed) (compress_and_encode base64 gzip text)
