-- ===== src/NodeClass.antt =====
-- apis/karpenter/v1/exoscalenodeclass_types.go: the ExoscaleNodeClass resource. An optional field
-- that is a pointer is an `Option`; a number is an int32 or int64 that admission keeps positive.
use karpenter_provider_exosc.Prelude.{ℕ, Bool, Option, String, List, Map, Time}

pub record ImageTemplateSelector : Type 0 where
  pub version : String
  pub variant : String

pub record SelectorTerms : Type 0 where
  pub id : String
  pub name : String

-- v1.SecretReference and v1.SecretKeySelector
pub record SecretReference : Type 0 where
  pub name : String
  pub namespace : String

pub record SecretKeySelector : Type 0 where
  pub name : String
  pub key : String

pub record ContainerRegistryMirrorEndpoint : Type 0 where
  pub url : String
  pub tls_secret_ref : Option SecretReference
  pub override_path : Bool
  pub skip_verify : Bool

pub record ContainerRegistryMirror : Type 0 where
  pub registry : String
  pub endpoints : List ContainerRegistryMirrorEndpoint

pub record ContainerRegistryBasicAuth : Type 0 where
  pub username_secret_ref : SecretKeySelector
  pub password_secret_ref : SecretKeySelector

pub record ContainerRegistryCredential : Type 0 where
  pub registry : String
  pub basic : Option ContainerRegistryBasicAuth
  pub auth : Option SecretKeySelector
  pub identity_token : Option SecretKeySelector

pub record ContainerRegistrySpec : Type 0 where
  pub mirrors : List ContainerRegistryMirror
  pub credentials : List ContainerRegistryCredential

-- KubeResourceReservation and SystemResourceReservation
pub record ResourceReservation : Type 0 where
  pub cpu : String
  pub memory : String
  pub ephemeral_storage : String

pub record KubeletConfiguration : Type 0 where
  pub cluster_dns : List String
  pub image_gc_high_threshold_percent : Option ℕ
  pub image_gc_low_threshold_percent : Option ℕ
  pub image_minimum_gc_age : String
  pub kube_reserved : ResourceReservation
  pub system_reserved : ResourceReservation
  pub feature_gates : Map Bool
  pub cpu_manager_policy : String
  pub cpu_manager_policy_options : List String
  pub cpu_manager_reconcile_period : String
  pub max_pods : Option ℕ

pub record ExoscaleNodeClassSpec : Type 0 where
  pub template_id : String
  pub image_template_selector : Option ImageTemplateSelector
  pub disk_size : ℕ
  pub security_groups : List String
  pub security_group_selector_terms : List SelectorTerms
  pub anti_affinity_groups : List String
  pub anti_affinity_group_selector_terms : List SelectorTerms
  pub private_networks : List String
  pub private_network_selector_terms : List SelectorTerms
  pub elastic_ip_selector_terms : List SelectorTerms
  pub kubelet : KubeletConfiguration
  pub enable_ipv6 : Bool
  pub user_data : Option String
  pub container_registry : Option ContainerRegistrySpec

pub data ConditionStatus : Type 0 where
  is_true is_false is_unknown : ConditionStatus

-- `status.Condition`, without its type and what only the library of conditions reads
pub record Condition : Type 0 where
  pub status : ConditionStatus
  pub reason : String
  pub message : String

-- The conditions are kept by their type.
pub record ExoscaleNodeClassStatus : Type 0 where
  pub conditions : Map Condition
  pub security_groups : List String
  pub anti_affinity_groups : List String
  pub private_networks : List String
  pub elastic_ips : List String
  pub configuration_hash : String
  pub image_id : String

pub record ExoscaleNodeClass : Type 0 where
  pub name : String
  pub finalizers : List String
  -- `none` is `IsZero`: no timestamp, or a zero one.
  pub deletion_timestamp : Option Time
  pub spec : ExoscaleNodeClassSpec
  pub status : ExoscaleNodeClassStatus

abbrev pub default_cpu_manager_reconcile_period : String
default_cpu_manager_reconcile_period = "10s"
