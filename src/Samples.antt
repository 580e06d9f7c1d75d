-- ===== src/Samples.antt =====
-- Concrete parameters and objects for the tests.
use karpenter_provider_exosc.Constants.{
  annotation_configuration_hash, instance_label_managed_by, instance_label_cluster_id,
  instance_label_node_claim,
}
use karpenter_provider_exosc.Instance.{ExoInstance}
use karpenter_provider_exosc.InstanceProvider.{Options}
use karpenter_provider_exosc.Kube.{NodeClaim, NodeClassRef}
use karpenter_provider_exosc.Lo.{Lo}
use karpenter_provider_exosc.NodeClass.{ExoscaleNodeClass, is_true}
use karpenter_provider_exosc.Prelude.{
  ◌≡◌, ◌↔◌, refl, Bool, true, false, not, none, some, String, List, [], ◌∷◌, ◌++◌, Map, lookup, In,
  In-keep, keep, contains, contains_iff, arith, if◌then◌else◌, ◌==◌,
}
use karpenter_provider_exosc.ProviderId.{Net}

abbrev pub minus : List String → List String → List String
minus a b = keep (λ s. not (contains b s)) a

pub In-minus : (a b : List String) (s : String) → In s (minus a b) ↔ (In s a × (¬ In s b))
In-minus a b s = ground (arith, In-keep (λ (x : String). not (contains b x)) s a, contains_iff b s)

pub lookup_first :
    (a b : Map String) (k v : String) → lookup k b ≡ some v → lookup k (b ++ a) ≡ some v
lookup_first a [] k v h = absurd (ground arith)
lookup_first a ((j, w) ∷ b) k v h = ground (arith, lookup_first a b k v)

pub lookup_second :
    (a b : Map String) (k : String) → lookup k b ≡ none → lookup k (b ++ a) ≡ lookup k a
lookup_second a [] k h = refl
lookup_second a ((j, w) ∷ b) k h = ground (arith, lookup_second a b k)

abbrev pub simple_lo : Lo
simple_lo = record {
  difference = λ a b. (minus a b, minus b a);
  difference_left = λ a b s. In-minus a b s;
  difference_right = λ a b s. In-minus b a s;
  assign = λ a b. b ++ a;
  assign_wins = lookup_first;
  assign_falls = lookup_second;
}

-- Two texts are addresses, one of each kind.
abbrev pub simple_net : Net
simple_net = record {
  Ip = Bool;
  parse_ip =
      λ s. if s == "2001:db8::1" then some false else if s == "192.0.2.1" then some true else none;
  has_to4 = λ v4. v4;
}

abbrev pub options : Options
options = record {
  zone = "ch-gva-2";
  cluster_id = "11111111-1111-1111-1111-111111111111";
  instance_prefix = "";
  use_sks_default_security_group = true;
}

abbrev pub node_class_ref : NodeClassRef
node_class_ref = record {
  group = "karpenter.exoscale.com";
  kind = "ExoscaleNodeClass";
  name = "default";
}

abbrev pub node_claim : NodeClaim
node_claim = record {
  name = "claim-1";
  labels = [];
  annotations = (annotation_configuration_hash, "h1") ∷ [];
  finalizers = [];
  creation_timestamp = 1;
  deletion_timestamp = none;
  node_class_ref = some node_class_ref;
  taints = [];
  provider_id = "exoscale://00000000-0000-0000-0000-00000000000a";
  image_id = "tpl";
  node_name = "claim-1";
  capacity = [];
  allocatable = [];
}

abbrev pub node_class : ExoscaleNodeClass
node_class = record {
  name = "default";
  finalizers = [];
  deletion_timestamp = none;
  spec = record {
    template_id = "tpl";
    image_template_selector = none;
    disk_size = 50;
    security_groups = "sg-1" ∷ [];
    security_group_selector_terms = [];
    anti_affinity_groups = [];
    anti_affinity_group_selector_terms = [];
    private_networks = [];
    private_network_selector_terms = [];
    elastic_ip_selector_terms = [];
    kubelet = record {
      cluster_dns = [];
      image_gc_high_threshold_percent = none;
      image_gc_low_threshold_percent = none;
      image_minimum_gc_age = "";
      kube_reserved = record { cpu = "200m"; memory = ""; ephemeral_storage = "" };
      system_reserved = record { cpu = ""; memory = ""; ephemeral_storage = "" };
      feature_gates = [];
      cpu_manager_policy = "";
      cpu_manager_policy_options = [];
      cpu_manager_reconcile_period = "10s";
      max_pods = none;
    };
    enable_ipv6 = true;
    user_data = none;
    container_registry = none;
  };
  status = record {
    conditions = ("Ready", record { status = is_true; reason = "Ready"; message = "" }) ∷ [];
    security_groups = "sg-1" ∷ [];
    anti_affinity_groups = [];
    private_networks = "net-1" ∷ [];
    elastic_ips = [];
    configuration_hash = "h1";
    image_id = "tpl";
  };
}

abbrev pub exo_instance : ExoInstance
exo_instance = record {
  id = "00000000-0000-0000-0000-00000000000a";
  name = "claim-1";
  state = "running";
  instance_type = record {
    id = "t";
    family = "standard";
    size = "small";
    cpus = 2;
    memory = 4;
    gpus = 0;
  };
  template = "tpl";
  disk_size = 50;
  labels =
      (instance_label_managed_by, "karpenter")
      ∷ (instance_label_cluster_id, "11111111-1111-1111-1111-111111111111")
      ∷ (instance_label_node_claim, "claim-1")
      ∷ ("owner", "ops")
      ∷ [];
  created_at = 1;
  public_ip = some "192.0.2.1";
  ipv6_address = "2001:db8::1";
  security_groups = "sks" ∷ "sg-1" ∷ [];
  private_networks = "net-1" ∷ [];
  elastic_ips = [];
  anti_affinity_groups = [];
}
