-- ===== src/Constants.antt =====
-- pkg/constants/constants.go, and the well-known labels of Kubernetes and Karpenter.
use karpenter_provider_exosc.Prelude.{ℕ, ◌*◌, String, minute}

abbrev pub instance_label_managed_by : String
instance_label_managed_by = "exoscale.com/managed-by"

abbrev pub instance_label_cluster_id : String
instance_label_cluster_id = "exoscale.com/cluster-id"

abbrev pub instance_label_node_claim : String
instance_label_node_claim = "exoscale.com/node-claim"

abbrev pub instance_label_nodepool_name : String
instance_label_nodepool_name = "exoscale.com/nodepool-name"

abbrev pub managed_by_karpenter : String
managed_by_karpenter = "karpenter"

abbrev pub annotation_bootstrap_token : String
annotation_bootstrap_token = "exoscale.com/bootstrap-token"

abbrev pub annotation_token_created : String
annotation_token_created = "exoscale.com/token-created"

abbrev pub label_token_provider : String
label_token_provider = "exoscale.com/token-provider"

abbrev pub annotation_configuration_hash : String
annotation_configuration_hash = "karpenter.exoscale.com/configuration-hash"

abbrev pub label_instance_family : String
label_instance_family = "exoscale.com/instance-family"

abbrev pub label_instance_size : String
label_instance_size = "exoscale.com/instance-size"

abbrev pub default_operation_timeout : ℕ
default_operation_timeout = 10 * minute

abbrev pub default_bootstrap_token_ttl : ℕ
default_bootstrap_token_ttl = 10 * minute

abbrev pub max_instances_per_anti_affinity_group : ℕ
max_instances_per_anti_affinity_group = 8

abbrev pub provider_name : String
provider_name = "karpenter-exoscale"

-- k8s.io/api and sigs.k8s.io/karpenter
abbrev pub label_topology_zone : String
label_topology_zone = "topology.kubernetes.io/zone"

abbrev pub label_topology_region : String
label_topology_region = "topology.kubernetes.io/region"

abbrev pub label_instance_type_stable : String
label_instance_type_stable = "node.kubernetes.io/instance-type"

abbrev pub label_arch_stable : String
label_arch_stable = "kubernetes.io/arch"

abbrev pub label_os_stable : String
label_os_stable = "kubernetes.io/os"

abbrev pub capacity_type_label_key : String
capacity_type_label_key = "karpenter.sh/capacity-type"

abbrev pub capacity_type_on_demand : String
capacity_type_on_demand = "on-demand"

abbrev pub node_pool_label_key : String
node_pool_label_key = "karpenter.sh/nodepool"

abbrev pub resource_cpu : String
resource_cpu = "cpu"

abbrev pub resource_memory : String
resource_memory = "memory"

abbrev pub resource_pods : String
resource_pods = "pods"

abbrev pub resource_ephemeral_storage : String
resource_ephemeral_storage = "ephemeral-storage"

abbrev pub resource_nvidia_gpu : String
resource_nvidia_gpu = "nvidia.com/gpu"
