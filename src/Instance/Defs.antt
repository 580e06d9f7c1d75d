-- ===== src/Instance/Defs.antt =====
-- The types, and the conversions as the source writes them.
use karpenter_provider_exosc.Constants.{
  instance_label_node_claim, label_topology_zone, label_instance_type_stable, label_arch_stable,
  label_os_stable, capacity_type_label_key, capacity_type_on_demand, resource_cpu, resource_memory,
  resource_pods, resource_ephemeral_storage, resource_nvidia_gpu,
}
use karpenter_provider_exosc.Kube.{ResourceList, NodeClaim}
use karpenter_provider_exosc.Lo.{Lo}
use karpenter_provider_exosc.Prelude.{
  ℕ, ◌*◌, Bool, true, false, Option, none, some, String, List, [], ◌∷◌, ◌++◌, ◌^^◌, Map, lookup,
  insert, Time, ◌==◌,
}
use karpenter_provider_exosc.ProviderId.{
  NodeAddress, host_name, external_ip, internal_ip, exoscale_provider_id_prefix,
}
use Prim.Native.Nat.{◌%◌, ◌^◌}

-- `egov3.InstanceType`, `egov3.Template` and `egov3.Instance`; attached resources by their IDs.
-- The API sets the type and the template of every instance.
pub record ExoInstanceType : Type 0 where
  pub id : String
  pub family : String
  pub size : String
  pub cpus : ℕ
  pub memory : ℕ
  pub gpus : ℕ

pub record ExoInstance : Type 0 where
  pub id : String
  pub name : String
  pub state : String
  pub instance_type : ExoInstanceType
  pub template : String
  pub disk_size : ℕ
  pub labels : Map String
  pub created_at : Time
  pub public_ip : Option String
  pub ipv6_address : String
  pub security_groups : List String
  pub private_networks : List String
  pub elastic_ips : List String
  pub anti_affinity_groups : List String

-- template.Template
pub record Template : Type 0 where
  pub id : String
  pub labels : Map String

unfoldable pub from_exoscale_template : String → Template
from_exoscale_template id = record { id = id; labels = (label_os_stable, "linux") ∷ [] }

-- instance.Instance
pub record Instance : Type 0 where
  pub id : String
  pub name : String
  pub state : String
  pub instance_type : ExoInstanceType
  pub instance_type_name : String
  pub template : Template
  pub zone : String
  pub disk_size : ℕ
  pub labels : Map String
  pub security_groups : List String
  pub private_networks : List String
  pub elastic_ips : List String
  pub anti_affinity_groups : List String
  pub capacity : ResourceList
  pub addresses : List NodeAddress
  pub created_at : Time

-- Both lists of addresses of one IP.
abbrev addresses_of : String → List NodeAddress
addresses_of ip =
    record { type = external_ip; address = ip } ∷ record { type = internal_ip; address = ip } ∷ []

abbrev public_addresses : Option String → List NodeAddress
public_addresses none = []
public_addresses (some ip) = addresses_of ip

abbrev ipv6_addresses : String → List NodeAddress
ipv6_addresses ip = elim (ip == "") [ true ↦ [] | false ↦ addresses_of ip ]

-- The quantity of one resource is copied where the instance type has it.
abbrev copy_quantity : String → Option ℕ → ResourceList → ResourceList
copy_quantity name none capacity = capacity
copy_quantity name (some q) capacity = insert name q capacity

abbrev quantity_or : Option ℕ → ℕ → ℕ
quantity_or none old = old
quantity_or (some q) old = q

-- `DiskSize*1024*1024*1024` in an int64.
abbrev pub disk_bytes : ℕ → ℕ
disk_bytes gib = (gib * 1024 * 1024 * 1024) % (2 ^ 64)

-- The second argument is the capacity of the Karpenter instance type.
unfoldable pub from_exoscale_instance :
    Option ExoInstance → Option ResourceList → String → Option Instance
unfolding from_exoscale_template
from_exoscale_instance none type_capacity zone = none
from_exoscale_instance (some i) none zone = none
from_exoscale_instance (some i) (some type_capacity) zone =
    let cpu = lookup resource_cpu type_capacity in
    let memory = lookup resource_memory type_capacity in
    let gpu = lookup resource_nvidia_gpu type_capacity in
    some (record {
      id = i.id;
      name = i.name;
      state = i.state;
      instance_type = record (i.instance_type) {
        cpus = quantity_or cpu i.instance_type.cpus;
        memory = quantity_or memory i.instance_type.memory;
        gpus = quantity_or gpu i.instance_type.gpus;
      };
      instance_type_name = i.instance_type.family ^^ "." ^^ i.instance_type.size;
      template = from_exoscale_template i.template;
      zone = zone;
      disk_size = i.disk_size;
      labels = i.labels;
      security_groups = i.security_groups;
      private_networks = i.private_networks;
      elastic_ips = i.elastic_ips;
      anti_affinity_groups = i.anti_affinity_groups;
      capacity = insert resource_pods 110 (
          insert resource_ephemeral_storage (disk_bytes i.disk_size) (
            copy_quantity resource_nvidia_gpu gpu
              (copy_quantity resource_memory memory (copy_quantity resource_cpu cpu []))));
      addresses =
          record { type = host_name; address = i.name }
          ∷ (public_addresses i.public_ip ++ ipv6_addresses i.ipv6_address);
      created_at = i.created_at;
    })

unfoldable pub is_running : Instance → Bool
is_running i = i.state == "running"

-- The NodeClaim's name is set where the instance carries the label.
abbrev name_or_empty : Option String → String
name_or_empty none = ""
name_or_empty (some name) = name

-- `instanceLabels` of `ToNodeClaim`.
abbrev pub base_labels : Instance → Map String
base_labels i =
    (label_topology_zone, i.zone)
    ∷ (label_instance_type_stable, i.instance_type_name)
    ∷ (label_arch_stable, "amd64")
    ∷ (capacity_type_label_key, capacity_type_on_demand)
    ∷ []

module _ (lo : Lo) where
  open lo use {assign}

  unfoldable pub to_node_claim : Instance → NodeClaim
  to_node_claim i = record {
    name = name_or_empty (lookup instance_label_node_claim i.labels);
    labels = assign (base_labels i) i.template.labels;
    annotations = [];
    finalizers = [];
    creation_timestamp = i.created_at;
    deletion_timestamp = none;
    node_class_ref = none;
    taints = [];
    provider_id = exoscale_provider_id_prefix ^^ i.id;
    image_id = i.template.id;
    node_name = "";
    capacity = i.capacity;
    allocatable = i.capacity;
  }
