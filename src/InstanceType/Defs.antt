-- ===== src/InstanceType/Defs.antt =====
-- The state of the provider and its operations. A price is a float64, a parameter here.
use karpenter_provider_exosc.Constants.{
  label_instance_family, label_instance_size, label_topology_region, label_instance_type_stable,
  label_arch_stable, label_os_stable, capacity_type_label_key, capacity_type_on_demand,
  resource_cpu, resource_memory, resource_pods, resource_ephemeral_storage, resource_nvidia_gpu,
}
use karpenter_provider_exosc.Kube.{ApiError, ResourceList}
use karpenter_provider_exosc.Instance.{disk_bytes}
use karpenter_provider_exosc.NodeClass.{ExoscaleNodeClass}
use karpenter_provider_exosc.Prelude.{
  ℕ, Bool, true, false, not, Option, none, some, String, List, [], ◌∷◌, ◌++◌, map, Map, lookup,
  insert, contains, Result, ok, err, ltb, ◌^^◌, if◌then◌else◌, ◌==◌,
}

-- An instance type as the API lists it; a nil pointer or slice is `none`.
pub record ListedType : Type 0 where
  pub id : String
  pub family : String
  pub size : String
  pub cpus : ℕ
  pub memory : ℕ
  pub gpus : ℕ
  pub authorized : Option Bool
  pub zones : Option (List String)

pub data Operator : Type 0 where
  op_in op_exists : Operator

pub record Requirement : Type 0 where
  pub key : String
  pub operator : Operator
  pub values : List String

abbrev one_of : String → String → Requirement
one_of k v = record { key = k; operator = op_in; values = v ∷ [] }

pub record Reservation : Type 0 where
  pub cpu : ℕ
  pub memory : ℕ
  pub ephemeral_storage : ℕ

unfoldable pub build_resource_list : ℕ → ℕ → ℕ → ResourceList
build_resource_list cpus memory gpus =
    let resources = (resource_cpu, cpus) ∷ (resource_memory, memory) ∷ (resource_pods, 110) ∷ [] in
    if ltb 0 gpus then insert resource_nvidia_gpu gpus resources else resources

unfoldable pub build_instance_requirements :
    String → String → String → String → Bool → List Requirement
build_instance_requirements family size name zone has_gpu =
    let reqs =
      one_of label_topology_region zone
      ∷ one_of label_instance_type_stable name
      ∷ one_of label_arch_stable "amd64"
      ∷ one_of label_os_stable "linux"
      ∷ one_of capacity_type_label_key capacity_type_on_demand
      ∷ one_of label_instance_family family
      ∷ one_of label_instance_size size
      ∷ [] in
    if has_gpu
    then reqs
      ++ record { key = "karpenter.sh/instance-gpu-count"; operator = op_exists; values = [] }
        ∷ one_of "karpenter.sh/instance-accelerator" "nvidia"
        ∷ []
    else reqs

abbrev pub is_authorized : Option Bool → Bool
is_authorized none = false
is_authorized (some b) = b

abbrev pub in_zone : Option (List String) → String → Bool
in_zone none zone = false
in_zone (some zones) zone = contains zones zone

abbrev pub type_name : ListedType → String
type_name t = t.family ^^ "." ^^ t.size

module _ (Price : Type 0) (max_price : Price) where
  pub record Offering : Type 0 where
    pub requirements : List Requirement
    pub price : Price
    pub available : Bool

  pub record InstanceType : Type 0 where
    pub name : String
    pub requirements : List Requirement
    pub offerings : List Offering
    pub capacity : ResourceList
    pub kube_reserved : Reservation
    pub system_reserved : Reservation

  pub record Provider : Type 0 where
    pub zone : String
    pub by_name : Map InstanceType
    pub by_id : Map InstanceType
    pub prices : Map Price

  abbrev price_or_max : Option Price → Price
  price_or_max none = max_price
  price_or_max (some p) = p

  abbrev nothing_reserved : Reservation
  nothing_reserved = record { cpu = 0; memory = 0; ephemeral_storage = 0 }

  unfoldable pub create_instance_type : String → Map Price → String → ListedType → InstanceType
  create_instance_type zone prices name t = record {
    name = name;
    requirements = build_instance_requirements t.family t.size name zone (ltb 0 t.gpus);
    offerings =
        record {
          requirements = one_of capacity_type_label_key capacity_type_on_demand ∷ [];
          price = price_or_max (lookup name prices);
          available = true;
        }
        ∷ [];
    capacity = build_resource_list t.cpus t.memory t.gpus;
    kube_reserved = nothing_reserved;
    system_reserved = nothing_reserved;
  }

  -- The loop of `buildInstanceTypes`, with the two maps built so far, by name and by ID.
  unfoldable pub build_loop :
      String
      → Map Price
      → List ListedType
      → Map InstanceType
      → Map InstanceType
      → Map InstanceType × Map InstanceType
  build_loop zone prices [] by_name by_id = (by_name, by_id)
  build_loop zone prices (t ∷ ts) by_name by_id =
      let made = create_instance_type zone prices (type_name t) t in
      let skipped = build_loop zone prices ts by_name by_id in
      let added =
        build_loop zone prices ts (insert (type_name t) made by_name) (insert t.id made by_id) in
      if not (is_authorized t.authorized)
      then skipped
      else if not (in_zone t.zones zone)
      then skipped
      else added

  unfoldable pub build_instance_types :
      Provider → List ListedType → Map InstanceType × Map InstanceType
  build_instance_types p types = build_loop p.zone p.prices types [] []

  abbrev refreshed :
      Provider → Result ApiError (List ListedType) → Provider × Result ApiError (Unit {0})
  refreshed p (err e) = (p, err e)
  refreshed p (ok types) =
      let (by_name, by_id) = build_instance_types p types in
      (record p { by_name = by_name; by_id = by_id }, ok tt)

  -- `Refresh`, with the answer of the API.
  unfoldable pub refresh :
      Provider → Result ApiError (List ListedType) → Provider × Result ApiError (Unit {0})
  refresh p answer = refreshed p answer

  unfoldable pub get_by_name : Provider → String → Option InstanceType
  get_by_name p name = lookup name p.by_name

  unfoldable pub get_by_id : Provider → String → Option InstanceType
  get_by_id p id = lookup id p.by_id

  unfoldable pub find_id : String → Map InstanceType → Option String
  find_id name [] = none
  find_id name ((id, t) ∷ m) = let rest = find_id name m in if t.name == name then some id else rest

  unfoldable pub get_id_for_name : Provider → String → Option String
  get_id_for_name p name = find_id name p.by_id

  -- `parse` is `resource.ParseQuantity`.
  module _ (parse : String → Option ℕ) where
    abbrev parse_resource : Option ℕ → ℕ
    parse_resource none = 0
    parse_resource (some q) = q

    -- What `List` tells of one type, with the disk and the reservations of a NodeClass.
    unfoldable pub with_node_class : ExoscaleNodeClass → InstanceType → InstanceType
    with_node_class nc t =
        let kube = nc.spec.kubelet.kube_reserved in
        let system = nc.spec.kubelet.system_reserved in
        record t {
          capacity = insert resource_ephemeral_storage (disk_bytes nc.spec.disk_size) t.capacity;
          kube_reserved = record {
            cpu = parse_resource (parse kube.cpu);
            memory = parse_resource (parse kube.memory);
            ephemeral_storage = parse_resource (parse kube.ephemeral_storage);
          };
          system_reserved = record {
            cpu = parse_resource (parse system.cpu);
            memory = parse_resource (parse system.memory);
            ephemeral_storage = parse_resource (parse system.ephemeral_storage);
          };
        }

    -- `List`
    unfoldable pub list_types : Provider → ExoscaleNodeClass → List InstanceType
    list_types p nc = map (λ (e : String × InstanceType). with_node_class nc e.1) p.by_name
