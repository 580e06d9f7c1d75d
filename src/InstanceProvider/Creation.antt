-- ===== src/InstanceProvider/Creation.antt =====
-- `Create` of the instance provider: the request is put together, then sent, then networks and
-- addresses are attached, and a failure to attach one deletes the instance.
use Prim.Native.Char.{Char, code}
use karpenter_provider_exosc.Constants.{resource_cpu, resource_memory, resource_nvidia_gpu}
use karpenter_provider_exosc.Kube.{ApiError, NodeClaim, ResourceList}
use karpenter_provider_exosc.NodeClass.{ExoscaleNodeClass}
use karpenter_provider_exosc.Instance.{
  ExoInstance, ExoInstanceType, Instance, from_exoscale_instance,
}
use karpenter_provider_exosc.InstanceProvider.Labels.{
  Options, generate_instance_labels, get_sks_default_security_group_id, requested_security_groups,
}
use karpenter_provider_exosc.InstanceProvider.Groups.{GroupError, check_anti_affinity_groups}
use karpenter_provider_exosc.InstanceProvider.Cheapest.{find_cheapest_instance_type}
use karpenter_provider_exosc.InstanceProvider.Attach.{AttachError}
use karpenter_provider_exosc.Prelude.{
  ℕ, Bool, true, false, not, Option, none, some, String, List, [], ◌∷◌, ◌++◌, Map, lookup, insert,
  Result, ok, err, wrap, ◌>>=◌, eqb, ◌^^◌, if◌then◌else◌, ◌==◌,
}

pub record CreateRequest : Type 0 where
  pub name : String
  pub instance_type : String
  pub template : String
  pub disk_size : ℕ
  pub user_data : String
  pub labels : Map String
  pub security_groups : List String
  pub anti_affinity_groups : List String
  pub ipv6_enabled : Bool
  pub dual_stack : Bool

pub data CreateError : Type 0 where
  user_data_failed unsupported_os unsupported_arch no_instance_type no_type_id template_failed
        sks_failed create_failed get_failed networks_failed addresses_failed no_instance :
      CreateError
  groups_failed : GroupError → CreateError

-- A request that changes something.
pub data Request : Type 0 where
  create_instance : CreateRequest → Request
  attach_network attach_address : String → String → Request
  delete_instance : String → Request

module _ (Price : Type 0) (lt : Price → Price → Bool) (zero_price : Price) where
  -- What the requirements of the claim, the index of types and the APIs answer in one call.
  pub record Surroundings : Type 0 where
    pub user_data : Result (Unit {0}) String
    pub os_allowed : Bool
    pub arch_allowed : Bool
    pub instance_types : List String
    pub price_of : String → Option Price
    pub id_for_name : String → Option String
    pub capacity_of : String → Option ResourceList
    pub group_instances : String → Result ApiError (List String)
    pub template : Result ApiError String
    pub sks_cluster : String → Result ApiError (Option (Option String))
    pub create : CreateRequest → Result ApiError String
    pub get_instance : String → Result ApiError ExoInstance
    pub attach_network : String → Result AttachError (Unit {0})
    pub attach_address : String → Result AttachError (Unit {0})

  abbrev value_or_zero : Option ℕ → ℕ
  value_or_zero none = 0
  value_or_zero (some n) = n

  abbrev prepend : Char → Option (String × String) → Option (String × String)
  prepend c none = none
  prepend c (some (a, b)) = some (String.◌∷◌ c a, b)

  -- `strings.SplitN(s, ".", 2)` where it gives two parts.
  unfoldable pub cut_dot : String → Option (String × String)
  cut_dot String.[] = none
  cut_dot (String.◌∷◌ c s) =
      let rest = cut_dot s in if eqb (code c) 46 then some ("", s) else prepend c rest

  abbrev parts_or_empty : Option (String × String) → String × String
  parts_or_empty none = ("", "")
  parts_or_empty (some p) = p

  unfoldable pub split_dot : String → String × String
  split_dot s = parts_or_empty (cut_dot s)

  abbrev guard : Bool → CreateError → Result CreateError (Unit {0})
  guard true e = ok tt
  guard false e = err e

  abbrev is_nonempty : List String → Bool
  is_nonempty [] = false
  is_nonempty (x ∷ xs) = true

  abbrev or_error : Option String → CreateError → Result CreateError String
  or_error none e = err e
  or_error (some s) e = ok s

  -- The loop that collects the prices.
  abbrev add_price : String → Option Price → Map Price → Map Price
  add_price n none prices = prices
  add_price n (some p) prices = insert n p prices

  unfoldable pub collect_prices : (String → Option Price) → List String → Map Price → Map Price
  collect_prices price_of [] prices = prices
  collect_prices price_of (n ∷ ns) prices =
      collect_prices price_of ns (add_price n (price_of n) prices)

  unfoldable pub chosen_type : Surroundings → String
  chosen_type s =
      find_cheapest_instance_type lt zero_price s.instance_types
        (collect_prices s.price_of s.instance_types [])

  unfoldable pub build_request :
      Surroundings → Options → ExoscaleNodeClass → NodeClaim → Result CreateError CreateRequest
  build_request s o nc claim = do
    user_data ← wrap (λ _. user_data_failed) s.user_data
    _ ← guard s.os_allowed unsupported_os
    _ ← guard s.arch_allowed unsupported_arch
    _ ← guard (is_nonempty s.instance_types) no_instance_type
    type_id ← or_error (s.id_for_name (chosen_type s)) no_type_id
    _ ←
        wrap groups_failed
          (check_anti_affinity_groups s.group_instances nc.status.anti_affinity_groups)
    template ← wrap (λ _. template_failed) s.template
    sks ← wrap (λ _. sks_failed) (get_sks_default_security_group_id o s.sks_cluster)
    ok (record {
      name = if not (o.instance_prefix == "") then o.instance_prefix ^^ claim.name else claim.name;
      instance_type = type_id;
      template = template;
      disk_size = nc.spec.disk_size;
      user_data = user_data;
      labels = generate_instance_labels o claim;
      security_groups = requested_security_groups nc.status.security_groups sks;
      anti_affinity_groups = nc.status.anti_affinity_groups;
      ipv6_enabled = nc.spec.enable_ipv6;
      dual_stack = nc.spec.enable_ipv6;
    })

  abbrev pub attached :
      Request → Result AttachError (Unit {0}) → List Request × Bool → List Request × Bool
  attached r (ok _) (later, all) = (r ∷ later, all)
  attached r (err e) later = (r ∷ [], false)

  -- The loop over networks or addresses, up to the first failure: the requests, and whether all are
  -- attached.
  unfoldable pub attach_each :
      (String → Request)
      → (String → Result AttachError (Unit {0}))
      → List String
      → List Request × Bool
  attach_each request attach [] = ([], true)
  attach_each request attach (x ∷ xs) =
      attached (request x) (attach x) (attach_each request attach xs)

  abbrev type_of : String × String → Option ℕ → Option ℕ → Option ℕ → ExoInstanceType
  type_of (family, size) cpus memory gpus = record {
    id = "";
    family = family;
    size = size;
    cpus = value_or_zero cpus;
    memory = value_or_zero memory;
    gpus = value_or_zero gpus;
  }

  -- The type of the created instance, filled in from the index: it is left empty where the index
  -- does not know the name.
  unfoldable pub hydrated : String → Option ResourceList → ExoInstanceType
  hydrated name none = type_of ("", "") none none none
  hydrated name (some capacity) =
      type_of (split_dot name) (lookup resource_cpu capacity) (lookup resource_memory capacity)
        (lookup resource_nvidia_gpu capacity)

  abbrev pub converted : Option Instance → Result CreateError Instance
  converted none = err no_instance
  converted (some i) = ok i

  -- What follows when the instance is there.
  unfoldable pub settle :
      Surroundings
      → Options
      → ExoscaleNodeClass
      → ExoInstance
      → List Request × Result CreateError Instance
  unfolding hydrated
  settle s o nc found =
      let name = chosen_type s in
      let x = record found { instance_type = hydrated name (s.capacity_of name) } in
      let (networks, networks_done) =
        attach_each (attach_network x.id) s.attach_network nc.status.private_networks in
      let (addresses, addresses_done) =
        attach_each (attach_address x.id) s.attach_address nc.status.elastic_ips in
      if not networks_done
      then (networks ++ delete_instance x.id ∷ [], err networks_failed)
      else if not addresses_done
      then (networks ++ addresses ++ delete_instance x.id ∷ [], err addresses_failed)
      else (
        networks ++ addresses,
        converted (from_exoscale_instance (some x) (s.capacity_of name) o.zone),
      )

  abbrev pub got :
      Surroundings
      → Options
      → ExoscaleNodeClass
      → Result ApiError ExoInstance
      → List Request × Result CreateError Instance
  got s o nc (err e) = ([], err get_failed)
  got s o nc (ok x) = settle s o nc x

  abbrev pub sent :
      Surroundings
      → Options
      → ExoscaleNodeClass
      → Result ApiError String
      → List Request × Result CreateError Instance
  sent s o nc (err e) = ([], err create_failed)
  sent s o nc (ok id) = got s o nc (s.get_instance id)

  abbrev pub built :
      Surroundings
      → Options
      → ExoscaleNodeClass
      → Result CreateError CreateRequest
      → List Request × Result CreateError Instance
  built s o nc (err e) = ([], err e)
  built s o nc (ok request) =
      let (later, end) = sent s o nc (s.create request) in (create_instance request ∷ later, end)

  -- `Create`, without the annotation of the NodeClaim at its end, whose failure is only logged.
  unfoldable pub create :
      Surroundings
      → Options
      → ExoscaleNodeClass
      → NodeClaim
      → List Request × Result CreateError Instance
  create s o nc claim = built s o nc (build_request s o nc claim)
