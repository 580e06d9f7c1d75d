-- ===== src/Tests/Creation.antt =====
-- The creation of an instance with one network, where the first type has the better price.
use karpenter_provider_exosc.InstanceProvider.Creation.{
  CreateRequest, Request, create_instance, Surroundings, build_request, create, chosen_type,
  collect_prices, hydrated, split_dot, cut_dot,
}
use karpenter_provider_exosc.InstanceProvider.Attached.{Settles, create-Settles}
use karpenter_provider_exosc.InstanceProvider.Cheapest.{
  find_cheapest_instance_type, cheapest_loop, visit,
}
use karpenter_provider_exosc.InstanceProvider.Groups.{check_anti_affinity_groups}
use karpenter_provider_exosc.InstanceProvider.{
  generate_instance_labels, get_sks_default_security_group_id, sks_default_sg_id_from_cluster,
  requested_security_groups,
}
use karpenter_provider_exosc.Samples.{options, node_claim, node_class, exo_instance}
use karpenter_provider_exosc.Prelude.{ℕ, ◌≡◌, refl, true, some, List, [], ◌∷◌, ok, ltb}

program : Unit {0}
unfolding build_request chosen_type collect_prices find_cheapest_instance_type cheapest_loop visit
    check_anti_affinity_groups generate_instance_labels get_sks_default_security_group_id
    sks_default_sg_id_from_cluster requested_security_groups hydrated split_dot cut_dot
program = tt

abbrev surroundings : Surroundings ℕ ltb 0
surroundings = record {
  user_data = ok "#cloud-config";
  os_allowed = true;
  arch_allowed = true;
  instance_types = "standard.small" ∷ "standard.large" ∷ [];
  price_of = λ n. some 3;
  id_for_name = λ n. some n;
  capacity_of = λ n. some (("cpu", 2) ∷ []);
  group_instances = λ id. ok [];
  template = ok "tpl";
  sks_cluster = λ id. ok (some (some "sks"));
  create = λ r. ok exo_instance.id;
  get_instance = λ id. ok exo_instance;
  attach_network = λ id. ok tt;
  attach_address = λ id. ok tt;
}

abbrev request : CreateRequest
request = record {
  name = "claim-1";
  instance_type = "standard.small";
  template = "tpl";
  disk_size = 50;
  user_data = "#cloud-config";
  labels = generate_instance_labels options node_claim;
  security_groups = "sg-1" ∷ "sks" ∷ [];
  anti_affinity_groups = [];
  ipv6_enabled = true;
  dual_stack = true;
}

request_lem : build_request ℕ ltb 0 surroundings options node_class node_claim ≡ ok request
unfolding program
request_lem = refl

create-Settles_example :
    let r = create ℕ ltb 0 surroundings options node_class node_claim in
    (later : List Request) × (r.0 ≡ create_instance request ∷ later)
    × Settles ℕ ltb 0 surroundings node_class exo_instance.id (later, r.1)
create-Settles_example =
    create-Settles ℕ ltb 0 surroundings options node_class exo_instance node_claim request
      exo_instance.id request_lem refl refl
