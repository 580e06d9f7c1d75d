-- ===== src/Instance/Convert.antt =====
-- What an instance keeps of the API's answer, and what its NodeClaim keeps of the instance.
use karpenter_provider_exosc.Constants.{
  label_topology_zone, label_instance_type_stable, label_os_stable, instance_label_node_claim,
}
use karpenter_provider_exosc.Lo.{Lo}
use karpenter_provider_exosc.Kube.{ResourceList}
use karpenter_provider_exosc.Prelude.{
  ◌≡◌, ◌≢◌, ◌↔◌, inl, inr, refl, true, false, some, String, arith, ok, List, [], ◌∷◌, ◌^^◌, lookup,
  eq_iff, ◌||◌, ◌++◌, Option-cases,
}
use karpenter_provider_exosc.ProviderId.{
  IsUuid, parse_provider_id, parse_provider_id_iff, NodeAddress, Net, is_ipv6,
  contains_ipv6_address,
}
use karpenter_provider_exosc.Instance.Defs.{
  ExoInstance, Instance, from_exoscale_instance, to_node_claim, base_labels,
}

module _ (lo : Lo) where
  open lo use {assign_falls, assign_wins}

  -- The provider ID that the NodeClaim of an instance carries parses back to the instance's ID,
  -- where that is a UUID; the NodeClaim's image is the instance's template, its zone label the zone
  -- of the provider, its operating system `linux` and its instance type `family.size`; and its
  -- name is the value of the instance's node-claim label.
  pub to_node_claim-from_exoscale_instance :
      (x : ExoInstance) (type_capacity : ResourceList) (zone : String) (i : Instance)
      → from_exoscale_instance (some x) (some type_capacity) zone ≡ some i
      → IsUuid x.id
      → let nc = to_node_claim lo i in
        (parse_provider_id nc.provider_id ≡ ok x.id)
        × (nc.image_id ≡ x.template)
        × (lookup label_topology_zone nc.labels ≡ some zone)
        × (lookup label_os_stable nc.labels ≡ some "linux")
        × (lookup label_instance_type_stable nc.labels
            ≡ some (x.instance_type.family ^^ "." ^^ x.instance_type.size))
        × ((name : String) → lookup instance_label_node_claim x.labels ≡ some name → nc.name ≡ name)
  unfolding from_exoscale_instance to_node_claim
  to_node_claim-from_exoscale_instance x type_capacity zone i h uuid = (
    (parse_provider_id_iff _ x.id).1 (ground arith, uuid),
    ground arith,
    ground (arith, assign_falls (base_labels i) i.template.labels label_topology_zone),
    ground (arith, assign_wins (base_labels i) i.template.labels label_os_stable "linux"),
    ground (arith, assign_falls (base_labels i) i.template.labels label_instance_type_stable),
    λ name found. ground arith,
  )

module _ (net : Net) where
  contains-append :
      (xs ys : List NodeAddress)
      → contains_ipv6_address net (xs ++ ys)
        ≡ (contains_ipv6_address net xs || contains_ipv6_address net ys)
  unfolding contains_ipv6_address
  contains-append [] ys = refl
  contains-append (x ∷ xs) ys = ground (arith, contains-append xs ys)

  -- An instance whose name and public address are no IPv6 addresses counts as having IPv6 exactly
  -- when the API reported a valid IPv6 address for it: this is what the drift check reads.
  pub contains_ipv6_address-from_exoscale_instance :
      (x : ExoInstance) (type_capacity : ResourceList) (zone : String) (i : Instance)
      → from_exoscale_instance (some x) (some type_capacity) zone ≡ some i
      → is_ipv6 net x.name ≡ false
      → ((ip : String) → x.public_ip ≡ some ip → is_ipv6 net ip ≡ false)
      → (contains_ipv6_address net i.addresses ≡ true)
        ↔ ((x.ipv6_address ≢ "") × (is_ipv6 net x.ipv6_address ≡ true))
  unfolding from_exoscale_instance contains_ipv6_address
  contains_ipv6_address-from_exoscale_instance x type_capacity zone i h name public =
      elim (Option-cases x.public_ip) [
        | inl e ↦ ground (arith, eq_iff x.ipv6_address "")
        | inr (ip, e) ↦ ground (arith, eq_iff x.ipv6_address "", public ip e)
      ]
