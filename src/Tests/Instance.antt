-- ===== src/Tests/Instance.antt =====
-- An instance with both kinds of address.
use karpenter_provider_exosc.Instance.{Instance, from_exoscale_instance, to_node_claim}
use karpenter_provider_exosc.Instance.Convert.{to_node_claim-from_exoscale_instance}
use karpenter_provider_exosc.Prelude.{
  ◌≡◌, ◌≢◌, refl, subst, some_inj, false, Option, some, none, String, [], ◌∷◌, ok,
}
use karpenter_provider_exosc.ProviderId.{
  IsUuid, match_uuid_iff, take_hex, take_group, match_all, match_uuid, parse_provider_id,
  contains_ipv6_address, is_ipv6,
}
use karpenter_provider_exosc.Samples.{simple_lo, simple_net, exo_instance}

program : Unit {0}
unfolding take_hex take_group match_all match_uuid from_exoscale_instance to_node_claim is_ipv6
    contains_ipv6_address
program = tt

get_value : (o : Option Instance) → o ≢ none → Instance
get_value none h = absurd (h refl)
get_value (some i) h = i

some≢none : {i : Instance} → some i ≢ none
some≢none e = cc

abbrev instance : Instance
unfolding get_value program
instance =
    get_value (from_exoscale_instance (some exo_instance) (some (("cpu", 2) ∷ [])) "ch-gva-2")
      some≢none

uuid : IsUuid exo_instance.id
unfolding program
uuid = (match_uuid_iff exo_instance.id).0 refl

to_node_claim-from_exoscale_instance_example :
    parse_provider_id (to_node_claim simple_lo instance).provider_id ≡ ok exo_instance.id
unfolding instance
to_node_claim-from_exoscale_instance_example =
    (to_node_claim-from_exoscale_instance simple_lo exo_instance (("cpu", 2) ∷ []) "ch-gva-2"
      instance refl uuid).0

public_v4 : (ip : String) → exo_instance.public_ip ≡ some ip → is_ipv6 simple_net ip ≡ false
unfolding is_ipv6
public_v4 ip e = subst (λ (x : String). is_ipv6 simple_net x ≡ false) (some_inj e) refl
