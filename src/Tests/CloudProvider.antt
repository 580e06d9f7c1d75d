-- ===== src/Tests/CloudProvider.antt =====
-- A claim whose instance is as its NodeClass says, but for a label that Karpenter does not write.
use karpenter_provider_exosc.CloudProvider.Groups.{
  compute_expected_security_groups, requested-eq-expected,
}
use karpenter_provider_exosc.CloudProvider.Drift.{Answers, is_drifted}
use karpenter_provider_exosc.CloudProvider.Verdict.{InSync, reports, is_drifted-InSync}
use karpenter_provider_exosc.CloudProvider.Repair.{IsRepair, is_drifted_repairs}
use karpenter_provider_exosc.Instance.{Instance, from_exoscale_instance, is_running}
use karpenter_provider_exosc.InstanceProvider.{
  get_sks_default_security_group_id, sks_default_sg_id_from_cluster, requested_security_groups,
}
use karpenter_provider_exosc.ProviderId.{
  take_hex, take_group, match_all, match_uuid, check_id, parse_provider_id, is_ipv6,
  contains_ipv6_address,
}
use karpenter_provider_exosc.Samples.{
  simple_lo, simple_net, options, node_class_ref, node_claim, node_class, exo_instance,
}
use karpenter_provider_exosc.Prelude.{
  ◌≡◌, ◌≢◌, ◌↔◌, ◌⊎◌, refl, inl, inr, true, false, Option, some, none, String, [], ◌∷◌, ok, In,
  arith, eq_iff, some_inj,
}

program : Unit {0}
unfolding take_hex take_group match_all match_uuid check_id parse_provider_id from_exoscale_instance
    is_running get_sks_default_security_group_id sks_default_sg_id_from_cluster is_ipv6
    contains_ipv6_address
program = tt

abbrev group : Option String
group = some "sks"

named_group : group ≢ some ""
named_group e = ground (arith, eq_iff "sks" "", some_inj e)

requested-eq-expected_example :
    requested_security_groups ("sg-1" ∷ []) (some "sks")
    ≡ compute_expected_security_groups ("sg-1" ∷ []) (some "sks")
requested-eq-expected_example = requested-eq-expected ("sg-1" ∷ []) (some "sks") named_group

get_value : (o : Option Instance) → o ≢ none → Instance
get_value none h = absurd (h refl)
get_value (some i) h = i

some≢none : {i : Instance} → some i ≢ none
some≢none e = cc

abbrev instance : Instance
unfolding get_value program
instance =
    get_value (from_exoscale_instance (some exo_instance) (some (("cpu", 2) ∷ [])) "ch-gva-2")
      some≢none

abbrev answers : Answers
answers = record {
  node_class = λ n. ok node_class;
  instance = λ id. ok instance;
  sks_cluster = λ id. ok (some (some "sks"));
  update_tags = λ l. ok tt;
}

parsed : parse_provider_id node_claim.provider_id ≡ ok exo_instance.id
unfolding program
parsed = refl

running : is_running instance ≡ true
unfolding program instance
running = refl

sks : get_sks_default_security_group_id options answers.sks_cluster ≡ ok (some "sks")
unfolding program
sks = refl

is_drifted-InSync_example :
    (reports (is_drifted simple_lo simple_net options answers node_claim) ≡ false)
    ↔ InSync simple_net node_class node_claim instance (some "sks")
is_drifted-InSync_example =
    is_drifted-InSync simple_lo simple_net options answers node_claim node_class_ref node_class
      exo_instance.id instance (some "sks") refl refl parsed refl running sks

same :
    (s : String)
    → (In s ("sg-1" ∷ []) ⊎ ((some "sks" ≡ some s) × (s ≢ ""))) ↔ In s ("sks" ∷ "sg-1" ∷ [])
same s = ground (arith, eq_iff "sks" s, eq_iff "sks" "")

in_sync : InSync simple_net node_class node_claim instance (some "sks")
unfolding program instance
in_sync = record {
  image = inr refl;
  ipv6 = refl;
  anti_affinity_groups = λ s. (λ h. h, λ h. h);
  security_groups = same;
  private_networks = λ s. (λ h. h, λ h. h);
  elastic_ips = λ s. (λ h. h, λ h. h);
  user_data = inl refl;
}

is_drifted_repairs_example :
    IsRepair simple_lo simple_net options answers node_claim instance
      (is_drifted simple_lo simple_net options answers node_claim)
is_drifted_repairs_example =
    is_drifted_repairs simple_lo simple_net options answers node_claim node_class_ref node_class
      exo_instance.id instance (some "sks") refl refl parsed refl running sks in_sync
