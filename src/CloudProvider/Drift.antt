-- ===== src/CloudProvider/Drift.antt =====
-- `IsDrifted`: the checks in the order of the source; the first that finds a difference names the
-- reason, and where none does the labels of the instance are repaired.
use karpenter_provider_exosc.Constants.{annotation_configuration_hash}
use karpenter_provider_exosc.Kube.{NodeClaim, NodeClassRef, ApiError}
use karpenter_provider_exosc.NodeClass.{ExoscaleNodeClass}
use karpenter_provider_exosc.Instance.{Instance, is_running}
use karpenter_provider_exosc.InstanceProvider.{
  Options, generate_instance_labels, get_sks_default_security_group_id, TagError,
}
use karpenter_provider_exosc.Lo.{Lo}
use karpenter_provider_exosc.ProviderId.{ParseError, parse_provider_id, Net, contains_ipv6_address}
use karpenter_provider_exosc.CloudProvider.Groups.{compute_expected_security_groups}
use karpenter_provider_exosc.Prelude.{
  Bool, true, false, not, ◌&&◌, ◌||◌, Option, none, some, String, List, [], ◌∷◌, Map, lookup,
  maps_equal, Result, ok, err, wrap, if◌then◌else◌, ◌==◌,
}

pub data DriftReason : Type 0 where
  image_id anti_affinity_groups security_groups private_networks elastic_ips ipv6
        user_data_changed :
      DriftReason

pub data DriftError : Type 0 where
  no_node_class_ref get_node_class_failed get_instance_failed sks_failed update_labels_failed :
      DriftError
  bad_provider_id : ParseError → DriftError

-- How a call ends: an error, or a reason (`none` is the empty reason); and the labels that it asked
-- the provider to write on the instance, if it did.
pub record Verdict : Type 0 where
  pub reason : Result DriftError (Option DriftReason)
  pub written : Option (Map String)

-- What the APIs answer in one call.
pub record Answers : Type 0 where
  pub node_class : String → Result ApiError ExoscaleNodeClass
  pub instance : String → Result ApiError Instance
  pub sks_cluster : String → Result ApiError (Option (Option String))
  pub update_tags : Map String → Result TagError (Unit {0})

abbrev pub drifted : DriftReason → Verdict
drifted r = record { reason = ok (some r); written = none }

abbrev pub fails : DriftError → Verdict
fails e = record { reason = err e; written = none }

abbrev is_empty : List String → Bool
is_empty [] = true
is_empty (s ∷ ss) = false

abbrev annotation_or_empty : Option String → String
annotation_or_empty none = ""
annotation_or_empty (some v) = v

-- `resolveNodeClassFromNodeClaim`
unfoldable pub resolve_node_class_from_node_claim :
    (String → Result ApiError ExoscaleNodeClass)
    → Option NodeClassRef
    → Result DriftError ExoscaleNodeClass
resolve_node_class_from_node_claim get none = err no_node_class_ref
resolve_node_class_from_node_claim get (some ref) = wrap (λ _. get_node_class_failed) (get ref.name)

module _ (lo : Lo) (net : Net) (o : Options) where
  -- `len(left) != 0 || len(right) != 0` after `lo.Difference`.
  unfoldable pub differ : List String → List String → Bool
  differ a b = not (is_empty (lo.difference a b).0) || not (is_empty (lo.difference a b).1)

  unfoldable pub image_drifted : ExoscaleNodeClass → NodeClaim → Bool
  image_drifted nc claim =
      if nc.status.image_id == "" then false else not (claim.image_id == nc.status.image_id)

  unfoldable pub ipv6_drifted : ExoscaleNodeClass → Instance → Bool
  ipv6_drifted nc i =
      if nc.spec.enable_ipv6 && not (contains_ipv6_address net i.addresses)
      then true
      else if not nc.spec.enable_ipv6 && contains_ipv6_address net i.addresses
      then true
      else false

  unfoldable pub user_data_drifted : ExoscaleNodeClass → NodeClaim → Bool
  user_data_drifted nc claim = not (
      annotation_or_empty (lookup annotation_configuration_hash claim.annotations)
      == nc.status.configuration_hash)

  unfoldable pub write_answer : Map String → Result TagError (Unit {0}) → Verdict
  write_answer labels (ok _) = record { reason = ok none; written = some labels }
  write_answer labels (err e) = record { reason = err update_labels_failed; written = some labels }

  -- The repair of the labels, which ends the call.
  unfoldable pub repair_labels : Answers → NodeClaim → Instance → Verdict
  unfolding write_answer
  repair_labels w claim i =
      let expected = generate_instance_labels o claim in
      if not (maps_equal expected i.labels)
      then write_answer expected (w.update_tags expected)
      else record { reason = ok none; written = none }

  -- The checks behind the call for the cluster's default security group.
  unfoldable pub check_groups :
      Answers → ExoscaleNodeClass → NodeClaim → Instance → Option String → Verdict
  check_groups w nc claim i sks =
      if differ (compute_expected_security_groups nc.status.security_groups sks) i.security_groups
      then drifted security_groups
      else if differ nc.status.private_networks i.private_networks
      then drifted private_networks
      else if differ nc.status.elastic_ips i.elastic_ips
      then drifted elastic_ips
      else if user_data_drifted nc claim
      then drifted user_data_changed
      else repair_labels w claim i

  unfoldable pub with_sks :
      Answers → ExoscaleNodeClass → NodeClaim → Instance → Result ApiError (Option String) → Verdict
  with_sks w nc claim i (err e) = fails sks_failed
  with_sks w nc claim i (ok sks) = check_groups w nc claim i sks

  unfoldable pub check_instance : Answers → ExoscaleNodeClass → NodeClaim → Instance → Verdict
  unfolding with_sks
  check_instance w nc claim i =
      if not (is_running i)
      then record { reason = ok none; written = none }
      else if image_drifted nc claim
      then drifted image_id
      else if ipv6_drifted nc i
      then drifted ipv6
      else if differ nc.status.anti_affinity_groups i.anti_affinity_groups
      then drifted anti_affinity_groups
      else with_sks w nc claim i (get_sks_default_security_group_id o w.sks_cluster)

  unfoldable pub with_instance :
      Answers → ExoscaleNodeClass → NodeClaim → Result ApiError Instance → Verdict
  with_instance w nc claim (err e) = fails get_instance_failed
  with_instance w nc claim (ok i) = check_instance w nc claim i

  unfoldable pub with_id :
      Answers → ExoscaleNodeClass → NodeClaim → Result ParseError String → Verdict
  unfolding with_instance
  with_id w nc claim (err e) = fails (bad_provider_id e)
  with_id w nc claim (ok id) = with_instance w nc claim (w.instance id)

  unfoldable pub with_node_class :
      Answers → NodeClaim → Result DriftError ExoscaleNodeClass → Verdict
  unfolding with_id
  with_node_class w claim (err e) = fails e
  with_node_class w claim (ok nc) = with_id w nc claim (parse_provider_id claim.provider_id)

  -- `IsDrifted`
  unfoldable pub is_drifted : Answers → NodeClaim → Verdict
  unfolding with_node_class
  is_drifted w claim =
      with_node_class w claim (resolve_node_class_from_node_claim w.node_class claim.node_class_ref)
