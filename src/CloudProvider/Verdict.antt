-- ===== src/CloudProvider/Verdict.antt =====
-- When `IsDrifted` reports drift.
use karpenter_provider_exosc.Constants.{annotation_configuration_hash}
use karpenter_provider_exosc.Kube.{NodeClaim, NodeClassRef}
use karpenter_provider_exosc.NodeClass.{ExoscaleNodeClass}
use karpenter_provider_exosc.Instance.{Instance, is_running}
use karpenter_provider_exosc.InstanceProvider.{Options, get_sks_default_security_group_id}
use karpenter_provider_exosc.Lo.{Lo}
use karpenter_provider_exosc.ProviderId.{parse_provider_id, Net, contains_ipv6_address}
use karpenter_provider_exosc.CloudProvider.Groups.{
  compute_expected_security_groups, In-compute_expected_security_groups,
}
use karpenter_provider_exosc.CloudProvider.Drift.{
  DriftReason, DriftError, get_node_class_failed, Verdict, Answers, differ, image_drifted,
  ipv6_drifted, user_data_drifted, write_answer, repair_labels, check_groups, with_sks,
  check_instance, with_instance, with_id, with_node_class, is_drifted,
  resolve_node_class_from_node_claim,
}
use karpenter_provider_exosc.Prelude.{
  ◌≡◌, ◌≢◌, ◌↔◌, ◌⊎◌, refl, ap, ◌∙◌, inl, inr, Bool, true, false, Option, none, some, String, List,
  [], ◌∷◌, lookup, In, contains, contains_iff, Result, ok, err, wrap, arith, eq_iff, Bool-cases,
  Option-cases, iff_trans,
}

-- Two lists hold the same texts.
abbrev pub Same : List String → List String → Type 0
Same a b = (s : String) → In s a ↔ In s b

-- The instance and its NodeClaim are as the NodeClass says. `sks` is the cluster's default group.
pub record InSync (net : Net) (nc : ExoscaleNodeClass) (claim : NodeClaim) (i : Instance)
    (sks : Option String) : Type 0 where
  pub image : (nc.status.image_id ≡ "") ⊎ (claim.image_id ≡ nc.status.image_id)
  pub ipv6 : nc.spec.enable_ipv6 ≡ contains_ipv6_address net i.addresses
  pub anti_affinity_groups : Same nc.status.anti_affinity_groups i.anti_affinity_groups
  pub security_groups :
      (s : String)
      → (In s nc.status.security_groups ⊎ ((sks ≡ some s) × (s ≢ ""))) ↔ In s i.security_groups
  pub private_networks : Same nc.status.private_networks i.private_networks
  pub elastic_ips : Same nc.status.elastic_ips i.elastic_ips
  pub user_data :
      (lookup annotation_configuration_hash claim.annotations ≡ some nc.status.configuration_hash)
      ⊎ ((lookup annotation_configuration_hash claim.annotations ≡ none)
          × (nc.status.configuration_hash ≡ ""))

-- The call names a reason for drift.
abbrev named : Result DriftError (Option DriftReason) → Bool
named (ok (some r)) = true
named (ok none) = false
named (err e) = false

abbrev pub reports : Verdict → Bool
reports v = named v.reason

module _ (lo : Lo) (net : Net) (o : Options) where
  In-nil : (l : List String) → ((s : String) → ¬ In s l) → l ≡ []
  In-nil [] h = refl
  In-nil (x ∷ xs) h = absurd (h x (inl refl))

  dec_In : (s : String) (l : List String) → ¬ (¬ In s l) → In s l
  dec_In s l h = elim (Bool-cases (contains l s)) [
    | inl there ↦ (contains_iff l s).0 there
    | inr absent ↦ absurd (h (λ at. ground (arith, contains_iff l s)))
  ]

  differ-eq-false : (a b : List String) → (differ lo net o a b ≡ false) ↔ Same a b
  unfolding differ
  differ-eq-false a b = (to_same, from_same)
    where
      to_same : differ lo net o a b ≡ false → Same a b
      to_same h s =
          let left : (lo.difference a b).0 ≡ [] = ground arith in
          let right : (lo.difference a b).1 ≡ [] = ground arith in
          (
            λ at. dec_In s b (λ n. rw left at ((lo.difference_left a b s).1 (at, n))),
            λ at. dec_In s a (λ n. rw right at ((lo.difference_right a b s).1 (at, n))),
          )

      from_same : Same a b → differ lo net o a b ≡ false
      from_same h =
          let left =
            In-nil (lo.difference a b).0
              (λ s at. let p = (lo.difference_left a b s).0 at in p.1 ((h s).0 p.0)) in
          let right =
            In-nil (lo.difference a b).1
              (λ s at. let p = (lo.difference_right a b s).0 at in p.1 ((h s).1 p.0)) in
          rw (left, right)

  image-eq-false :
      (nc : ExoscaleNodeClass) (claim : NodeClaim)
      → (image_drifted lo net o nc claim ≡ false)
        ↔ ((nc.status.image_id ≡ "") ⊎ (claim.image_id ≡ nc.status.image_id))
  unfolding image_drifted
  image-eq-false nc claim =
      ground (arith, eq_iff nc.status.image_id "", eq_iff claim.image_id nc.status.image_id)

  ipv6-eq-false :
      (nc : ExoscaleNodeClass) (i : Instance)
      → (ipv6_drifted lo net o nc i ≡ false)
        ↔ (nc.spec.enable_ipv6 ≡ contains_ipv6_address net i.addresses)
  unfolding ipv6_drifted
  ipv6-eq-false nc i = ground arith

  user_data-eq-false :
      (nc : ExoscaleNodeClass) (claim : NodeClaim)
      → (user_data_drifted lo net o nc claim ≡ false) ↔ (
          (lookup annotation_configuration_hash claim.annotations
            ≡ some nc.status.configuration_hash)
          ⊎ ((lookup annotation_configuration_hash claim.annotations ≡ none)
              × (nc.status.configuration_hash ≡ "")))
  unfolding user_data_drifted
  user_data-eq-false nc claim =
      elim (Option-cases (lookup annotation_configuration_hash claim.annotations)) [
        | inl e ↦ rw (e, user_data_drifted) (ground (arith, eq_iff "" nc.status.configuration_hash))
        | inr (v, e) ↦
            rw (e, user_data_drifted) (ground (arith, eq_iff v nc.status.configuration_hash))
      ]

  repair_labels-quiet :
      (w : Answers) (claim : NodeClaim) (i : Instance)
      → reports (repair_labels lo net o w claim i) ≡ false
  unfolding repair_labels write_answer
  repair_labels-quiet w claim i = ground arith

  -- The checks report exactly if one of them finds a difference.
  pub check_groups-quiet :
      (w : Answers) (nc : ExoscaleNodeClass) (claim : NodeClaim) (i : Instance)
      (sks : Option String)
      → (reports (check_groups lo net o w nc claim i sks) ≡ false) ↔ (
          (differ lo net o
              (compute_expected_security_groups nc.status.security_groups sks)
              i.security_groups
            ≡ false)
          × (differ lo net o nc.status.private_networks i.private_networks ≡ false)
          × (differ lo net o nc.status.elastic_ips i.elastic_ips ≡ false)
          × (user_data_drifted lo net o nc claim ≡ false))
  unfolding check_groups
  check_groups-quiet w nc claim i sks = ground (arith, repair_labels-quiet w claim i)

  pub check_instance-quiet :
      (w : Answers) (nc : ExoscaleNodeClass) (claim : NodeClaim) (i : Instance)
      (sks : Option String)
      → is_running i ≡ true
      → get_sks_default_security_group_id o w.sks_cluster ≡ ok sks
      → (reports (check_instance lo net o w nc claim i) ≡ false) ↔ (
          (image_drifted lo net o nc claim ≡ false)
          × (ipv6_drifted lo net o nc i ≡ false)
          × (differ lo net o nc.status.anti_affinity_groups i.anti_affinity_groups ≡ false)
          × (reports (check_groups lo net o w nc claim i sks) ≡ false))
  unfolding check_instance with_sks
  check_instance-quiet w nc claim i sks running found = rw (found, check_instance) (ground arith)

  pub is_drifted-eq :
      (w : Answers) (claim : NodeClaim) (ref : NodeClassRef) (nc : ExoscaleNodeClass) (id : String)
      (i : Instance)
      → claim.node_class_ref ≡ some ref
      → w.node_class ref.name ≡ ok nc
      → parse_provider_id claim.provider_id ≡ ok id
      → w.instance id ≡ ok i
      → is_drifted lo net o w claim ≡ check_instance lo net o w nc claim i
  unfolding is_drifted with_node_class with_id with_instance resolve_node_class_from_node_claim
  is_drifted-eq w claim ref nc id i r c p g =
      ap (λ x. with_node_class lo net o w claim (resolve_node_class_from_node_claim w.node_class x))
        r
      ∙ ap (λ x. with_node_class lo net o w claim (wrap (λ _. get_node_class_failed) x)) c
      ∙ ap (with_id lo net o w nc claim) p
      ∙ ap (with_instance lo net o w nc claim) g

  -- For a running instance, where every lookup succeeds, the call reports a reason for drift unless
  -- image, IPv6, anti-affinity groups, security groups, private networks, elastic IPs and
  -- configuration hash all are as the NodeClass says, and reports none if they are.
  pub is_drifted-InSync :
      (w : Answers) (claim : NodeClaim) (ref : NodeClassRef) (nc : ExoscaleNodeClass) (id : String)
      (i : Instance) (sks : Option String)
      → claim.node_class_ref ≡ some ref
      → w.node_class ref.name ≡ ok nc
      → parse_provider_id claim.provider_id ≡ ok id
      → w.instance id ≡ ok i
      → is_running i ≡ true
      → get_sks_default_security_group_id o w.sks_cluster ≡ ok sks
      → (reports (is_drifted lo net o w claim) ≡ false) ↔ InSync net nc claim i sks
  is_drifted-InSync w claim ref nc id i sks r c p g running found =
      rw (is_drifted-eq w claim ref nc id i r c p g) (to_sync, from_sync)
    where
      to_sync : reports (check_instance lo net o w nc claim i) ≡ false → InSync net nc claim i sks
      to_sync h =
          let (a, b, c, d) = (check_instance-quiet w nc claim i sks running found).0 h in
          let (e, f, g, k) = (check_groups-quiet w nc claim i sks).0 d in
          record {
            image = (image-eq-false nc claim).0 a;
            ipv6 = (ipv6-eq-false nc i).0 b;
            anti_affinity_groups = (differ-eq-false _ _).0 c;
            security_groups = λ s.
                let x = (differ-eq-false _ _).0 e s in
                let y = In-compute_expected_security_groups nc.status.security_groups sks s in
                (λ t. x.0 (y.1 t), λ t. y.0 (x.1 t));
            private_networks = (differ-eq-false _ _).0 f;
            elastic_ips = (differ-eq-false _ _).0 g;
            user_data = (user_data-eq-false nc claim).0 k;
          }

      from_sync : InSync net nc claim i sks → reports (check_instance lo net o w nc claim i) ≡ false
      from_sync v = (check_instance-quiet w nc claim i sks running found).1 (
        (image-eq-false nc claim).1 v.image,
        (ipv6-eq-false nc i).1 v.ipv6,
        (differ-eq-false _ _).1 v.anti_affinity_groups,
        (check_groups-quiet w nc claim i sks).1 (
          (differ-eq-false _ _).1 (λ s.
              iff_trans (In-compute_expected_security_groups nc.status.security_groups sks s)
                (v.security_groups s)),
          (differ-eq-false _ _).1 v.private_networks,
          (differ-eq-false _ _).1 v.elastic_ips,
          (user_data-eq-false nc claim).1 v.user_data,
        ),
      )
