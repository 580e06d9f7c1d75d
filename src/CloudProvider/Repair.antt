-- ===== src/CloudProvider/Repair.antt =====
-- What `IsDrifted` writes where it finds no drift.
use karpenter_provider_exosc.Kube.{NodeClaim, NodeClassRef}
use karpenter_provider_exosc.NodeClass.{ExoscaleNodeClass}
use karpenter_provider_exosc.Instance.{Instance, is_running}
use karpenter_provider_exosc.InstanceProvider.{
  Options, generate_instance_labels, get_sks_default_security_group_id, TagError,
}
use karpenter_provider_exosc.Lo.{Lo}
use karpenter_provider_exosc.ProviderId.{parse_provider_id, Net}
use karpenter_provider_exosc.CloudProvider.Groups.{compute_expected_security_groups}
use karpenter_provider_exosc.CloudProvider.Drift.{
  update_labels_failed, Answers, Verdict, differ, image_drifted, ipv6_drifted, user_data_drifted,
  write_answer, repair_labels, check_groups, with_sks, check_instance, is_drifted,
}
use karpenter_provider_exosc.Prelude.{
  ◌≡◌, ◌⊎◌, refl, ◌∙◌, inl, inr, true, false, Option, none, some, String, lookup, maps_equal,
  maps_equal_iff, Result-cases, ok, err, arith, Bool-cases,
}
use karpenter_provider_exosc.CloudProvider.Verdict.{
  InSync, is_drifted-InSync, is_drifted-eq, check_instance-quiet, check_groups-quiet,
}

module _ (lo : Lo) (net : Net) (o : Options) where
  check_instance-repair :
      (w : Answers) (nc : ExoscaleNodeClass) (claim : NodeClaim) (i : Instance)
      (sks : Option String)
      → is_running i ≡ true
      → get_sks_default_security_group_id o w.sks_cluster ≡ ok sks
      → image_drifted lo net o nc claim ≡ false
      → ipv6_drifted lo net o nc i ≡ false
      → differ lo net o nc.status.anti_affinity_groups i.anti_affinity_groups ≡ false
      → differ lo net o
          (compute_expected_security_groups nc.status.security_groups sks)
          i.security_groups
        ≡ false
      → differ lo net o nc.status.private_networks i.private_networks ≡ false
      → differ lo net o nc.status.elastic_ips i.elastic_ips ≡ false
      → user_data_drifted lo net o nc claim ≡ false
      → check_instance lo net o w nc claim i ≡ repair_labels lo net o w claim i
  unfolding check_instance with_sks check_groups
  check_instance-repair w nc claim i sks running found a b c d e f g =
      rw (found, running, a, b, c, d, e, f, g, check_instance, with_sks, check_groups)

  -- The verdict for an instance without drift: no drift and no write where the labels are the
  -- generated ones, key by key, else a write of the generated ones, with no drift if the update of
  -- the tags succeeds, and its failure as the only error if not.
  abbrev pub IsRepair : Answers → NodeClaim → Instance → Verdict → Type 0
  IsRepair w claim i v =
      let labels = generate_instance_labels o claim in
      let Same = (k : String) → lookup k labels ≡ lookup k i.labels in
      (Same × (v.written ≡ none) × (v.reason ≡ ok none))
      ⊎ ((¬ Same)
          × (v.written ≡ some labels)
          × (((w.update_tags labels ≡ ok tt) × (v.reason ≡ ok none))
              ⊎ ((e : TagError) × (w.update_tags labels ≡ err e)
                  × (v.reason ≡ err update_labels_failed))))

  repair_labels-IsRepair :
      (w : Answers) (claim : NodeClaim) (i : Instance)
      → IsRepair w claim i (repair_labels lo net o w claim i)
  unfolding repair_labels write_answer
  repair_labels-IsRepair w claim i =
      let labels = generate_instance_labels o claim in
      elim (Bool-cases (maps_equal labels i.labels)) [
        | inl same ↦ rw same (inl ((maps_equal_iff _ i.labels).0 same, refl, refl))
        | inr other ↦
            let differs : ¬ ((k : String) → lookup k labels ≡ lookup k i.labels) =
              λ h. let k = (maps_equal_iff labels i.labels).1 h in ground arith in
            rw other (elim (Result-cases (w.update_tags labels)) [
              | inl (_, e) ↦ rw (e, write_answer) (inr (differs, refl, inl (refl, refl)))
              | inr (f, e) ↦ rw (e, write_answer) (inr (differs, refl, inr (f, refl, refl)))
            ])
      ]

  -- For a running instance that is in sync, where every lookup succeeds, the drift check finds no
  -- drift: if the instance's labels are the generated ones, key by key, it writes nothing and
  -- succeeds; if some key differs, it writes the generated ones, and succeeds exactly if this update
  -- does.
  pub is_drifted_repairs :
      (w : Answers) (claim : NodeClaim) (ref : NodeClassRef) (nc : ExoscaleNodeClass) (id : String)
      (i : Instance) (sks : Option String)
      → claim.node_class_ref ≡ some ref
      → w.node_class ref.name ≡ ok nc
      → parse_provider_id claim.provider_id ≡ ok id
      → w.instance id ≡ ok i
      → is_running i ≡ true
      → get_sks_default_security_group_id o w.sks_cluster ≡ ok sks
      → InSync net nc claim i sks
      → IsRepair w claim i (is_drifted lo net o w claim)
  is_drifted_repairs w claim ref nc id i sks r c p g running found sync =
      rw (is_drifted-eq lo net o w claim ref nc id i r c p g ∙ repaired)
        (repair_labels-IsRepair w claim i)
    where
      repaired : check_instance lo net o w nc claim i ≡ repair_labels lo net o w claim i
      repaired =
          let quiet =
            rw (is_drifted-eq lo net o w claim ref nc id i r c p g) at
              ((is_drifted-InSync lo net o w claim ref nc id i sks r c p g running found).1 sync) in
          let (a, b, d, e) =
            (check_instance-quiet lo net o w nc claim i sks running found).0 quiet in
          let (f, h, k, l) = (check_groups-quiet lo net o w nc claim i sks).0 e in
          check_instance-repair w nc claim i sks running found a b d f h k l
