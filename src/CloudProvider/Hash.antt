-- ===== src/CloudProvider/Hash.antt =====
-- `patchNodeClaimAnnotations` of the instance provider, against the hash that the drift check reads.
use karpenter_provider_exosc.Constants.{annotation_configuration_hash}
use karpenter_provider_exosc.Kube.{ApiError, NodeClaim}
use karpenter_provider_exosc.Lo.{Lo}
use karpenter_provider_exosc.NodeClass.{ExoscaleNodeClass}
use karpenter_provider_exosc.InstanceProvider.{Options}
use karpenter_provider_exosc.ProviderId.{Net}
use karpenter_provider_exosc.CloudProvider.Drift.{user_data_drifted}
use karpenter_provider_exosc.Prelude.{
  ◌≡◌, ◌≢◌, refl, ap, ◌∙◌, not, Bool, false, Option, none, some, String, lookup, insert,
  lookup-insert, Result, ok, err, arith, if◌then◌else◌, ◌==◌, eq_iff, Bool-cases, inl, inr,
}

pub data PatchError : Type 0 where
  get_claim_failed patch_claim_failed : PatchError

abbrev value_or_empty : Option String → String
value_or_empty none = ""
value_or_empty (some v) = v

abbrev pub with_hash : String → NodeClaim → NodeClaim
with_hash hash stored = record stored {
  annotations = insert annotation_configuration_hash hash stored.annotations;
}

-- The stored NodeClaim after the call; the last argument tells whether a patch is applied.
unfoldable pub patch_stored : String → NodeClaim → Bool → NodeClaim × Result PatchError (Unit {0})
patch_stored hash stored applied =
    if value_or_empty (lookup annotation_configuration_hash stored.annotations) == hash
    then (stored, ok tt)
    else if applied
    then (with_hash hash stored, ok tt)
    else (stored, err patch_claim_failed)

abbrev pub patch_found :
    String → Result ApiError NodeClaim → Bool → Option NodeClaim × Result PatchError (Unit {0})
patch_found hash (err e) applied = (none, err get_claim_failed)
patch_found hash (ok stored) applied = let r = patch_stored hash stored applied in (some r.0, r.1)

-- The whole call, for a provider that has a Kubernetes client; the NodeClaim is `none` where it was
-- not read.
unfoldable pub patch_node_claim_annotations :
    ExoscaleNodeClass
    → Result ApiError NodeClaim
    → Bool
    → Option NodeClaim × Result PatchError (Unit {0})
patch_node_claim_annotations nc get applied =
    if nc.status.configuration_hash == ""
    then (none, ok tt)
    else patch_found nc.status.configuration_hash get applied

module _ (lo : Lo) (net : Net) (o : Options) where
  -- If the hash of the NodeClass is not empty, the NodeClaim can be read and the call succeeds, the
  -- drift check finds no change of the configuration in the NodeClaim that is then stored, whether
  -- it was patched or carried the hash before.
  pub patch_node_claim_annotations_lem :
      (nc : ExoscaleNodeClass) (stored : NodeClaim) (applied : Bool)
      → nc.status.configuration_hash ≢ ""
      → (patch_node_claim_annotations nc (ok stored) applied).1 ≡ ok tt
      → (after : NodeClaim) × ((patch_node_claim_annotations nc (ok stored) applied).0 ≡ some after)
        × (user_data_drifted lo net o nc after ≡ false)
  unfolding patch_node_claim_annotations patch_stored user_data_drifted
  patch_node_claim_annotations_lem nc stored applied hashed h =
      let e : (nc.status.configuration_hash == "") ≡ false =
        ground (arith, eq_iff nc.status.configuration_hash "") in
      elim (Bool-cases (
        value_or_empty (lookup annotation_configuration_hash stored.annotations)
        == nc.status.configuration_hash)) [
          | inl same ↦ rw (e, same) (stored, refl, ap not same)
          | inr unlike ↦ elim (Bool-cases applied) [
            | inl a ↦
                rw (e, unlike, a) (with_hash nc.status.configuration_hash stored, refl, patched)
            | inr a ↦ absurd (let h' = rw (e, unlike, a) at h in ground arith)
          ]
        ]
    where
      found :
          lookup annotation_configuration_hash
            (insert annotation_configuration_hash nc.status.configuration_hash stored.annotations)
          ≡ some nc.status.configuration_hash
      found = ground (
        arith,
        lookup-insert annotation_configuration_hash annotation_configuration_hash
            nc.status.configuration_hash stored.annotations,
        eq_iff annotation_configuration_hash annotation_configuration_hash,
      )

      patched :
          user_data_drifted lo net o nc (with_hash nc.status.configuration_hash stored) ≡ false
      patched =
          ap (λ (v : Option String). not (value_or_empty v == nc.status.configuration_hash)) found
          ∙ ap not ((eq_iff nc.status.configuration_hash nc.status.configuration_hash).1 refl)
