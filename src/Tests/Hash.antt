-- ===== src/Tests/Hash.antt =====
-- A NodeClaim without a hash.
use karpenter_provider_exosc.CloudProvider.Drift.{user_data_drifted}
use karpenter_provider_exosc.CloudProvider.Hash.{
  patch_node_claim_annotations, patch_node_claim_annotations_lem, patch_stored,
}
use karpenter_provider_exosc.Kube.{NodeClaim}
use karpenter_provider_exosc.Samples.{simple_lo, simple_net, options, node_claim, node_class}
use karpenter_provider_exosc.Prelude.{
  ◌≡◌, ◌≢◌, refl, true, false, some, String, [], ok, arith, eq_iff,
}

abbrev unmarked : NodeClaim
unmarked = record node_claim { annotations = [] }

abbrev hash : String
hash = node_class.status.configuration_hash

hashed : hash ≢ ""
hashed e = ground (arith, eq_iff hash "")

patched : (patch_node_claim_annotations node_class (ok unmarked) true).1 ≡ ok tt
unfolding patch_node_claim_annotations patch_stored
patched = refl

patch_node_claim_annotations_lem_example :
    (after : NodeClaim) × ((patch_node_claim_annotations node_class (ok unmarked) true).0
      ≡ some after)
    × (user_data_drifted simple_lo simple_net options node_class after ≡ false)
patch_node_claim_annotations_lem_example =
    patch_node_claim_annotations_lem simple_lo simple_net options node_class unmarked true hashed
      patched
