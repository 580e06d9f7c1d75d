-- ===== src/Tests/Lifecycle.antt =====
-- The deletion of a claim whose node runs one pod, and the Node of a new instance.
use karpenter_provider_exosc.CloudProvider.Drain.{
  Pod, Cluster, evicted, drained, Action, cordon_node, evict_pod, delete_instance, drain_node,
  drain_loop, drain_rounds, round, evict_pods, is_daemon_set, eviction_pause,
}
use karpenter_provider_exosc.CloudProvider.Eviction.{Explains, drain_loop_lem, drain_node_ends}
use karpenter_provider_exosc.CloudProvider.Deletion.{delete_claim, node_claim_not_found}
use karpenter_provider_exosc.CloudProvider.NodeIdentity.{
  Server, KubeNode, IsResolvable, create_node, create_node_lem, placeholder, registered,
  kubelet_registration_requeue, ensure_node_identity, ensure_identity, ensure_status,
}
use karpenter_provider_exosc.Instance.{Instance, from_exoscale_instance}
use karpenter_provider_exosc.InstanceProvider.Listing.{operation, delete}
use karpenter_provider_exosc.Kube.{already_exists}
use karpenter_provider_exosc.ProviderId.{
  parse_provider_id, check_id, match_uuid, match_all, take_group, take_hex,
}
use karpenter_provider_exosc.Samples.{options, node_claim, exo_instance}
use karpenter_provider_exosc.Prelude.{
  ℕ, zero, suc, ◌*◌, ◌≡◌, ◌≢◌, refl, true, false, Option, none, some, String, List, [], ◌∷◌, ok,
  err, eq_iff, arith,
}

abbrev pod : Pod
pod = record {
  name = "web";
  namespace = "default";
  owner_kinds = "ReplicaSet" ∷ [];
  deletion_timestamp = none;
}

abbrev agent : Pod
agent = record pod { name = "agent"; owner_kinds = "DaemonSet" ∷ [] }

abbrev pods_at : ℕ → Option (List Pod)
pods_at zero = some (pod ∷ agent ∷ [])
pods_at (suc n) = some (agent ∷ [])

abbrev cluster : Cluster
cluster = record {
  get_node = ok false;
  cordon = ok tt;
  elapsed = λ k. k * eviction_pause;
  pods = pods_at;
  evict = λ k p. evicted;
}

program : Unit {0}
unfolding take_hex take_group match_all match_uuid check_id parse_provider_id delete is_daemon_set
    evict_pods round drain_loop drain_node delete_claim from_exoscale_instance placeholder
    ensure_status ensure_identity ensure_node_identity create_node
program = tt

abbrev one_pod : List Pod
one_pod = pod ∷ []

drained_run : drain_loop cluster drain_rounds 0 ≡ some (one_pod, drained)
unfolding program
drained_run = refl

drain_loop_lem_example : Explains cluster one_pod drained
drain_loop_lem_example = drain_loop_lem cluster drain_rounds 0 one_pod drained drained_run

drain_node_ends_example : drain_node cluster ≢ none
drain_node_ends_example = drain_node_ends cluster (λ k. omega arith)

abbrev asked : List Action
asked = cordon_node ∷ evict_pod pod ∷ delete_instance exo_instance.id ∷ []

delete_run :
    delete_claim cluster (λ id. operation true) node_claim ≡ some (asked, node_claim_not_found)
unfolding program
delete_run = refl

abbrev orphan : Instance
orphan = record {
  id = exo_instance.id;
  name = "claim-1";
  state = "running";
  instance_type = exo_instance.instance_type;
  instance_type_name = "standard.small";
  template = record { id = "tpl"; labels = [] };
  zone = "ch-gva-2";
  disk_size = 50;
  labels = [];
  security_groups = [];
  private_networks = [];
  elastic_ips = [];
  anti_affinity_groups = [];
  capacity = [];
  addresses = [];
  created_at = 1;
}

abbrev bare : KubeNode
bare = record {
  name = "claim-1";
  annotations = [];
  provider_id = "";
  taints = [];
  capacity = [];
  allocatable = [];
  phase = "";
  conditions = [];
  system_uuid = "";
  addresses = [];
  kubelet_version = "v1.33.0";
}

abbrev server : Server
server = record { create = err already_exists; get = ok bare; patch = true; patch_status = true }

abbrev claim_id : String
claim_id = node_claim.provider_id

abbrev instance_id : String
instance_id = exo_instance.id

claimed : claim_id ≢ ""
claimed e = ground (arith, eq_iff claim_id "")

identified : instance_id ≢ ""
identified e = ground (arith, eq_iff instance_id "")

succeeded : (create_node server options node_claim orphan).1 ≡ ok tt
unfolding program
succeeded = refl

create_node_lem_example :
    (node : KubeNode) × ((create_node server options node_claim orphan).0 ≡ some node)
    × IsResolvable node
    × (registered (ok (some (placeholder options node_claim orphan)))
        ≡ ok (some kubelet_registration_requeue))
create_node_lem_example =
    create_node_lem server options node_claim orphan claimed identified succeeded
