-- ===== src/Tests/Launch.antt =====
-- The launch of an instance at concrete inputs.
use karpenter_provider_exosc.CloudProvider.Launch.{
  Launcher, Launchable, Launched, make_instance, create_claim, create_claim_lem,
}
use karpenter_provider_exosc.CloudProvider.NodeIdentity.{Server}
use karpenter_provider_exosc.Instance.{Instance}
use karpenter_provider_exosc.Kube.{NodeClaim, not_found}
use karpenter_provider_exosc.NodeClass.{ExoscaleNodeClass, Condition, is_true}
use karpenter_provider_exosc.Prelude.{◌≡◌, true, String, some, [], In, ok, err}
use karpenter_provider_exosc.Samples.{simple_lo, options, node_claim, node_class, exo_instance}

abbrev launched : Instance
launched = record {
  id = exo_instance.id;
  name = "claim-1";
  state = "running";
  instance_type = exo_instance.instance_type;
  instance_type_name = "standard.small";
  template = record { id = "tpl"; labels = [] };
  zone = "ch-gva-2";
  disk_size = 50;
  labels = [];
  security_groups = [];
  private_networks = [];
  elastic_ips = [];
  anti_affinity_groups = [];
  capacity = [];
  addresses = [];
  created_at = 1;
}

abbrev ready : Condition
ready = record { status = is_true; reason = "Ready"; message = "" }

abbrev node_server : Server
node_server = record { create = ok tt; get = err not_found; patch = true; patch_status = true }

abbrev launcher : Launcher
launcher = record {
  node_class = λ name. ok node_class;
  ready = λ nc. some ready;
  token = ok "abcdef.0123456789abcdef";
  instance_for = λ nc token. ok launched;
  nodes = node_server;
}

create_claim_lem_example :
    ((nc : ExoscaleNodeClass) (token : String)
      → In (make_instance nc token) (create_claim simple_lo options launcher node_claim).0
      → Launchable simple_lo options launcher node_claim nc × (launcher.token ≡ ok token))
    × ((c : NodeClaim)
        → (create_claim simple_lo options launcher node_claim).1 ≡ ok c
        → (nc : ExoscaleNodeClass) × (token : String) × (i : Instance) × Launched simple_lo options
            launcher node_claim nc token i c)
create_claim_lem_example = create_claim_lem simple_lo options launcher node_claim
