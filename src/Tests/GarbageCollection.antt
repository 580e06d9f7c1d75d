-- ===== src/Tests/GarbageCollection.antt =====
-- A pass over one orphan, one instance in use and one stuck NodeClaim.
use karpenter_provider_exosc.Kube.{NodeClaim}
use karpenter_provider_exosc.Instance.{Instance}
use karpenter_provider_exosc.ProviderId.{
  take_hex, take_group, match_all, match_uuid, check_id, parse_provider_id,
}
use karpenter_provider_exosc.Prelude.{
  ℕ, ◌+◌, ◌*◌, ◌≡◌, ◌≢◌, ◌↔◌, inl, inr, refl, some, none, String, [], ◌∷◌, In, ok, arith, minute,
  eq_iff, time_sub,
}
use karpenter_provider_exosc.GarbageCollection.Defs.{
  World, delete_instance, patch_finalizers, done, reconcile, reconcile_with, finish,
  sweep_instances, sweep_stuck, has_matching_node_claim, is_orphan_instance_reapable,
  node_claim_provider_ids, id_of, is_stuck, stuck_id, termination_finalizer_name,
  without_termination,
}
use karpenter_provider_exosc.GarbageCollection.Orphans.{
  IsOrphan, IsPastGrace, reconcile_deletes_only_orphans, reconcile_deletes_all_orphans,
}
use karpenter_provider_exosc.GarbageCollection.Stuck.{
  IsStuck, reconcile_patches_only-IsStuck, reconcile_patches_all-IsStuck,
}

program : Unit {0}
unfolding take_hex take_group match_all match_uuid check_id parse_provider_id time_sub id_of
    node_claim_provider_ids has_matching_node_claim is_orphan_instance_reapable sweep_instances
    stuck_id is_stuck sweep_stuck finish reconcile_with reconcile
program = tt

abbrev id_a : String
id_a = "00000000-0000-0000-0000-00000000000a"

abbrev id_b : String
id_b = "00000000-0000-0000-0000-00000000000b"

abbrev orphan : Instance
orphan = record {
  id = id_a;
  name = "orphan";
  state = "running";
  instance_type = record {
    id = "t";
    family = "standard";
    size = "small";
    cpus = 2;
    memory = 4;
    gpus = 0;
  };
  instance_type_name = "standard.small";
  template = record { id = "tpl"; labels = [] };
  zone = "ch-gva-2";
  disk_size = 50;
  labels = [];
  security_groups = [];
  private_networks = [];
  elastic_ips = [];
  anti_affinity_groups = [];
  capacity = [];
  addresses = [];
  created_at = 1;
}

abbrev stuck : NodeClaim
stuck = record {
  name = "stuck";
  labels = [];
  annotations = [];
  finalizers = "other" ∷ termination_finalizer_name ∷ [];
  creation_timestamp = 1;
  deletion_timestamp = some 2;
  node_class_ref = none;
  taints = [];
  provider_id = "exoscale://00000000-0000-0000-0000-00000000000b";
  image_id = "";
  node_name = "";
  capacity = [];
  allocatable = [];
}

abbrev world : World
world = record {
  cloud_instances = some (orphan ∷ []);
  node_claims = some (stuck ∷ []);
  clock = λ n. 20 * minute + n;
  delete = λ n id. done;
}

world-run :
    reconcile world ≡ (delete_instance id_a ∷ patch_finalizers stuck ("other" ∷ []) ∷ [], ok tt)
unfolding program
world-run = refl

other_provider_id : parse_provider_id stuck.provider_id ≡ ok id_b
unfolding program
other_provider_id = refl

other_id : (nc : NodeClaim) → In nc (stuck ∷ []) → parse_provider_id nc.provider_id ≢ ok id_a
other_id nc (inl same) e =
    let e' = rw same at e in ground (arith, other_provider_id, eq_iff id_b id_a)
other_id nc (inr h) e = absurd h

other_instance : (inst : Instance) → In inst (orphan ∷ []) → inst.id ≢ id_b
other_instance inst (inl same) e = let e' = rw same at e in ground (arith, eq_iff id_b id_a)
other_instance inst (inr h) e = absurd h

orphan-IsOrphan : IsOrphan (stuck ∷ []) orphan
orphan-IsOrphan = record { no_provider_id = other_id; no_name = λ nc at ne h. cc }

stuck-IsStuck : (m : ℕ) → IsStuck (orphan ∷ []) (world.clock m) stuck
stuck-IsStuck m = record {
  deleted_at = 2;
  id = id_b;
  deleting = refl;
  known = omega arith;
  finalizer = inr (inl refl);
  parsed = other_provider_id;
  no_instance = other_instance;
  overdue = omega arith;
}

reconcile_deletes_only_orphans_example :
    (inst : Instance) × (m : ℕ) × In inst (orphan ∷ [])
    × (inst.id ≡ id_a)
    × IsOrphan (stuck ∷ []) inst
    × IsPastGrace inst (world.clock m)
unfolding program
reconcile_deletes_only_orphans_example =
    reconcile_deletes_only_orphans world (orphan ∷ []) (stuck ∷ []) refl refl id_a (inl refl)

reconcile_deletes_all_orphans_example : In (delete_instance id_a) (reconcile world).0
unfolding program
reconcile_deletes_all_orphans_example =
    reconcile_deletes_all_orphans world (orphan ∷ []) (stuck ∷ []) refl refl refl orphan (inl refl)
      orphan-IsOrphan (λ m. omega arith)

reconcile_patches_only-IsStuck_example :
    In stuck (stuck ∷ [])
    × ((m : ℕ) × IsStuck (orphan ∷ []) (world.clock m) stuck)
    × ((f : String)
        → In f ("other" ∷ []) ↔ (In f stuck.finalizers × (f ≢ termination_finalizer_name)))
unfolding program
reconcile_patches_only-IsStuck_example =
    reconcile_patches_only-IsStuck world (orphan ∷ []) (stuck ∷ []) refl refl stuck ("other" ∷ [])
      (inr (inl refl))

reconcile_patches_all-IsStuck_example :
    In (patch_finalizers stuck (without_termination stuck.finalizers)) (reconcile world).0
unfolding program
reconcile_patches_all-IsStuck_example =
    reconcile_patches_all-IsStuck world (orphan ∷ []) (stuck ∷ []) refl refl refl stuck (inl refl)
      stuck-IsStuck
