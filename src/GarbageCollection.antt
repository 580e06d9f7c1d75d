-- ===== src/GarbageCollection.antt =====
-- pkg/controllers/garbagecollection/controller.go: a pass of the garbage collector over the cloud
-- instances and the NodeClaims. The pass is a function of what the APIs and the clock answer; its
-- result is the list of calls that change something, in order, and how it ended.
pub mod Defs
pub mod Orphans
pub mod Stuck
unfoldable pub use Defs.{
  has_matching_node_claim, is_orphan_instance_reapable, node_claim_provider_ids, node_claim_names,
  sweep_instances, sweep_stuck, reconcile, is_stuck,
}
pub use Defs.*
