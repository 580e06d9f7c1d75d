-- ===== src/InstanceProvider.antt =====
-- pkg/providers/instance/provider.go: the provider that creates, lists, labels and deletes compute
-- instances through the Exoscale API. The API's answers are parameters.
pub mod Labels
pub mod Groups
pub mod Cheapest
pub mod Attach
pub mod Listing
pub mod Creation
pub mod Attached
pub mod Environment
unfoldable pub use Labels.{
  generate_instance_labels, merge_tags, update_tags, sks_default_sg_id_from_cluster,
  get_sks_default_security_group_id, requested_security_groups,
}
pub use Labels.{Options, TagError, lookup-merge_tags, merge_tags_keeps_extra}
