-- ===== src/Instance.antt =====
-- pkg/providers/instance/instance.go and pkg/providers/template/template.go: the provider's view of
-- a compute instance, made from the answer of the Exoscale API, and the NodeClaim made from it.
pub mod Defs
pub mod Convert
unfoldable pub use Defs.{from_exoscale_instance, is_running, to_node_claim, from_exoscale_template}
pub use Defs.*
