-- ===== src/CloudProvider.antt =====
-- pkg/cloudprovider/cloudprovider.go: the methods that Karpenter calls.
pub mod Groups
pub mod Drift
pub mod Verdict
pub mod Repair
pub mod Hash
pub mod Drain
pub mod Eviction
pub mod Deletion
pub mod NodeIdentity
pub mod Launch
unfoldable pub use Groups.{compute_expected_security_groups}
pub use Groups.*
pub use Drift.*
