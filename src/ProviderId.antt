-- ===== src/ProviderId.antt =====
-- pkg/utils/provider.go: a node's provider ID is `exoscale://` and the UUID of its instance.
pub mod Uuid
pub mod Parse
pub mod Address
unfoldable pub use Uuid.{take_hex, take_group, match_all, match_uuid}
pub use Uuid.*
pub use Parse.*
unfoldable pub use Parse.{check_id, parse_provider_id}
unfoldable pub use Address.{is_ipv6, contains_ipv6_address}
pub use Address.*
