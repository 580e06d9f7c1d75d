-- ===== src/BootstrapToken.antt =====
-- pkg/controllers/bootstraptoken/controller.go: the controller that deletes bootstrap tokens once
-- they have expired or their node has registered; and pkg/utils/bootstrap.go, which makes them.
pub mod Defs
pub mod Loop
pub mod Expiry
pub mod Cleanup
pub mod Build
