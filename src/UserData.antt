-- ===== src/UserData.antt =====
-- pkg/providers/userdata: what a new node reads at boot.
pub mod Registry
pub mod Merge
pub mod Documents
pub mod Bootstrap
pub mod Generate
pub mod Taints
pub mod Boot
pub mod Endpoints
