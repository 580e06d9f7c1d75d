-- ===== src/Tests.antt =====
-- Tests and instances of the theorems at concrete inputs.
pub mod ProviderId
pub mod Instance
pub mod InstanceProvider
pub mod CloudProvider
pub mod GarbageCollection
pub mod BootstrapToken
pub mod InstanceType
pub mod Cache
pub mod Lifecycle
pub mod Creation
pub mod Hash
pub mod UserData
pub mod NodeClass
pub mod Launch
pub mod Environment
