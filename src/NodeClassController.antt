-- ===== src/NodeClassController.antt =====
-- pkg/controllers/nodeclass: the controller of the ExoscaleNodeClass resource.
pub mod Watch
pub mod Events
pub mod Selectors
pub mod Resolution
pub mod Steps
pub mod Conditions
pub mod Values
pub mod Panics
pub mod Readiness
pub mod Masking
pub mod Deletion
pub mod Orphaned
pub mod Release
pub mod Reconcile
pub mod Guards
pub mod Ends
pub mod Hash
pub mod Fingerprint
pub mod Mirrors
