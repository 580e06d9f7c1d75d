-- ===== src/InstanceType.antt =====
-- pkg/providers/instancetype/provider.go: the index of instance types by name and by ID, what
-- Karpenter is told of each, and their prices.
pub mod Defs
pub mod Index
pub mod Prices
