-- ===== src/Tests.antt =====
-- Concrete buffers of base.hpp, runs of the methods on them, and the theorems at these inputs.
mod Buffers
mod Methods
mod Views
mod Registries
mod Capacities
mod Storage
mod Adaptors
mod Ranges
