-- ===== src/Gpu.antt =====
-- internal/gpu: one child for each file of the package.
pub mod Identity
pub mod Occupancy
pub mod Faults
pub mod Labels
pub mod Resources
pub mod WholeSlice
pub mod MigSlices
