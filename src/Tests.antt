-- ===== src/Tests.antt =====
-- The theorems at concrete objects, and the concrete objects.
pub mod Samples
pub mod OfMig
pub mod OfGpu
pub mod OfController
pub mod OfMetrics
pub mod OfCli
pub mod OfApply
pub mod OfStatus
pub mod OfCapture
