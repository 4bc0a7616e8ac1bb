-- ===== src/Metrics.antt =====
-- internal/metrics: one child for each part of series.go, collector.go and exporter.go.
pub mod Readings
pub mod Devices
pub mod Cards
pub mod Series
pub mod Claims
pub mod Exporter
