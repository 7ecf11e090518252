-- ===== src/Metrics.antt =====
-- kettlingar/metrics.go: the registry of metrics (Registry), the keys of their series (Labels),
-- histograms (Histogram), the text that is served (Render) and who gets it (Access).
pub mod Labels
pub mod Registry
pub mod Histogram
pub mod Render
pub mod Access
